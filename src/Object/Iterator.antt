-- ===== src/Object/Iterator.antt =====
-- lib/object/jobject-iterator.c, with servers. With a backend of the client's own the iterator
-- yields nothing, as the calls of the backend are commented out.
pub mod Servers
pub mod Tests
use julea.Common.{ℕ, zero, suc, ◌+◌, Option, none, some, List, [], ◌∷◌, ◌++◌, length, ◌>>=◌}
use julea.Message.{Message, append_n, get_string}
use julea.Message
use julea.Message.Iteration.{Iterator}
use julea.Message.Iteration

module _ (memory : ℕ → ℕ) (random : ℕ) where
  -- The request of `fetch_reply`.
  unfoldable pub fetch_names : (namespace : List ℕ) → (prefix : Option (List ℕ)) → Message
  unfolding Message.new append_n
  fetch_names namespace none =
      (append_n (Message.new memory random 5 (length namespace + 1)) (namespace ++ 0 ∷ [])).0
  fetch_names namespace (some prefix) =
      let m = Message.new memory random 6 (length namespace + 1 + (length prefix + 1)) in
      (append_n (append_n m (namespace ++ 0 ∷ [])).0 (prefix ++ 0 ∷ [])).0

-- A reply ends with an empty name.
abbrev name_left : List ℕ → Option (List ℕ)
name_left [] = none
name_left (c ∷ cs) = some (c ∷ cs)

-- The next name of a reply, if it has one left. `none` is a read behind the message.
unfoldable pub read_name : Message → Option (Message × Option (List ℕ))
unfolding get_string
read_name r = get_string r >>= λ (r', name). some (r', name_left name)

unfoldable pub next : Iterator → Option (Iterator × Option (List ℕ))
next = Iteration.next read_name
