-- ===== src/Kv/Iterator.antt =====
-- lib/kv/jkv-iterator.c, with servers. The iterator holds the replies from the current one on; the
-- replies before it are not read again.
pub mod Drain
pub mod Servers
pub mod Tests
use julea.Common.{
  ℕ, zero, suc, ◌+◌, ltb, Bool, true, false, Option, none, some, List, [], ◌∷◌, ◌++◌, length,
  if◌then◌else◌, ◌>>=◌,
}
use julea.Message.{Message, append_n, get_4, get_n, get_string}
use julea.Message.Iteration.{Iterator}
use julea.Message.Iteration
use julea.Message

-- The pair that `j_kv_iterator_get` returns: the key, and the value (NULL is `none`).
pub record Item : Type 0 where
  pub key : List ℕ
  pub value : Option (List ℕ)

module _ (memory : ℕ → ℕ) (random : ℕ) where
  -- The request of `fetch_reply`.
  unfoldable pub fetch_request : (namespace : List ℕ) → (prefix : Option (List ℕ)) → Message
  unfolding Message.new append_n
  fetch_request namespace none =
      (append_n (Message.new memory random 14 (length namespace + 1)) (namespace ++ 0 ∷ [])).0
  fetch_request namespace (some prefix) =
      let m = Message.new memory random 15 (length namespace + 1 + (length prefix + 1)) in
      (append_n (append_n m (namespace ++ 0 ∷ [])).0 (prefix ++ 0 ∷ [])).0

-- The next pair of a reply, if it has one left. `none` is a read behind the message.
unfoldable pub read_item : Message → Option (Message × Option Item)
unfolding get_4 get_n get_string
read_item r =
    let (r1, len) = get_4 r in
    let (r2, value) = get_n r1 len in
    if ltb 0 len
    then (get_string r2 >>= λ (r3, key). some (r3, some (record { key = key; value = value })))
    else some (r1, none)

unfoldable pub next : Iterator → Option (Iterator × Option Item)
next = Iteration.next read_item
