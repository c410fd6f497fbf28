-- ===== src/Kv/Stored/Tests.antt =====
-- A store in memory, and a session with it.
use julea.Common.{
  ℕ, ◌≡◌, refl, true, ◌&&◌, Option, none, some, List, [], ◌∷◌, map, arith, if◌then◌else◌, ◌==◌,
  ◌>>=◌,
}
use julea.Semantics.Parse.{same}
use julea.Message.{Message, append_n, can_append, appended, add_operation, new_reply, le_bytes}
use julea.Message.Operations.{operation}
use julea.Message.Reserve.{total}
use julea.KvBackend.{KvBackend}
use julea.Server.Kv.{handle_get}
use julea.Kv.{got_of, read_values}
use julea.Kv.Tests.{
  blank, tens, tens-pos, semantics, arrived, arrived-Arrived, kv, other, put_message,
  delete_message, get_message, put_fits, key_fits, put-Sendable, key-Sendable,
}
use julea.Kv.Stored.{Stored, IsStore, Change, puts, deletes}
use julea.Kv.Stored.Served.{serve_all, get_answer, read_values-change_all}

-- The state is what is stored in each namespace; a batch is its namespace.
abbrev map_backend : KvBackend
map_backend = record {
  State = List ℕ → Stored;
  Batch = List ℕ;
  batch_start = λ s namespace sem. (s, namespace, true);
  put = λ s batch key value.
      ((λ ns k. if same ns batch && same key k then some value else s ns k), true);
  delete = λ s batch key. ((λ ns k. if same ns batch && same key k then none else s ns k), true);
  get = λ s batch key. (s, s batch key);
  batch_execute = λ s batch. (s, true);
  get_all = λ s namespace. [];
  get_by_prefix = λ s namespace prefix. [];
}

same_self : (xs : List ℕ) → same xs xs ≡ true
unfolding same
same_self [] = refl
same_self (x ∷ xs) = let e : (x == x) ≡ true = ground arith in rw (e, same_self xs) refl

map_backend-IsStore : IsStore map_backend
map_backend-IsStore = record {
  stored = λ s ns. s ns;
  namespace_of = λ batch. batch;
  pending = λ s batch. s batch;
  seen = λ s batch. s batch;
  start-namespace = λ s ns sem. refl;
  start-pending = λ s ns sem. refl;
  start-seen = λ s ns sem. refl;
  put-pending = λ s batch key value k. rw (same_self batch) refl;
  delete-pending = λ s batch key k. rw (same_self batch) refl;
  get-value = λ s batch key. refl;
  get-seen = λ s batch key. refl;
  execute-stored = λ s batch. refl;
}

-- Both keys are put, deleted and put again.
abbrev put_both : Change
put_both = puts (kv, 1 ∷ 2 ∷ []) ((other, 3 ∷ []) ∷ [])

abbrev changes : List Change
changes = put_both ∷ deletes kv (other ∷ []) ∷ put_both ∷ []

abbrev requests : List Message
requests = arrived put_message ∷ arrived delete_message ∷ arrived put_message ∷ []

abbrev nothing : List ℕ → Stored
nothing ns key = none

abbrev found_values : List (Option (List ℕ))
found_values = some (1 ∷ 2 ∷ []) ∷ some (3 ∷ []) ∷ []

abbrev answer : Message
answer =
    get_answer blank 7 tens map_backend map_backend-IsStore tens-pos semantics (110 ∷ [])
      (arrived get_message) found_values

read_values-change_all_example :
    ((serve_all blank 7 tens map_backend map_backend-IsStore tens-pos semantics
          (110 ∷ [])
          changes
          requests
          nothing
        >>= λ st'. handle_get blank tens map_backend (arrived get_message) st' >>= λ (st'', reply).
            some reply)
      ≡ some answer)
    × (read_values (kv ∷ other ∷ []) (arrived answer) true ≡ (map got_of found_values, true))
unfolding same new_reply total le_bytes operation append_n can_append add_operation appended
read_values-change_all_example =
    read_values-change_all blank 7 tens map_backend map_backend-IsStore tens-pos semantics
      (110 ∷ []) changes requests nothing kv (other ∷ []) (arrived get_message) (arrived answer)
      (
        (refl, put-Sendable, put_fits, arrived-Arrived put_message),
        (
          (refl, key-Sendable 12, key_fits, arrived-Arrived delete_message),
          ((refl, put-Sendable, put_fits, arrived-Arrived put_message), tt),
        ),
      )
      (refl, key-Sendable 13, key_fits, arrived-Arrived get_message)
      (
        ((omega arith, omega arith), ((omega arith, omega arith), tt)),
        (omega arith, (omega arith, tt)),
        omega arith,
        arrived-Arrived answer,
      )
