-- ===== src/Kv/Iterator/Tests.antt =====
-- Iterating over two servers.
use julea.Common.{◌++◌, ℕ, ◌≡◌, refl, none, some, List, [], ◌∷◌, map, arith}
use julea.Common.Slices.{slice, copy_to}
use julea.Message.{
  Message, new, append_n, can_append, appended, add_operation, extend, get_count, le_bytes,
  new_reply,
}
use julea.Message.Reserve.{total}
use julea.Message.Operations.{operation, append_each}
use julea.Message.Bytes.{Holds, get_string-Holds}
use julea.Server.KvIteration.{answer_items, handle_get_all}
use julea.Message.Iteration.{Iterator, collect}
use julea.Kv.Iterator.{fetch_request, read_item}
use julea.Kv.Iterator.Drain.{item}
use julea.Kv.Iterator.Servers.{Answered, collect-handle_get_all}
use julea.Kv.Tests.{blank, tens, tens-pos, arrived, arrived-Arrived, in_memory}

-- Two servers, the first with two pairs, the second with one.
abbrev first : List (List ℕ × List ℕ)
first = (107 ∷ [], 5 ∷ 6 ∷ []) ∷ (108 ∷ [], 7 ∷ []) ∷ []

abbrev second : List (List ℕ × List ℕ)
second = (109 ∷ [], 8 ∷ []) ∷ []

abbrev asking : Message
asking = arrived (fetch_request blank 7 (110 ∷ []) none)

abbrev answering : List (List ℕ × List ℕ) → Message
answering items = answer_items tens (new_reply blank asking) items

asking-Holds : Holds asking (110 ∷ 0 ∷ [])
unfolding fetch_request new append_n can_append appended copy_to slice
asking-Holds = record { bytes = refl; inside = omega arith; within = omega arith }

answering-Answered :
    (items : List (List ℕ × List ℕ))
    → Answered blank tens in_memory tens-pos (110 ∷ []) asking items (arrived (answering items))
unfolding handle_get_all
answering-Answered items = (
  asking-Holds,
  (
    answering items,
    rw (get_string-Holds asking (110 ∷ []) ((λ e. absurd (omega arith)), tt) asking-Holds) refl,
    arrived-Arrived (answering items),
  ),
)

collect-handle_get_all_example :
    (it' : Iterator) × (collect read_item 4
        (record { current = arrived (answering first); others = arrived (answering second) ∷ [] })
      ≡ some (it', map item (first ++ second)))
unfolding new_reply append_n can_append appended operation add_operation extend get_count
    append_each total le_bytes
collect-handle_get_all_example =
    collect-handle_get_all blank tens in_memory tens-pos (110 ∷ [])
      ((λ e. absurd (omega arith)), tt) asking (asking ∷ []) first (second ∷ [])
      (arrived (answering first)) (arrived (answering second) ∷ [])
      (
        (
          answering-Answered first,
          (
            (
              (((λ e. absurd (omega arith)), tt), omega arith, omega arith),
              ((((λ e. absurd (omega arith)), tt), omega arith, omega arith), tt),
            ),
            (omega arith, (omega arith, (omega arith, tt))),
            omega arith,
          ),
        ),
        (
          (
            answering-Answered second,
            (
              (((((λ e. absurd (omega arith)), tt)), omega arith, omega arith), tt),
              (omega arith, (omega arith, tt)),
              omega arith,
            ),
          ),
          tt,
        ),
      )
