-- ===== src/Object/Iterator/Tests.antt =====
-- Two servers that list the same two objects each.
use julea.Common.{ℕ, ◌≡◌, refl, none, some, List, [], ◌∷◌, arith}
use julea.Message.{
  Message, new, append_n, can_append, appended, add_operation, extend, get_count, new_reply,
}
use julea.Common.Slices.{slice, copy_to}
use julea.Message.Bytes.{Holds, get_string-Holds}
use julea.Message.Operations.{operation, append_each}
use julea.Message.Reserve.{total}
use julea.Message.Iteration.{Iterator, collect}
use julea.Kv.Tests.{blank, tens, tens-pos, arrived, arrived-Arrived}
use julea.Server.ObjectIteration.{answer_names, handle_list}
use julea.Object.Tests.{in_memory}
use julea.Object.Iterator.{fetch_names, read_name}
use julea.Object.Iterator.Servers.{Listed, collect-handle_list}

abbrev names : List (List ℕ)
names = (111 ∷ []) ∷ (112 ∷ 113 ∷ []) ∷ []

abbrev asking : Message
asking = arrived (fetch_names blank 7 (110 ∷ []) none)

abbrev answering : Message
answering = answer_names tens (new_reply blank asking) names

asking-Holds : Holds asking (110 ∷ 0 ∷ [])
unfolding fetch_names new append_n can_append appended copy_to slice
asking-Holds = record { bytes = refl; inside = omega arith; within = omega arith }

answering-Listed :
    (s : List ℕ) → Listed blank tens in_memory tens-pos (110 ∷ []) asking s (arrived answering)
unfolding handle_list new_reply append_n can_append appended operation add_operation extend
    get_count append_each total
answering-Listed s = (
  asking-Holds,
  (
    answering,
    rw (get_string-Holds asking (110 ∷ []) ((λ e. absurd (omega arith)), tt) asking-Holds) refl,
    arrived-Arrived answering,
  ),
  (
    (((λ e. absurd (omega arith)), tt), omega arith),
    ((((λ e. absurd (omega arith)), ((λ e. absurd (omega arith)), tt)), omega arith), tt),
  ),
  (omega arith, (omega arith, (omega arith, tt))),
  omega arith,
)

collect-handle_list_example :
    (it' : Iterator) × (collect read_name 5
        (record { current = arrived answering; others = arrived answering ∷ [] })
      ≡ some (it', (111 ∷ []) ∷ (112 ∷ 113 ∷ []) ∷ (111 ∷ []) ∷ (112 ∷ 113 ∷ []) ∷ []))
collect-handle_list_example =
    collect-handle_list blank tens in_memory tens-pos (110 ∷ []) ((λ e. absurd (omega arith)), tt)
      asking (asking ∷ []) [] ([] ∷ []) (arrived answering) (arrived answering ∷ [])
      (answering-Listed [], (answering-Listed [], tt))
