-- ===== src/List/Tests.antt =====
-- A list of three.
use julea.Common.{◌≡◌, none, some, List, [], ◌∷◌, arith}
use julea.List.{Heap, JList, new, visit, iterator_new, get_first, get_last, delete_all}
use julea.List.Actions.{Action, at_end, at_front, act_all, visit-act_all}

abbrev empty : Heap
empty = record { cells = λ p. none; fresh = 64 }

abbrev actions : List Action
actions = at_end 5 ∷ at_front 7 ∷ at_end 9 ∷ []

visit-act_all_example :
    (h' : Heap) × (l : JList) × (act_all actions (new 4096) empty ≡ some (h', l))
    × (visit 4 (iterator_new l) h' ≡ some (7 ∷ 5 ∷ 9 ∷ []))
    × (get_first l h' ≡ some 7)
    × (get_last l h' ≡ some 9)
    × (l.length ≡ 3)
    × ((h'' : Heap) × (delete_all 4 l h'
          ≡ some (h'', record l { head = 0; tail = 0; length = 0 }, 7 ∷ 5 ∷ 9 ∷ [])))
visit-act_all_example =
    visit-act_all actions empty 4 4096 (omega arith)
      (
        (λ e. absurd (omega arith)),
        ((λ e. absurd (omega arith)), ((λ e. absurd (omega arith)), tt)),
      )
      (omega arith)
