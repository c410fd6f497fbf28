-- ===== src/List/Actions.antt =====
-- Programs that build a list.
use mathlib.Core.List.{map-append}
use julea.Common.{
  ℕ, ◌<◌, ◌≡◌, ◌≢◌, refl, sym, ap, ap₂, ◌∙◌, Option, some, List, [], ◌∷◌, ◌++◌, length, u32, arith,
  ◌>>=◌, length-map,
}
use julea.List.{
  delete_all, Heap, JList, new, append, prepend, get_first, get_last, iterator_new, visit,
}
use julea.List.Chain.{Cell}
use julea.List.Delete.{delete_all-IsList, freed_of}
use julea.List.Laws.{
  IsList, data_in, new-IsList, append-IsList, prepend-IsList, visit-IsList, first_of, last_of,
  get_first-IsList, get_last-IsList,
}

-- What a program does with a list.
pub data Action : Type 0 where
  at_end at_front : ℕ → Action

abbrev pub act : Action → JList → Heap → Option (Heap × JList)
act (at_end x) l h = append l x h
act (at_front x) l h = some (prepend l x h)

abbrev pub act_all : List Action → JList → Heap → Option (Heap × JList)
act_all [] l h = some (h, l)
act_all (a ∷ as') l h = act a l h >>= λ (h', l'). act_all as' l' h'

abbrev pub contents_of : List Action → List ℕ → List ℕ
contents_of [] xs = xs
contents_of (at_end x ∷ as') xs = contents_of as' (xs ++ x ∷ [])
contents_of (at_front x ∷ as') xs = contents_of as' (x ∷ xs)

-- No data is NULL.
abbrev pub Given : List Action → Type 0
Given [] = Unit
Given (at_end x ∷ as') = (x ≢ 0) × Given as'
Given (at_front x ∷ as') = (x ≢ 0) × Given as'

act_all-IsList :
    (as' : List Action) (h : Heap) (l : JList) (cs : List Cell)
    → IsList h l cs
    → Given as'
    → (h' : Heap) × (l' : JList) × (cs' : List Cell) × (act_all as' l h ≡ some (h', l'))
      × IsList h' l' cs'
      × (data_in cs' ≡ contents_of as' (data_in cs))
      × (l'.free_func ≡ l.free_func)
act_all-IsList [] h l cs v given = (h, l, cs, refl, v, refl, refl)
act_all-IsList (at_end x ∷ as') h l cs v given =
    let (h1, l1, e1, v1, f1) = append-IsList h l cs x v given.0 in
    let (h2, l2, cs2, e2, v2, same, f2) =
      act_all-IsList as' h1 l1 (cs ++ (h.fresh, x) ∷ []) v1 given.1 in
    let snoc = map-append (λ (c : Cell). c.1) cs ((h.fresh, x) ∷ []) in
    (h2, l2, cs2, rw e1 e2, v2, same ∙ ap (contents_of as') snoc, f2 ∙ f1)
act_all-IsList (at_front x ∷ as') h l cs v given =
    let (h1, l1, e1, v1, f1) = prepend-IsList h l cs x v given.0 in
    let (h2, l2, cs2, e2, v2, same, f2) = act_all-IsList as' h1 l1 ((h.fresh, x) ∷ cs) v1 given.1 in
    (h2, l2, cs2, rw e1 e2, v2, same, f2 ∙ f1)

new-free_func : (f : ℕ) → (new f).free_func ≡ f
unfolding new
new-free_func f = refl

-- A list that was built by appending and prepending data holds it in that order: its iterator
-- visits the data from the first to the last and stops, the first and the last are found, the
-- length is theirs modulo 2^32, and deleting all of it hands each of them once, in order, to the
-- function that frees them, or none if the list has no such function. All of this ends. No data is
-- NULL.
pub visit-act_all :
    (as' : List Action) (h : Heap) (n free_func : ℕ)
    → 0 < h.fresh
    → Given as'
    → let xs = contents_of as' [] in
      length xs < n
      → (h' : Heap) × (l : JList) × (act_all as' (new free_func) h ≡ some (h', l))
        × (visit n (iterator_new l) h' ≡ some xs)
        × (get_first l h' ≡ some (first_of xs))
        × (get_last l h' ≡ some (last_of xs))
        × (l.length ≡ u32 (length xs))
        × ((h'' : Heap) × (delete_all n l h'
              ≡ some (h'', record l { head = 0; tail = 0; length = 0 }, freed_of free_func xs)))
visit-act_all as' h n free_func room given enough =
    let (h', l, cs, e, v, same, f) =
      act_all-IsList as' h (new free_func) [] (new-IsList h free_func room) given in
    let len : length cs ≡ length (contents_of as' []) =
      sym (length-map (λ (c : Cell). c.1) cs) ∙ ap length same in
    let (h'', gone) = delete_all-IsList h' l cs n v (omega (arith, len)) in
    (
      h',
      l,
      e,
      visit-IsList h' l cs n v (omega (arith, len)) ∙ ap some same,
      get_first-IsList h' l cs v ∙ ap (λ xs. some (first_of xs)) same,
      get_last-IsList h' l cs v ∙ ap (λ xs. some (last_of xs)) same,
      v.length_of ∙ ap u32 len,
      (
        h'',
        gone
            ∙ ap (λ (xs : List ℕ). some (h'', record l { head = 0; tail = 0; length = 0 }, xs))
                (ap₂ freed_of (f ∙ new-free_func free_func) same),
      ),
    )
