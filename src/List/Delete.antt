-- ===== src/List/Delete.antt =====
-- `j_list_delete_all`: every element is freed once.
use julea.Common.{
  ℕ, zero, suc, ◌<◌, ◌≡◌, ◌≢◌, refl, false, none, some, List, [], ◌∷◌, ◌==◌, length, arith, All, ap,
  inl, inr, Bool-cases, if◌then◌else◌,
}
use julea.List.{delete_from, delete_all, write, Heap, JList}
use julea.List.Chain.{Cell, first, Chain}
use julea.List.Laws.{IsList, data_in}

Chain-freed :
    (h : Heap) (p : ℕ) (cs : List Cell)
    → All (λ c. p ≢ c.0) cs
    → Chain h cs
    → Chain (write p none h) cs
unfolding write
Chain-freed h p [] other chain = tt
Chain-freed h p ((q, x) ∷ cs) other (pos, old, found, apart, chain) =
    let kept : (q == p) ≡ false = ground (arith, other.0) in
    (pos, old, rw kept found, apart, Chain-freed h p cs other.1 chain)

-- The data that the function that frees it is called with.
abbrev pub freed_of : (free_func : ℕ) → List ℕ → List ℕ
freed_of free_func xs = if free_func == 0 then [] else xs

freed_of-cons :
    (f x : ℕ) (xs : List ℕ)
    → (if f == 0 then freed_of f xs else x ∷ freed_of f xs) ≡ freed_of f (x ∷ xs)
freed_of-cons f x xs = elim (Bool-cases (f == 0)) [ inl h ↦ rw h refl | inr h ↦ rw h refl ]

freed_of-nil : (f : ℕ) → [] ≡ freed_of f []
freed_of-nil f = elim (Bool-cases (f == 0)) [ inl h ↦ rw h refl | inr h ↦ rw h refl ]

delete_from-Chain :
    (h : Heap) (n f : ℕ) (cs : List Cell)
    → length cs < n
    → Chain h cs
    → (h' : Heap) × (delete_from n f (first cs) h ≡ some (h', freed_of f (data_in cs)))
unfolding delete_from
delete_from-Chain h zero f cs enough chain = absurd (omega arith)
delete_from-Chain h (suc n) f [] enough chain =
    (h, ap (λ (xs : List ℕ). some (h, xs)) (freed_of-nil f))
delete_from-Chain h (suc n) f ((p, x) ∷ cs) enough (pos, old, found, apart, chain) =
    let given : (p == 0) ≡ false = ground (arith, pos) in
    let (h', rest) =
      delete_from-Chain (write p none h) n f cs (omega arith) (Chain-freed h p cs apart chain) in
    (
      h',
      rw (given, found, rest)
          (ap (λ (xs : List ℕ). some (h', xs)) (freed_of-cons f x (data_in cs))),
    )

pub delete_all-IsList :
    (h : Heap) (l : JList) (cs : List Cell) (n : ℕ)
    → IsList h l cs
    → length cs < n
    → (h' : Heap) × (delete_all n l h
        ≡ some (h', record l { head = 0; tail = 0; length = 0 }, freed_of l.free_func (data_in cs)))
unfolding delete_all
delete_all-IsList h l cs n v enough =
    let (h', e) = delete_from-Chain h n l.free_func cs enough v.chain in (h', rw (v.head, e) refl)
