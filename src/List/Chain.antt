-- ===== src/List/Chain.antt =====
-- Elements that are linked in the heap.
use julea.Common.{
  ℕ, suc, ◌<◌, ◌≡◌, ◌≢◌, refl, sym, ap, ◌∙◌, true, false, Option, none, some, List, [], ◌∷◌, ◌++◌,
  ◌==◌, arith, All,
}
use julea.List.{Element, Heap, write, allocate, load, set_next}

abbrev pub Cell : Type 0
Cell = ℕ × ℕ

abbrev pub element : ℕ → ℕ → Element
element q x = record { next = q; data_of = x }

-- The address of the first cell, or NULL.
abbrev pub first : List Cell → ℕ
first [] = 0
first ((p, x) ∷ cs) = p

abbrev pub last : List Cell → ℕ
last [] = 0
last ((p, x) ∷ []) = p
last ((p, x) ∷ c ∷ cs) = last (c ∷ cs)

-- Each cell stands in the heap, linked to the next, and no two at the same address.
abbrev pub Chain : Heap → List Cell → Type 0
Chain h [] = Unit
Chain h ((p, x) ∷ cs) =
    (0 < p)
    × (p < h.fresh)
    × (h.cells p ≡ some (element (first cs) x))
    × All (λ c. p ≢ c.0) cs
    × Chain h cs

pub load-found : (h : Heap) (p : ℕ) (e : Element) → 0 < p → h.cells p ≡ some e → load p h ≡ some e
unfolding load
load-found h p e pos found = let given : (p == 0) ≡ false = ground arith in rw (given, found) refl

-- A heap in which the cells stay as they are.
abbrev Keeps : Heap → Heap → Type 0
Keeps h h' = (p : ℕ) → p < h.fresh → h'.cells p ≡ h.cells p

pub Chain-kept :
    (h h' : Heap) (cs : List Cell) → h.fresh < h'.fresh → Keeps h h' → Chain h cs → Chain h' cs
Chain-kept h h' [] more keeps c = tt
Chain-kept h h' ((p, x) ∷ cs) more keeps (pos, old, found, other, c) =
    (pos, omega arith, keeps p old ∙ found, other, Chain-kept h h' cs more keeps c)

pub allocate-Keeps : (h : Heap) (e : Element) → Keeps h (allocate e h).0
unfolding allocate write
allocate-Keeps h e p old = let other : (p == h.fresh) ≡ false = ground arith in rw other refl

pub allocate-found : (h : Heap) (e : Element) → (allocate e h).0.cells h.fresh ≡ some e
unfolding allocate write
allocate-found h e = let same : (h.fresh == h.fresh) ≡ true = ground arith in rw same refl

fresh-other : (h : Heap) (cs : List Cell) → Chain h cs → All (λ c. h.fresh ≢ c.0) cs
fresh-other h [] c = tt
fresh-other h ((p, x) ∷ cs) (pos, old, found, other, c) =
    ((λ e. absurd (omega (arith, e))), fresh-other h cs c)

-- A new cell in front.
pub Chain-prepend :
    (h : Heap) (x : ℕ) (cs : List Cell)
    → 0 < h.fresh
    → Chain h cs
    → Chain (allocate (element (first cs) x) h).0 ((h.fresh, x) ∷ cs)
Chain-prepend h x cs pos c =
    let e = element (first cs) x in
    let grown : h.fresh < (allocate e h).0.fresh = unfold allocate in omega arith in
    (
      pos,
      grown,
      allocate-found h e,
      fresh-other h cs c,
      Chain-kept h (allocate e h).0 cs grown (allocate-Keeps h e) c,
    )

pub last-found :
    (h : Heap) (cs : List Cell) (c : Cell)
    → Chain h (c ∷ cs)
    → (x : ℕ) × (0 < last (c ∷ cs))
      × (last (c ∷ cs) < h.fresh)
      × (h.cells (last (c ∷ cs)) ≡ some (element 0 x))
last-found h [] (p, x) (pos, old, found, other, chain) = (x, pos, old, found)
last-found h (c' ∷ cs) (p, x) (pos, old, found, other, chain) = last-found h cs c' chain

last-other : (p : ℕ) (c : Cell) (cs : List Cell) → All (λ c'. p ≢ c'.0) (c ∷ cs) → p ≢ last (c ∷ cs)
last-other p c [] other = other.0
last-other p c (c' ∷ cs) other = last-other p c' cs other.1

-- A heap after an allocation and a link from `t` to the new cell.
record Linked (h h' : Heap) (t x y : ℕ) : Type 0 where
  grown : h'.fresh ≡ suc h.fresh
  added : h'.cells h.fresh ≡ some (element 0 x)
  linked : h'.cells t ≡ some (element h.fresh y)
  kept : (p : ℕ) → p < h.fresh → p ≢ t → h'.cells p ≡ h.cells p

All-snoc : (P : Cell → Type 0) (cs : List Cell) (c : Cell) → All P cs → P c → All P (cs ++ c ∷ [])
All-snoc P [] c all holds = (holds, tt)
All-snoc P (d ∷ cs) c all holds = (all.0, All-snoc P cs c all.1 holds)

some-data : (x y : ℕ) → some (element 0 x) ≡ some (element 0 y) → x ≡ y
some-data x y e = ap (λ (o : Option Element). elim o [ none ↦ 0 | some e ↦ e.data_of ]) e

Chain-Linked :
    (h h' : Heap) (t x y : ℕ) (c : Cell) (cs : List Cell)
    → Linked h h' t x y
    → Chain h (c ∷ cs)
    → last (c ∷ cs) ≡ t
    → h.cells t ≡ some (element 0 y)
    → 0 < h.fresh
    → Chain h' ((c ∷ cs) ++ (h.fresh, x) ∷ [])
Chain-Linked h h' t x y (p, z) [] l (pos, old, found, other, chain) e at_end some_cells =
    let same : y ≡ z = some-data y z (sym at_end ∙ ap h.cells (sym e) ∙ found) in
    (
      pos,
      omega (arith, l.grown),
      rw e (l.linked ∙ ap (λ (v : ℕ). some (element h.fresh v)) same),
      ((λ e'. absurd (omega (arith, e'))), tt),
      (some_cells, omega (arith, l.grown), l.added, tt, tt),
    )
Chain-Linked h h' t x y (p, z) (c ∷ cs) l (pos, old, found, other, chain) e at_end some_cells = (
  pos,
  omega (arith, l.grown),
  l.kept p old (λ e'. last-other p c cs other (e' ∙ sym e)) ∙ found,
  All-snoc _ (c ∷ cs) (h.fresh, x) other (λ e'. absurd (omega (arith, e'))),
  Chain-Linked h h' t x y c cs l chain e at_end some_cells,
)

-- A new cell at the end.
pub Chain-append :
    (h : Heap) (x : ℕ) (c : Cell) (cs : List Cell)
    → 0 < h.fresh
    → Chain h (c ∷ cs)
    → let h1 = (allocate (element 0 x) h).0 in
      (h2 : Heap) × (set_next (last (c ∷ cs)) h.fresh h1 ≡ some h2)
      × (h2.fresh ≡ suc h.fresh)
      × Chain h2 ((c ∷ cs) ++ (h.fresh, x) ∷ [])
unfolding set_next write allocate
Chain-append h x c cs some_cells chain =
    let t = last (c ∷ cs) in
    let h1 = (allocate (element 0 x) h).0 in
    let (y, pos, old, found) = last-found h cs c chain in
    let found1 : h1.cells t ≡ some (element 0 y) = allocate-Keeps h (element 0 x) t old ∙ found in
    let h2 = write t (some (element h.fresh y)) h1 in
    let e = load-found h1 t (element 0 y) pos found1 in
    let l : Linked h h2 t x y = record {
      grown = refl;
      added =
          let other : (h.fresh == t) ≡ false = ground arith in
          rw other (allocate-found h (element 0 x));
      linked = let same : (t == t) ≡ true = ground arith in rw same refl;
      kept = λ p before apart.
          let other : (p == t) ≡ false = ground (arith, apart) in
          rw other (allocate-Keeps h (element 0 x) p before);
    } in
    (h2, rw e refl, refl, Chain-Linked h h2 t x y c cs l chain refl found some_cells)
