-- ===== src/List/Laws.antt =====
-- A list in the heap is a list.
use julea.Common.{
  ℕ, zero, suc, ◌+◌, ◌<◌, ◌≡◌, ◌≢◌, refl, sym, ap, ◌∙◌, false, some, List, [], ◌∷◌, ◌++◌, ◌==◌,
  length, map, u32, arith, if◌then◌else◌, length-append,
}
use julea.List.{
  Heap, JList, new, ref, append, prepend, get_first, get_last, iterator_new, iterator_next,
  iterator_get, visit, allocate, link_last, set_next,
}
use julea.List.Chain.{
  Cell, element, first, last, Chain, load-found, last-found, Chain-prepend, Chain-append,
}

pub record IsList (h : Heap) (l : JList) (cs : List Cell) : Type 0 where
  pub chain : Chain h cs
  pub head : l.head ≡ first cs
  pub tail : l.tail ≡ last cs
  pub length_of : l.length ≡ u32 (length cs)
  pub room : 0 < h.fresh

abbrev pub data_in : List Cell → List ℕ
data_in = map (λ c. c.1)

pub new-IsList : (h : Heap) (free_func : ℕ) → 0 < h.fresh → IsList h (new free_func) []
unfolding new
new-IsList h free_func room = record {
  chain = tt;
  head = refl;
  tail = refl;
  length_of = refl;
  room = room;
}

last-append : (cs : List Cell) (c : Cell) → last (cs ++ c ∷ []) ≡ c.0
last-append [] c = refl
last-append (d ∷ []) c = refl
last-append (d ∷ d' ∷ cs) c = last-append (d' ∷ cs) c

link_last-found :
    (t q : ℕ) (h h' : Heap) → 0 < t → set_next t q h ≡ some h' → link_last t q h ≡ some h'
unfolding link_last
link_last-found t q h h' pos e =
    let given : (t == 0) ≡ false = ground (arith, pos) in
    ap (λ b. if b then some h else set_next t q h) given ∙ e

pub append-IsList :
    (h : Heap) (l : JList) (cs : List Cell) (x : ℕ)
    → IsList h l cs
    → x ≢ 0
    → (h' : Heap) × (l' : JList) × (append l x h ≡ some (h', l'))
      × IsList h' l' (cs ++ (h.fresh, x) ∷ [])
      × (l'.free_func ≡ l.free_func)
unfolding append
append-IsList h l [] x v given =
    let nonzero : (x == 0) ≡ false = ground (arith, given) in
    (
      (allocate (element 0 x) h).0,
      record l { length = u32 (l.length + 1); tail = h.fresh; head = h.fresh },
      rw (nonzero, v.head, v.tail) refl,
      record {
        chain = Chain-prepend h x [] v.room tt;
        head = refl;
        tail = refl;
        length_of = omega (arith, v.length_of);
        room = unfold allocate in omega arith;
      },
      refl,
    )
append-IsList h l (c ∷ cs) x v given =
    let nonzero : (x == 0) ≡ false = ground (arith, given) in
    let (y, pos, old, found) = last-found h cs c v.chain in
    let (h2, e, grown, chain) = Chain-append h x c cs v.room v.chain in
    let some_head : (c.0 == 0) ≡ false = ground (arith, v.chain.0) in
    let some_tail : (last (c ∷ cs) == 0) ≡ false = ground (arith, pos) in
    let h1 = (allocate (element 0 x) h).0 in
    let e' = link_last-found (last (c ∷ cs)) h.fresh h1 h2 pos e in
    (
      h2,
      record l { length = u32 (l.length + 1); tail = h.fresh; head = c.0 },
      rw (nonzero, v.head, v.tail, some_head, e') refl,
      record {
        chain = chain;
        head = refl;
        tail = sym (last-append (c ∷ cs) (h.fresh, x));
        length_of = omega (arith, v.length_of, length-append (c ∷ cs) ((h.fresh, x) ∷ []));
        room = omega (arith, grown);
      },
      refl,
    )

pub prepend-IsList :
    (h : Heap) (l : JList) (cs : List Cell) (x : ℕ)
    → IsList h l cs
    → x ≢ 0
    → (h' : Heap) × (l' : JList) × (prepend l x h ≡ (h', l'))
      × IsList h' l' ((h.fresh, x) ∷ cs)
      × (l'.free_func ≡ l.free_func)
unfolding prepend
prepend-IsList h l [] x v given =
    let nonzero : (x == 0) ≡ false = ground (arith, given) in
    (
      (allocate (element 0 x) h).0,
      record l { length = u32 (l.length + 1); tail = h.fresh; head = h.fresh },
      rw (nonzero, v.head, v.tail) refl,
      record {
        chain = Chain-prepend h x [] v.room tt;
        head = refl;
        tail = refl;
        length_of = omega (arith, v.length_of);
        room = unfold allocate in omega arith;
      },
      refl,
    )
prepend-IsList h l (c ∷ cs) x v given =
    let nonzero : (x == 0) ≡ false = ground (arith, given) in
    let (y, pos, old, found) = last-found h cs c v.chain in
    let some_tail : (last (c ∷ cs) == 0) ≡ false = ground (arith, pos) in
    (
      (allocate (element c.0 x) h).0,
      record l { length = u32 (l.length + 1); tail = last (c ∷ cs); head = h.fresh },
      rw (nonzero, v.head, v.tail, some_tail) refl,
      record {
        chain = Chain-prepend h x (c ∷ cs) v.room v.chain;
        head = refl;
        tail = refl;
        length_of = omega (arith, v.length_of);
        room = unfold allocate in omega arith;
      },
      refl,
    )

visit-Chain :
    (h : Heap) (l : JList) (n p x : ℕ) (cs : List Cell)
    → length cs < n
    → Chain h ((p, x) ∷ cs)
    → visit n (record { list = l; current = p; first = false }) h ≡ some (data_in cs)
unfolding visit iterator_next iterator_get
visit-Chain h l zero p x cs enough chain = absurd (omega arith)
visit-Chain h l (suc n) p x [] enough (pos, old, found, other, chain) =
    rw (load-found h p (element 0 x) pos found) refl
visit-Chain h l (suc n) p x ((q, y) ∷ cs) enough (pos, old, found, other, chain) =
    let some_next : (q == 0) ≡ false = ground (arith, chain.0) in
    let e1 = load-found h p (element q x) pos found in
    let rest = visit-Chain h l n q y cs (omega arith) chain in
    rw (e1, some_next, chain.2, rest) refl

pub visit-IsList :
    (h : Heap) (l : JList) (cs : List Cell) (n : ℕ)
    → IsList h l cs
    → length cs < n
    → visit n (iterator_new l) h ≡ some (data_in cs)
unfolding visit iterator_new iterator_next iterator_get ref
visit-IsList h l cs zero v enough = absurd (omega arith)
visit-IsList h l [] (suc n) v enough = rw v.head refl
visit-IsList h l ((q, y) ∷ cs) (suc n) v enough =
    let some_head : (q == 0) ≡ false = ground (arith, v.chain.0) in
    let rest =
      visit-Chain h (record l { head = q; ref_count = l.ref_count + 1 }) n q y cs (omega arith)
        v.chain in
    rw (v.head, some_head, v.chain.2, rest) refl

-- The first and the last of the data, or NULL.
abbrev pub first_of : List ℕ → ℕ
first_of [] = 0
first_of (x ∷ xs) = x

abbrev pub last_of : List ℕ → ℕ
last_of [] = 0
last_of (x ∷ []) = x
last_of (x ∷ y ∷ xs) = last_of (y ∷ xs)

pub get_first-IsList :
    (h : Heap) (l : JList) (cs : List Cell)
    → IsList h l cs
    → get_first l h ≡ some (first_of (data_in cs))
unfolding get_first
get_first-IsList h l [] v = rw v.head refl
get_first-IsList h l (c ∷ cs) v =
    let (y, pos, old, found) = last-found h cs c v.chain in
    let some_head : (c.0 == 0) ≡ false = ground (arith, v.chain.0) in
    let some_tail : (last (c ∷ cs) == 0) ≡ false = ground (arith, pos) in
    rw (v.head, v.tail, some_head, some_tail, v.chain.2) refl

last-data :
    (h : Heap) (cs : List Cell) (c : Cell)
    → Chain h (c ∷ cs)
    → h.cells (last (c ∷ cs)) ≡ some (element 0 (last_of (data_in (c ∷ cs))))
last-data h [] c chain = chain.2
last-data h (c' ∷ cs) c chain = last-data h cs c' chain.4

pub get_last-IsList :
    (h : Heap) (l : JList) (cs : List Cell)
    → IsList h l cs
    → get_last l h ≡ some (last_of (data_in cs))
unfolding get_last
get_last-IsList h l [] v = rw v.head refl
get_last-IsList h l (c ∷ cs) v =
    let (y, pos, old, found) = last-found h cs c v.chain in
    let some_head : (c.0 == 0) ≡ false = ground (arith, v.chain.0) in
    let some_tail : (last (c ∷ cs) == 0) ≡ false = ground (arith, pos) in
    rw (v.head, v.tail, some_head, some_tail, last-data h cs c v.chain) refl
