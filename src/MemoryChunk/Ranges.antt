-- ===== src/MemoryChunk/Ranges.antt =====
-- The ranges handed out are disjoint and inside the block.
use julea.Common.{
  ℕ, ◌+◌, ◌<◌, ◌≤◌, ◌≡◌, refl, ◌==◌, ltb, false, List, [], ◌∷◌, if◌then◌else◌, u64, u64_mod, All,
  arith, Bool-cases, inl, inr, map, sum_by, ap,
}
use julea.MemoryChunk.{MemoryChunk, get}

pub record IsValid (c : MemoryChunk) : Type 0 where
  pub behind : c.start ≤ c.current
  pub inside : c.current ≤ c.start + c.size
  pub small : c.start + c.size < u64_mod
  pub allocated : 0 < c.start

-- The ranges for a sequence of requests; a refused request gets none.
unfoldable pub granted : MemoryChunk → List ℕ → List (ℕ × ℕ)
granted c [] = []
granted c (n ∷ ns) =
    let rest = granted (get c n).0 ns in if (get c n).1 == 0 then rest else ((get c n).1, n) ∷ rest

-- The ranges follow each other between `low` and `high`.
abbrev pub Within : ℕ → ℕ → List (ℕ × ℕ) → Type 0
Within low high [] = low ≤ high
Within low high ((a, n) ∷ rs) = (low ≤ a) × Within (a + n) high rs

-- Ranges that are handed out between two resets follow each other inside the block, so that no two
-- of them overlap, and the first starts where the block does after a reset. The lengths do not make
-- a pointer behind the block wrap.
pub granted-Within :
    (c : MemoryChunk) (ns : List ℕ)
    → IsValid c
    → All (λ n. c.start + c.size + n < u64_mod) ns
    → Within c.current (c.start + c.size) (granted c ns)
unfolding granted get
granted-Within c [] v small = v.inside
granted-Within c (n ∷ ns) v small =
    let e : u64 (c.start + c.size) ≡ c.start + c.size = omega (arith, v.small) in
    let e' : u64 (c.current + n) ≡ c.current + n = omega (arith, v.inside, small.0) in
    elim (Bool-cases (ltb (c.start + c.size) (c.current + n))) [
      | inl long ↦ rw (e, e', long) (granted-Within c ns v small.1)
      | inr fits ↦
          let some_address : (c.current == 0) ≡ false = ground (arith, v.behind, v.allocated) in
          let le : c.current + n ≤ c.start + c.size = ground arith in
          rw (e, e', fits, some_address)
            (
              omega arith,
              granted-Within (record c { current = c.current + n }) ns
                  (record {
                    behind = omega (arith, v.behind);
                    inside = le;
                    small = v.small;
                    allocated = v.allocated;
                  })
                  small.1,
            )
    ]

-- If the requests together fit into the rest of the block, each of them is granted, in order.
granted-fits :
    (c : MemoryChunk) (ns : List ℕ)
    → IsValid c
    → c.current + sum_by (λ n. n) ns ≤ c.start + c.size
    → map (λ r. r.1) (granted c ns) ≡ ns
unfolding granted get
granted-fits c [] v fit = refl
granted-fits c (n ∷ ns) v fit =
    let e : u64 (c.start + c.size) ≡ c.start + c.size = omega (arith, v.small) in
    let e' : u64 (c.current + n) ≡ c.current + n = omega (arith, fit, v.small) in
    let fits : ltb (c.start + c.size) (c.current + n) ≡ false = ground (arith, fit) in
    let some_address : (c.current == 0) ≡ false = ground (arith, v.behind, v.allocated) in
    rw (e, e', fits, some_address)
      (ap (◌∷◌ n) (
        granted-fits (record c { current = c.current + n }) ns
          (record {
            behind = omega (arith, v.behind);
            inside = omega (arith, fit);
            small = v.small;
            allocated = v.allocated;
          })
          (omega (arith, fit))))
