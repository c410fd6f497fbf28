-- ===== src/Distribution/Weighted/Laws.antt =====
-- The weight table's invariant, and the placement of bytes by weight.
use Prim.Native.String.{String}
use julea.Common.{
  ℕ, ◌+◌, ◌-◌, ◌*◌, ◌/◌, ◌%◌, ◌<◌, ◌≤◌, ◌≡◌, refl, ap, ap₂, sym, ◌∙◌, some, none, arith, length,
  get_or, u32_mod, u64_mod, u64, set, All, length-set,
}
use julea.Common.Division.{
  div_within, div_unique, eq_of_div_mod, u64_small, u64_digits, digits_mono, digits_mono_left,
  quotient_remainder,
}
use julea.Distribution.Piece.{Piece, Place, Holds}
use julea.Distribution.Scheme.{Advance}
use julea.Distribution.Weighted.{
  Weighted, piece, distribute, place, update_weight, set2, find_server,
}
use julea.Distribution.Weighted.Search.{
  total, total-set, total-le, All-set, get_or-le-total, Finds, find_server-Finds, find_server-inj,
}

-- `sum` is the sum of the table, and fits into a guint.
pub record HasSum (d : Weighted) : Type 0 where
  pub table : length d.weights ≡ d.server_count
  pub sum : d.sum ≡ total d.weights
  pub weights : All (λ w. w < 256) d.weights
  pub small : 255 * d.server_count < u32_mod

total-small : (d : Weighted) → HasSum d → total d.weights < u32_mod
total-small d t = omega (arith, t.table, t.small, total-le d.weights t.weights)

pub record IsValid (d : Weighted) : Type 0 where
  pub blocks : 0 < d.block_size
  pub weighted : 0 < d.sum
  pub table : HasSum d
  pub fits : d.offset + d.length < u64_mod

piece-le : (d : Weighted) → (piece d).new_length ≤ d.length
unfolding piece
piece-le d = omega arith

-- A block is contiguous on its server.
place-within :
    (d : Weighted) (p k : ℕ)
    → p % d.block_size + k < d.block_size
    → place d (p + k) ≡ record { server = (place d p).server; position = (place d p).position + k }
unfolding place
place-within d p k h =
    let w = div_within p k d.block_size h in
    rw (w.0, w.1) (ap₂ (λ (s t : ℕ). record { server = s; position = t }) refl (omega arith))

-- The server that holds the block of byte `p`, and the bound that keeps the arithmetic in a word.
module _ (d : Weighted) (v : IsValid d) where
  found-Finds : (b : ℕ) → Finds 0 d.weights (b % d.sum) (find_server 0 d.weights (b % d.sum))
  found-Finds b = find_server-Finds 0 d.weights (b % d.sum) (omega (arith, v.table.sum, v.weighted))

  found-inside :
      (b : ℕ) → let f = find_server 0 d.weights (b % d.sum) in f.1 < get_or d.weights f.0 0
  found-inside b =
      let f = find_server 0 d.weights (b % d.sum) in
      let e : f.0 - 0 ≡ f.0 = omega arith in rw e at (found-Finds b).inside

  local_block-le :
      (b : ℕ)
      → let f = find_server 0 d.weights (b % d.sum) in b / d.sum * get_or d.weights f.0 0 + f.1 ≤ b
  local_block-le b =
      let f = find_server 0 d.weights (b % d.sum) in
      digits_mono (b / d.sum) (get_or d.weights f.0 0) d.sum f.1 (b % d.sum) b
        (omega (arith, v.table.sum, get_or-le-total d.weights f.0)) (found-Finds b).le
        (quotient_remainder b d.sum)

  new_offset-place : (piece d).new_offset ≡ (place d d.offset).position
  unfolding piece place
  new_offset-place =
      let b = d.offset / d.block_size in
      let f = find_server 0 d.weights (b % d.sum) in
      let x = b / d.sum * get_or d.weights f.0 0 in
      let outer : (x + f.1) * d.block_size + d.offset % d.block_size ≤ d.offset =
        digits_mono_left b (x + f.1) d.block_size (d.offset % d.block_size) d.offset
          (local_block-le b) (quotient_remainder d.offset d.block_size) in
      u64_digits x f.1 d.block_size (d.offset % d.block_size) v.blocks (omega (arith, v.fits))

  piece-Holds : 0 < d.length → Holds (place d) d.block_size d.offset (piece d)
  unfolding piece place
  piece-Holds h = record {
    pos = omega (arith, v.blocks);
    place = λ k lt.
        place-within d d.offset k (omega arith)
        ∙ ap (λ (x : ℕ). record { server = (place d d.offset).server; position = x + k })
            (sym new_offset-place);
    block = λ k lt. (div_within d.offset k d.block_size (omega arith)).0;
  }

pub distribute-finished : (d : Weighted) → d.length ≡ 0 → distribute d ≡ some (none, d)
unfolding distribute
distribute-finished d h = ground arith

-- The two words that change do not wrap.
pub advance_lem :
    (d : Weighted)
    → IsValid d
    → 0 < d.length
    → ((piece d).new_length ≤ d.length)
      × (distribute d
          ≡ some (
            some (piece d),
            record d {
              length = d.length - (piece d).new_length;
              offset = d.offset + (piece d).new_length;
            },
          ))
unfolding distribute
advance_lem d v h =
    let le : (piece d).new_length ≤ d.length = piece-le d in
    let stays : u64 (d.offset + (piece d).new_length) ≡ d.offset + (piece d).new_length =
      u64_small (omega (arith, v.fits)) in
    let blocks : 0 < d.block_size = v.blocks in (le, ground arith)

-- No two bytes of an object are kept at the same place.
pub place-inj : (d : Weighted) (p q : ℕ) → IsValid d → place d p ≡ place d q → p ≡ q
unfolding place
place-inj d p q v e =
    let bp = p / d.block_size in
    let bq = q / d.block_size in
    let f = find_server 0 d.weights (bp % d.sum) in
    let g = find_server 0 d.weights (bq % d.sum) in
    let server : f.0 ≡ g.0 = ap (λ (r : Place). r.server) e in
    let outer =
      div_unique (bp / d.sum * get_or d.weights f.0 0 + f.1) (p % d.block_size)
        (bq / d.sum * get_or d.weights g.0 0 + g.1) (q % d.block_size) d.block_size
        (omega (arith, v.blocks)) (omega (arith, v.blocks)) (ap (λ (r : Place). r.position) e) in
    let same : get_or d.weights g.0 0 ≡ get_or d.weights f.0 0 = rw server in
    let inner =
      div_unique (bp / d.sum) f.1 (bq / d.sum) g.1 (get_or d.weights f.0 0) (found-inside d v bp)
        (rw (← same) (found-inside d v bq)) (outer.0 ∙ rw same) in
    let blocks : bp ≡ bq = eq_of_div_mod bp bq d.sum inner.0 (
      find_server-inj 0 d.weights (bp % d.sum) (bq % d.sum) (omega (arith, v.table.sum, v.weighted))
        (omega (arith, v.table.sum, v.weighted)) (λ i. (server i, inner.1 i))) in
    eq_of_div_mod p q d.block_size blocks outer.1

update-HasSum :
    (d : Weighted) (i w : ℕ)
    → HasSum d
    → i < d.server_count
    → w < 256
    → HasSum (update_weight d i w)
unfolding update_weight
update-HasSum d i w t hi hw = record {
  table = length-set d.weights i w ∙ t.table;
  sum = omega (
    arith,
    t.sum,
    t.table,
    total-small d t,
    get_or-le-total d.weights i,
    total-set d.weights i w,
    total-le (set d.weights i w) (All-set d.weights i w hw t.weights),
    length-set d.weights i w,
    t.small,
  );
  weights = All-set d.weights i w hw t.weights;
  small = t.small;
}

-- Setting a weight keeps the table and its sum in step, whatever the arguments are.
pub set2-HasSum :
    (d : Weighted) (key : String) (value1 value2 : ℕ) → HasSum d → HasSum (set2 d key value1 value2)
unfolding set2
set2-HasSum d key i w t = grind (arith, update-HasSum)

-- One call on a valid state with bytes left: a piece at the front, and a valid state behind it.
pub advances :
    (d : Weighted)
    → IsValid d
    → 0 < d.length
    → (c : Piece) × (d' : Weighted) × (distribute d ≡ some (some c, d'))
      × IsValid d'
      × Advance (λ (d : Weighted). d.length) (λ d. d.offset) (λ d. d.block_size) place d c d'
unfolding place
advances d v h =
    let (le, e) = advance_lem d v h in
    (
      piece d,
      _,
      e,
      record {
        blocks = v.blocks;
        weighted = v.weighted;
        table = record {
          table = v.table.table;
          sum = v.table.sum;
          weights = v.table.weights;
          small = v.table.small;
        };
        fits = omega (arith, v.fits);
      },
      record {
        holds = piece-Holds d v h;
        le = le;
        length_next = refl;
        offset_next = refl;
        same_place = refl;
        same_blocks = refl;
      },
    )
