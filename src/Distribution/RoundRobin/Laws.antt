-- ===== src/Distribution/RoundRobin/Laws.antt =====
-- Round robin: every piece stays in one block, and no two bytes share a place.
use julea.Common.{
  ℕ, ◌+◌, ◌-◌, ◌/◌, ◌%◌, ◌<◌, ◌≤◌, ◌≡◌, refl, ap, ap₂, sym, none, some, arith, u64_mod,
}
use julea.Common.Division.{
  div_within, div_unique, div-le_self, u64_small, u64_round, eq_of_div_mod, shift_mod_inj,
}
use julea.Distribution.Piece.{Piece, Place, Holds}
use julea.Distribution.RoundRobin.{RoundRobin, piece, distribute, place}
use julea.Distribution.Scheme.{Advance}

pub record IsValid (d : RoundRobin) : Type 0 where
  pub servers : 0 < d.server_count
  pub blocks : 0 < d.block_size
  pub fits : d.start_index + d.offset + d.length < u64_mod

-- No two bytes of an object are kept at the same place.
pub place-inj : (d : RoundRobin) (p q : ℕ) → IsValid d → place d p ≡ place d q → p ≡ q
unfolding place
place-inj d p q v e =
    let parts =
      div_unique (p / d.block_size / d.server_count) (p % d.block_size)
        (q / d.block_size / d.server_count) (q % d.block_size) d.block_size (omega arith)
        (omega arith) (ap (λ (r : Place). r.position) e) in
    eq_of_div_mod p q d.block_size
      (shift_mod_inj d.start_index (p / d.block_size) (q / d.block_size) d.server_count v.servers
        (ap (λ (r : Place). r.server) e) parts.0)
      parts.1

piece-le : (d : RoundRobin) → (piece d).new_length ≤ d.length
unfolding piece
piece-le d = omega arith

-- Every byte of the piece lies in one block, so the piece is contiguous on its server.
piece-Holds :
    (d : RoundRobin) → IsValid d → 0 < d.length → Holds (place d) d.block_size d.offset (piece d)
unfolding piece place
piece-Holds d v h = record {
  pos = omega arith;
  place = λ k lt.
      let w = div_within d.offset k d.block_size (omega arith) in
      rw (w.0, w.1)
        (ap₂ (λ (s t : ℕ). record { server = s; position = t })
          (sym (
            ap (λ (x : ℕ). x % d.server_count)
              (u64_small (omega (arith, div-le_self d.offset d.block_size)))))
          (omega (arith, u64_round d.offset d.block_size d.server_count (omega arith))));
  block = λ k lt. (div_within d.offset k d.block_size (omega arith)).0;
}

pub distribute-finished : (d : RoundRobin) → d.length ≡ 0 → distribute d ≡ some (none, d)
unfolding distribute
distribute-finished d h = ground arith

-- The two words that change do not wrap.
advance_lem :
    (d : RoundRobin)
    → IsValid d
    → 0 < d.length
    → ((piece d).new_length ≤ d.length)
      × (distribute d
          ≡ some (
            some (piece d),
            record d {
              length = d.length - (piece d).new_length;
              offset = d.offset + (piece d).new_length;
            },
          ))
unfolding distribute
advance_lem d v h =
    let le : (piece d).new_length ≤ d.length = piece-le d in
    (le, ground (arith, u64_small {x = d.offset + (piece d).new_length}))

-- One call on a valid state with bytes left: a piece at the front, and a valid state behind it.
pub advances :
    (d : RoundRobin)
    → IsValid d
    → 0 < d.length
    → (c : Piece) × (d' : RoundRobin) × (distribute d ≡ some (some c, d'))
      × IsValid d'
      × Advance (λ (d : RoundRobin). d.length) (λ d. d.offset) (λ d. d.block_size) place d c d'
unfolding place
advances d v h =
    let (le, e) = advance_lem d v h in
    (
      piece d,
      _,
      e,
      record { servers = v.servers; blocks = v.blocks; fits = omega (arith, v.fits) },
      record {
        holds = piece-Holds d v h;
        le = le;
        length_next = refl;
        offset_next = refl;
        same_place = refl;
        same_blocks = refl;
      },
    )
