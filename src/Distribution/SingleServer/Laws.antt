-- ===== src/Distribution/SingleServer/Laws.antt =====
-- Single server: every piece stays in one block, and bytes keep their offsets.
use julea.Common.{ℕ, ◌+◌, ◌-◌, ◌<◌, ◌≤◌, ◌≡◌, ap, refl, none, some, arith, u64_mod}
use julea.Common.Division.{div_within, u64_small}
use julea.Distribution.Piece.{Piece, Place, Holds}
use julea.Distribution.SingleServer.{SingleServer, piece, distribute, place}
use julea.Distribution.Scheme.{Advance}

pub record IsValid (d : SingleServer) : Type 0 where
  pub blocks : 0 < d.block_size
  pub fits : d.offset + d.length < u64_mod

piece-le : (d : SingleServer) → (piece d).new_length ≤ d.length
unfolding piece
piece-le d = omega arith

piece-Holds :
    (d : SingleServer) → IsValid d → 0 < d.length → Holds (place d) d.block_size d.offset (piece d)
unfolding piece place
piece-Holds d v h = record {
  pos = omega arith;
  place = λ k lt. refl;
  block = λ k lt. (div_within d.offset k d.block_size (omega arith)).0;
}

pub distribute-finished : (d : SingleServer) → d.length ≡ 0 → distribute d ≡ some (none, d)
unfolding distribute
distribute-finished d h = ground arith

-- The two words that change do not wrap.
advance_lem :
    (d : SingleServer)
    → IsValid d
    → 0 < d.length
    → ((piece d).new_length ≤ d.length)
      × (distribute d
          ≡ some (
            some (piece d),
            record d {
              length = d.length - (piece d).new_length;
              offset = d.offset + (piece d).new_length;
            },
          ))
unfolding distribute
advance_lem d v h =
    let le : (piece d).new_length ≤ d.length = piece-le d in
    (le, ground (arith, u64_small {x = d.offset + (piece d).new_length}))

pub place-inj : (d : SingleServer) (p q : ℕ) → IsValid d → place d p ≡ place d q → p ≡ q
unfolding place
place-inj d p q v e = ap (λ (r : Place). r.position) e

-- One call on a valid state with bytes left: a piece at the front, and a valid state behind it.
pub advances :
    (d : SingleServer)
    → IsValid d
    → 0 < d.length
    → (c : Piece) × (d' : SingleServer) × (distribute d ≡ some (some c, d'))
      × IsValid d'
      × Advance (λ (d : SingleServer). d.length) (λ d. d.offset) (λ d. d.block_size) place d c d'
unfolding place
advances d v h =
    let (le, e) = advance_lem d v h in
    (
      piece d,
      _,
      e,
      record { blocks = v.blocks; fits = omega (arith, v.fits) },
      record {
        holds = piece-Holds d v h;
        le = le;
        length_next = refl;
        offset_next = refl;
        same_place = refl;
        same_blocks = refl;
      },
    )
