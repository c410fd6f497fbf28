-- ===== src/Distribution/Scheme.antt =====
-- What every distribution promises, and the loop `while (j_distribution_distribute(...))` of
-- lib/object/jdistributed-object.c over any distribution that keeps the promise.
use julea.Common.{
  ℕ, zero, suc, ◌+◌, ◌-◌, ◌<◌, ◌≤◌, ◌≡◌, refl, Option, none, some, ◌>>=◌, List, [], ◌∷◌, arith,
  dec_lt,
}
use julea.Distribution.Piece.{Piece, Place, Holds, Cover, done, more}

-- One round of the loop: a piece at the front of what is left, and the state behind it.
pub record Advance {D : Type 0} (length offset block_size : D → ℕ) (place : D → ℕ → Place) (d : D)
    (c : Piece) (d' : D) : Type 0 where
  pub holds : Holds (place d) (block_size d) (offset d) c
  pub le : c.new_length ≤ length d
  pub length_next : length d' ≡ length d - c.new_length
  pub offset_next : offset d' ≡ offset d + c.new_length
  pub same_place : place d' ≡ place d
  pub same_blocks : block_size d' ≡ block_size d

pub record Scheme (D : Type 0) : Type 1 where
  pub distribute : D → Option (Option Piece × D)
  pub length : D → ℕ
  pub offset : D → ℕ
  pub block_size : D → ℕ
  pub place : D → ℕ → Place
  pub IsValid : D → Type 0
  pub finished : (d : D) → IsValid d → length d ≡ 0 → distribute d ≡ some (none, d)
  pub advances :
      (d : D)
      → IsValid d
      → 0 < length d
      → (c : Piece) × (d' : D) × (distribute d ≡ some (some c, d'))
        × IsValid d'
        × Advance length offset block_size place d c d'
  pub place-inj : (d : D) (p q : ℕ) → IsValid d → place d p ≡ place d q → p ≡ q

-- The pieces of all rounds. `none` is a fault or a lack of fuel.
module _ {D : Type 0} (distribute : D → Option (Option Piece × D)) where
  unfoldable pub split : ℕ → D → Option (List Piece × D)
  split zero d = none
  split (suc fuel) d = distribute d >>= λ (o, d'). elim o [
    | none ↦ some ([], d')
    | some c ↦ split fuel d' >>= λ (cs, d''). some (c ∷ cs, d'')
  ]

-- A cover for one placement is one for an equal placement.
pub Cover-transfer :
    {at at' : ℕ → Place} {b b' q q' p p' : ℕ} {cs : List Piece}
    → at ≡ at'
    → b ≡ b'
    → q ≡ q'
    → p ≡ p'
    → Cover at b q p cs
    → Cover at' b' q' p' cs
Cover-transfer ea eb eq ep c = rw (← ea, ← eb, ← eq, ← ep) c

module _ {D : Type 0} (s : Scheme D) where
  open s use {distribute, length, offset, block_size, place, IsValid, finished, advances}

  -- What a whole loop does from `d`: its pieces cover exactly the range that was asked for.
  abbrev pub Splits : ℕ → D → Type 0
  Splits fuel d =
      (cs : List Piece) × (d' : D) × (split distribute fuel d ≡ some (cs, d'))
      × Cover (place d) (block_size d) (offset d + length d) (offset d) cs
      × (length d' ≡ 0)

  -- One round, and then the rest of the loop.
  step-Splits :
      (fuel : ℕ) (d : D) (c : Piece) (d' : D)
      → distribute d ≡ some (some c, d')
      → Advance length offset block_size place d c d'
      → Splits fuel d'
      → Splits (suc fuel) d
  unfolding split
  step-Splits fuel d c d' e a (cs, d'', run, cover, empty) = (
    c ∷ cs,
    d'',
    rw (e, run) refl,
    more a.holds (Cover-transfer a.same_place a.same_blocks (omega arith) a.offset_next cover),
    empty,
  )

  pub split-Splits : (fuel : ℕ) (d : D) → IsValid d → length d < fuel → Splits fuel d
  unfolding split
  split-Splits zero d v h = absurd (omega arith)
  split-Splits (suc fuel) d v h = elim (dec_lt 0 (length d)) [
    | yes pos ↦
        let (c, d', e, v', a) = advances d v pos in
        step-Splits fuel d c d' e a
          (split-Splits fuel d' v' (omega (arith, a.length_next, a.le, a.holds.pos)))
    | no empty ↦
        let z : length d ≡ 0 = omega arith in
        (
          [],
          d,
          rw (finished d v z),
          Cover-transfer {p = offset d} refl refl (omega arith) refl done,
          z,
        )
  ]
