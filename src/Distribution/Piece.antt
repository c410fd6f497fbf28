-- ===== src/Distribution/Piece.antt =====
-- What `distribution_distribute` hands out, and what it means for pieces to cover a range.
use julea.Common.{ℕ, ◌+◌, ◌≡◌, ◌<◌, ◌/◌, List, [], ◌∷◌}

-- The out parameters `index`, `new_length`, `new_offset` and `block_id`.
pub record Piece : Type 0 where
  pub index : ℕ
  pub new_length : ℕ
  pub new_offset : ℕ
  pub block_id : ℕ

-- A server and a byte position on it.
pub record Place : Type 0 where
  pub server : ℕ
  pub position : ℕ

-- The piece holds the bytes from `p` on, each at the place that `at` gives it.
pub record Holds (at : ℕ → Place) (block_size p : ℕ) (c : Piece) : Type 0 where
  pub pos : 0 < c.new_length
  pub place :
      (k : ℕ)
      → k < c.new_length
      → at (p + k) ≡ record { server = c.index; position = c.new_offset + k }
  pub block : (k : ℕ) → k < c.new_length → (p + k) / block_size ≡ c.block_id

-- The pieces, one behind the other, are the bytes from `p` up to `q`.
pub data Cover (at : ℕ → Place) (block_size q : ℕ) : ℕ → List Piece → Type 0 where
  done : Cover at block_size q q []
  more :
      {p : ℕ} {c : Piece} {cs : List Piece}
      → Holds at block_size p c
      → Cover at block_size q (p + c.new_length) cs
      → Cover at block_size q p (c ∷ cs)
