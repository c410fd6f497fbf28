-- ===== src/Distribution/Weighted/Search.antt =====
-- The search for the server of a block.
use julea.Common.{
  ℕ, zero, suc, ◌+◌, ◌-◌, ◌*◌, ◌<◌, ◌≤◌, ◌≡◌, List, [], ◌∷◌, arith, ltb, All, length, get_or, set,
  inl, inr, Bool-cases,
}
use julea.Distribution.Weighted.{find_server}

unfoldable pub total : List ℕ → ℕ
total [] = 0
total (w ∷ ws) = w + total ws

pub get_or-le-total : (ws : List ℕ) (i : ℕ) → get_or ws i 0 ≤ total ws
unfolding total
get_or-le-total [] i = omega arith
get_or-le-total (w ∷ ws) zero = omega arith
get_or-le-total (w ∷ ws) (suc i) = omega (arith, get_or-le-total ws i)

pub total-set :
    (ws : List ℕ) (i v : ℕ) → i < length ws → total (set ws i v) + get_or ws i 0 ≡ total ws + v
unfolding total
total-set [] i v h = elim h [ ]
total-set (w ∷ ws) zero v h = omega arith
total-set (w ∷ ws) (suc i) v h = omega (arith, total-set ws i v (omega arith))

pub total-le : (ws : List ℕ) → All (λ w. w < 256) ws → total ws ≤ 255 * length ws
unfolding total
total-le [] h = omega arith
total-le (w ∷ ws) h = omega (arith, total-le ws h.1)

pub All-set :
    (ws : List ℕ) (i v : ℕ) → v < 256 → All (λ w. w < 256) ws → All (λ w. w < 256) (set ws i v)
All-set [] i v h a = tt
All-set (w ∷ ws) zero v h a = (h, a.1)
All-set (w ∷ ws) (suc i) v h a = (a.0, All-set ws i v h a.1)

-- What the search finds, from server `i` on.
pub record Finds (i : ℕ) (ws : List ℕ) (x : ℕ) (found : ℕ × ℕ) : Type 0 where
  pub above : i ≤ found.0
  pub below : found.0 < i + length ws
  pub inside : found.1 < get_or ws (found.0 - i) 0
  pub le : found.1 ≤ x

skip-Finds :
    (i w : ℕ) (ws : List ℕ) (x : ℕ) (found : ℕ × ℕ)
    → Finds (i + 1) ws (x - w) found
    → Finds i (w ∷ ws) x found
skip-Finds i w ws x found f =
    let e : found.0 - i ≡ suc (found.0 - (i + 1)) = omega (arith, f.above) in
    record {
      above = omega (arith, f.above);
      below = omega (arith, f.below);
      inside = rw e f.inside;
      le = omega (arith, f.le);
    }

pub find_server-Finds :
    (i : ℕ) (ws : List ℕ) (x : ℕ) → x < total ws → Finds i ws x (find_server i ws x)
unfolding find_server total
find_server-Finds i [] x h = absurd (omega arith)
find_server-Finds i (w ∷ ws) x h = elim (Bool-cases (ltb x w)) [
  | inl hit ↦ rw hit (ground arith)
  | inr miss ↦ rw miss (skip-Finds i w ws x _ (find_server-Finds (i + 1) ws (x - w) (ground arith)))
]

-- Two blocks of a round with the same server and the same offset there are one.
pub find_server-inj :
    (i : ℕ) (ws : List ℕ) (x y : ℕ)
    → x < total ws
    → y < total ws
    → find_server i ws x ≡ find_server i ws y
    → x ≡ y
unfolding find_server total
find_server-inj i [] x y h h' e = absurd (omega arith)
find_server-inj i (w ∷ ws) x y h h' e = ground (
  arith,
  find_server-inj (i + 1) ws (x - w) (y - w),
  find_server-Finds (i + 1) ws (x - w),
  find_server-Finds (i + 1) ws (y - w),
)
