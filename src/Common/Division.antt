-- ===== src/Common/Division.antt =====
-- Division with remainder by a variable divisor.
use Prim.Native.Nat.{ℕ, ◌+◌, ◌-◌, ◌*◌, ◌/◌, ◌%◌, ◌≤◌, ◌<◌}
use mathlib.Core.Path.{◌≡◌, ap, sym, ◌∙◌}
use native.Mathlib.Nat.{
  div-eq_of_lt, mul-add-div_right, mul-add-mod_self_right, mod-eq_of_lt, mod-eq-sub-mod, add-mod,
  mod-lt,
}
pub use native.Mathlib.Nat.{div-le_self}
use native.Mathlib.Nat.{div-add-mod'}
use julea.Common.Words.{u64, u64_mod}
use mathlib.Core.Logic.{◌⊎◌, inl, inr}
use native.Mathlib.Decide.{dec_lt}
use native.Mathlib.Omega.{arith}

-- Adding less than what is left of a block stays in the block.
pub div_within : (a k b : ℕ) → a % b + k < b → ((a + k) / b ≡ a / b) × ((a + k) % b ≡ a % b + k)
div_within a k b h = grind arith

div-of_parts : (q r b : ℕ) → r < b → (q * b + r) / b ≡ q
div-of_parts q r b h =
    mul-add-div_right (omega arith) q r ∙ omega (arith, div-eq_of_lt {n = r} {m = b} h)

mod-of_parts : (q r b : ℕ) → r < b → (q * b + r) % b ≡ r
mod-of_parts q r b h = mul-add-mod_self_right q b r ∙ mod-eq_of_lt h

-- Quotient and remainder are determined.
pub div_unique : (q r q' r' b : ℕ) → r < b → r' < b → q * b + r ≡ q' * b + r' → (q ≡ q') × (r ≡ r')
div_unique q r q' r' b h h' e = (
  sym (div-of_parts q r b h) ∙ ap (λ x. x / b) e ∙ div-of_parts q' r' b h',
  sym (mod-of_parts q r b h) ∙ ap (λ x. x % b) e ∙ mod-of_parts q' r' b h',
)

pub eq_of_div_mod : (x y b : ℕ) → x / b ≡ y / b → x % b ≡ y % b → x ≡ y
eq_of_div_mod x y b d m = grind arith

-- One wrap at most.
wrap_once : (z n : ℕ) → z < n + n → ((z < n) × (z % n ≡ z)) ⊎ ((n ≤ z) × (z % n ≡ z - n))
wrap_once z n h = elim (dec_lt z n) [
  | yes below ↦ inl (below, mod-eq_of_lt below)
  | no above ↦
      inr (omega arith, mod-eq-sub-mod {n = z} {m = n} (omega arith) ∙ mod-eq_of_lt (omega arith))
]

-- Below the modulus, a shift is injective.
shift_inj_below : (s x y n : ℕ) → s < n → x < n → y < n → (s + x) % n ≡ (s + y) % n → x ≡ y
shift_inj_below s x y n hs hx hy e =
    omega (arith, wrap_once (s + x) n (omega arith), wrap_once (s + y) n (omega arith))

-- Two blocks of one round that start from the same server are one.
pub shift_mod_inj : (s x y n : ℕ) → 0 < n → (s + x) % n ≡ (s + y) % n → x / n ≡ y / n → x ≡ y
shift_mod_inj s x y n h e d = eq_of_div_mod x y n d (
    shift_inj_below (s % n) (x % n) (y % n) n (mod-lt s h) (mod-lt x h) (mod-lt y h)
      (sym (add-mod s x n) ∙ e ∙ add-mod s y n))

pub u64_small : {x : ℕ} → x < u64_mod → u64 x ≡ x
u64_small h = mod-eq_of_lt h

-- The bytes that a server keeps from before `p` are at most as many as there are.
pub local-le : (p b n : ℕ) → p / b / n * b + p % b ≤ p
local-le p b n = grind (arith, div-le_self (p / b) n, div-add-mod' p b)

-- The two wrapping steps of a local offset do not wrap.
pub u64_round :
    (p b n : ℕ) → p < u64_mod → u64 (u64 (p / b / n * b) + p % b) ≡ p / b / n * b + p % b
u64_round p b n h =
    omega
      (arith, local-le p b n, u64_small {x = p / b / n * b}, u64_small {x = p / b / n * b + p % b})

-- A digit sum with smaller digits is smaller.
pub digits_mono : (q w s r m b : ℕ) → w ≤ s → r ≤ m → q * s + m ≡ b → q * w + r ≤ b
digits_mono q w s r m b h k e = grind arith

pub digits_mono_left : (q q' s m p : ℕ) → q' ≤ q → q * s + m ≡ p → q' * s + m ≤ p
digits_mono_left q q' s m p h e = grind arith

pub quotient_remainder : (p b : ℕ) → p / b * b + p % b ≡ p
quotient_remainder p b = div-add-mod' p b

pub u64_digits :
    (x r b m : ℕ)
    → 0 < b
    → (x + r) * b + m < u64_mod
    → u64 (u64 (u64 (u64 x + r) * b) + m) ≡ (x + r) * b + m
u64_digits x r b m pos h =
    let e : x + r ≤ (x + r) * b = grind arith in
    let inner : u64 (u64 x + r) ≡ x + r = omega arith in rw inner (omega arith)
