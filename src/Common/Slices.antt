-- ===== src/Common/Slices.antt =====
-- The values of a function on a range, as a list.
use Prim.Native.Nat.{ℕ, zero, suc, ◌+◌, ◌-◌, ◌≤◌, ◌<◌}
use mathlib.Core.Path.{◌≡◌, refl, ap, ap₂}
use mathlib.Core.Bool.{◌&&◌, true}
use mathlib.Core.List.{List, [], ◌∷◌, ◌++◌}
use native.Mathlib.Omega.{arith}
use julea.Common.Tests.{leb, ltb, if◌then◌else◌}
use julea.Common.Lists.{length, get_or}

unfoldable pub slice : (ℕ → ℕ) → ℕ → ℕ → List ℕ
slice f p zero = []
slice f p (suc n) = f p ∷ slice f (suc p) n

-- A list written over a function from `p` on.
unfoldable pub copy_to : (ℕ → ℕ) → ℕ → List ℕ → ℕ → ℕ
copy_to f p bs i = if leb p i && ltb i (p + length bs) then get_or bs (i - p) 0 else f i

pub length-slice : (f : ℕ → ℕ) (p n : ℕ) → length (slice f p n) ≡ n
unfolding slice
length-slice f p zero = refl
length-slice f p (suc n) = ap suc (length-slice f (suc p) n)

pub slice-add : (f : ℕ → ℕ) (p n m : ℕ) → slice f p (n + m) ≡ slice f p n ++ slice f (p + n) m
unfolding slice
slice-add f p zero m =
    let e : p + 0 ≡ p = omega arith in let e' : 0 + m ≡ m = omega arith in rw (e, e')
slice-add f p (suc n) m =
    let e : p + suc n ≡ suc p + n = omega arith in
    let e' : suc n + m ≡ suc (n + m) = omega arith in
    rw (e, e') (ap (◌∷◌ (f p)) (slice-add f (suc p) n m))

pub slice-congr :
    (f g : ℕ → ℕ) (p n : ℕ) → ((i : ℕ) → p ≤ i → i < p + n → f i ≡ g i) → slice f p n ≡ slice g p n
unfolding slice
slice-congr f g p zero h = refl
slice-congr f g p (suc n) h =
    ap₂ ◌∷◌ (h p (omega arith) (omega arith))
      (slice-congr f g (suc p) n λ i lo hi. h i (omega arith) (omega arith))

pub slice-eq :
    (f : ℕ → ℕ) (p : ℕ) (bs : List ℕ)
    → ((k : ℕ) → k < length bs → f (p + k) ≡ get_or bs k 0)
    → slice f p (length bs) ≡ bs
unfolding slice
slice-eq f p [] h = refl
slice-eq f p (b ∷ bs) h =
    let e : p + 0 ≡ p = omega arith in
    ap₂ ◌∷◌ (rw e at (h 0 (omega arith))) (
      slice-eq f (suc p) bs
        λ k lt. let a : suc p + k ≡ p + suc k = omega arith in rw a (h (suc k) (omega arith)))

copy_to-inside :
    (f : ℕ → ℕ) (p : ℕ) (bs : List ℕ) (k : ℕ)
    → k < length bs
    → copy_to f p bs (p + k) ≡ get_or bs k 0
unfolding copy_to
copy_to-inside f p bs k h =
    let inside : (leb p (p + k) && ltb (p + k) (p + length bs)) ≡ true = ground arith in
    let e : p + k - p ≡ k = omega arith in rw (inside, e)

pub slice-copy_to : (f : ℕ → ℕ) (p : ℕ) (bs : List ℕ) → slice (copy_to f p bs) p (length bs) ≡ bs
slice-copy_to f p bs = slice-eq (copy_to f p bs) p bs (copy_to-inside f p bs)

-- What stands before the written range is kept.
pub slice-copy_to_before :
    (f : ℕ → ℕ) (p n q : ℕ) (bs : List ℕ) → p + n ≤ q → slice (copy_to f q bs) p n ≡ slice f p n
unfolding copy_to
slice-copy_to_before f p n q bs h = slice-congr _ f p n λ i lo hi. ground arith
