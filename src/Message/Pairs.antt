-- ===== src/Message/Pairs.antt =====
-- Operations of two 64-bit numbers.
use mathlib.Core.List.{append-nil, append_assoc}
use julea.Common.{ℕ, ◌+◌, ◌^◌, ◌<◌, ◌≡◌, ap, ◌∙◌, List, [], ◌∷◌, ◌++◌, arith}
use julea.Message.{Message, le_bytes, get_8}
use julea.Message.Bytes.{
  Field, int8, all_encoded, Holds, moved, next-Holds, get_8-Holds, length-le_bytes,
}
use julea.Message.Reserve.{total}
use julea.Message.Operations.{pieces}

abbrev pub pair_fields : ℕ → ℕ → List Field
pair_fields a c = int8 a ∷ int8 c ∷ []

pub total-pair : (a c : ℕ) → 8 + 8 ≡ total (pieces (pair_fields a c))
unfolding total
total-pair a c = omega (arith, length-le_bytes 8 a, length-le_bytes 8 c)

pair-append :
    (a c : ℕ) (rest : List ℕ)
    → all_encoded (pair_fields a c) ++ rest ≡ le_bytes 8 a ++ (le_bytes 8 c ++ rest)
unfolding all_encoded
pair-append a c rest =
    append_assoc (le_bytes 8 a) (le_bytes 8 c ++ []) rest
    ∙ ap (λ (xs : List ℕ). le_bytes 8 a ++ (xs ++ rest)) (append-nil (le_bytes 8 c))

-- Two reads get the numbers, and what follows comes next.
pub get_8_twice-Holds :
    (m : Message) (a c : ℕ) (rest : List ℕ)
    → a < 2 ^ 64
    → c < 2 ^ 64
    → Holds m (all_encoded (pair_fields a c) ++ rest)
    → let m1 = moved m 8 in
      let m2 = moved m1 8 in (get_8 m ≡ (m1, a)) × (get_8 m1 ≡ (m2, c)) × Holds m2 rest
get_8_twice-Holds m a c rest small near h =
    let (h1, t1) =
      next-Holds m (le_bytes 8 a) (le_bytes 8 c ++ rest) (rw (pair-append a c rest) at h) in
    let t1' = rw (length-le_bytes 8 a) at t1 in
    let (h2, t2) = next-Holds (moved m 8) (le_bytes 8 c) rest t1' in
    (get_8-Holds m a small h1, get_8-Holds (moved m 8) c near h2, rw (length-le_bytes 8 c) at t2)
