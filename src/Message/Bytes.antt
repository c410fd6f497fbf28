-- ===== src/Message/Bytes.antt =====
-- Integers and texts in a buffer: what was appended is read back.
use native.Mathlib.Nat.{pow-suc}
use julea.Common.{
  ℕ, zero, suc, ◌+◌, ◌-◌, ◌/◌, ◌^◌, ◌<◌, ◌≤◌, ◌≡◌, ◌≢◌, refl, ap, ◌∙◌, true, false, Option, none,
  some, List, [], ◌∷◌, ◌++◌, length, arith, leb, ◌==◌, All, length-append, get_or, drop, append_inj,
  ◌>>=◌,
}
use julea.Common.Slices.{slice, slice-add, length-slice}
use julea.Message.{
  Message, le_bytes, of_le_bytes, string_at, get_n, get_1, get_4, get_8, get_string, can_get,
  number,
}

pub length-le_bytes : (n v : ℕ) → length (le_bytes n v) ≡ n
unfolding le_bytes
length-le_bytes zero v = refl
length-le_bytes (suc n) v = ap suc (length-le_bytes n (v / 256))

-- An integer that fits into `n` bytes is read back from them.
pub of_le_bytes-le_bytes : (n v : ℕ) → v < 256 ^ n → of_le_bytes (le_bytes n v) ≡ v
unfolding of_le_bytes le_bytes
of_le_bytes-le_bytes zero v h = omega arith
of_le_bytes-le_bytes (suc n) v h =
    omega (arith, of_le_bytes-le_bytes n (v / 256) (omega (arith, pow-suc 256 n)))

-- What a program sends: integers of three sizes, blocks of bytes, and texts.
pub data Field : Type 0 where
  int1 int4 int8 : ℕ → Field
  block text : List ℕ → Field

-- The integer fits, and a text holds no zero byte.
abbrev pub Fits : Field → Type 0
Fits (int1 v) = v < 256
Fits (int4 v) = v < 2 ^ 32
Fits (int8 v) = v < 2 ^ 64
Fits (block bs) = Unit
Fits (text bs) = All (λ b. b ≢ 0) bs

abbrev pub encoded : Field → List ℕ
encoded (int1 v) = le_bytes 1 v
encoded (int4 v) = le_bytes 4 v
encoded (int8 v) = le_bytes 8 v
encoded (block bs) = bs
encoded (text bs) = bs ++ 0 ∷ []

-- The get call that the receiver makes for a field of this shape. `none` is a fault.
pub receive : Message → Field → Option (Message × Field)
receive m (int1 v) = some ((get_1 m).0, int1 (get_1 m).1)
receive m (int4 v) = some ((get_4 m).0, int4 (get_4 m).1)
receive m (int8 v) = some ((get_8 m).0, int8 (get_8 m).1)
receive m (block bs) = (get_n m (length bs)).1 >>= λ got. some ((get_n m (length bs)).0, block got)
receive m (text bs) = get_string m >>= λ (m', got). some (m', text got)

-- The bytes from `current` on begin with `bs`, inside the message.
pub record Holds (m : Message) (bs : List ℕ) : Type 0 where
  pub bytes : slice m.bytes m.current (length bs) ≡ bs
  pub inside : m.current + length bs ≤ m.header.length
  pub within : m.header.length ≤ m.size

unfoldable pub moved : Message → ℕ → Message
moved m n = record m { current = m.current + n }

pub get_n-Holds :
    (m : Message) (bs : List ℕ) → Holds m bs → get_n m (length bs) ≡ (moved m (length bs), some bs)
unfolding get_n can_get moved
get_n-Holds m bs h =
    let fits : leb (m.current + length bs) m.header.length ≡ true = ground arith in
    rw (fits, h.bytes)

pub string_at-Holds :
    (f : ℕ → ℕ) (p n : ℕ) (bs : List ℕ)
    → All (λ b. b ≢ 0) bs
    → length bs < n
    → slice f p (length (bs ++ 0 ∷ [])) ≡ bs ++ 0 ∷ []
    → string_at f p n ≡ some bs
unfolding string_at slice
string_at-Holds f p zero bs a lt e = absurd (omega arith)
string_at-Holds f p (suc n) [] a lt e = let z : f p ≡ 0 = ap (λ xs. get_or xs 0 0) e in rw z refl
string_at-Holds f p (suc n) (b ∷ bs) a lt e =
    let hd : f p ≡ b = ap (λ xs. get_or xs 0 0) e in
    let go : (b == 0) ≡ false = ground (arith, a.0) in
    let rest = string_at-Holds f (suc p) n bs a.1 (omega arith) (ap (drop 1) e) in
    rw (hd, go, rest) (ap (λ x. some (x ∷ bs)) hd)

pub get_string-Holds :
    (m : Message) (bs : List ℕ)
    → All (λ b. b ≢ 0) bs
    → Holds m (bs ++ 0 ∷ [])
    → get_string m ≡ some (moved m (length (bs ++ 0 ∷ [])), bs)
unfolding get_string moved
get_string-Holds m bs a h =
    let len = length-append bs (0 ∷ []) in
    let at =
      string_at-Holds m.bytes m.current (m.size - m.current) bs a
        (omega (arith, len, h.inside, h.within)) h.bytes in
    let e : m.current + length bs + 1 ≡ m.current + length (bs ++ 0 ∷ []) = omega (arith, len) in
    ap
      (λ (o : Option (List ℕ)). elim o [
        | none ↦ none
        | some got ↦ some (record m { current = m.current + length got + 1 }, got)
      ])
      at
    ∙ rw e refl

number-Holds :
    (m : Message) (n v : ℕ)
    → v < 256 ^ n
    → Holds m (le_bytes n v)
    → number (get_n m n) ≡ (moved m n, v)
number-Holds m n v lt h =
    let got = get_n-Holds m (le_bytes n v) h in
    rw (rw (length-le_bytes n v) at got, of_le_bytes-le_bytes n v lt) refl

pub next-Holds :
    (m : Message) (bs cs : List ℕ)
    → Holds m (bs ++ cs)
    → Holds m bs × Holds (moved m (length bs)) cs
unfolding moved
next-Holds m bs cs h =
    let len = length-append bs cs in
    let both = rw (len, slice-add m.bytes m.current (length bs) (length cs)) at h.bytes in
    let (first, second) = append_inj _ _ bs cs (length-slice m.bytes m.current (length bs)) both in
    (
      record { bytes = first; inside = omega (arith, len, h.inside); within = h.within },
      record { bytes = second; inside = omega (arith, len, h.inside); within = h.within },
    )

pub get_1-Holds :
    (m : Message) (v : ℕ) → v < 256 → Holds m (le_bytes 1 v) → get_1 m ≡ (moved m 1, v)
unfolding get_1
get_1-Holds m v lt h = number-Holds m 1 v (omega arith) h

pub get_4-Holds :
    (m : Message) (v : ℕ) → v < 2 ^ 32 → Holds m (le_bytes 4 v) → get_4 m ≡ (moved m 4, v)
unfolding get_4
get_4-Holds m v lt h = number-Holds m 4 v (omega arith) h

pub get_8-Holds :
    (m : Message) (v : ℕ) → v < 2 ^ 64 → Holds m (le_bytes 8 v) → get_8 m ≡ (moved m 8, v)
unfolding get_8
get_8-Holds m v lt h = number-Holds m 8 v (omega arith) h

-- The get calls for a list of shapes, one after the other.
pub receive_all : Message → List Field → Option (Message × List Field)
receive_all m [] = some (m, [])
receive_all m (s ∷ ss) =
    receive m s >>= λ (m', f). receive_all m' ss >>= λ (m'', fs). some (m'', f ∷ fs)

unfoldable pub all_encoded : List Field → List ℕ
all_encoded [] = []
all_encoded (f ∷ fs) = encoded f ++ all_encoded fs

receive-Holds :
    (m : Message) (f : Field)
    → Fits f
    → Holds m (encoded f)
    → receive m f ≡ some (moved m (length (encoded f)), f)
unfolding receive get_1 get_4 get_8
receive-Holds m (int1 v) fits h = rw (number-Holds m 1 v fits h, length-le_bytes 1 v) refl
receive-Holds m (int4 v) fits h = rw (number-Holds m 4 v (omega arith) h, length-le_bytes 4 v) refl
receive-Holds m (int8 v) fits h = rw (number-Holds m 8 v (omega arith) h, length-le_bytes 8 v) refl
receive-Holds m (block bs) fits h = rw (get_n-Holds m bs h) refl
receive-Holds m (text bs) fits h = rw (get_string-Holds m bs fits h) refl

-- Integers, blocks and texts that stand one after the other in a message, as the append calls put
-- them there, are read back by the get calls of the same shapes, in order, and `current` moves
-- behind the last of them. A text holds no zero byte, and an integer fits its size.
pub receive_all-Holds :
    (m : Message) (fs : List Field)
    → All Fits fs
    → Holds m (all_encoded fs)
    → receive_all m fs ≡ some (record m { current = m.current + length (all_encoded fs) }, fs)
unfolding receive_all all_encoded moved
receive_all-Holds m [] fits h = let e : m.current + 0 ≡ m.current = omega arith in rw e refl
receive_all-Holds m (f ∷ fs) fits h =
    let (here, behind) = next-Holds m (encoded f) (all_encoded fs) h in
    let e : m.current + length (encoded f) + length (all_encoded fs)
        ≡ m.current + length (encoded f ++ all_encoded fs) =
      omega (arith, length-append (encoded f) (all_encoded fs)) in
    rw
      (
        receive-Holds m f fits.0 here,
        receive_all-Holds (moved m (length (encoded f))) fs fits.1 behind,
        e,
      )
      refl
