-- ===== src/Object/Chunks.antt =====
-- A write that is split into operations is the same write.
use julea.Common.{
  length-drop, ℕ, zero, suc, ◌+◌, ◌<◌, ◌≤◌, ◌≡◌, refl, ap, sym, subst, ◌∙◌, min, some, List, [],
  ◌∷◌, ◌++◌, length, take, drop, arith, u64, u64_mod, map, ◌==◌, false,
}
use julea.Message.Reserve.{joined}
use julea.Object.{Write, chunks}

take-drop : (n : ℕ) (xs : List ℕ) → take n xs ++ drop n xs ≡ xs
take-drop zero xs = refl
take-drop (suc n) [] = refl
take-drop (suc n) (x ∷ xs) = ap (◌∷◌ x) (take-drop n xs)

length-take : (n : ℕ) (xs : List ℕ) → n ≤ length xs → length (take n xs) ≡ n
length-take zero xs h = refl
length-take (suc n) [] h = absurd (omega arith)
length-take (suc n) (x ∷ xs) h = ap suc (length-take n xs (omega arith))

-- The operations follow one another from the offset on, none empty and none too long.
abbrev pub Chained : (max_operation_size : ℕ) → (offset : ℕ) → List Write → Type 0
Chained max_operation_size offset [] = Unit
Chained max_operation_size offset (w ∷ ws) =
    (w.offset ≡ offset)
    × (0 < length w.bytes)
    × (length w.bytes ≤ max_operation_size)
    × Chained max_operation_size (offset + length w.bytes) ws

abbrev pub write_bytes_of : Write → List ℕ
write_bytes_of w = w.bytes

-- One round.
chunks-round :
    (fuel max_operation_size x : ℕ) (xs : List ℕ) (offset : ℕ) (ws : List Write)
    → let n = min (length (x ∷ xs)) max_operation_size in
      offset + n < u64_mod
      → chunks fuel max_operation_size (drop n (x ∷ xs)) (offset + n) ≡ some ws
      → chunks (suc fuel) max_operation_size (x ∷ xs) offset
        ≡ some (record { bytes = take n (x ∷ xs); offset = offset } ∷ ws)
unfolding chunks
chunks-round fuel max_operation_size x xs offset ws fits e =
    let n = min (length (x ∷ xs)) max_operation_size in
    let some_left : (length (x ∷ xs) == 0) ≡ false = ground arith in
    let next : u64 (offset + n) ≡ offset + n = omega arith in rw (some_left, next, e) refl

-- The loop of `j_object_write` ends after at most as many rounds as there are bytes, if the
-- largest operation has at least one byte: the operations hold the bytes in order, follow one
-- another from the offset on, and none is empty or longer than the largest.
pub chunks-Chained :
    (fuel max_operation_size : ℕ) (bytes : List ℕ) (offset : ℕ)
    → 0 < max_operation_size
    → offset + length bytes < u64_mod
    → length bytes < fuel
    → (ws : List Write) × (chunks fuel max_operation_size bytes offset ≡ some ws)
      × (joined (map write_bytes_of ws) ≡ bytes)
      × Chained max_operation_size offset ws
unfolding chunks joined
chunks-Chained zero max_operation_size bytes offset pos fits enough = absurd (omega arith)
chunks-Chained (suc fuel) max_operation_size [] offset pos fits enough = ([], refl, refl, tt)
chunks-Chained (suc fuel) max_operation_size (x ∷ xs) offset pos fits enough =
    let bytes = x ∷ xs in
    let n = min (length bytes) max_operation_size in
    let len : length (take n bytes) ≡ n = length-take n bytes (omega arith) in
    let left = length-drop n bytes in
    let (ws, e, all, chained) =
      chunks-Chained fuel max_operation_size (drop n bytes) (offset + n) pos (omega arith)
        (omega arith) in
    (
      record { bytes = take n bytes; offset = offset } ∷ ws,
      chunks-round fuel max_operation_size x xs offset ws (omega arith) e,
      ap (λ (ys : List ℕ). take n bytes ++ ys) all ∙ take-drop n bytes,
      (
        refl,
        omega arith,
        omega arith,
        subst (λ k. Chained max_operation_size (offset + k) ws) (sym len) chained,
      ),
    )
