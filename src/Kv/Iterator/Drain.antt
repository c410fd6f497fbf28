-- ===== src/Kv/Iterator/Drain.antt =====
-- The pairs that are read from a server's reply.
use mathlib.Core.List.{append-nil, append_assoc}
use julea.Common.{
  ℕ, ◌^◌, ◌<◌, ◌≡◌, refl, ap, ◌∙◌, true, none, some, List, [], ◌∷◌, ◌++◌, length, arith, All, ltb,
}
use julea.Message.{Message, le_bytes, get_4}
use julea.Message.Bytes.{
  Field, int4, block, text, all_encoded, Holds, moved, next-Holds, get_string-Holds, get_4-Holds,
  get_n-Holds, length-le_bytes,
}
use julea.Message.Operations.{all_operations}
use julea.Kv.Requests.{IsText}
use julea.Kv.Iterator.{Item, read_item}

abbrev pub item_fields : List ℕ × List ℕ → List Field
item_fields (key, value) = int4 (length value) ∷ block value ∷ text key ∷ []

-- What a server's reply holds for these pairs: the pairs, and a zero length.
abbrev pub reply_fields : List (List ℕ × List ℕ) → List (List Field)
reply_fields [] = (int4 0 ∷ []) ∷ []
reply_fields (item ∷ items) = item_fields item ∷ reply_fields items

-- The value of a pair is not empty.
abbrev pub ItemFits : List ℕ × List ℕ → Type 0
ItemFits (key, value) = IsText key × (0 < length value) × (length value < 2 ^ 32)

abbrev pub item : List ℕ × List ℕ → Item
item (key, value) = record { key = key; value = some value }

read_item-item :
    (r : Message) (x : List ℕ × List ℕ) (rest : List ℕ)
    → ItemFits x
    → Holds r (all_encoded (item_fields x) ++ rest)
    → (r' : Message) × (read_item r ≡ some (r', some (item x))) × Holds r' rest
unfolding read_item all_encoded
read_item-item r (key, value) rest (is_text, positive, short) h =
    let n = le_bytes 4 (length value) in
    let k = key ++ 0 ∷ [] in
    let shape =
      append_assoc n (value ++ (k ++ [])) rest
      ∙ ap (λ (xs : List ℕ). n ++ xs)
          (append_assoc value (k ++ []) rest
            ∙ ap (λ (xs : List ℕ). value ++ xs) (append_assoc k [] rest)) in
    let (h1, t1) = next-Holds r n (value ++ (k ++ rest)) (rw shape at h) in
    let r1 = moved r (length n) in
    let (h2, t2) = next-Holds r1 value (k ++ rest) t1 in
    let r2 = moved r1 (length value) in
    let (h3, t3) = next-Holds r2 k rest t2 in
    let e : get_4 r ≡ (r1, length value) =
      rw (length-le_bytes 4 (length value)) (get_4-Holds r (length value) short h1) in
    let full : ltb 0 (length value) ≡ true = ground arith in
    (
      moved r2 (length k),
      rw (e, get_n-Holds r1 value h2, full, get_string-Holds r2 key is_text h3) refl,
      t3,
    )

read_item-end :
    (r : Message)
    → Holds r (all_operations (reply_fields []))
    → (r' : Message) × (read_item r ≡ some (r', none))
unfolding read_item all_operations all_encoded
read_item-end r h =
    let e =
      get_4-Holds r 0 (omega arith)
        (rw (append-nil (le_bytes 4 0)) at (rw (append-nil (le_bytes 4 0 ++ [])) at h)) in
    (moved r 4, rw e refl)

-- A reply begins with the pairs of its server.
abbrev pub Answers : Message → List (List ℕ × List ℕ) → Type 0
Answers r xs = Holds r (all_operations (reply_fields xs)) × All ItemFits xs

pub read_item-some :
    (r : Message) (x : List ℕ × List ℕ) (xs : List (List ℕ × List ℕ))
    → Answers r (x ∷ xs)
    → (r' : Message) × (read_item r ≡ some (r', some (item x))) × Answers r' xs
unfolding all_operations
read_item-some r x xs (h, fits) =
    let (r', e, h') = read_item-item r x (all_operations (reply_fields xs)) fits.0 h in
    (r', e, (h', fits.1))

pub read_item-none : (r : Message) → Answers r [] → (r' : Message) × (read_item r ≡ some (r', none))
read_item-none r (h, fits) = read_item-end r h
