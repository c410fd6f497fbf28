-- ===== src/BackendOperation/Receiving.antt =====
-- What the functions that read parameters find where they were sent.
use mathlib.Core.List.{append_assoc}
use julea.Common.{
  ℕ, ◌+◌, ◌-◌, ◌<◌, ◌≡◌, refl, ap, Bool, true, false, ◌&&◌, some, List, [], ◌∷◌, ◌++◌, ◌==◌, length,
  map, drop, u32_mod, arith, length-append, Bool-cases, inl, inr, ◌>>=◌, subst,
}
use julea.Kv.Requests.{IsText}
use julea.Message.{Message, get_4, get_n, le_bytes}
use julea.Message.Bytes.{
  Field, all_encoded, Holds, moved, next-Holds, get_4-Holds, get_n-Holds, string_at-Holds,
  length-le_bytes,
}
use julea.Message.Reserve.{total}
use julea.BackendOperation.{
  Param, str, str_null, blob, blob_null, bson, bson_null, error, error_unset, error_null, ParamType,
  type_str, type_blob, type_bson, type_error, Value, null, bytes, no_error, an_error, pointer,
  get_text, get_error, get_value, get_param, from_message_static,
}
use julea.BackendOperation.Sending.{
  value_fields, value_size, param_fields, params_fields, Sendable, SendableAll, params_size,
  params_size-cons,
}

abbrev pub type_of : Param → ParamType
type_of (str s) = type_str
type_of str_null = type_str
type_of (blob bs) = type_blob
type_of (blob_null n) = type_blob
type_of (bson d) = type_bson
type_of bson_null = type_bson
type_of (error domain code text) = type_error
type_of error_unset = type_error
type_of error_null = type_error

abbrev pub value_of : Param → Value
value_of (str s) = bytes (s ++ 0 ∷ [])
value_of str_null = null
value_of (blob bs) = bytes bs
value_of (blob_null n) = null
value_of (bson d) = bytes d
value_of bson_null = null
value_of (error domain code text) = an_error (some domain) code (some text)
value_of error_unset = no_error
value_of error_null = null

-- A read finds the fields that were written, and what follows comes next.
pub next_4 :
    (m : Message) (v : ℕ) (rest : List ℕ)
    → v < u32_mod
    → Holds m (le_bytes 4 v ++ rest)
    → (get_4 m ≡ (moved m 4, v)) × Holds (moved m 4) rest
next_4 m v rest lt h =
    let (h1, t1) = next-Holds m (le_bytes 4 v) rest h in
    (get_4-Holds m v lt h1, rw (length-le_bytes 4 v) at t1)

pub next_block :
    (m : Message) (n : ℕ) (bs rest : List ℕ)
    → n ≡ length bs
    → Holds m (bs ++ rest)
    → (get_n m n ≡ (moved m (length bs), some bs)) × Holds (moved m (length bs)) rest
next_block m n bs rest e h =
    let (h1, t1) = next-Holds m bs rest h in (rw e (get_n-Holds m bs h1), t1)

pub get_text-Holds :
    (m : Message) (s rest : List ℕ)
    → IsText s
    → Holds m ((s ++ 0 ∷ []) ++ rest)
    → let m' = moved m (length s + 1) in
      (get_text m (length s + 1) ≡ some (m', some s))
      × (get_n m (length s + 1) ≡ (m', some (s ++ 0 ∷ [])))
      × Holds m' rest
unfolding get_text
get_text-Holds m s rest ok h =
    let (h1, t1) = next-Holds m (s ++ 0 ∷ []) rest h in
    let len : length (s ++ 0 ∷ []) ≡ length s + 1 = length-append s (0 ∷ []) in
    let got = rw len at (get_n-Holds m (s ++ 0 ∷ []) h1) in
    let found =
      string_at-Holds m.bytes m.current (m.size - m.current) s ok
        (omega (arith, len, h1.inside, h1.within)) h1.bytes in
    (rw (got, found) refl, got, rw len at t1)

-- The sizes of an error's texts are 32-bit words if the whole value's is.
error_sizes :
    (domain : List ℕ) (code : ℕ) (text : List ℕ)
    → value_size (error domain code text) < u32_mod
    → (length domain + 1 < u32_mod) × (length text + 1 < u32_mod)
unfolding total le_bytes
error_sizes domain code text small =
    let len1 = length-append domain (0 ∷ []) in
    let len2 = length-append text (0 ∷ []) in
    (omega (arith, len1, small), omega (arith, len2, small))

-- The five reads of an error, with both ways to read its texts.
abbrev pub ErrorRead : Message → List ℕ → ℕ → List ℕ → List ℕ → Type 0
ErrorRead m domain code text rest =
    let m1 = moved m 4 in
    let m2 = moved m1 4 in
    let m3 = moved m2 4 in
    let m4 = moved m3 (length domain + 1) in
    let m5 = moved m4 (length text + 1) in
    (get_4 m ≡ (m1, code))
    × (get_4 m1 ≡ (m2, length domain + 1))
    × (get_4 m2 ≡ (m3, length text + 1))
    × (get_text m3 (length domain + 1) ≡ some (m4, some domain))
    × (get_n m3 (length domain + 1) ≡ (m4, some (domain ++ 0 ∷ [])))
    × (get_text m4 (length text + 1) ≡ some (m5, some text))
    × (get_n m4 (length text + 1) ≡ (m5, some (text ++ 0 ∷ [])))
    × Holds m5 rest

pub ErrorRead-Holds :
    (m : Message) (domain : List ℕ) (code : ℕ) (text : List ℕ) (gs : List Field)
    → IsText domain
    → IsText text
    → code < u32_mod
    → value_size (error domain code text) < u32_mod
    → Holds m (all_encoded (drop 2 (value_fields (error domain code text)) ++ gs))
    → ErrorRead m domain code text (all_encoded gs)
unfolding all_encoded
ErrorRead-Holds m domain code text gs ok1 ok2 code_small small h =
    let (lt1, lt2) = error_sizes domain code text small in
    let (e1, h1) = next_4 m code _ code_small h in
    let (e2, h2) = next_4 (moved m 4) (length domain + 1) _ lt1 h1 in
    let (e3, h3) = next_4 (moved (moved m 4) 4) (length text + 1) _ lt2 h2 in
    let m3 = moved (moved (moved m 4) 4) 4 in
    let (e4, f4, h4) = get_text-Holds m3 domain _ ok1 h3 in
    let (e5, f5, h5) = get_text-Holds (moved m3 (length domain + 1)) text _ ok2 h4 in
    (e1, e2, e3, e4, f4, e5, f5, h5)

pub get_error-ErrorRead :
    (m : Message) (domain : List ℕ) (code : ℕ) (text rest : List ℕ)
    → ErrorRead m domain code text rest
    → get_error m
      ≡ some (
        moved (moved (moved (moved (moved m 4) 4) 4) (length domain + 1)) (length text + 1),
        an_error (some domain) code (some text),
      )
unfolding get_error
get_error-ErrorRead m domain code text rest (e1, e2, e3, e4, f4, e5, f5, h) =
    rw (e1, e2, e3, e4, e5) refl

module _ (valid : List ℕ → Bool) where
  -- What a parameter contributes to the result: errors make it false.
  abbrev pub is_ok : Param → Bool
  is_ok (str s) = true
  is_ok str_null = true
  is_ok (blob bs) = true
  is_ok (blob_null n) = true
  is_ok (bson d) = valid d
  is_ok bson_null = true
  is_ok (error domain code text) = false
  is_ok error_unset = true
  is_ok error_null = true

  abbrev pub all_ok : List Param → Bool
  all_ok [] = true
  all_ok (p ∷ ps) = is_ok p && all_ok ps

  -- The rest of the fields come next.
  abbrev pub Gets : Message → Param → List Field → Type 0
  Gets m p gs =
      (m' : Message) × (get_value valid m (value_size p) (type_of p)
        ≡ some (m', value_of p, is_ok p))
      × Holds m' (all_encoded gs)

  get_value-Holds :
      (m : Message) (p : Param) (gs : List Field)
      → Sendable p
      → 0 < value_size p
      → value_size p < u32_mod
      → Holds m (all_encoded (value_fields p ++ gs))
      → Gets m p gs
  unfolding all_encoded get_value total le_bytes
  get_value-Holds m (str s) gs ok some_bytes small h =
      let (e, h') =
        next_block m (value_size (str s)) (s ++ 0 ∷ []) (all_encoded gs) (omega arith) h in
      (_, ap pointer e, h')
  get_value-Holds m str_null gs ok some_bytes small h = absurd (omega arith)
  get_value-Holds m (blob bs) gs ok some_bytes small h =
      let (e, h') = next_block m (value_size (blob bs)) bs (all_encoded gs) (omega arith) h in
      (_, ap pointer e, h')
  get_value-Holds m (blob_null n) gs ok some_bytes small h = absurd ok
  get_value-Holds m (bson d) gs ok some_bytes small h =
      let (e, h') = next_block m (value_size (bson d)) d (all_encoded gs) (omega arith) h in
      (_, ap (λ (m', got). got >>= λ d'. some (m', bytes d', valid d')) e, h')
  get_value-Holds m bson_null gs ok some_bytes small h = absurd (omega arith)
  get_value-Holds m (error domain code text) gs ok some_bytes small h =
      let m2 = moved (moved m 4) 4 in
      let (e1, h1) = next_4 m 1 _ (omega arith) h in
      let (e2, h2) = next_4 (moved m 4) 1 _ (omega arith) h1 in
      let parts = ErrorRead-Holds m2 domain code text gs ok.0 ok.1 ok.2 small h2 in
      let e3 = get_error-ErrorRead m2 domain code text (all_encoded gs) parts in
      (_, rw (e1, e2, e3) refl, parts.7)
  get_value-Holds m error_unset gs ok some_bytes small h =
      let (e1, h1) = next_4 m 1 _ (omega arith) h in
      let (e2, h2) = next_4 (moved m 4) 0 (all_encoded gs) (omega arith) h1 in
      (_, rw (e1, e2) refl, h2)
  get_value-Holds m error_null gs ok some_bytes small h =
      let (e1, h1) = next_4 m 0 (all_encoded gs) (omega arith) h in (moved m 4, rw e1 refl, h1)

  -- A value without bytes is the NULL pointer.
  pub value-nothing :
      (p : Param)
      → Sendable p
      → (value_size p == 0) ≡ true
      → (value_of p ≡ null) × (is_ok p ≡ true) × (value_fields p ≡ [])
  unfolding total le_bytes
  value-nothing (str s) ok e = absurd (ground (arith, length-append s (0 ∷ [])))
  value-nothing str_null ok e = (refl, refl, refl)
  value-nothing (blob bs) ok e = absurd (ground (arith, ok))
  value-nothing (blob_null n) ok e = absurd ok
  value-nothing (bson d) ok e = absurd (ground (arith, ok))
  value-nothing bson_null ok e = (refl, refl, refl)
  value-nothing (error domain code text) ok e = absurd (ground arith)
  value-nothing error_unset ok e = absurd (ground arith)
  value-nothing error_null ok e = absurd (ground arith)

  get_param-Holds :
      (m : Message) (p : Param) (gs : List Field)
      → Sendable p
      → value_size p < u32_mod
      → Holds m (all_encoded (param_fields p ++ gs))
      → (m' : Message) × (get_param valid m (type_of p) ≡ some (m', value_of p, is_ok p))
        × Holds m' (all_encoded gs)
  unfolding get_param all_encoded
  get_param-Holds m p gs ok small h =
      let (e, h') = next_4 m (value_size p) _ small h in
      elim (Bool-cases (value_size p == 0)) [
        | inl nothing ↦
            let (e1, e2, e3) = value-nothing p ok nothing in
            (
              moved m 4,
              rw (e, nothing, e1, e2) refl,
              subst (λ fs. Holds (moved m 4) (all_encoded (fs ++ gs))) e3 h',
            )
        | inr something ↦
            let (m', got, h'') =
              get_value-Holds (moved m 4) p gs ok (ground (arith, something)) small h' in
            (m', rw (e, something, got) refl, h'')
      ]

  -- The parameters of one operation are read back, and the next operation's come next.
  pub from_message_static-Holds :
      (m : Message) (ps : List Param) (gs : List Field)
      → SendableAll ps
      → params_size ps < u32_mod
      → Holds m (all_encoded (params_fields ps ++ gs))
      → (m' : Message) × (from_message_static valid m (map type_of ps)
          ≡ some (m', map value_of ps, all_ok ps))
        × Holds m' (all_encoded gs)
  unfolding from_message_static
  from_message_static-Holds m [] gs ok small h = (m, refl, h)
  from_message_static-Holds m (p ∷ ps) gs ok small h =
      let cons = params_size-cons p ps in
      let (m1, e1, h1) =
        get_param-Holds m p (params_fields ps ++ gs) ok.0 (omega (arith, cons))
          (rw (append_assoc (param_fields p) (params_fields ps) gs) at h) in
      let (m2, e2, h2) = from_message_static-Holds m1 ps gs ok.1 (omega (arith, cons)) h1 in
      (m2, rw (e1, e2) refl, h2)
