-- ===== src/BackendOperation/Sending.antt =====
-- The fields of a message that `j_backend_operation_to_message` writes.
use julea.Common.{
  ℕ, ◌+◌, ◌<◌, ◌≡◌, refl, sym, ap, ◌∙◌, true, Bool-cases, inl, inr, List, [], ◌∷◌, ◌++◌, ◌==◌,
  length, take, map, concat, u32, u32_mod, arith, length-append, take-append,
}
use mathlib.Core.List.{append-nil, map-append}
use julea.Kv.Requests.{IsText}
use julea.Message.{Message, append_n, append_4, add_operation, le_bytes}
use julea.Message.Bytes.{Field, int4, block, encoded}
use julea.Message.Reserve.{total}
use julea.Message.Operations.{append_each, pieces, operation}
use julea.BackendOperation.{
  Param, str, str_null, blob, blob_null, bson, bson_null, error, error_unset, error_null, param_len,
  params_len, append_error, append_value, append_param, append_params, to_message,
}

abbrev pub value_fields : Param → List Field
value_fields (str s) = block (s ++ 0 ∷ []) ∷ []
value_fields str_null = []
value_fields (blob bs) = block bs ∷ []
value_fields (blob_null n) = []
value_fields (bson d) = block d ∷ []
value_fields bson_null = []
value_fields (error domain code text) =
    int4 1
    ∷ int4 1
    ∷ int4 code
    ∷ int4 (length domain + 1)
    ∷ int4 (length text + 1)
    ∷ block (domain ++ 0 ∷ [])
    ∷ block (text ++ 0 ∷ [])
    ∷ []
value_fields error_unset = int4 1 ∷ int4 0 ∷ []
value_fields error_null = int4 0 ∷ []

-- How many bytes follow the length.
abbrev pub value_size : Param → ℕ
value_size p = total (pieces (value_fields p))

abbrev pub param_fields : Param → List Field
param_fields p = int4 (value_size p) ∷ value_fields p

abbrev pub params_fields : List Param → List Field
params_fields ps = concat (map param_fields ps)

-- Texts hold no zero byte, blocks and documents are not empty, a block has a pointer, and a code
-- is a 32-bit word.
abbrev pub Sendable : Param → Type 0
Sendable (str s) = IsText s
Sendable str_null = Unit
Sendable (blob bs) = 0 < length bs
Sendable (blob_null n) = ⊥
Sendable (bson d) = 0 < length d
Sendable bson_null = Unit
Sendable (error domain code text) = IsText domain × IsText text × (code < u32_mod)
Sendable error_unset = Unit
Sendable error_null = Unit

abbrev pub SendableAll : List Param → Type 0
SendableAll [] = Unit
SendableAll (p ∷ ps) = Sendable p × SendableAll ps

abbrev terminated : List ℕ → List ℕ
terminated s = s ++ 0 ∷ []

length-terminated : (s : List ℕ) → length (terminated s) ≡ length s + 1
length-terminated s = length-append s (0 ∷ [])

take_all : (n : ℕ) (xs : List ℕ) → n ≡ length xs → take n xs ≡ xs
take_all n xs e = rw e (ap (take (length xs)) (sym (append-nil xs)) ∙ take-append xs [])

param_len-value_size :
    (p : Param) → Sendable p → value_size p < u32_mod → param_len p ≡ value_size p
unfolding param_len total le_bytes
param_len-value_size (str s) ok small = omega (arith, length-terminated s)
param_len-value_size str_null ok small = refl
param_len-value_size (blob bs) ok small = omega arith
param_len-value_size (blob_null n) ok small = absurd ok
param_len-value_size (bson d) ok small = omega arith
param_len-value_size bson_null ok small = refl
param_len-value_size (error domain code text) ok small =
    omega (arith, length-terminated domain, length-terminated text)
param_len-value_size error_unset ok small = refl
param_len-value_size error_null ok small = refl

append_whole :
    (m : Message) (n : ℕ) (b : List ℕ)
    → n ≡ length b
    → (append_n m (take n b)).0 ≡ append_each m (b ∷ [])
unfolding append_each
append_whole m n b e = ap (λ (xs : List ℕ). (append_n m xs).0) (take_all n b e)

append_error-fields :
    (m : Message) (domain : List ℕ) (code : ℕ) (text : List ℕ)
    → value_size (error domain code text) < u32_mod
    → append_error m domain code text
      ≡ append_each m (pieces (value_fields (error domain code text)))
unfolding append_error append_each total append_4
append_error-fields m domain code text small =
    let len1 = length-terminated domain in
    let len2 = length-terminated text in
    let e1 : u32 (length domain + 1) ≡ length domain + 1 = omega (arith, len1, small) in
    let e2 : u32 (length text + 1) ≡ length text + 1 = omega (arith, len2, small) in
    let t1 = take_all (length domain + 1) (terminated domain) (sym len1) in
    let t2 = take_all (length text + 1) (terminated text) (sym len2) in
    rw (append_error, e1, e2, t1, t2) refl

append_value-fields :
    (m : Message) (p : Param)
    → Sendable p
    → value_size p < u32_mod
    → append_value m (value_size p) p ≡ append_each m (pieces (value_fields p))
unfolding append_value append_each total append_4
append_value-fields m (str s) ok small =
    append_whole m (value_size (str s)) (terminated s) (omega arith)
append_value-fields m str_null ok small = refl
append_value-fields m (blob bs) ok small = append_whole m (value_size (blob bs)) bs (omega arith)
append_value-fields m (blob_null n) ok small = absurd ok
append_value-fields m (bson d) ok small = append_whole m (value_size (bson d)) d (omega arith)
append_value-fields m bson_null ok small = refl
append_value-fields m (error domain code text) ok small =
    append_error-fields m domain code text small
append_value-fields m error_unset ok small = refl
append_value-fields m error_null ok small = refl

append_each-append :
    (m : Message) (xs ys : List (List ℕ))
    → append_each m (xs ++ ys) ≡ append_each (append_each m xs) ys
unfolding append_each
append_each-append m [] ys = refl
append_each-append m (x ∷ xs) ys = append_each-append (append_n m x).0 xs ys

-- Nothing is appended for a parameter of length 0.
append_value-nothing :
    (m : Message) (p : Param)
    → Sendable p
    → (value_size p == 0) ≡ true
    → append_each m (pieces (value_fields p)) ≡ m
unfolding append_each total le_bytes
append_value-nothing m (str s) ok e = absurd (ground (arith, length-terminated s))
append_value-nothing m str_null ok e = refl
append_value-nothing m (blob bs) ok e = absurd (ground (arith, ok))
append_value-nothing m (blob_null n) ok e = absurd ok
append_value-nothing m (bson d) ok e = absurd (ground (arith, ok))
append_value-nothing m bson_null ok e = refl
append_value-nothing m (error domain code text) ok e = absurd (ground arith)
append_value-nothing m error_unset ok e = absurd (ground arith)
append_value-nothing m error_null ok e = absurd (ground arith)

append_param-fields :
    (m : Message) (p : Param)
    → Sendable p
    → value_size p < u32_mod
    → append_param m p ≡ append_each m (pieces (param_fields p))
unfolding append_param append_each append_4
append_param-fields m p ok small =
    rw (param_len-value_size p ok small) (elim (Bool-cases (value_size p == 0)) [
      | inl nothing ↦
          rw nothing (sym (append_value-nothing (append_4 m (value_size p)).0 p ok nothing))
      | inr something ↦ rw something (append_value-fields (append_4 m (value_size p)).0 p ok small)
    ])

total-append : (xs ys : List (List ℕ)) → total (xs ++ ys) ≡ total xs + total ys
unfolding total
total-append [] ys = omega arith
total-append (x ∷ xs) ys = omega (arith, total-append xs ys)

abbrev pub params_size : List Param → ℕ
params_size ps = total (pieces (params_fields ps))

pub params_size-cons :
    (p : Param) (ps : List Param) → params_size (p ∷ ps) ≡ 4 + value_size p + params_size ps
unfolding total le_bytes
params_size-cons p ps =
    let e =
      ap total (map-append encoded (param_fields p) (params_fields ps))
      ∙ total-append (pieces (param_fields p)) (pieces (params_fields ps)) in
    omega (arith, e)

params_len-params_size :
    (len : ℕ) (ps : List Param)
    → SendableAll ps
    → len + params_size ps < u32_mod
    → params_len len ps ≡ len + params_size ps
unfolding params_len
params_len-params_size len [] ok small = unfold total in omega arith
params_len-params_size len (p ∷ ps) ok small =
    let cons = params_size-cons p ps in
    let e = param_len-value_size p ok.0 (omega (arith, cons)) in
    let e' : u32 (u32 (len + 4) + param_len p) ≡ len + 4 + value_size p = omega (arith, cons, e) in
    let rest = params_len-params_size (len + 4 + value_size p) ps ok.1 (omega (arith, cons)) in
    rw (e', rest) (omega (arith, cons))

append_params-fields :
    (m : Message) (ps : List Param)
    → SendableAll ps
    → params_size ps < u32_mod
    → append_params m ps ≡ append_each m (pieces (params_fields ps))
unfolding append_params
append_params-fields m [] ok small = unfold append_each in refl
append_params-fields m (p ∷ ps) ok small =
    let cons = params_size-cons p ps in
    rw (map-append encoded (param_fields p) (params_fields ps)) (
      append_params-fields (append_param m p) ps ok.1 (omega (arith, cons))
      ∙ ap (λ m'. append_each m' (pieces (params_fields ps)))
          (append_param-fields m p ok.0 (omega (arith, cons)))
      ∙ sym (append_each-append m (pieces (param_fields p)) (pieces (params_fields ps))))

-- The message is that of an operation with the parameters' fields.
pub to_message-operation :
    (magnitude : ℕ → ℕ) (m : Message) (ps : List Param)
    → SendableAll ps
    → params_size ps < u32_mod
    → to_message magnitude m ps ≡ operation magnitude m (params_fields ps)
unfolding to_message operation
to_message-operation magnitude m ps ok small =
    let e : params_len 0 ps ≡ params_size ps =
      params_len-params_size 0 ps ok (omega arith) ∙ omega arith in
    rw e (append_params-fields (add_operation magnitude m (params_size ps)) ps ok small)
