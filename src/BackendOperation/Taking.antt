-- ===== src/BackendOperation/Taking.antt =====
-- What `j_backend_operation_from_message` finds: the client's side of a reply.
use mathlib.Core.List.{append_assoc}
use julea.Common.{
  ℕ, ◌+◌, ◌<◌, ◌≡◌, refl, ap, Bool, true, false, some, List, [], ◌∷◌, ◌++◌, ◌==◌, length, u32_mod,
  arith, length-append, Bool-cases, inl, inr, ◌>>=◌, subst, if◌then◌else◌,
}
use julea.Message.{Message, le_bytes}
use julea.Message.Bytes.{Field, all_encoded, Holds, moved}
use julea.Message.Reserve.{total}
use julea.BackendOperation.{
  Param, str, str_null, blob, blob_null, bson, bson_null, error, error_unset, error_null, ParamType,
  Value, null, bytes, an_error, take_value, take_param, from_message, set_error,
}
use julea.BackendOperation.Sending.{
  value_fields, value_size, param_fields, params_fields, Sendable, params_size, params_size-cons,
}
use julea.BackendOperation.Receiving.{
  type_of, is_ok, all_ok, next_4, next_block, get_text-Holds, ErrorRead-Holds, get_error-ErrorRead,
  value-nothing,
}

-- A parameter that a server replies with, and whether the client wants it.
abbrev pub Reply : Type 0
Reply = Param × Bool

-- Blocks are left out: they are copied as texts; and a text is wanted.
abbrev pub Takeable : Param → Bool → Type 0
Takeable (str s) w = w ≡ true
Takeable str_null w = Unit
Takeable (blob bs) w = ⊥
Takeable (blob_null n) w = ⊥
Takeable (bson d) w = Unit
Takeable bson_null w = Unit
Takeable (error domain code text) w = Unit
Takeable error_unset w = Unit
Takeable error_null w = Unit

abbrev pub TakeableAll : List Reply → Type 0
TakeableAll [] = Unit
TakeableAll ((p, w) ∷ rs) = Sendable p × Takeable p w × TakeableAll rs

abbrev pub reply_types : List Reply → List (ParamType × Bool)
reply_types [] = []
reply_types ((p, w) ∷ rs) = (type_of p, w) ∷ reply_types rs

abbrev pub params_of : List Reply → List Param
params_of [] = []
params_of ((p, w) ∷ rs) = p ∷ params_of rs

abbrev pub taken_of : Param → Bool → Value
taken_of (str s) w = bytes s
taken_of str_null w = null
taken_of (blob bs) w = null
taken_of (blob_null n) w = null
taken_of (bson d) w = if w then bytes d else null
taken_of bson_null w = null
taken_of (error domain code text) w = if w then an_error (some domain) code (some text) else null
taken_of error_unset w = null
taken_of error_null w = null

abbrev pub all_taken : List Reply → List Value
all_taken [] = []
all_taken ((p, w) ∷ rs) = taken_of p w ∷ all_taken rs

module _ (valid : List ℕ → Bool) where
  take_value-Holds :
      (m : Message) (p : Param) (w : Bool) (gs : List Field)
      → Sendable p
      → Takeable p w
      → 0 < value_size p
      → value_size p < u32_mod
      → Holds m (all_encoded (value_fields p ++ gs))
      → (m' : Message) × (take_value valid m (value_size p) (type_of p) w
          ≡ some (m', taken_of p w, is_ok valid p))
        × Holds m' (all_encoded gs)
  unfolding all_encoded take_value total le_bytes set_error
  take_value-Holds m (str s) w gs ok can some_bytes small h =
      let e : value_size (str s) ≡ length s + 1 = omega (arith, length-append s (0 ∷ [])) in
      let (got, _, h') = get_text-Holds m s (all_encoded gs) ok h in (_, rw (can, e, got) refl, h')
  take_value-Holds m str_null w gs ok can some_bytes small h = absurd (omega arith)
  take_value-Holds m (blob bs) w gs ok can some_bytes small h = absurd can
  take_value-Holds m (blob_null n) w gs ok can some_bytes small h = absurd can
  take_value-Holds m (bson d) w gs ok can some_bytes small h =
      let (e, h') = next_block m (value_size (bson d)) d (all_encoded gs) (omega arith) h in
      (_, ap (λ (m', got). got >>= λ d'. some (m', if w then bytes d' else null, valid d')) e, h')
  take_value-Holds m bson_null w gs ok can some_bytes small h = absurd (omega arith)
  take_value-Holds m (error domain code text) true gs ok can some_bytes small h =
      let m2 = moved (moved m 4) 4 in
      let (e1, h1) = next_4 m 1 _ (omega arith) h in
      let (e2, h2) = next_4 (moved m 4) 1 _ (omega arith) h1 in
      let parts = ErrorRead-Holds m2 domain code text gs ok.0 ok.1 ok.2 small h2 in
      let e3 = get_error-ErrorRead m2 domain code text (all_encoded gs) parts in
      (_, rw (e1, e2, e3) refl, parts.7)
  take_value-Holds m (error domain code text) false gs ok can some_bytes small h =
      let m2 = moved (moved m 4) 4 in
      let (e1, h1) = next_4 m 1 _ (omega arith) h in
      let (e2, h2) = next_4 (moved m 4) 1 _ (omega arith) h1 in
      let parts = ErrorRead-Holds m2 domain code text gs ok.0 ok.1 ok.2 small h2 in
      (_, rw (e1, e2, parts.0, parts.1, parts.2, parts.4, parts.6) refl, parts.7)
  take_value-Holds m error_unset w gs ok can some_bytes small h =
      let (e1, h1) = next_4 m 1 _ (omega arith) h in
      let (e2, h2) = next_4 (moved m 4) 0 (all_encoded gs) (omega arith) h1 in
      (_, rw (e1, e2) refl, h2)
  take_value-Holds m error_null w gs ok can some_bytes small h =
      let (e1, h1) = next_4 m 0 (all_encoded gs) (omega arith) h in (_, rw e1 refl, h1)

  taken-nothing :
      (p : Param) (w : Bool) → Sendable p → (value_size p == 0) ≡ true → taken_of p w ≡ null
  unfolding total le_bytes
  taken-nothing (str s) w ok e = absurd (ground (arith, length-append s (0 ∷ [])))
  taken-nothing str_null w ok e = refl
  taken-nothing (blob bs) w ok e = refl
  taken-nothing (blob_null n) w ok e = refl
  taken-nothing (bson d) w ok e = absurd (ground (arith, ok))
  taken-nothing bson_null w ok e = refl
  taken-nothing (error domain code text) w ok e = absurd (ground arith)
  taken-nothing error_unset w ok e = refl
  taken-nothing error_null w ok e = refl

  take_param-Holds :
      (m : Message) (p : Param) (w : Bool) (gs : List Field)
      → Sendable p
      → Takeable p w
      → value_size p < u32_mod
      → Holds m (all_encoded (param_fields p ++ gs))
      → (m' : Message) × (take_param valid m (type_of p, w)
          ≡ some (m', taken_of p w, is_ok valid p))
        × Holds m' (all_encoded gs)
  unfolding take_param all_encoded
  take_param-Holds m p w gs ok can small h =
      let (e, h') = next_4 m (value_size p) _ small h in
      elim (Bool-cases (value_size p == 0)) [
        | inl nothing ↦
            let (e1, e2, e3) = value-nothing valid p ok nothing in
            (
              moved m 4,
              rw (e, nothing, taken-nothing p w ok nothing, e2) refl,
              subst (λ fs. Holds (moved m 4) (all_encoded (fs ++ gs))) e3 h',
            )
        | inr something ↦
            let (m', got, h'') =
              take_value-Holds (moved m 4) p w gs ok can (ground (arith, something)) small h' in
            (m', rw (e, something, got) refl, h'')
      ]

  -- The parameters of one operation's reply are read, and the next operation's come next.
  pub from_message-Holds :
      (m : Message) (rs : List Reply) (gs : List Field)
      → TakeableAll rs
      → params_size (params_of rs) < u32_mod
      → Holds m (all_encoded (params_fields (params_of rs) ++ gs))
      → (m' : Message) × (from_message valid m (reply_types rs)
          ≡ some (m', all_taken rs, all_ok valid (params_of rs)))
        × Holds m' (all_encoded gs)
  unfolding from_message
  from_message-Holds m [] gs ok small h = (m, refl, h)
  from_message-Holds m ((p, w) ∷ rs) gs ok small h =
      let cons = params_size-cons p (params_of rs) in
      let (m1, e1, h1) =
        take_param-Holds m p w (params_fields (params_of rs) ++ gs) ok.0 ok.1 (omega (arith, cons))
          (rw (append_assoc (param_fields p) (params_fields (params_of rs)) gs) at h) in
      let (m2, e2, h2) = from_message-Holds m1 rs gs ok.2 (omega (arith, cons)) h1 in
      (m2, rw (e1, e2) refl, h2)
