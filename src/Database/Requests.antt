-- ===== src/Database/Requests.antt =====
-- The request with the parameters of database calls, and what the server reads from it.
use mathlib.Core.List.{append_assoc}
use julea.Common.{
  ℕ, ◌+◌, ◌<◌, ◌≡◌, refl, sym, ap, ◌∙◌, Bool, some, List, [], ◌∷◌, ◌++◌, length, map, concat,
  u32_mod, arith, length-map,
}
use julea.Common.Slices.{slice}
use julea.Message.{Message}
use julea.Message
use julea.Message.Bytes.{Field, encoded, all_encoded, Holds}
use julea.Message.Operations.{
  Carries, AllSmall, all_operations, operation, operations, operations-Carries,
}
use julea.BackendOperation.{from_message_static}
use julea.BackendOperation.Sending.{SendableAll, params_fields, params_size, to_message-operation}
use julea.BackendOperation.Receiving.{type_of, value_of, all_ok, from_message_static-Holds}
use julea.Server.Database.{Call, in_types}
use julea.Database.{Operation, add_operations, exec_request}

pub all_encoded-append :
    (fs gs : List Field) → all_encoded (fs ++ gs) ≡ all_encoded fs ++ all_encoded gs
unfolding all_encoded
all_encoded-append [] gs = refl
all_encoded-append (f ∷ fs) gs =
    ap (λ (xs : List ℕ). encoded f ++ xs) (all_encoded-append fs gs)
    ∙ sym (append_assoc (encoded f) (all_encoded fs) (all_encoded gs))

pub all_operations-concat :
    (fss : List (List Field)) → all_operations fss ≡ all_encoded (concat fss)
unfolding all_operations
all_operations-concat [] = unfold all_encoded in refl
all_operations-concat (fs ∷ fss) =
    ap (λ (xs : List ℕ). all_encoded fs ++ xs) (all_operations-concat fss)
    ∙ sym (all_encoded-append fs (concat fss))

pub new-Carries :
    (memory : ℕ → ℕ) (random op_type : ℕ)
    → Carries (Message.new memory random op_type 0) random 0 op_type 0 []
unfolding Message.new slice
new-Carries memory random op_type = record {
  built = record { at_end = refl; within = omega arith };
  holds = refl;
  small = omega arith;
  same_id = refl;
  same_semantics = refl;
  same_type = refl;
  counted = refl;
}

-- The parameters are those of the call, and can be sent.
abbrev pub CallFits : Call → List Operation → Type 0
CallFits call [] = Unit
CallFits call (o ∷ os) = SendableAll o.ins × (map type_of o.ins ≡ in_types call) × CallFits call os

abbrev pub in_fields : List Operation → List (List Field)
in_fields = map (λ o. params_fields o.ins)

-- Lists of parameters are messages' operations.
module _ (magnitude : ℕ → ℕ) where
  add_operations-operations :
      (memory : ℕ → ℕ) (random : ℕ) (call : Call) (m : Message) (os : List Operation)
      → CallFits call os
      → AllSmall magnitude m (in_fields os)
      → add_operations memory random magnitude m os ≡ operations magnitude m (in_fields os)
  unfolding add_operations operations
  add_operations-operations memory random call m [] fits small = refl
  add_operations-operations memory random call m (o ∷ os) fits small =
      rw (to_message-operation magnitude m o.ins fits.0 (omega (arith, small.0))) (
        add_operations-operations memory random call (operation magnitude m (params_fields o.ins))
          os fits.2 small.1)

  pub exec_request-Carries :
      (memory : ℕ → ℕ) (random op_type : ℕ) (call : Call) (os : List Operation)
      → ((n : ℕ) → 0 < n → 0 < magnitude n)
      → CallFits call os
      → AllSmall magnitude (Message.new memory random op_type 0) (in_fields os)
      → length os < u32_mod
      → Carries
          (exec_request memory random magnitude op_type os)
          random
          0
          op_type
          (length os)
          (all_operations (in_fields os))
  unfolding exec_request
  exec_request-Carries memory random op_type call os scaled fits small few =
      let m0 = Message.new memory random op_type 0 in
      let e = add_operations-operations memory random call m0 os fits small in
      let len : length (in_fields os) ≡ length os = length-map (λ o. params_fields o.ins) os in
      let c =
        operations-Carries magnitude scaled random 0 op_type m0 0 [] (in_fields os)
          (new-Carries memory random op_type) small (omega (arith, len)) in
      let count : 0 + length (in_fields os) ≡ length os = omega (arith, len) in rw e (rw count at c)

-- The server reads the parameters of one operation, and the next operation's come next.
pub in_values-Holds :
    (valid : List ℕ → Bool) (call : Call) (m : Message) (o : Operation) (os : List Operation)
    → SendableAll o.ins
    → map type_of o.ins ≡ in_types call
    → params_size o.ins < u32_mod
    → Holds m (all_operations (in_fields (o ∷ os)))
    → (m' : Message) × (from_message_static valid m (in_types call)
        ≡ some (m', map value_of o.ins, all_ok valid o.ins))
      × Holds m' (all_operations (in_fields os))
in_values-Holds valid call m o os ok types small h =
    let (m', e, h') =
      from_message_static-Holds valid m o.ins (concat (in_fields os)) ok small
        (rw (all_operations-concat (in_fields (o ∷ os))) at h) in
    (m', rw types at e, rw (sym (all_operations-concat (in_fields os))) at h')
