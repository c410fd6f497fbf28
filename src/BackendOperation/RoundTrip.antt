-- ===== src/BackendOperation/RoundTrip.antt =====
-- `j_backend_operation_to_message` on one side, `j_backend_operation_from_message_static` on the
-- other.
use mathlib.Core.List.{append-nil}
use julea.Common.{
  ℕ, ◌+◌, ◌<◌, ◌≡◌, refl, sym, subst, Bool, some, List, [], ◌++◌, length, map, u32_mod, arith,
}
use julea.Message.{Message}
use julea.Message.Buffer.{contents, IsBuilt}
use julea.Message.Bytes.{all_encoded, moved, Holds, next-Holds}
use julea.Message.Reserve.{Small}
use julea.Message.Operations.{Carries, operation-Carries}
use julea.Message.Stream.Arrival.{Arrived}
use julea.BackendOperation.{Param, to_message, from_message_static}
use julea.BackendOperation.Sending.{SendableAll, params_fields, params_size, to_message-operation}
use julea.BackendOperation.Receiving.{type_of, value_of, all_ok, from_message_static-Holds}

module _ (magnitude : ℕ → ℕ) (scaled : (n : ℕ) → 0 < n → 0 < magnitude n) where
  to_message-contents :
      (m : Message) (ps : List Param)
      → IsBuilt m
      → Small magnitude m (params_size ps)
      → m.header.op_count + 1 < u32_mod
      → SendableAll ps
      → contents (to_message magnitude m ps) ≡ contents m ++ all_encoded (params_fields ps)
  to_message-contents m ps built small few ok =
      let c : Carries m m.header.id m.header.semantics m.header.op_type m.header.op_count
          (contents m) =
        record {
          built = built;
          holds = refl;
          small = omega (arith, small);
          same_id = refl;
          same_semantics = refl;
          same_type = refl;
          counted = refl;
        } in
      let e = to_message-operation magnitude m ps ok (omega (arith, small)) in
      let c' =
        operation-Carries magnitude scaled m.header.id m.header.semantics m.header.op_type m
          m.header.op_count (contents m) (params_fields ps) c small few in
      rw e c'.holds

  module _ (valid : List ℕ → Bool) where
    -- The parameters of a call that are put behind what a message holds are found by
    -- `j_backend_operation_from_message_static` in the message that arrived: each pointer stands
    -- for the same bytes, texts with their terminating zero, and the result is false exactly if
    -- there is an error among them or a document that libbson finds invalid. Texts hold no zero
    -- byte, blocks and documents are not empty, and the message stays below 4 GiB.
    pub to_message-from_message_static :
        (m r : Message) (ps : List Param)
        → IsBuilt m
        → Small magnitude m (params_size ps)
        → m.header.op_count + 1 < u32_mod
        → SendableAll ps
        → let m' = to_message magnitude m ps in
          Arrived r m'.header (contents m')
          → (r' : Message) × (from_message_static valid
                (moved r (length (contents m)))
                (map type_of ps)
              ≡ some (r', map value_of ps, all_ok valid ps))
    to_message-from_message_static m r ps built small few ok (h, same, start, holds) =
        let body = to_message-contents m ps built small few ok in
        let (h1, t1) =
          next-Holds r (contents m) (all_encoded (params_fields ps)) (rw body at holds) in
        let t2 =
          subst (λ fs. Holds (moved r (length (contents m))) (all_encoded fs))
            (sym (append-nil (params_fields ps))) t1 in
        let (r', got, _) =
          from_message_static-Holds valid (moved r (length (contents m))) ps [] ok
            (omega (arith, small)) t2 in
        (r', got)
