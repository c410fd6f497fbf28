-- ===== src/Database/Remote.antt =====
-- Database calls through the server: which calls of the backend are made, and that the client gets
-- what they leave.
use julea.Common.{
  ℕ, ◌<◌, ◌≡◌, refl, sym, ap, ◌∙◌, Bool, none, some, List, [], ◌∷◌, length, u32_mod, arith,
  length-map, All,
}
use julea.Semantics.{Semantics, Atomicity, unprotected, default}
use julea.Semantics
use julea.Message.{Message, new_reply, get_count}
use julea.Message
use julea.Message.Buffer.{contents}
use julea.Message.Stream.Arrival.{Arrived}
use julea.Message.Operations.{AllSmall, operation, operations, operations-Carries}
use julea.Message.Wire.{get_semantics-unset}
use julea.BackendOperation.Sending.{params_fields, params_size}
use julea.Kv.Get.{new_reply-Carries}
use julea.Object.Arrival.{get_count-same}
use julea.Server.Database.{Call, DbBackend, out_types, out_params, handle_database}
use julea.Database.{Operation, exec_request, exec_replies}
use julea.Database.Requests.{CallFits, in_fields, exec_request-Carries}
use julea.Database.Replies.{
  Done, DoneFits, SizesFit, out_fields, all_delivered, all_reported, exec_replies-Holds,
}
use julea.Database.Alone.{run_alone, run_alone-operations, handle_database-run_alone}

AllSmall-ins :
    (magnitude : ℕ → ℕ) (m : Message) (ops : List Operation)
    → AllSmall magnitude m (in_fields ops)
    → All (λ op. params_size op.ins < u32_mod) ops
AllSmall-ins magnitude m [] small = tt
AllSmall-ins magnitude m (op ∷ ops) small = (
  omega (arith, small.0),
  AllSmall-ins magnitude (operation magnitude m (params_fields op.ins)) ops small.1,
)

AllSmall-outs :
    (magnitude : ℕ → ℕ) (call : Call) (m : Message) (done : Done)
    → AllSmall magnitude m (out_fields call done)
    → SizesFit call done
AllSmall-outs magnitude call m [] small = tt
AllSmall-outs magnitude call m ((op, o) ∷ done) small = (
  omega (arith, small.0),
  AllSmall-outs magnitude call
      (operation magnitude m
        (params_fields (out_params o.ret o.document o.failure (out_types call))))
      done small.1,
)

-- The semantics that the server sees in a request for a database.
abbrev pub unset : Semantics
unset = Semantics.new default

module _ (memory : ℕ → ℕ) (random : ℕ) (magnitude : ℕ → ℕ)
    (scaled : (n : ℕ) → 0 < n → 0 < magnitude n) (valid : List ℕ → Bool) (b : DbBackend)
    (call : Call) where
  -- The parameters are the call's, and the request stays below 4 GiB.
  abbrev pub CanCall : (op_type : ℕ) → List Operation → Type 0
  CanCall op_type ops =
      CallFits call ops
      × AllSmall magnitude (Message.new memory random op_type 0) (in_fields ops)
      × (length ops < u32_mod)

  -- What the backend's calls leave can be sent, and the reply stays below 4 GiB.
  abbrev pub CanAnswer : Message → Done → Type 0
  CanAnswer m done =
      DoneFits call done × AllSmall magnitude (new_reply memory m) (out_fields call done)

  abbrev pub reply_with : Message → Done → Message
  reply_with m done = operations magnitude (new_reply memory m) (out_fields call done)

  -- Calls of the database through the server end, whatever semantics the client asked for: for each
  -- operation the server starts a batch with the default semantics, makes the call and executes
  -- the batch, so that its backend is as these three calls in turn leave it. When the reply has
  -- arrived, the client's pointers get the documents of the calls that returned TRUE and the errors
  -- that the calls set, and the result is whether no call set an error and libbson accepts the
  -- documents. Documents are not empty, texts hold no zero byte, and both messages stay below
  -- 4 GiB.
  pub exec_replies-handle_database :
      (op_type : ℕ) (ops : List Operation) (document : List ℕ) (state : b.State) (m r : Message)
      → CanCall op_type ops
      → let request = exec_request memory random magnitude op_type ops in
        Arrived m request.header (contents request)
        → let (final, done) = run_alone b call unset none state ops in
          let reply = reply_with m done in
          CanAnswer m done
          → Arrived r reply.header (contents reply)
          → (handle_database memory magnitude valid b call document m state ≡ some (final, reply))
            × (exec_replies valid call ops r
                ≡ some (all_delivered call done, all_reported valid call done))
  exec_replies-handle_database op_type ops document state m r (fits, small, few)
        (head, same, begin, holds) (fits', small') (head', same', begin', holds') =
      let c = exec_request-Carries magnitude memory random op_type call ops scaled fits small few in
      let done = (run_alone b call unset none state ops).1 in
      let back = run_alone-operations b call unset none state ops in
      let len : length (out_fields call done) ≡ length ops =
        length-map _ done ∙ sym (length-map (λ d. d.0) done) ∙ ap length back in
      let handled =
        handle_database-run_alone memory magnitude valid b call unset document m state ops
          (get_semantics-unset m (ap (λ h. h.semantics) head ∙ c.same_semantics))
          (get_count-same (exec_request memory random magnitude op_type ops) m (length ops) head
            c.counted)
          (unfold Semantics.new in refl) fits
          (AllSmall-ins magnitude (Message.new memory random op_type 0) ops small)
          (rw c.holds at holds) fits' small' in
      let c' =
        operations-Carries magnitude scaled m.header.id 0 m.header.op_type (new_reply memory m) 0 []
          (out_fields call done) (new_reply-Carries memory m) small' (omega (arith, len)) in
      (
        handled,
        rw back at (
            exec_replies-Holds valid call r done fits'
              (AllSmall-outs magnitude call (new_reply memory m) done small')
              (rw c'.holds at holds')),
      )
