-- ===== src/Database/Together.antt =====
-- The server's handling of database calls with batch atomicity: one batch, in which nothing is run
-- after a call that failed.
use julea.Common.{
  ℕ, ◌<◌, ◌≡◌, refl, sym, ◌∙◌, Bool, true, false, Option, none, some, List, [], ◌∷◌, length, map,
  u32_mod, arith, All, if◌then◌else◌, Bool-cases, inl, inr,
}
use julea.Semantics.{Semantics, Atomicity, batch}
use julea.Message.{Message, new_reply, get_count}
use julea.Message.Bytes.{Holds}
use julea.Message.Operations.{AllSmall, all_operations, operation, operations}
use julea.Message.Wire.{get_semantics}
use julea.BackendOperation.{Value}
use julea.BackendOperation.Sending.{params_fields, params_size}
use julea.Server.Database.{
  Call, DbBackend, Outcome, Handling, first_value, out_types, out_params, start, run, finish,
  perform, start_all, finish_all, next_ins, database_loop, first_ins, handle_database,
}
use julea.Database.{Operation}
use julea.Database.Requests.{CallFits, in_fields, in_values-Holds}
use julea.Database.Replies.{Done, DoneFits, out_fields, out_params-SendableAll}
use julea.Database.Alone.{in_values, database_loop-next, database_loop-given, or_else-none, initial}

-- An operation that is not run is answered without a document and without an error.
abbrev pub skipped : List ℕ → Operation → Operation × Outcome
skipped document op = (op, record { document = document; failure = none; ret = false })

module _ (b : DbBackend) (call : Call) (started : Option b.Batch) where
  -- The calls up to the first that fails.
  abbrev pub run_until : b.State → List Operation → b.State × Done
  run_until state [] = (state, [])
  run_until state (op ∷ ops) =
      let (s, o) = b.run call state started (in_values op) in
      let (s', done) = run_until s ops in
      if o.ret then (s', (op, o) ∷ done) else (s, (op, o) ∷ map (skipped o.document) ops)

abbrev after_run : (b : DbBackend) (call : Call) → List Value → Handling b → Handling b × Outcome
after_run b call ins v =
    let (state, o) = b.run call v.state v.open_batch ins in
    (record v { state = state; ret = o.ret; document = o.document }, o)

perform-run :
    (b : DbBackend) (call : Call) (a : Atomicity) (s : Semantics) (ins : List Value)
    (v : Handling b)
    → a ≡ batch
    → v.ret ≡ true
    → v.failure ≡ none
    → perform b call a s ins v ≡ ((after_run b call ins v).0, (after_run b call ins v).1.failure)
unfolding perform run
perform-run b call a s ins v together fine clean =
    rw (together, fine, clean, or_else-none (after_run b call ins v).1.failure) refl

perform-skipped :
    (b : DbBackend) (call : Call) (a : Atomicity) (s : Semantics) (ins : List Value)
    (v : Handling b)
    → a ≡ batch
    → v.ret ≡ false
    → v.failure ≡ none
    → perform b call a s ins v ≡ (v, none)
unfolding perform run
perform-skipped b call a s ins v together failed clean = rw (together, failed, clean) refl

-- The handler's variables when the batch is open and its start set no error.
abbrev opened : (b : DbBackend) → Option b.Batch → Bool → (document : List ℕ) → b.State → Handling b
opened b started ret document state = record {
  state = state;
  open_batch = started;
  failure = none;
  ret = ret;
  document = document;
}

module _ (b : DbBackend) (call : Call) (started : Option b.Batch) where
  -- The same with the result so far, as the loop goes on.
  abbrev run_on : Bool → (document : List ℕ) → b.State → List Operation → b.State × Done
  run_on ret document state [] = (state, [])
  run_on true document state (op ∷ ops) =
      let (s, o) = b.run call state started (in_values op) in
      let (s', done) = run_on o.ret o.document s ops in (s', (op, o) ∷ done)
  run_on false document state (op ∷ ops) =
      let (s', done) = run_on false document state ops in (s', skipped document op ∷ done)

  run_on-skipped :
      (document : List ℕ) (state : b.State) (ops : List Operation)
      → run_on false document state ops ≡ (state, map (skipped document) ops)
  run_on-skipped document state [] = refl
  run_on-skipped document state (op ∷ ops) = rw (run_on-skipped document state ops) refl

  run_on-run_until :
      (document : List ℕ) (state : b.State) (ops : List Operation)
      → run_on true document state ops ≡ run_until b call started state ops
  run_on-run_until document state [] = refl
  run_on-run_until document state (op ∷ ops) =
      let (s, o) = b.run call state started (in_values op) in
      elim (Bool-cases o.ret) [
        | inl returned ↦ rw (returned, run_on-run_until o.document s ops) refl
        | inr failed ↦ rw (failed, run_on-skipped o.document s ops) refl
      ]

module _ (memory : ℕ → ℕ) (magnitude : ℕ → ℕ) (valid : List ℕ → Bool) (b : DbBackend) (call : Call)
    (s : Semantics) (together : s.atomicity ≡ batch) (started : Option b.Batch) where
  database_loop-run_on :
      (m reply : Message) (ret : Bool) (document : List ℕ) (state : b.State) (ops : List Operation)
      → CallFits call ops
      → All (λ op. params_size op.ins < u32_mod) ops
      → Holds m (all_operations (in_fields ops))
      → let (final, done) = run_on b call started ret document state ops in
        DoneFits call done
        → AllSmall magnitude reply (out_fields call done)
        → (v' : Handling b) × (database_loop memory magnitude valid b call
              (length ops)
              s
              m
              none
              (opened b started ret document state)
              reply
            ≡ some (v', operations magnitude reply (out_fields call done)))
          × (v'.state ≡ final)
          × (v'.open_batch ≡ started)
  unfolding operations
  database_loop-run_on m reply ret document state [] fits sizes h fits' small =
      (opened b started ret document state, unfold database_loop in refl, refl, refl)
  database_loop-run_on m reply true document state (op ∷ ops) fits sizes h fits' small =
      let v = opened b started true document state in
      let (v1, o) = after_run b call (in_values op) v in
      let (m', e, h') =
        database_loop-next memory magnitude valid b call s m reply v v1 o.failure op ops fits
          sizes.0 h (perform-run b call s.atomicity s (in_values op) v together refl refl)
          (out_params-SendableAll call op o fits'.0) (omega (arith, small.0)) in
      let outs = out_params o.ret o.document o.failure (out_types call) in
      let (v', e', final, same) =
        database_loop-run_on m' (operation magnitude reply (params_fields outs)) o.ret o.document
          v1.state ops fits.2 sizes.1 h' fits'.1 small.1 in
      (v', e ∙ e', final, same)
  database_loop-run_on m reply false document state (op ∷ ops) fits sizes h fits' small =
      let v = opened b started false document state in
      let o = (skipped document op).1 in
      let (m', e, h') =
        database_loop-next memory magnitude valid b call s m reply v v none op ops fits sizes.0 h
          (perform-skipped b call s.atomicity s (in_values op) v together refl refl)
          (out_params-SendableAll call op o fits'.0) (omega (arith, small.0)) in
      let outs = out_params false document none (out_types call) in
      let (v', e', final, same) =
        database_loop-run_on m' (operation magnitude reply (params_fields outs)) false document
          state ops fits.2 sizes.1 h' fits'.1 small.1 in
      (v', e ∙ e', final, same)

start_all-batch :
    (b : DbBackend) (call : Call) (a : Atomicity) (s : Semantics) (ins : List Value)
    (document : List ℕ) (state s1 : b.State) (started : Option b.Batch) (success : Bool)
    → a ≡ batch
    → b.batch_start state none (first_value ins) s ≡ (s1, started, none, success)
    → start_all b call a s ins (initial b document state) ≡ opened b started true document s1
unfolding start_all start
start_all-batch b call a s ins document state s1 started success together e = rw (together, e) refl

finish_all-batch :
    (b : DbBackend) (call : Call) (a : Atomicity) (v : Handling b)
    → a ≡ batch
    → (finish_all b call a v).state ≡ (b.batch_execute v.state v.open_batch).0
unfolding finish_all finish
finish_all-batch b call a v together = rw together refl

module _ (memory : ℕ → ℕ) (magnitude : ℕ → ℕ) (valid : List ℕ → Bool) (b : DbBackend)
    (call : Call) where
  -- With batch atomicity, if the batch can be started, the server ends with one batch executed, in
  -- which it has made the calls in order up to and including the first that returned FALSE, and no
  -- call after it. The calls that were made are answered with their documents and errors, and the
  -- others without a document and without an error. Documents are not empty, texts hold no zero
  -- byte, and the reply stays below 4 GiB.
  pub handle_database-run_until :
      (s : Semantics) (document : List ℕ) (m : Message) (state s1 : b.State)
      (started : Option b.Batch) (success : Bool) (op : Operation) (ops : List Operation)
      → s.atomicity ≡ batch
      → get_semantics m ≡ s
      → get_count m ≡ length (op ∷ ops)
      → CallFits call (op ∷ ops)
      → All (λ op. params_size op.ins < u32_mod) (op ∷ ops)
      → Holds m (all_operations (in_fields (op ∷ ops)))
      → b.batch_start state none (first_value (in_values op)) s ≡ (s1, started, none, success)
      → let (s2, done) = run_until b call started s1 (op ∷ ops) in
        DoneFits call done
        → AllSmall magnitude (new_reply memory m) (out_fields call done)
        → handle_database memory magnitude valid b call document m state
          ≡ some (
            (b.batch_execute s2 started).0,
            operations magnitude (new_reply memory m) (out_fields call done),
          )
  unfolding handle_database first_ins
  handle_database-run_until s document m state s1 started success op ops together es ec fits sizes h
        begins =
      rw (sym (run_on-run_until b call started document s1 (op ∷ ops))) (λ fits' small.
        let (m', e, _) = in_values-Holds valid call m op ops fits.0 fits.1 sizes.0 h in
        let read : next_ins memory magnitude valid b call m none ≡ some (m', in_values op) =
          unfold next_ins in rw e refl in
        let (v', loop, final, same) =
          database_loop-run_on memory magnitude valid b call s together started m
            (new_reply memory m) true document s1 (op ∷ ops) fits sizes h fits' small in
        let v = opened b started true document s1 in
        let given =
          database_loop-given memory magnitude valid b call s (length ops) m m' (in_values op) v
            (new_reply memory m) read in
        let e1 =
          start_all-batch b call s.atomicity s (in_values op) document state s1 started success
            together begins in
        let e2 = finish_all-batch b call s.atomicity v' together in
        rw (es, ec, read, e1, given, loop, e2, final, same) refl)
