-- ===== src/Database/Alone.antt =====
-- The server's handling of database calls without batch atomicity: each operation in a batch of its
-- own.
use julea.Common.{
  ℕ, suc, ◌<◌, ◌≡◌, refl, ap, ◌∙◌, Bool, true, Option, none, some, List, [], ◌∷◌, length, map,
  u32_mod, arith, All,
}
use julea.Semantics.{Semantics, Atomicity, unprotected}
use julea.Message.{Message, new_reply, get_count}
use julea.Message.Bytes.{Holds}
use julea.Message.Operations.{AllSmall, all_operations, operation, operations}
use julea.Message.Wire.{get_semantics}
use julea.BackendOperation.{Value}
use julea.BackendOperation.{to_message}
use julea.BackendOperation.Sending.{SendableAll, params_fields, params_size, to_message-operation}
use julea.BackendOperation.Receiving.{value_of}
use julea.Server.Database.{
  Call, DbBackend, DbError, Outcome, Handling, first_value, or_else, out_types, out_params, start,
  run, finish, perform, start_all, finish_all, next_ins, database_loop, first_ins, handle_database,
}
use julea.Database.{Operation}
use julea.Database.Requests.{CallFits, in_fields, in_values-Holds}
use julea.Database.Replies.{Done, DoneFits, out_fields, out_params-SendableAll}

abbrev pub in_values : Operation → List Value
in_values op = map value_of op.ins

module _ (b : DbBackend) (call : Call) (s : Semantics) where
  -- Each operation in a batch of its own.
  abbrev pub run_alone : Option b.Batch → b.State → List Operation → b.State × Done
  run_alone previous state [] = (state, [])
  run_alone previous state (op ∷ ops) =
      let (s1, started, failure, success) =
        b.batch_start state previous (first_value (in_values op)) s in
      let (s2, o) = b.run call s1 started (in_values op) in
      let (s3, executed) = b.batch_execute s2 started in
      let (s4, done) = run_alone started s3 ops in (s4, (op, o) ∷ done)

  pub run_alone-operations :
      (previous : Option b.Batch) (state : b.State) (ops : List Operation)
      → map (λ d. d.0) (run_alone previous state ops).1 ≡ ops
  run_alone-operations previous state [] = refl
  run_alone-operations previous state (op ∷ ops) =
      let (s1, started, failure, success) =
        b.batch_start state previous (first_value (in_values op)) s in
      let (s2, o) = b.run call s1 started (in_values op) in
      ap (◌∷◌ op) (run_alone-operations started (b.batch_execute s2 started).0 ops)

pub or_else-none : (e : Option DbError) → or_else e none ≡ e
or_else-none none = refl
or_else-none (some e) = refl

abbrev after_call :
    (b : DbBackend) (call : Call) (s : Semantics) → List Value → Handling b → Handling b × Outcome
after_call b call s ins v =
    let (s1, started, failure, success) = b.batch_start v.state v.open_batch (first_value ins) s in
    let (s2, o) = b.run call s1 started ins in
    (
      record {
        state = (b.batch_execute s2 started).0;
        open_batch = started;
        failure = none;
        ret = o.ret;
        document = o.document;
      },
      o,
    )

perform-unprotected :
    (b : DbBackend) (call : Call) (a : Atomicity) (s : Semantics) (ins : List Value)
    (v : Handling b)
    → a ≡ unprotected
    → perform b call a s ins v
      ≡ ((after_call b call s ins v).0, (after_call b call s ins v).1.failure)
unfolding perform start run finish
perform-unprotected b call a s ins v alone =
    rw (alone, or_else-none (after_call b call s ins v).1.failure) refl

module _ (memory : ℕ → ℕ) (magnitude : ℕ → ℕ) (valid : List ℕ → Bool) (b : DbBackend) (call : Call)
    (s : Semantics) where
  database_loop-performed :
      (n : ℕ) (m m' reply : Message) (ins : List Value) (v v1 : Handling b) (e : Option DbError)
      → next_ins memory magnitude valid b call m none ≡ some (m', ins)
      → perform b call s.atomicity s ins v ≡ (v1, e)
      → database_loop memory magnitude valid b call (suc n) s m none v reply
        ≡ database_loop memory magnitude valid b call n s m' none v1
            (to_message magnitude reply (out_params v1.ret v1.document e (out_types call)))
  unfolding database_loop
  database_loop-performed n m m' reply ins v v1 e read performed = rw (read, performed) refl

  -- One round of the loop, when it is known what the operation does.
  pub database_loop-next :
      (m reply : Message) (v v1 : Handling b) (e : Option DbError) (op : Operation)
      (ops : List Operation)
      → CallFits call (op ∷ ops)
      → params_size op.ins < u32_mod
      → Holds m (all_operations (in_fields (op ∷ ops)))
      → perform b call s.atomicity s (in_values op) v ≡ (v1, e)
      → let outs = out_params v1.ret v1.document e (out_types call) in
        SendableAll outs
        → params_size outs < u32_mod
        → (m' : Message) × (database_loop memory magnitude valid b call
              (suc (length ops))
              s
              m
              none
              v
              reply
            ≡ database_loop memory magnitude valid b call
                (length ops)
                s
                m'
                none
                v1
                (operation magnitude reply (params_fields outs)))
          × Holds m' (all_operations (in_fields ops))
  database_loop-next m reply v v1 e op ops fits size h performed ok small =
      let (m', e1, h') = in_values-Holds valid call m op ops fits.0 fits.1 size h in
      let outs = out_params v1.ret v1.document e (out_types call) in
      let read : next_ins memory magnitude valid b call m none ≡ some (m', in_values op) =
        unfold next_ins in rw e1 refl in
      (
        m',
        database_loop-performed (length ops) m m' reply (in_values op) v v1 e read performed
            ∙ ap
                (λ (r : Message).
                  database_loop memory magnitude valid b call (length ops) s m' none v1 r)
                (to_message-operation magnitude reply outs ok small),
        h',
      )

  database_loop-run_alone :
      (m reply : Message) (v : Handling b) (ops : List Operation)
      → s.atomicity ≡ unprotected
      → CallFits call ops
      → All (λ op. params_size op.ins < u32_mod) ops
      → Holds m (all_operations (in_fields ops))
      → let (state, done) = run_alone b call s v.open_batch v.state ops in
        DoneFits call done
        → AllSmall magnitude reply (out_fields call done)
        → (v' : Handling b) × (database_loop memory magnitude valid b call
              (length ops)
              s
              m
              none
              v
              reply
            ≡ some (v', operations magnitude reply (out_fields call done)))
          × (v'.state ≡ state)
  unfolding operations
  database_loop-run_alone m reply v [] alone fits sizes h fits' small =
      (v, unfold database_loop in refl, refl)
  database_loop-run_alone m reply v (op ∷ ops) alone fits sizes h fits' small =
      let (v1, o) = after_call b call s (in_values op) v in
      let (m', e, h') =
        database_loop-next m reply v v1 o.failure op ops fits sizes.0 h
          (perform-unprotected b call s.atomicity s (in_values op) v alone)
          (out_params-SendableAll call op o fits'.0) (omega (arith, small.0)) in
      let outs = out_params o.ret o.document o.failure (out_types call) in
      let (v', e', state) =
        database_loop-run_alone m' (operation magnitude reply (params_fields outs)) v1 ops alone
          fits.2 sizes.1 h' fits'.1 small.1 in
      (v', e ∙ e', state)

start_all-unprotected :
    (b : DbBackend) (call : Call) (a : Atomicity) (s : Semantics) (ins : List Value)
    (v : Handling b)
    → a ≡ unprotected
    → start_all b call a s ins v ≡ v
unfolding start_all
start_all-unprotected b call a s ins v alone = rw alone refl

finish_all-unprotected :
    (b : DbBackend) (call : Call) (a : Atomicity) (v : Handling b)
    → a ≡ unprotected
    → finish_all b call a v ≡ v
unfolding finish_all
finish_all-unprotected b call a v alone = rw alone refl

-- The handler's variables at its start.
abbrev pub initial : (b : DbBackend) → (document : List ℕ) → b.State → Handling b
initial b document state = record {
  state = state;
  open_batch = none;
  failure = none;
  ret = true;
  document = document;
}

module _ (memory : ℕ → ℕ) (magnitude : ℕ → ℕ) (valid : List ℕ → Bool) (b : DbBackend) (call : Call)
    (s : Semantics) where
  -- It makes no difference that the first operation's parameters are read before the loop.
  pub database_loop-given :
      (n : ℕ) (m m' : Message) (ins : List Value) (v : Handling b) (reply : Message)
      → next_ins memory magnitude valid b call m none ≡ some (m', ins)
      → database_loop memory magnitude valid b call (suc n) s m' (some ins) v reply
        ≡ database_loop memory magnitude valid b call (suc n) s m none v reply
  unfolding database_loop
  database_loop-given n m m' ins v reply e = rw e (unfold next_ins in refl)

  pub handle_database-run_alone :
      (document : List ℕ) (m : Message) (state : b.State) (ops : List Operation)
      → get_semantics m ≡ s
      → get_count m ≡ length ops
      → s.atomicity ≡ unprotected
      → CallFits call ops
      → All (λ op. params_size op.ins < u32_mod) ops
      → Holds m (all_operations (in_fields ops))
      → let (final, done) = run_alone b call s none state ops in
        DoneFits call done
        → AllSmall magnitude (new_reply memory m) (out_fields call done)
        → handle_database memory magnitude valid b call document m state
          ≡ some (final, operations magnitude (new_reply memory m) (out_fields call done))
  unfolding handle_database first_ins operations
  handle_database-run_alone document m state [] es ec alone fits sizes h fits' small =
      let v0 = initial b document state in
      let e1 = start_all-unprotected b call s.atomicity s [] v0 alone in
      let e2 = finish_all-unprotected b call s.atomicity v0 alone in
      rw (es, ec) (unfold database_loop in rw (e1, e2) refl)
  handle_database-run_alone document m state (op ∷ ops) es ec alone fits sizes h fits' small =
      let v0 = initial b document state in
      let (m', e, _) = in_values-Holds valid call m op ops fits.0 fits.1 sizes.0 h in
      let (v', loop, final) =
        database_loop-run_alone memory magnitude valid b call s m (new_reply memory m) v0 (op ∷ ops)
          alone fits sizes h fits' small in
      let e1 = start_all-unprotected b call s.atomicity s (in_values op) v0 alone in
      let e2 = finish_all-unprotected b call s.atomicity v' alone in
      let read : next_ins memory magnitude valid b call m none ≡ some (m', in_values op) =
        unfold next_ins in rw e refl in
      let given =
        database_loop-given (length ops) m m' (in_values op) v0 (new_reply memory m) read in
      rw (es, ec, read, e1, given, loop, e2, final) refl
