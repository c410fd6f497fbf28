-- ===== src/Database/Tests.antt =====
-- A database of documents, and two inserts of which one fails.
use julea.Common.{ℕ, ◌≡◌, refl, true, false, none, some, List, [], ◌∷◌, arith, ◌<◌, All, u32_mod}
use julea.Message.{
  Message, new, new_reply, append_n, can_append, appended, add_operation, extend, get_count,
  le_bytes,
}
use julea.Message.Bytes.{Holds}
use julea.Message.Wire.{serialized, on_wire, get_semantics_of_word}
use julea.Message.Reserve.{total}
use julea.Message.Operations.{operation, operations, append_each, all_operations, AllSmall}
use julea.BackendOperation.{Value, null, bytes, an_error, str, bson, bson_null}
use julea.BackendOperation.Sending.{params_size}
use julea.BackendOperation.Tests.{linear, any_document}
use julea.Kv.Tests.{semantics, blank, arrived, arrived-Arrived}
use julea.Kv.Requests.{IsText}
use julea.Server.Database.{
  DbBackend, Outcome, insert, handle_database, in_types, out_types, out_params,
}
use julea.Database.{Operation, exec_request, exec_replies}
use julea.Database.Replies.{Done, DoneFits, out_fields}
use julea.Database.Requests.{CallFits, in_fields, exec_request-Carries}
use julea.Database.Together.{run_until, handle_database-run_until}
use julea.Database.Alone.{run_alone}
use julea.Database.Remote.{CanCall, CanAnswer, reply_with, unset, exec_replies-handle_database}

abbrev run_insert : List (List ℕ) → List Value → List (List ℕ) × Outcome
run_insert s (namespace ∷ name ∷ bytes d ∷ []) =
    (d ∷ s, record { document = 5 ∷ []; failure = none; ret = true })
run_insert s _ = (
  s,
  record {
    document = 9 ∷ [];
    failure = some (record { domain = 106 ∷ []; code = 2; text = 120 ∷ [] });
    ret = false;
  },
)

abbrev documents : DbBackend
documents = record {
  State = List (List ℕ);
  Batch = Value;
  batch_start = λ s previous namespace semantics. (s, some namespace, none, true);
  run = λ call s started ins. run_insert s ins;
  batch_execute = λ s started. (s, true);
}

abbrev good : Operation
good = record {
  ins = str (110 ∷ []) ∷ str (116 ∷ []) ∷ bson (7 ∷ []) ∷ [];
  wants_document = true;
  wants_error = true;
}

abbrev bad : Operation
bad = record good { ins = str (110 ∷ []) ∷ str (116 ∷ []) ∷ bson_null ∷ [] }

abbrev inserts : List Operation
inserts = good ∷ bad ∷ []

abbrev asking : Message
asking = exec_request blank 7 linear 20 inserts

abbrev done : Done
done = (run_alone documents insert unset none [] inserts).1

abbrev answer : Message
answer = reply_with blank 7 linear (λ n h. h) any_document documents insert (arrived asking) done

can_call : CanCall blank 7 linear (λ n h. h) any_document documents insert 20 inserts
unfolding new append_n can_append appended operation add_operation extend get_count append_each
    total le_bytes in_types
can_call =
    let ns : IsText (110 ∷ []) = ((λ e. absurd (omega arith)), tt) in
    let name : IsText (116 ∷ []) = ((λ e. absurd (omega arith)), tt) in
    (
      ((ns, (name, (omega arith, tt))), refl, ((ns, (name, (tt, tt))), refl, tt)),
      (omega arith, (omega arith, tt)),
      omega arith,
    )

can_answer : CanAnswer blank 7 linear (λ n h. h) any_document documents insert (arrived asking) done
unfolding new_reply append_n can_append appended operation add_operation extend get_count
    append_each total le_bytes out_types out_params
can_answer = (
  (
    (omega arith, tt),
    (
      (
        omega arith,
        (((λ e. absurd (omega arith)), tt), ((λ e. absurd (omega arith)), tt), omega arith),
      ),
      tt,
    ),
  ),
  (omega arith, (omega arith, tt)),
)

-- The client's pointers after both calls.
abbrev received : List (List Value)
received =
    (bytes (5 ∷ []) ∷ null ∷ []) ∷ (null ∷ an_error (some (106 ∷ [])) 2 (some (120 ∷ [])) ∷ []) ∷ []

exec_replies-handle_database_example :
    (handle_database blank linear any_document documents insert [] (arrived asking) []
      ≡ some ((7 ∷ []) ∷ [], answer))
    × (exec_replies any_document insert inserts (arrived answer) ≡ some (received, false))
unfolding out_types
exec_replies-handle_database_example =
    exec_replies-handle_database blank 7 linear (λ n h. h) any_document documents insert 20 inserts
      [] [] (arrived asking) (arrived answer) can_call (arrived-Arrived asking) can_answer
      (arrived-Arrived answer)

-- Three inserts with batch atomicity, of which the second fails.
abbrev three : List Operation
three = good ∷ bad ∷ good ∷ []

abbrev asking_three : Message
asking_three = exec_request blank 7 linear 20 three

abbrev in_batch : Message
in_batch =
    let m = arrived asking_three in
    record m { header = record (m.header) { semantics = serialized semantics } }

abbrev done_three : Done
done_three = (run_until documents insert (some (bytes (110 ∷ 0 ∷ []))) [] three).1

three-CallFits : CallFits insert three
unfolding in_types
three-CallFits =
    let ns : IsText (110 ∷ []) = ((λ e. absurd (omega arith)), tt) in
    let name : IsText (116 ∷ []) = ((λ e. absurd (omega arith)), tt) in
    (
      (ns, (name, (omega arith, tt))),
      refl,
      ((ns, (name, (tt, tt))), refl, ((ns, (name, (omega arith, tt))), refl, tt)),
    )

holds_three : Holds in_batch (all_operations (in_fields three))
unfolding new append_n can_append appended operation add_operation extend get_count append_each
    total le_bytes in_types
holds_three =
    let (_, _, _, h) = arrived-Arrived asking_three in
    let c =
      exec_request-Carries linear blank 7 20 insert three (λ n h. h) three-CallFits
        (omega arith, (omega arith, (omega arith, tt))) (omega arith) in
    let h' = rw c.holds at h in record { bytes = h'.bytes; inside = h'.inside; within = h'.within }

three-small :
    All (λ op. params_size op.ins < u32_mod) three
    × AllSmall linear (new_reply blank in_batch) (out_fields insert done_three)
unfolding new_reply append_n can_append appended operation add_operation extend get_count
    append_each total le_bytes out_types out_params
three-small = (
  (omega arith, (omega arith, (omega arith, tt))),
  (omega arith, (omega arith, (omega arith, tt))),
)

three-DoneFits : DoneFits insert done_three
three-DoneFits =
    let domain : IsText (106 ∷ []) = ((λ e. absurd (omega arith)), tt) in
    let text : IsText (120 ∷ []) = ((λ e. absurd (omega arith)), tt) in
    ((omega arith, tt), ((omega arith, (domain, text, omega arith)), ((omega arith, tt), tt)))

handle_database-run_until_example :
    handle_database blank linear any_document documents insert [] in_batch []
    ≡ some
        ((7 ∷ []) ∷ [], operations linear (new_reply blank in_batch) (out_fields insert done_three))
unfolding get_count exec_request append_n can_append julea.Message.append_4 le_bytes appended
handle_database-run_until_example =
    handle_database-run_until blank linear any_document documents insert (on_wire semantics) []
      in_batch [] [] (some (bytes (110 ∷ 0 ∷ []))) true good (bad ∷ good ∷ []) refl
      (get_semantics_of_word in_batch semantics refl) refl three-CallFits three-small.0 holds_three
      refl three-DoneFits three-small.1
