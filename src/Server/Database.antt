-- ===== src/Server/Database.antt =====
-- server/loop.c: the requests J_MESSAGE_DB_SCHEMA_CREATE to J_MESSAGE_DB_QUERY, which one piece of
-- code handles. The templates of include/core/jbackend-operation.h say which parameters a call has.
-- `none` is a fault while the parameters are read.
use julea.Common.{
  ℕ, zero, suc, Bool, true, false, ◌&&◌, not, Option, none, some, List, [], ◌∷◌, if◌then◌else◌,
  ◌>>=◌,
}
use julea.Semantics.{Semantics, Atomicity, batch, operation, unprotected}
use julea.Message.{Message, new_reply, get_count}
use julea.Message.Wire.{get_semantics}
use julea.BackendOperation.{
  ParamType, type_str, type_blob, type_bson, type_error, Param, str_null, blob_null, bson,
  bson_null, error, error_unset, Value, null, to_message, from_message_static,
}
use julea.Server.Object.{is_some}

pub data Call : Type 0 where
  schema_create schema_get schema_delete insert update delete query : Call

unfoldable pub in_types : Call → List ParamType
in_types schema_create = type_str ∷ type_str ∷ type_bson ∷ []
in_types schema_get = type_str ∷ type_str ∷ []
in_types schema_delete = type_str ∷ type_str ∷ []
in_types insert = type_str ∷ type_str ∷ type_bson ∷ []
in_types update = type_str ∷ type_str ∷ type_bson ∷ type_bson ∷ []
in_types delete = type_str ∷ type_str ∷ type_bson ∷ []
in_types query = type_str ∷ type_str ∷ type_bson ∷ []

unfoldable pub out_types : Call → List ParamType
out_types schema_create = type_error ∷ []
out_types schema_get = type_bson ∷ type_error ∷ []
out_types schema_delete = type_error ∷ []
out_types insert = type_bson ∷ type_error ∷ []
out_types update = type_error ∷ []
out_types delete = type_error ∷ []
out_types query = type_bson ∷ type_error ∷ []

pub record DbError : Type 0 where
  pub domain : List ℕ
  pub code : ℕ
  pub text : List ℕ

-- What a call leaves in its output parameters, and what it returns.
pub record Outcome : Type 0 where
  pub document : List ℕ
  pub failure : Option DbError
  pub ret : Bool

-- A database backend with the unwrap functions in front of it. `batch_start` gets the pointer that
-- the variable `batch` held, and returns what it holds then, the error, and its result.
pub record DbBackend : Type 1 where
  pub State : Type 0
  pub Batch : Type 0
  pub batch_start :
      State → Option Batch → Value → Semantics → State × Option Batch × Option DbError × Bool
  pub run : Call → State → Option Batch → List Value → State × Outcome
  pub batch_execute : State → Option Batch → State × Bool

-- The handler's variables, and the document of the output parameters.
pub record Handling (b : DbBackend) : Type 0 where
  pub state : b.State
  pub open_batch : Option b.Batch
  pub failure : Option DbError
  pub ret : Bool
  pub document : List ℕ

-- A document is initialized if the call returned TRUE.
abbrev pub document_param : Bool → List ℕ → Param
document_param true d = bson d
document_param false d = bson_null

abbrev pub error_param : Option DbError → Param
error_param none = error_unset
error_param (some e) = error e.domain e.code e.text

unfoldable pub out_params : Bool → List ℕ → Option DbError → List ParamType → List Param
out_params ret d e [] = []
out_params ret d e (type_str ∷ ts) = str_null ∷ out_params ret d e ts
out_params ret d e (type_blob ∷ ts) = blob_null 0 ∷ out_params ret d e ts
out_params ret d e (type_bson ∷ ts) = document_param ret d ∷ out_params ret d e ts
out_params ret d e (type_error ∷ ts) = error_param e ∷ out_params ret d e ts

-- `in_param[0].ptr`, which is NULL before any parameters are read.
abbrev pub first_value : List Value → Value
first_value [] = null
first_value (v ∷ vs) = v

abbrev pub or_else : {A : Type 0} → Option A → Option A → Option A
or_else none y = y
or_else (some x) y = some x

module _ (b : DbBackend) (call : Call) where
  unfoldable pub start : Semantics → List Value → Handling b → Handling b
  start s ins v =
      let (state, started, failure, success) =
        b.batch_start v.state v.open_batch (first_value ins) s in
      record v { state = state; open_batch = started; failure = failure }

  -- The call, with the error that it sets.
  unfoldable pub run : List Value → Handling b → Handling b × Option DbError
  run ins v =
      let (state, o) = b.run call v.state v.open_batch ins in
      (record v { state = state; ret = o.ret; document = o.document }, o.failure)

  -- The batch is executed, and the error of its start is freed.
  unfoldable pub finish : Handling b → Handling b
  finish v = record v { state = (b.batch_execute v.state v.open_batch).0; failure = none }

  -- One operation. In a batch that failed, nothing is run any more.
  unfoldable pub perform :
      Atomicity → Semantics → List Value → Handling b → Handling b × Option DbError
  unfolding start run finish
  perform batch s ins v =
      let (v', e) = run ins v in
      if v.ret && not (is_some v.failure)
      then (v', or_else e v'.failure)
      else (v, or_else v.failure v.failure)
  perform operation s ins v =
      let (v', e) = run ins (start s ins v) in (finish v', or_else e (finish v').failure)
  perform unprotected s ins v =
      let (v', e) = run ins (start s ins v) in (finish v', or_else e (finish v').failure)

  -- The batch around all operations.
  unfoldable pub start_all : Atomicity → Semantics → List Value → Handling b → Handling b
  unfolding start
  start_all batch s ins v = start s ins v
  start_all operation s ins v = v
  start_all unprotected s ins v = v

  unfoldable pub finish_all : Atomicity → Handling b → Handling b
  unfolding finish
  finish_all batch v = finish v
  finish_all operation v = v
  finish_all unprotected v = v

module _ (memory : ℕ → ℕ) (magnitude : ℕ → ℕ) (valid : List ℕ → Bool) (b : DbBackend)
    (call : Call) where
  -- The parameters of the first operation were read before the loop.
  unfoldable pub next_ins : Message → Option (List Value) → Option (Message × List Value)
  next_ins m (some ins) = some (m, ins)
  next_ins m none = from_message_static valid m (in_types call) >>= λ (m', ins, ok). some (m', ins)

  unfoldable pub database_loop :
      ℕ
      → Semantics
      → Message
      → Option (List Value)
      → Handling b
      → (reply : Message) → Option (Handling b × Message)
  unfolding out_params
  database_loop zero s m given v reply = some (v, reply)
  database_loop (suc n) s m given v reply = next_ins m given >>= λ (m', ins).
      let (v', e) = perform b call s.atomicity s ins v in
      database_loop n s m' none v'
        (to_message magnitude reply (out_params v'.ret v'.document e (out_types call)))

  abbrev ins_of : Option (List Value) → List Value
  ins_of none = []
  ins_of (some ins) = ins

  unfoldable pub first_ins : ℕ → Message → Option (Message × Option (List Value))
  first_ins zero m = some (m, none)
  first_ins (suc n) m = next_ins m none >>= λ (m', ins). some (m', some ins)

  -- `document` is what the memory of the output parameters holds.
  unfoldable pub handle_database :
      (document : List ℕ) → Message → b.State → Option (b.State × Message)
  handle_database document m state =
      let s = get_semantics m in
      first_ins (get_count m) m >>= λ (m1, given).
      let v0 : Handling b = record {
        state = state;
        open_batch = none;
        failure = none;
        ret = true;
        document = document;
      } in
      database_loop (get_count m) s m1 given (start_all b call s.atomicity s (ins_of given) v0)
        (new_reply memory m)
      >>= λ (v, reply). some ((finish_all b call s.atomicity v).state, reply)
