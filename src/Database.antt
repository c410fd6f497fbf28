-- ===== src/Database.antt =====
-- lib/db/jdb-internal.c: `j_backend_db_func_exec`, the execution of database calls of one kind
-- through a server. The branch for a backend of the client's own is not modelled, nor are schemas,
-- entries, selectors and iterators, which build the documents.
pub mod Requests
pub mod Replies
pub mod Alone
pub mod Together
pub mod Operations
pub mod Remote
pub mod Tests
use julea.Common.{
  ℕ, Bool, true, false, ◌&&◌, Option, none, some, List, [], ◌∷◌, map, if◌then◌else◌, ◌>>=◌,
}
use julea.Semantics.{Semantics}
use julea.Message.{Message}
use julea.Message
use julea.BackendOperation.{
  ParamType, type_str, type_blob, type_bson, type_error, Param, Value, to_message, from_message,
}
use julea.Server.Database.{Call, DbBackend, DbError, Outcome, out_types}

-- A call's input parameters, and which of the output pointers are set.
pub record Operation : Type 0 where
  pub ins : List Param
  pub wants_document : Bool
  pub wants_error : Bool

abbrev pub wants : Operation → ParamType → Bool
wants o type_str = o.wants_document
wants o type_blob = o.wants_document
wants o type_bson = o.wants_document
wants o type_error = o.wants_error

abbrev pub wanted : Operation → List ParamType → List (ParamType × Bool)
wanted o [] = []
wanted o (t ∷ ts) = (t, wants o t) ∷ wanted o ts

module _ (memory : ℕ → ℕ) (random : ℕ) (magnitude : ℕ → ℕ) where
  unfoldable pub add_operations : Message → List Operation → Message
  unfolding to_message
  add_operations m [] = m
  add_operations m (o ∷ os) = add_operations (to_message magnitude m o.ins) os

  -- `op_type` is the message type. The semantics are not put into the message.
  unfoldable pub exec_request : (op_type : ℕ) → List Operation → Message
  unfolding Message.new add_operations
  exec_request op_type os = add_operations (Message.new memory random op_type 0) os

-- What the output pointers of each operation get, and the result.
unfoldable pub exec_replies :
    (valid : List ℕ → Bool)
    → Call
    → List Operation
    → (reply : Message) → Option (List (List Value) × Bool)
unfolding from_message
exec_replies valid call [] reply = some ([], true)
exec_replies valid call (o ∷ os) reply =
    from_message valid reply (wanted o (out_types call)) >>= λ (reply', got, ret).
    exec_replies valid call os reply' >>= λ (gots, rets). some (got ∷ gots, ret && rets)
