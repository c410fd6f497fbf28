-- ===== src/Database/Operations.antt =====
-- lib/db/jdb-internal.c: the operations that `j_db_internal_schema_create` to `j_db_internal_query`
-- add to a batch. Pointers to output documents are always set, and `error` is set if the caller
-- passed one. A selector is what `j_db_selector_get_bson` returns for it; `none` is NULL.
use julea.Common.{ℕ, ◌<◌, refl, Bool, true, Option, none, some, List, [], ◌∷◌, length}
use julea.Kv.Requests.{IsText}
use julea.BackendOperation.{Param, str, bson, bson_null}
use julea.Server.Database.{
  Call, schema_create, schema_get, schema_delete, insert, update, delete, query, in_types,
}
use julea.Database.{Operation}
use julea.Database.Requests.{CallFits}

pub record Schema : Type 0 where
  pub namespace : List ℕ
  pub name : List ℕ
  pub document : List ℕ

pub record Entry : Type 0 where
  pub schema : Schema
  pub document : List ℕ

-- An operation of a batch: its key, and the call that its function makes.
pub record Queued : Type 0 where
  pub key : List ℕ
  pub call : Call
  pub operation : Operation

-- The message types of include/core/jmessage.h.
unfoldable pub message_type : Call → ℕ
message_type schema_create = 16
message_type schema_get = 17
message_type schema_delete = 18
message_type insert = 19
message_type update = 20
message_type delete = 21
message_type query = 22

-- A document in the template is marked as initialized, so that only a NULL pointer is not sent.
abbrev pub selection : Option (List ℕ) → Param
selection none = bson_null
selection (some d) = bson d

abbrev queued : Call → Schema → List Param → (error : Bool) → Queued
queued call s params error = record {
  key = s.namespace;
  call = call;
  operation = record {
    ins = str s.namespace ∷ str s.name ∷ params;
    wants_document = true;
    wants_error = error;
  };
}

unfoldable pub queue_schema_create : Schema → (error : Bool) → Queued
queue_schema_create s error = queued schema_create s (bson s.document ∷ []) error

unfoldable pub queue_schema_get : Schema → (error : Bool) → Queued
queue_schema_get s error = queued schema_get s [] error

unfoldable pub queue_schema_delete : Schema → (error : Bool) → Queued
queue_schema_delete s error = queued schema_delete s [] error

unfoldable pub queue_insert : Entry → (error : Bool) → Queued
queue_insert e error = queued insert e.schema (bson e.document ∷ []) error

unfoldable pub queue_update : Entry → (selector : Option (List ℕ)) → (error : Bool) → Queued
queue_update e selector error =
    queued update e.schema (selection selector ∷ bson e.document ∷ []) error

unfoldable pub queue_delete : Entry → (selector : Option (List ℕ)) → (error : Bool) → Queued
queue_delete e selector error = queued delete e.schema (selection selector ∷ []) error

unfoldable pub queue_query : Schema → (selector : Option (List ℕ)) → (error : Bool) → Queued
queue_query s selector error = queued query s (selection selector ∷ []) error

abbrev pub SchemaFits : Schema → Type 0
SchemaFits s = IsText s.namespace × IsText s.name × (0 < length s.document)

abbrev pub EntryFits : Entry → Type 0
EntryFits e = SchemaFits e.schema × (0 < length e.document)

abbrev pub SelectorFits : Option (List ℕ) → Type 0
SelectorFits none = Unit
SelectorFits (some d) = 0 < length d

abbrev pub QueuedFits : Queued → Type 0
QueuedFits q = CallFits q.call (q.operation ∷ [])

module _ (error : Bool) where
  pub queue_schema_create-QueuedFits :
      (s : Schema) → SchemaFits s → QueuedFits (queue_schema_create s error)
  unfolding queue_schema_create in_types
  queue_schema_create-QueuedFits s (ns, name, some_bytes) =
      ((ns, (name, (some_bytes, tt))), refl, tt)

  pub queue_schema_get-QueuedFits :
      (s : Schema) → SchemaFits s → QueuedFits (queue_schema_get s error)
  unfolding queue_schema_get in_types
  queue_schema_get-QueuedFits s (ns, name, some_bytes) = ((ns, (name, tt)), refl, tt)

  pub queue_schema_delete-QueuedFits :
      (s : Schema) → SchemaFits s → QueuedFits (queue_schema_delete s error)
  unfolding queue_schema_delete in_types
  queue_schema_delete-QueuedFits s (ns, name, some_bytes) = ((ns, (name, tt)), refl, tt)

  pub queue_insert-QueuedFits : (e : Entry) → EntryFits e → QueuedFits (queue_insert e error)
  unfolding queue_insert in_types
  queue_insert-QueuedFits e ((ns, name, _), some_bytes) = ((ns, (name, (some_bytes, tt))), refl, tt)

  pub queue_update-QueuedFits :
      (e : Entry) (selector : Option (List ℕ))
      → EntryFits e
      → SelectorFits selector
      → QueuedFits (queue_update e selector error)
  unfolding queue_update in_types
  queue_update-QueuedFits e none ((ns, name, _), some_bytes) fits =
      ((ns, (name, (tt, (some_bytes, tt)))), refl, tt)
  queue_update-QueuedFits e (some d) ((ns, name, _), some_bytes) fits =
      ((ns, (name, (fits, (some_bytes, tt)))), refl, tt)

  pub queue_delete-QueuedFits :
      (e : Entry) (selector : Option (List ℕ))
      → EntryFits e
      → SelectorFits selector
      → QueuedFits (queue_delete e selector error)
  unfolding queue_delete in_types
  queue_delete-QueuedFits e none ((ns, name, _), some_bytes) fits =
      ((ns, (name, (tt, tt))), refl, tt)
  queue_delete-QueuedFits e (some d) ((ns, name, _), some_bytes) fits =
      ((ns, (name, (fits, tt))), refl, tt)

  pub queue_query-QueuedFits :
      (s : Schema) (selector : Option (List ℕ))
      → SchemaFits s
      → SelectorFits selector
      → QueuedFits (queue_query s selector error)
  unfolding queue_query in_types
  queue_query-QueuedFits s none (ns, name, some_bytes) fits = ((ns, (name, (tt, tt))), refl, tt)
  queue_query-QueuedFits s (some d) (ns, name, some_bytes) fits =
      ((ns, (name, (fits, tt))), refl, tt)
