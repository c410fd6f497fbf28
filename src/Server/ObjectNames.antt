-- ===== src/Server/ObjectNames.antt =====
-- server/loop.c: the requests J_MESSAGE_OBJECT_CREATE, J_MESSAGE_OBJECT_DELETE and
-- J_MESSAGE_OBJECT_SYNC, whose operations are names of objects. `none` is a read behind the message.
use julea.Common.{ℕ, zero, suc, Bool, Option, none, some, List, if◌then◌else◌, ◌>>=◌}
use julea.Semantics.{Persistency, storage}
use julea.Message.{Message, add_operation, get_string, get_count}
use julea.Message.Wire.{get_semantics}
use julea.Statistics.{Counter}
use julea.ObjectBackend.{ObjectBackend, open_and_delete}
use julea.Server.{reply_to, answer_status}
use julea.Server.Object.{Serving, count_in}

module _ (magnitude : ℕ → ℕ) where
  -- An operation without data in the reply.
  unfoldable pub answer_empty : Option Message → Option Message
  unfolding add_operation
  answer_empty none = none
  answer_empty (some r) = some (add_operation magnitude r 0)

module _ (memory : ℕ → ℕ) (magnitude : ℕ → ℕ) (b : ObjectBackend) where
  -- What is done with a created object: under storage persistency it is flushed.
  unfoldable pub finish_create : Persistency → Option b.Handle → Serving b.State → Serving b.State
  finish_create p none v = v
  finish_create storage (some object) v =
      let synced =
        count_in (record (count_in v Counter.files_created 1) { state = (b.sync v.state object).0 })
          Counter.sync 1 in
      record synced { state = (b.close synced.state object).0 }
  finish_create _ (some object) v = record (count_in v Counter.files_created 1) {
    state = (b.close v.state object).0;
  }

  unfoldable pub create_one :
      Persistency → (namespace path : List ℕ) → Serving b.State → Serving b.State
  create_one p namespace path v =
      let (s, created) = b.create v.state namespace path in
      finish_create p created (record v { state = s })

  unfoldable pub create_loop :
      ℕ
      → Message
      → Persistency
      → (namespace : List ℕ) → Serving b.State
      → Option Message
      → Option (Message × Serving b.State × Option Message)
  create_loop zero m p namespace v reply = some (m, v, reply)
  create_loop (suc n) m p namespace v reply = get_string m >>= λ (m1, path).
      create_loop n m1 p namespace (create_one p namespace path v) (answer_empty magnitude reply)

  unfoldable pub handle_create :
      Message → Serving b.State → Option (Serving b.State × Option Message)
  handle_create m v = get_string m >>= λ (m1, namespace).
      create_loop (get_count m) m1 (get_semantics m).persistency namespace v
        (reply_to memory m (get_semantics m))
      >>= λ (m2, v1, reply). some (v1, reply)

  -- What a delete leaves, and whether it succeeded.
  abbrev pub deleted : Serving b.State → b.State × Bool → Serving b.State
  deleted v (s, done) =
      if done
      then count_in (record v { state = s }) Counter.files_deleted 1
      else record v { state = s }

  unfoldable pub remove_loop :
      ℕ
      → Message
      → (namespace : List ℕ) → Serving b.State
      → Option Message
      → Option (Message × Serving b.State × Option Message)
  unfolding answer_status
  remove_loop zero m namespace v reply = some (m, v, reply)
  remove_loop (suc n) m namespace v reply = get_string m >>= λ (m1, path).
      let result = open_and_delete b v.state namespace path in
      remove_loop n m1 namespace (deleted v result) (answer_status magnitude reply result.1)

  unfoldable pub handle_remove :
      Message → Serving b.State → Option (Serving b.State × Option Message)
  handle_remove m v = get_string m >>= λ (m1, namespace).
      remove_loop (get_count m) m1 namespace v (reply_to memory m (get_semantics m))
      >>= λ (m2, v1, reply). some (v1, reply)

  -- What is done with an opened object.
  unfoldable pub sync_opened : Option b.Handle → Serving b.State → Serving b.State
  sync_opened none v = v
  sync_opened (some object) v =
      let s = (b.close (b.sync v.state object).0 object).0 in
      record (count_in v Counter.sync 1) { state = s }

  unfoldable pub sync_one : (namespace path : List ℕ) → Serving b.State → Serving b.State
  sync_one namespace path v =
      let (s, object) = b.open_object v.state namespace path in
      sync_opened object (record v { state = s })

  unfoldable pub sync_loop :
      ℕ
      → Message
      → (namespace : List ℕ) → Serving b.State
      → Option Message
      → Option (Message × Serving b.State × Option Message)
  sync_loop zero m namespace v reply = some (m, v, reply)
  sync_loop (suc n) m namespace v reply = get_string m >>= λ (m1, path).
      sync_loop n m1 namespace (sync_one namespace path v) (answer_empty magnitude reply)

  unfoldable pub handle_sync : Message → Serving b.State → Option (Serving b.State × Option Message)
  handle_sync m v = get_string m >>= λ (m1, namespace).
      sync_loop (get_count m) m1 namespace v (reply_to memory m (get_semantics m))
      >>= λ (m2, v1, reply). some (v1, reply)
