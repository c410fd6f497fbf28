-- ===== src/Object/Names.antt =====
-- lib/object/jobject.c: creating, deleting, flushing and asking for objects.
pub mod Requests
pub mod Statuses
pub mod Delete
pub mod Create
pub mod Sync
pub mod Stats
pub mod Status
pub mod Tests
use julea.Common.{
  ℕ, zero, suc, ◌+◌, ◌==◌, Bool, true, false, ◌&&◌, Option, none, some, List, [], ◌∷◌, ◌++◌, length,
  ◌>>=◌,
}
use julea.Semantics.{Semantics, Persistency, storage, network, volatile}
use julea.Message.{Message, append_n, add_operation, get_count, get_4, get_8}
use julea.Message
use julea.Message.Wire.{set_semantics}
use julea.ObjectBackend.{ObjectBackend, open_and_delete}
use julea.Server.Object.{is_some}
use julea.Object.{Object}

-- The message types of include/core/jmessage.h.
abbrev pub object_create : ℕ
object_create = 3

abbrev pub object_delete : ℕ
object_delete = 4

abbrev pub object_status : ℕ
object_status = 8

abbrev pub object_sync : ℕ
object_sync = 9

module _ (memory : ℕ → ℕ) (random : ℕ) (magnitude : ℕ → ℕ) where
  unfoldable pub namespace_request : (op_type : ℕ) → (namespace : List ℕ) → Semantics → Message
  unfolding Message.new append_n
  namespace_request op_type namespace s =
      let m = Message.new memory random op_type (length namespace + 1) in
      (append_n (set_semantics m s) (namespace ++ 0 ∷ [])).0

  unfoldable pub add_name : Message → Object → Message
  unfolding add_operation append_n
  add_name m o = (append_n (add_operation magnitude m (length o.name + 1)) (o.name ++ 0 ∷ [])).0

  unfoldable pub add_names : Message → List Object → Message
  unfolding add_name
  add_names m [] = m
  add_names m (o ∷ os) = add_names (add_name m o) os

  -- The first object of a call gives the namespace and the server.
  unfoldable pub create_request : Object → List Object → Semantics → Message
  unfolding namespace_request add_names
  create_request o os s = add_names (namespace_request object_create o.namespace s) (o ∷ os)

  unfoldable pub remove_request : Object → List Object → Semantics → Message
  unfolding namespace_request add_names
  remove_request o os s = add_names (namespace_request object_delete o.namespace s) (o ∷ os)

  unfoldable pub status_request : Object → List Object → Semantics → Message
  unfolding namespace_request add_names
  status_request o os s = add_names (namespace_request object_status o.namespace s) (o ∷ os)

  unfoldable pub sync_request : Object → List Object → Semantics → Message
  unfolding namespace_request add_names
  sync_request o os s = add_names (namespace_request object_sync o.namespace s) (o ∷ os)

-- What a status reads from the reply for each object.
unfoldable pub read_stats : List Object → Message → List (ℕ × ℕ)
read_stats [] reply = []
read_stats (o ∷ os) reply =
    let (reply1, modification_time) = get_8 reply in
    let (reply2, size) = get_8 reply1 in (modification_time, size) ∷ read_stats os reply2

-- The result of a delete, from the statuses in the reply.
unfoldable pub read_statuses : ℕ → Message → Bool → Bool
read_statuses zero reply ret = ret
read_statuses (suc n) reply ret =
    let (reply', status) = get_4 reply in read_statuses n reply' (status == 1 && ret)

unfoldable pub remove_result : Persistency → (reply : Message) → Bool
remove_result volatile reply = true
remove_result _ reply = read_statuses (get_count reply) reply true

-- With a backend on the client's side.
module _ (b : ObjectBackend) where
  -- A handle that was not set is closed: a fault.
  unfoldable pub create_local : List Object → b.State → Bool → Option (b.State × Bool)
  create_local [] s ret = some (s, ret)
  create_local (o ∷ os) s ret =
      let (s1, created) = b.create s o.namespace o.name in
      created >>= λ object.
      let (s2, closed) = b.close s1 object in create_local os s2 (closed && ret)

  unfoldable pub remove_local : List Object → b.State → Bool → b.State × Bool
  unfolding open_and_delete
  remove_local [] s ret = (s, ret)
  remove_local (o ∷ os) s ret =
      let (s', done) = open_and_delete b s o.namespace o.name in remove_local os s' (done && ret)

  unfoldable pub status_local :
      List Object → b.State → Bool → Option (b.State × List (Option (ℕ × ℕ)) × Bool)
  status_local [] s ret = some (s, [], ret)
  status_local (o ∷ os) s ret =
      let (s1, opened) = b.open_object s o.namespace o.name in
      opened >>= λ object.
      let (s2, stat) = b.status s1 object in
      let (s3, closed) = b.close s2 object in
      status_local os s3 (closed && (is_some stat && ret)) >>= λ (s4, stats, ret').
      some (s4, stat ∷ stats, ret')

  -- A handle that was not set is flushed: a fault.
  unfoldable pub sync_local : List Object → b.State → Bool → Option (b.State × Bool)
  sync_local [] s ret = some (s, ret)
  sync_local (o ∷ os) s ret =
      let (s1, opened) = b.open_object s o.namespace o.name in
      opened >>= λ object.
      let (s2, synced) = b.sync s1 object in
      let (s3, closed) = b.close s2 object in sync_local os s3 (closed && (synced && ret))
