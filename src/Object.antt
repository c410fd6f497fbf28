-- ===== src/Object.antt =====
-- lib/object/jobject.c: the client of the object store. An operation's function sends a message
-- to the server, or calls the client's own backend. Texts are lists of bytes without the closing
-- zero byte, and have none inside. `none` is a fault.
pub mod Iterator
pub mod Uri
pub mod Chunks
pub mod Requests
pub mod Arrival
pub mod Remote
pub mod Reply
pub mod Unopened
pub mod Names
pub mod Read
pub mod Tests
use julea.Common.{
  ℕ, zero, suc, ◌+◌, ◌-◌, ◌%◌, ◌==◌, ltb, min, Bool, true, false, ◌&&◌, Option, none, some, List,
  [], ◌∷◌, ◌++◌, length, map, take, drop, if◌then◌else◌, ◌>>=◌, u64,
}
use julea.Semantics.{Semantics, Persistency, storage, network, volatile}
use julea.Message.{Message, append_n, append_8, add_operation, add_send, get_count, get_8}
use julea.Message
use julea.Message.Wire.{set_semantics}
use julea.Kv.{hash}
use julea.ObjectBackend.{ObjectBackend}

pub record Object : Type 0 where
  pub index : ℕ
  pub namespace : List ℕ
  pub name : List ℕ
  pub ref_count : ℕ

-- `none` is a division by zero.
unfoldable pub new : (server_count : ℕ) → (namespace name : List ℕ) → Option Object
unfolding hash
new server_count namespace name =
    if server_count == 0
    then none
    else some (record {
      index = hash name % server_count;
      namespace = namespace;
      name = name;
      ref_count = 1;
    })

unfoldable pub new_for_index : (server_count index : ℕ) → (namespace name : List ℕ) → Option Object
new_for_index server_count index namespace name =
    if ltb index server_count
    then some (record { index = index; namespace = namespace; name = name; ref_count = 1 })
    else none

unfoldable pub ref : Object → Object
ref o = record o { ref_count = o.ref_count + 1 }

unfoldable pub unref : Object → Option Object
unref o = if o.ref_count == 1 then none else some (record o { ref_count = o.ref_count - 1 })

-- The message type of include/core/jmessage.h.
abbrev pub object_write : ℕ
object_write = 10

-- A write of one operation.
pub record Write : Type 0 where
  pub bytes : List ℕ
  pub offset : ℕ

-- The loop of `j_object_write`, which adds an operation to the batch for each chunk. `none`: the
-- fuel is too small.
unfoldable pub chunks :
    (fuel : ℕ) → (max_operation_size : ℕ) → List ℕ → (offset : ℕ) → Option (List Write)
chunks zero max_operation_size bytes offset = none
chunks (suc fuel) max_operation_size bytes offset =
    let chunk_size : ℕ = min (length bytes) max_operation_size in
    let rest = chunks fuel max_operation_size (drop chunk_size bytes) (u64 (offset + chunk_size)) in
    if length bytes == 0
    then some []
    else (rest >>= λ writes.
        some (record { bytes = take chunk_size bytes; offset = offset } ∷ writes))

module _ (memory : ℕ → ℕ) (random : ℕ) (magnitude : ℕ → ℕ) where
  -- The start of a request for one object.
  unfoldable pub object_request : (op_type : ℕ) → Object → Semantics → Message
  unfolding Message.new append_n
  object_request op_type o s =
      let m = Message.new memory random op_type (length o.namespace + 1 + (length o.name + 1)) in
      let m1 = (append_n (set_semantics m s) (o.namespace ++ 0 ∷ [])).0 in
      (append_n m1 (o.name ++ 0 ∷ [])).0

  unfoldable pub add_write : Message → Write → Message
  unfolding add_operation append_8 add_send
  add_write m w =
      let m1 = add_operation magnitude m (8 + 8) in
      let m2 = (append_8 m1 (length w.bytes)).0 in add_send (append_8 m2 w.offset).0 w.bytes

  unfoldable pub add_writes : Message → List Write → Message
  unfolding add_write
  add_writes m [] = m
  add_writes m (w ∷ ws) = add_writes (add_write m w) ws

  -- All writes of a call are to the same object.
  unfoldable pub write_request : Object → List Write → Semantics → Message
  unfolding object_request add_writes
  write_request o ws s = add_writes (object_request object_write o s) ws

-- The numbers of written bytes that the reply has, one for each operation.
unfoldable pub read_counts : List Write → Message → List ℕ
unfolding get_8
read_counts [] reply = []
read_counts (w ∷ ws) reply = let (reply', nbytes) = get_8 reply in nbytes ∷ read_counts ws reply'

-- A reply without operations stands for an object that could not be opened.
unfoldable pub read_written : List Write → Message → List ℕ × Bool
read_written ws reply =
    if ltb 0 (get_count reply) then (read_counts ws reply, true) else ([], false)

-- What each operation adds to its counter, and the result of the call. Without a reply the writes
-- count as done.
unfoldable pub write_result : Persistency → List Write → (reply : Message) → List ℕ × Bool
write_result volatile ws reply = (map (λ w. length w.bytes) ws, true)
write_result _ ws reply = read_written ws reply

-- With a backend on the client's side.
module _ (b : ObjectBackend) where
  unfoldable pub write_each : b.Handle → b.State → List Write → Bool → b.State × List ℕ × Bool
  write_each object s [] ret = (s, [], ret)
  write_each object s (w ∷ ws) ret =
      let (s', nbytes, done) = b.write s object w.bytes w.offset in
      let (s'', counts, ret') = write_each object s' ws (done && ret) in
      (s'', nbytes ∷ counts, ret')

  -- A handle that was not set is written to: a fault.
  unfoldable pub write_local : Object → List Write → b.State → Option (b.State × List ℕ × Bool)
  unfolding write_each
  write_local o ws s =
      let (s1, opened) = b.open_object s o.namespace o.name in
      opened >>= λ object.
      let (s2, counts, ret) = write_each object s1 ws true in
      let (s3, closed) = b.close s2 object in some (s3, counts, closed && ret)
