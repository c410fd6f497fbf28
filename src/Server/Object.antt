-- ===== src/Server/Object.antt =====
-- server/loop.c: the request J_MESSAGE_OBJECT_WRITE. `none` is a fault: a read behind the message, a failed assertion, a
-- handle that was never set, or a connection that ends before the data.
use julea.Common.{
  ℕ, zero, suc, ltb, ◌==◌, Bool, true, false, ◌&&◌, Option, none, some, List, length, take, drop,
  if◌then◌else◌, ◌>>=◌,
}
use julea.Semantics.{Persistency, storage}
use julea.Message.{Message, add_operation, append_8, get_string, get_8, get_count}
use julea.Message.Wire.{get_semantics}
use julea.MemoryChunk.{MemoryChunk}
use julea.MemoryChunk
use julea.Statistics.{Statistics, Counter}
use julea.Statistics
use julea.ObjectBackend.{ObjectBackend}
use julea.Server.{reply_to}

-- What a thread of the server works on: the backend, its counters, its memory chunk, and the bytes
-- that are still to come on the connection.
pub record Serving (State : Type 0) : Type 0 where
  pub state : State
  pub statistics : Statistics
  pub chunk : MemoryChunk
  pub incoming : List ℕ

abbrev pub count_in : {State : Type 0} → Serving State → Counter → ℕ → Serving State
count_in v c n = record v { statistics = Statistics.add v.statistics c n }

abbrev pub is_some : {A : Type 0} → Option A → Bool
is_some none = false
is_some (some a) = true

module _ (magnitude : ℕ → ℕ) where
  -- A number of bytes in the reply.
  unfoldable pub answer_8 : Option Message → ℕ → Option Message
  unfolding add_operation append_8
  answer_8 none n = none
  answer_8 (some r) n = some (append_8 (add_operation magnitude r 8) n).0

module _ (memory : ℕ → ℕ) (magnitude : ℕ → ℕ) (b : ObjectBackend) where
  -- The backend's write, if the object is open.
  unfoldable pub write_open :
      Option b.Handle
      → Serving b.State
      → Option Message
      → (bytes : List ℕ) → (offset : ℕ) → Serving b.State × Option Message
  unfolding answer_8
  write_open none v reply bytes offset = (v, reply)
  write_open (some object) v reply bytes offset =
      let (s, written, done) = b.write v.state object bytes offset in
      (
        record v {
          state = s;
          statistics = Statistics.add v.statistics Counter.bytes_written written;
        },
        answer_8 magnitude reply written,
      )

  -- The bytes of one operation are read into the memory chunk and written.
  unfoldable pub write_bytes :
      Option b.Handle
      → Serving b.State
      → Option Message
      → (length offset : ℕ) → Option (Serving b.State × Option Message)
  unfolding MemoryChunk.get MemoryChunk.reset write_open
  write_bytes object v reply n offset =
      let (chunk, buf) = MemoryChunk.get v.chunk n in
      let read : Serving b.State = record v {
        chunk = chunk;
        incoming = drop n v.incoming;
        statistics = Statistics.add v.statistics Counter.bytes_received n;
      } in
      let (v', reply') = write_open object read reply (take n v.incoming) offset in
      if buf == 0
      then none
      else if ltb (length v.incoming) n
      then none
      else some (record v' { chunk = MemoryChunk.reset v'.chunk }, reply')

  unfoldable pub write_loop :
      ℕ
      → Message
      → Option b.Handle
      → Serving b.State
      → Option Message
      → Option (Message × Serving b.State × Option Message)
  unfolding get_8
  write_loop zero m object v reply = some (m, v, reply)
  write_loop (suc n) m object v reply =
      let (m1, length) = get_8 m in
      let (m2, offset) = get_8 m1 in
      let rest = write_loop n m2 object v (answer_8 magnitude reply 0) in
      if ltb v.chunk.size length && is_some reply && is_some object
      then rest
      else (write_bytes object v reply length offset >>= λ (v', reply').
          write_loop n m2 object v' reply')

  -- With storage persistency the object is flushed.
  unfoldable pub flush : Persistency → Option b.Handle → Serving b.State → Option (Serving b.State)
  flush storage none v = none
  flush storage (some object) v = some (record v {
    state = (b.sync v.state object).0;
    statistics = Statistics.add v.statistics Counter.sync 1;
  })
  flush _ object v = some v

  unfoldable pub close_open : Option b.Handle → Serving b.State → Serving b.State
  close_open none v = v
  close_open (some object) v = record v { state = (b.close v.state object).0 }

  unfoldable pub handle_write :
      Message → Serving b.State → Option (Serving b.State × Option Message)
  unfolding get_string
  handle_write m v = get_string m >>= λ (m1, namespace). get_string m1 >>= λ (m2, path).
      let (s, object) = b.open_object v.state namespace path in
      let semantics = get_semantics m in
      write_loop (get_count m) m2 object (record v { state = s }) (reply_to memory m semantics)
      >>= λ (m3, v1, reply). flush semantics.persistency object v1 >>= λ v2.
          let v3 = close_open object v2 in
          some (record v3 { chunk = MemoryChunk.reset v3.chunk }, reply)
