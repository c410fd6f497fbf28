-- ===== src/Server/ObjectRead.antt =====
-- server/loop.c: the request J_MESSAGE_OBJECT_READ. The bytes that are read wait in the memory chunk
-- until the reply is sent, so when the chunk is full, the reply is sent and another one is begun.
-- A handler returns the replies in the order in which they are sent. `none`: a read behind the
-- message, or a read of the backend into NULL.
use julea.Common.{
  ℕ, zero, suc, ltb, ◌==◌, Option, none, some, List, [], ◌∷◌, ◌++◌, length, if◌then◌else◌, ◌>>=◌,
}
use julea.Message.{
  Message, new_reply, add_operation, append_8, add_send, get_string, get_8, get_count,
}
use julea.MemoryChunk.{MemoryChunk}
use julea.MemoryChunk
use julea.Statistics.{Counter}
use julea.ObjectBackend.{ObjectBackend}
use julea.Server.Object.{Serving, count_in, close_open}

-- A buffer in the chunk, and the replies that had to be sent to get one.
pub record Buffer : Type 0 where
  pub sent : List Message
  pub reply : Message
  pub chunk : MemoryChunk
  pub address : ℕ

module _ (memory : ℕ → ℕ) (magnitude : ℕ → ℕ) where
  -- The number of bytes that were read, and behind the message the bytes.
  unfoldable pub answer_bytes : Message → List ℕ → Message
  unfolding add_operation append_8 add_send
  answer_bytes r bytes =
      let r' = (append_8 (add_operation magnitude r 8) (length bytes)).0 in
      if ltb 0 (length bytes) then add_send r' bytes else r'

  unfoldable pub take_buffer : (request reply : Message) → MemoryChunk → (length : ℕ) → Buffer
  unfolding MemoryChunk.get MemoryChunk.reset
  take_buffer request reply c n =
      let (chunk, address) = MemoryChunk.get c n in
      let (chunk', address') = MemoryChunk.get (MemoryChunk.reset c) n in
      if address == 0
      then record {
        sent = reply ∷ [];
        reply = new_reply memory request;
        chunk = chunk';
        address = address';
      }
      else record { sent = []; reply = reply; chunk = chunk; address = address }

module _ (memory : ℕ → ℕ) (magnitude : ℕ → ℕ) (b : ObjectBackend) where
  -- The backend's read into the buffer.
  unfoldable pub read_open :
      b.Handle → Serving b.State → Buffer → (length offset : ℕ) → Option (Serving b.State × Message)
  unfolding answer_bytes
  read_open object v buffer n offset =
      let (s, bytes, done) = b.read v.state object n offset in
      let read : Serving b.State = record v { state = s; chunk = buffer.chunk } in
      if buffer.address == 0
      then none
      else some (
        count_in (count_in read Counter.bytes_read (length bytes)) Counter.bytes_sent
            (length bytes),
        answer_bytes memory magnitude buffer.reply bytes,
      )

  -- The loop over the operations, which ends at once if the object is not open. The last message
  -- of the result is still to be sent.
  unfoldable pub read_loop :
      ℕ
      → Message
      → Option b.Handle
      → Serving b.State
      → (reply : Message) → Option (List Message × Serving b.State × Message)
  read_loop zero m object v reply = some ([], v, reply)
  read_loop (suc n) m none v reply = some ([], v, reply)
  read_loop (suc n) m (some object) v reply =
      let (m1, length) = get_8 m in
      let (m2, offset) = get_8 m1 in
      let skipped =
        read_loop n m2 (some object) v (append_8 (add_operation magnitude reply 8) 0).0 in
      let buffer = take_buffer memory magnitude m2 reply v.chunk length in
      if ltb v.chunk.size length
      then skipped
      else (read_open object v buffer length offset >>= λ (v', reply').
          read_loop n m2 (some object) v' reply' >>= λ (sent, v'', last).
          some (buffer.sent ++ sent, v'', last))

  unfoldable pub handle_read : Message → Serving b.State → Option (Serving b.State × List Message)
  handle_read m v = get_string m >>= λ (m1, namespace). get_string m1 >>= λ (m2, path).
      let (s, object) = b.open_object v.state namespace path in
      read_loop (get_count m) m2 object (record v { state = s }) (new_reply memory m)
      >>= λ (sent, v1, last).
          let v2 = close_open memory magnitude b object v1 in
          some (record v2 { chunk = MemoryChunk.reset v2.chunk }, sent ++ last ∷ [])
