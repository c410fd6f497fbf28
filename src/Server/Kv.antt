-- ===== src/Server/Kv.antt =====
-- server/loop.c: the requests J_MESSAGE_KV_PUT, J_MESSAGE_KV_DELETE and J_MESSAGE_KV_GET.
use julea.Common.{ℕ, zero, suc, ◌+◌, Option, none, some, List, length, ◌>>=◌}
use julea.Message.{
  Message, new_reply, add_operation, append_4, append_n, get_string, get_4, get_n, get_count,
}
use julea.Message.Wire.{get_semantics}
use julea.KvBackend.{KvBackend}
use julea.Server.{reply_to, answer_status}

module _ (magnitude : ℕ → ℕ) where
  -- The reply to a get has the value's length and the value, or a zero length.
  unfoldable pub answer_value : Message → Option (List ℕ) → Message
  unfolding add_operation append_4 append_n
  answer_value r none = (append_4 (add_operation magnitude r 4) 0).0
  answer_value r (some value) =
      (append_n (append_4 (add_operation magnitude r (4 + length value)) (length value)).0 value).0

module _ (memory : ℕ → ℕ) (magnitude : ℕ → ℕ) (b : KvBackend) where
  -- The loop over the operations of a put: what is left of the message, the backend, the reply.
  unfoldable pub put_loop :
      ℕ → Message → b.Batch → b.State → Option Message → Option (Message × b.State × Option Message)
  unfolding get_string get_4 get_n answer_status
  put_loop zero m batch s reply = some (m, s, reply)
  put_loop (suc n) m batch s reply = get_string m >>= λ (m1, key).
      (get_n (get_4 m1).0 (get_4 m1).1).1 >>= λ value.
      let (s', done) = b.put s batch key value in
      put_loop n (get_n (get_4 m1).0 (get_4 m1).1).0 batch s' (answer_status magnitude reply done)

  unfoldable pub handle_put : Message → b.State → Option (b.State × Option Message)
  unfolding get_string
  handle_put m s = get_string m >>= λ (m1, namespace).
      let (s1, batch, started) = b.batch_start s namespace (get_semantics m) in
      put_loop (get_count m) m1 batch s1 (reply_to memory m (get_semantics m))
      >>= λ (m2, s2, reply). some ((b.batch_execute s2 batch).0, reply)

  unfoldable pub delete_loop :
      ℕ → Message → b.Batch → b.State → Option Message → Option (Message × b.State × Option Message)
  unfolding get_string answer_status
  delete_loop zero m batch s reply = some (m, s, reply)
  delete_loop (suc n) m batch s reply = get_string m >>= λ (m1, key).
      let (s', done) = b.delete s batch key in
      delete_loop n m1 batch s' (answer_status magnitude reply done)

  unfoldable pub handle_delete : Message → b.State → Option (b.State × Option Message)
  unfolding get_string
  handle_delete m s = get_string m >>= λ (m1, namespace).
      let (s1, batch, started) = b.batch_start s namespace (get_semantics m) in
      delete_loop (get_count m) m1 batch s1 (reply_to memory m (get_semantics m))
      >>= λ (m2, s2, reply). some ((b.batch_execute s2 batch).0, reply)

  unfoldable pub get_loop :
      ℕ → Message → b.Batch → b.State → Message → Option (Message × b.State × Message)
  unfolding get_string answer_value
  get_loop zero m batch s reply = some (m, s, reply)
  get_loop (suc n) m batch s reply = get_string m >>= λ (m1, key).
      let (s', value) = b.get s batch key in
      get_loop n m1 batch s' (answer_value magnitude reply value)

  unfoldable pub handle_get : Message → b.State → Option (b.State × Message)
  unfolding get_string
  handle_get m s = get_string m >>= λ (m1, namespace).
      let (s1, batch, started) = b.batch_start s namespace (get_semantics m) in
      get_loop (get_count m) m1 batch s1 (new_reply memory m) >>= λ (m2, s2, reply).
      some ((b.batch_execute s2 batch).0, reply)
