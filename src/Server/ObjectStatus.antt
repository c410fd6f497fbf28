-- ===== src/Server/ObjectStatus.antt =====
-- server/loop.c: the request J_MESSAGE_OBJECT_STATUS. `none` is a read behind the message, or the
-- use of a handle that was never set, as the result of the open is not looked at.
use julea.Common.{ℕ, zero, suc, ◌+◌, Option, none, some, List, ◌>>=◌}
use julea.Message.{Message, new_reply, add_operation, append_8, get_string, get_count}
use julea.Statistics.{Counter}
use julea.ObjectBackend.{ObjectBackend}
use julea.Server.Object.{Serving, count_in}

-- The numbers are 0 if the backend does not set them.
abbrev pub sent_stat : Option (ℕ × ℕ) → ℕ × ℕ
sent_stat none = (0, 0)
sent_stat (some stat) = stat

module _ (magnitude : ℕ → ℕ) where
  unfoldable pub answer_stat : Message → ℕ × ℕ → Message
  unfolding add_operation append_8
  answer_stat r (modification_time, size) =
      (append_8 (append_8 (add_operation magnitude r (8 + 8)) modification_time).0 size).0

module _ (memory : ℕ → ℕ) (magnitude : ℕ → ℕ) (b : ObjectBackend) where
  abbrev pub stated : Serving b.State → Option (ℕ × ℕ) → Serving b.State
  stated v none = v
  stated v (some stat) = count_in v Counter.files_stated 1

  -- The status of an opened object, which is then closed.
  unfoldable pub status_one :
      b.Handle → b.State → Serving b.State → Serving b.State × Option (ℕ × ℕ)
  status_one object s v =
      let (s1, stat) = b.status s object in
      (record (stated v stat) { state = (b.close s1 object).0 }, stat)

  unfoldable pub status_loop :
      ℕ
      → Message
      → (namespace : List ℕ) → Serving b.State
      → Message
      → Option (Message × Serving b.State × Message)
  status_loop zero m namespace v reply = some (m, v, reply)
  status_loop (suc n) m namespace v reply = get_string m >>= λ (m1, path).
      let (s, opened) = b.open_object v.state namespace path in
      opened >>= λ object.
      let (v', stat) = status_one object s v in
      status_loop n m1 namespace v' (answer_stat magnitude reply (sent_stat stat))

  unfoldable pub handle_status : Message → Serving b.State → Option (Serving b.State × Message)
  handle_status m v = get_string m >>= λ (m1, namespace).
      status_loop (get_count m) m1 namespace v (new_reply memory m) >>= λ (m2, v1, reply).
      some (v1, reply)
