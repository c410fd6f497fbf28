-- ===== src/Server/KvIteration.antt =====
-- server/loop.c: the requests J_MESSAGE_KV_GET_ALL and J_MESSAGE_KV_GET_BY_PREFIX.
use julea.Common.{ℕ, ◌+◌, Option, some, List, [], ◌∷◌, length, ◌>>=◌}
use julea.Message.{Message, new_reply, add_operation, append_4, append_n, append_string, get_string}
use julea.KvBackend.{KvBackend}

module _ (magnitude : ℕ → ℕ) where
  -- One pair: the value's length, the value, and the key.
  unfoldable pub answer_item : Message → List ℕ × List ℕ → Message
  unfolding add_operation append_4 append_n append_string
  answer_item r (key, value) =
      let r1 = add_operation magnitude r (4 + length value + (length key + 1)) in
      let r2 = (append_4 r1 (length value)).0 in
      let r3 = (append_n r2 value).0 in (append_string r3 key).0

  -- The pairs that the backend iterates over, and a zero length behind them.
  unfoldable pub answer_items : Message → List (List ℕ × List ℕ) → Message
  unfolding answer_item
  answer_items r [] = (append_4 (add_operation magnitude r 4) 0).0
  answer_items r (item ∷ items) = answer_items (answer_item r item) items

module _ (memory : ℕ → ℕ) (magnitude : ℕ → ℕ) (b : KvBackend) where
  unfoldable pub handle_get_all : Message → b.State → Option Message
  unfolding get_string
  handle_get_all m s = get_string m >>= λ (m1, namespace).
      some (answer_items magnitude (new_reply memory m) (b.get_all s namespace))

  unfoldable pub handle_get_by_prefix : Message → b.State → Option Message
  unfolding get_string
  handle_get_by_prefix m s = get_string m >>= λ (m1, namespace). get_string m1 >>= λ (m2, prefix).
      some (answer_items magnitude (new_reply memory m) (b.get_by_prefix s namespace prefix))
