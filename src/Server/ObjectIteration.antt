-- ===== src/Server/ObjectIteration.antt =====
-- server/loop.c: the requests J_MESSAGE_OBJECT_GET_ALL and J_MESSAGE_OBJECT_GET_BY_PREFIX.
use julea.Common.{ℕ, ◌+◌, Option, none, some, List, [], ◌∷◌, length, ◌>>=◌}
use julea.Message.{Message, new_reply, add_operation, append_string, get_string}
use julea.ObjectBackend.{ObjectBackend}

module _ (magnitude : ℕ → ℕ) where
  -- The names, and the empty one behind them.
  unfoldable pub answer_names : Message → List (List ℕ) → Message
  unfolding add_operation append_string
  answer_names r [] = (append_string (add_operation magnitude r 1) []).0
  answer_names r (name ∷ names) =
      answer_names (append_string (add_operation magnitude r (length name + 1)) name).0 names

-- The loop is left out if the backend returned FALSE.
abbrev pub listed_names : Option (List (List ℕ)) → List (List ℕ)
listed_names none = []
listed_names (some names) = names

module _ (memory : ℕ → ℕ) (magnitude : ℕ → ℕ) (b : ObjectBackend) where
  unfoldable pub handle_list : Message → b.State → Option Message
  unfolding answer_names
  handle_list m s = get_string m >>= λ (m1, namespace).
      some (answer_names magnitude (new_reply memory m) (listed_names (b.get_all s namespace)))

  unfoldable pub handle_list_by_prefix : Message → b.State → Option Message
  unfolding answer_names
  handle_list_by_prefix m s = get_string m >>= λ (m1, namespace). get_string m1 >>= λ (m2, prefix).
      some (
        answer_names magnitude (new_reply memory m)
          (listed_names (b.get_by_prefix s namespace prefix)))
