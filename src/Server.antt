-- ===== src/Server.antt =====
-- server/loop.c: `jd_handle_message`, which reads a request, calls a backend, and writes a reply.
-- A handler returns the backend's new state and the reply, if one is sent. `none`: the request is
-- shorter than it says, and the handler reads behind the message.
pub mod Kv
pub mod KvIteration
pub mod Object
pub mod ObjectRead
pub mod ObjectNames
pub mod ObjectStatus
pub mod ObjectIteration
pub mod Database
pub mod Statistics
pub mod Answers
use julea.Common.{ℕ, Bool, true, false, Option, none, some, if◌then◌else◌}
use julea.Semantics.{Semantics, Persistency, storage, network, volatile}
use julea.Message.{Message, new_reply, add_operation, append_4}

-- A reply is sent if the client asked for safety.
abbrev pub safe : Persistency → Bool
safe storage = true
safe network = true
safe volatile = false

-- `memory` is what the allocator returns, and `magnitude` as in Message.
module _ (memory : ℕ → ℕ) where
  unfoldable pub reply_to : Message → Semantics → Option Message
  unfolding new_reply
  reply_to m s = if safe s.persistency then some (new_reply memory m) else none

module _ (magnitude : ℕ → ℕ) where
  -- The status of one operation, as 0 or 1.
  unfoldable pub answer_status : Option Message → Bool → Option Message
  unfolding add_operation append_4
  answer_status none done = none
  answer_status (some r) done =
      some (append_4 (add_operation magnitude r 4) (if done then 1 else 0)).0
