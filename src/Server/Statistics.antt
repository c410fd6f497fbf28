-- ===== src/Server/Statistics.antt =====
-- server/loop.c: the request J_MESSAGE_STATISTICS.
use julea.Common.{ℕ, ◌*◌, ◌==◌, List, [], ◌∷◌, if◌then◌else◌}
use julea.Message.{Message, new_reply, add_operation, append_8, get_1}
use julea.Statistics.{
  Counter, files_created, files_deleted, files_stated, sync, bytes_read, bytes_written,
  bytes_received, bytes_sent, Statistics, get,
}

-- The order in which the counters are sent.
abbrev pub counters : List Counter
counters =
    files_created ∷ files_deleted ∷ files_stated ∷ sync ∷ bytes_read ∷ bytes_written
    ∷ bytes_received ∷ bytes_sent ∷ []

unfoldable pub append_counters : Message → Statistics → List Counter → Message
unfolding append_8 get
append_counters r s [] = r
append_counters r s (c ∷ cs) = append_counters (append_8 r (get s c)).0 s cs

module _ (memory : ℕ → ℕ) (magnitude : ℕ → ℕ) where
  -- The client asks for the counters of the thread that serves it, or for those that all threads
  -- share. The mutex around the second is left out.
  unfoldable pub handle_statistics : Message → (thread shared : Statistics) → Message
  unfolding new_reply add_operation append_counters get_1
  handle_statistics m thread shared =
      let (m', get_all) = get_1 m in
      append_counters (add_operation magnitude (new_reply memory m) (8 * 8))
        (if get_all == 0 then thread else shared) counters
