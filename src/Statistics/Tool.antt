-- ===== src/Statistics/Tool.antt =====
-- tools/statistics.c: the counters of all servers. Printing is left out.
use julea.Common.{ℕ, false, List, [], ◌∷◌}
use julea.Message.{
  Message, new_reply, get_8, get_1, append_1, append_8, add_operation, le_bytes, get_count,
}
use julea.Message
use julea.Server.Statistics.{counters}
use julea.Statistics.{Counter, Statistics, new, add}

-- One server's reply: its counters go into its own statistics and into the total.
unfoldable pub read_counters :
    List Counter → (reply : Message) → (one every : Statistics) → Statistics × Statistics
unfolding get_8 add
read_counters [] reply one every = (one, every)
read_counters (c ∷ cs) reply one every =
    let (reply', value) = get_8 reply in
    read_counters cs reply' (add one c value) (add every c value)

-- The loop over the servers.
unfoldable pub read_servers : List Message → (every : Statistics) → List Statistics × Statistics
unfolding read_counters new
read_servers [] every = ([], every)
read_servers (r ∷ rs) every =
    let (one, every') = read_counters counters r (new false) every in
    let (ones, every'') = read_servers rs every' in (one ∷ ones, every'')

module _ (memory : ℕ → ℕ) (random : ℕ) (magnitude : ℕ → ℕ) where
  -- The request, which asks for the counters that all threads share.
  unfoldable pub statistics_request : Message
  unfolding Message.new add_operation append_1
  statistics_request = (append_1 (add_operation magnitude (Message.new memory random 2 1) 0) 1).0
