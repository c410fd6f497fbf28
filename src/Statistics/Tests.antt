-- ===== src/Statistics/Tests.antt =====
-- Counters at work, and two servers that report them.
use julea.Common.{◌≡◌, [], ◌∷◌, map, false, arith, refl}
use julea.Message.{Message}
use julea.Kv.Tests.{blank, arrived, arrived-Arrived}
use julea.BackendOperation.Tests.{linear}
use julea.Server.Statistics.{handle_statistics}
use julea.Statistics.{
  files_created, files_deleted, files_stated, sync, bytes_read, bytes_written, bytes_received,
  bytes_sent, Statistics, new, get, add,
}
use julea.Statistics.Laws.{add_all}
use julea.Statistics.Tool.{statistics_request, read_servers}
use julea.Statistics.Report.{Bounded, Reported, read_servers-handle_statistics}

abbrev some_counts : Statistics
some_counts = record {
  trace = false;
  files_created = 3;
  files_deleted = 0;
  files_stated = 1;
  sync_count = 2;
  bytes_read = 512;
  bytes_written = 0;
  bytes_received = 0;
  bytes_sent = 512;
}

abbrev other_counts : Statistics
other_counts = record some_counts { sync_count = 5 }

two_syncs : get (add_all (new false) ((sync, 1) ∷ (bytes_read, 5) ∷ (sync, 1) ∷ [])) sync ≡ 2
unfolding new get add_all add
two_syncs = refl

some-Bounded : Bounded some_counts
unfolding get
some-Bounded files_created = omega arith
some-Bounded files_deleted = omega arith
some-Bounded files_stated = omega arith
some-Bounded sync = omega arith
some-Bounded bytes_read = omega arith
some-Bounded bytes_written = omega arith
some-Bounded bytes_received = omega arith
some-Bounded bytes_sent = omega arith

other-Bounded : Bounded other_counts
unfolding get
other-Bounded files_created = omega arith
other-Bounded files_deleted = omega arith
other-Bounded files_stated = omega arith
other-Bounded sync = omega arith
other-Bounded bytes_read = omega arith
other-Bounded bytes_written = omega arith
other-Bounded bytes_received = omega arith
other-Bounded bytes_sent = omega arith

abbrev asked : Message
asked = arrived (statistics_request blank 7 linear)

abbrev answer : Statistics → Message
answer s = handle_statistics blank linear asked (new false) s

reported :
    (s : Statistics)
    → Bounded s
    → Reported blank 7 linear (λ n h. h) refl asked (new false) s (arrived (answer s))
reported s bounded =
    (arrived-Arrived (statistics_request blank 7 linear), arrived-Arrived (answer s), bounded)

read_servers-handle_statistics_example :
    let (ones, every) =
      read_servers
        (arrived (answer some_counts) ∷ arrived (answer other_counts) ∷ [])
        (new false) in
    (map (λ one. get one sync) ones ≡ 2 ∷ 5 ∷ []) × (get every sync ≡ 7)
unfolding get
read_servers-handle_statistics_example =
    read_servers-handle_statistics blank 7 linear (λ n h. h) refl (asked ∷ asked ∷ [])
      ((new false, some_counts) ∷ (new false, other_counts) ∷ [])
      (arrived (answer some_counts) ∷ arrived (answer other_counts) ∷ [])
      (reported some_counts some-Bounded, (reported other_counts other-Bounded, tt)) sync
