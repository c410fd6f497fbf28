-- ===== src/Statistics.antt =====
-- lib/core/jstatistics.c: eight 64-bit counters. The tracing of a counter is left out.
pub mod Laws
pub mod Tool
pub mod Report
pub mod Tests
use julea.Common.{ℕ, ◌+◌, Bool, u64}

pub data Counter : Type 0 where
  files_created files_deleted files_stated sync bytes_read bytes_written bytes_received bytes_sent :
      Counter

pub record Statistics : Type 0 where
  pub trace : Bool
  pub files_created : ℕ
  pub files_deleted : ℕ
  pub files_stated : ℕ
  pub sync_count : ℕ
  pub bytes_read : ℕ
  pub bytes_written : ℕ
  pub bytes_received : ℕ
  pub bytes_sent : ℕ

unfoldable pub new : Bool → Statistics
new trace = record {
  trace = trace;
  files_created = 0;
  files_deleted = 0;
  files_stated = 0;
  sync_count = 0;
  bytes_read = 0;
  bytes_written = 0;
  bytes_received = 0;
  bytes_sent = 0;
}

unfoldable pub get : Statistics → Counter → ℕ
get s files_created = s.files_created
get s files_deleted = s.files_deleted
get s files_stated = s.files_stated
get s sync = s.sync_count
get s bytes_read = s.bytes_read
get s bytes_written = s.bytes_written
get s bytes_received = s.bytes_received
get s bytes_sent = s.bytes_sent

unfoldable pub add : Statistics → Counter → ℕ → Statistics
add s files_created value = record s { files_created = u64 (s.files_created + value) }
add s files_deleted value = record s { files_deleted = u64 (s.files_deleted + value) }
add s files_stated value = record s { files_stated = u64 (s.files_stated + value) }
add s sync value = record s { sync_count = u64 (s.sync_count + value) }
add s bytes_read value = record s { bytes_read = u64 (s.bytes_read + value) }
add s bytes_written value = record s { bytes_written = u64 (s.bytes_written + value) }
add s bytes_received value = record s { bytes_received = u64 (s.bytes_received + value) }
add s bytes_sent value = record s { bytes_sent = u64 (s.bytes_sent + value) }
