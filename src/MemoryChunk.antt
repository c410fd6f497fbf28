-- ===== src/MemoryChunk.antt =====
-- lib/core/jmemory-chunk.c: a block of memory that is handed out from its start. Pointers are
-- 64-bit numbers.
pub mod Ranges
pub mod Tests
use julea.Common.{ℕ, ◌+◌, ltb, if◌then◌else◌, u64}

pub record MemoryChunk : Type 0 where
  pub size : ℕ
  pub start : ℕ
  pub current : ℕ

-- `address` is what `g_malloc` returns.
unfoldable pub new : (address size : ℕ) → MemoryChunk
new address size = record { size = size; start = address; current = address }

-- The pointer is NULL if the rest of the block is too short.
unfoldable pub get : MemoryChunk → ℕ → MemoryChunk × ℕ
get c length =
    if ltb (u64 (c.start + c.size)) (u64 (c.current + length))
    then (c, 0)
    else (record c { current = u64 (c.current + length) }, c.current)

unfoldable pub reset : MemoryChunk → MemoryChunk
reset c = record c { current = c.start }
