-- ===== src/MemoryChunk/Tests.antt =====
-- A block of 10 bytes.
use julea.Common.{◌≡◌, refl, [], ◌∷◌, arith}
use julea.MemoryChunk.{MemoryChunk, get}
use julea.MemoryChunk.Ranges.{granted, Within, granted-Within}

abbrev block : MemoryChunk
block = record { size = 10; start = 4096; current = 4098 }

-- The second request is refused, and the third fits.
granted-Within_example : Within 4098 4106 (granted block (5 ∷ 4 ∷ 3 ∷ []))
granted-Within_example =
    granted-Within block (5 ∷ 4 ∷ 3 ∷ [])
      (record {
        behind = omega arith;
        inside = omega arith;
        small = omega arith;
        allocated = omega arith;
      })
      (omega arith, (omega arith, (omega arith, tt)))

three : granted block (5 ∷ 4 ∷ 3 ∷ []) ≡ (4098, 5) ∷ (4103, 3) ∷ []
unfolding granted get
three = refl
