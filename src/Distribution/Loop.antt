-- ===== src/Distribution/Loop.antt =====
-- `j_distribution_distribute` keeps the promise of a distribution scheme, whatever its type; so
-- the loops of lib/object/jdistributed-object.c split every range exactly.
use julea.Common.{ℕ, ◌+◌, ◌<◌, ◌≡◌, refl, none, some, u64_mod}
use julea.Distribution.Piece.{Piece, Place}
use julea.Distribution.RoundRobin
use julea.Distribution.RoundRobin.{RoundRobin}
use julea.Distribution.SingleServer
use julea.Distribution.SingleServer.{SingleServer}
use julea.Distribution.Weighted
use julea.Distribution.Weighted.{Weighted}
use julea.Distribution.Scheme.{Scheme, Advance}
use julea.Distribution.Dispatch.{
  Impl, round_robin, single_server, weighted, Distribution, view, distribute, reset,
}

abbrev pub tag : Impl → ℕ
tag (round_robin d) = 0
tag (single_server d) = 1
tag (weighted d) = 2

abbrev pub length_of : Impl → ℕ
length_of (round_robin d) = d.length
length_of (single_server d) = d.length
length_of (weighted d) = d.length

abbrev pub offset_of : Impl → ℕ
offset_of (round_robin d) = d.offset
offset_of (single_server d) = d.offset
offset_of (weighted d) = d.offset

abbrev pub block_size_of : Impl → ℕ
block_size_of (round_robin d) = d.block_size
block_size_of (single_server d) = d.block_size
block_size_of (weighted d) = d.block_size

abbrev pub place_of : Impl → ℕ → Place
place_of (round_robin d) = RoundRobin.place d
place_of (single_server d) = SingleServer.place d
place_of (weighted d) = Weighted.place d

abbrev pub IsSound : Impl → Type 0
IsSound (round_robin d) = RoundRobin.Laws.IsValid d
IsSound (single_server d) = SingleServer.Laws.IsValid d
IsSound (weighted d) = Weighted.Laws.IsValid d

-- The vtable fits the memory, and the settings are sound.
pub record IsValid (d : Distribution) : Type 0 where
  pub typed : d.type ≡ tag d.impl
  pub sound : IsSound d.impl

abbrev pub Round : Distribution → Type 0
Round d =
    (c : Piece) × (d' : Distribution) × (distribute d ≡ some (some c, d'))
    × IsValid d'
    × Advance (λ (d : Distribution). length_of d.impl) (λ d. offset_of d.impl)
        (λ d. block_size_of d.impl) (λ d. place_of d.impl) d c d'

abbrev pub of_impl : ℕ → ℕ → Impl → Distribution
of_impl type n i = record { type = type; impl = i; ref_count = n }

pub advances_impl :
    (type n : ℕ) (i : Impl) → type ≡ tag i → IsSound i → 0 < length_of i → Round (of_impl type n i)
unfolding distribute view
advances_impl type n (round_robin d) t v h =
    let (c, d', e, v', a) = RoundRobin.Laws.advances d v h in
    (
      c,
      of_impl type n (round_robin d'),
      rw (t, e) refl,
      record { typed = t; sound = v' },
      record {
        holds = a.holds;
        le = a.le;
        length_next = a.length_next;
        offset_next = a.offset_next;
        same_place = a.same_place;
        same_blocks = a.same_blocks;
      },
    )
advances_impl type n (single_server d) t v h =
    let (c, d', e, v', a) = SingleServer.Laws.advances d v h in
    (
      c,
      of_impl type n (single_server d'),
      rw (t, e) refl,
      record { typed = t; sound = v' },
      record {
        holds = a.holds;
        le = a.le;
        length_next = a.length_next;
        offset_next = a.offset_next;
        same_place = a.same_place;
        same_blocks = a.same_blocks;
      },
    )
advances_impl type n (weighted d) t v h =
    let (c, d', e, v', a) = Weighted.Laws.advances d v h in
    (
      c,
      of_impl type n (weighted d'),
      rw (t, e) refl,
      record { typed = t; sound = v' },
      record {
        holds = a.holds;
        le = a.le;
        length_next = a.length_next;
        offset_next = a.offset_next;
        same_place = a.same_place;
        same_blocks = a.same_blocks;
      },
    )

pub place_of-inj : (i : Impl) (p q : ℕ) → IsSound i → place_of i p ≡ place_of i q → p ≡ q
place_of-inj (round_robin d) = RoundRobin.Laws.place-inj d
place_of-inj (single_server d) = SingleServer.Laws.place-inj d
place_of-inj (weighted d) = Weighted.Laws.place-inj d

pub finished_impl :
    (type n : ℕ) (i : Impl)
    → type ≡ tag i
    → length_of i ≡ 0
    → distribute (of_impl type n i) ≡ some (none, of_impl type n i)
unfolding distribute view
finished_impl type n (round_robin d) t h = rw (t, RoundRobin.Laws.distribute-finished d h)
finished_impl type n (single_server d) t h = rw (t, SingleServer.Laws.distribute-finished d h)
finished_impl type n (weighted d) t h = rw (t, Weighted.Laws.distribute-finished d h)

unfoldable pub scheme : Scheme Distribution
scheme = record {
  distribute = distribute;
  length = λ d. length_of d.impl;
  offset = λ d. offset_of d.impl;
  block_size = λ d. block_size_of d.impl;
  place = λ d. place_of d.impl;
  IsValid = IsValid;
  finished = λ d v h. finished_impl d.type d.ref_count d.impl v.typed h;
  advances = λ d v h. advances_impl d.type d.ref_count d.impl v.typed v.sound h;
  place-inj = λ d p q v. place_of-inj d.impl p q v.sound;
}

-- The range can be split without a word wrapping.
abbrev pub InRange : Impl → ℕ → ℕ → Type 0
InRange (round_robin d) length offset = d.start_index + offset + length < u64_mod
InRange (single_server d) length offset = offset + length < u64_mod
InRange (weighted d) length offset = offset + length < u64_mod

-- The distribution after `j_distribution_reset`.
abbrev pub Resets : Distribution → ℕ → ℕ → Distribution → Type 0
Resets d length offset d' =
    (reset d length offset ≡ some d')
    × IsValid d'
    × (length_of d'.impl ≡ length)
    × (offset_of d'.impl ≡ offset)
    × (place_of d'.impl ≡ place_of d.impl)
    × (block_size_of d'.impl ≡ block_size_of d.impl)

reset_impl :
    (type n : ℕ) (i : Impl) (length offset : ℕ)
    → type ≡ tag i
    → IsSound i
    → InRange i length offset
    → (d' : Distribution) × Resets (of_impl type n i) length offset d'
unfolding reset view RoundRobin.reset SingleServer.reset Weighted.reset RoundRobin.place
    SingleServer.place Weighted.place
reset_impl type n (round_robin d) length offset t v r = (
  of_impl type n (round_robin (RoundRobin.reset d length offset)),
  (
    rw t refl,
    record { typed = t; sound = record { servers = v.servers; blocks = v.blocks; fits = r } },
    refl,
    refl,
    refl,
    refl,
  ),
)
reset_impl type n (single_server d) length offset t v r = (
  of_impl type n (single_server (SingleServer.reset d length offset)),
  (
    rw t refl,
    record { typed = t; sound = record { blocks = v.blocks; fits = r } },
    refl,
    refl,
    refl,
    refl,
  ),
)
reset_impl type n (weighted d) length offset t v r = (
  of_impl type n (weighted (Weighted.reset d length offset)),
  (
    rw t refl,
    record {
      typed = t;
      sound = record {
        blocks = v.blocks;
        weighted = v.weighted;
        table = record {
          table = v.table.table;
          sum = v.table.sum;
          weights = v.table.weights;
          small = v.table.small;
        };
        fits = r;
      };
    },
    refl,
    refl,
    refl,
    refl,
  ),
)

pub reset-Resets :
    (d : Distribution) (length offset : ℕ)
    → IsValid d
    → InRange d.impl length offset
    → (d' : Distribution) × Resets d length offset d'
reset-Resets d length offset v r =
    reset_impl d.type d.ref_count d.impl length offset v.typed v.sound r
