-- ===== src/Distribution/Dispatch.antt =====
-- lib/core/jdistribution.c: the vtable dispatch over the three distributions.
use Prim.Native.String.{String}
use julea.Common.{ℕ, zero, suc, ◌+◌, ◌-◌, Option, none, some, ◌>>=◌, ◌==◌, if◌then◌else◌, u32}
use julea.Distribution.Piece.{Piece}
use julea.Distribution.RoundRobin
use julea.Distribution.RoundRobin.{RoundRobin}
use julea.Distribution.SingleServer
use julea.Distribution.SingleServer.{SingleServer}
use julea.Distribution.Weighted
use julea.Distribution.Weighted.{Weighted}

-- The memory behind `distribution->distribution`, by the `distribution_new` that made it.
pub data Impl : Type 0 where
  round_robin : RoundRobin → Impl
  single_server : SingleServer → Impl
  weighted : Weighted → Impl

-- `type` selects the vtable.
pub record Distribution : Type 0 where
  pub type : ℕ
  pub impl : Impl
  pub ref_count : ℕ

-- The vtables by type, each with the memory that its functions work on.
pub data View : Type 0 where
  round_robin : RoundRobin → View
  single_server : SingleServer → View
  weighted : Weighted → View

-- The two structs have the same members in the same order, so either vtable can use either.
unfoldable pub to_single_server : RoundRobin → SingleServer
to_single_server d = record {
  server_count = d.server_count;
  length = d.length;
  offset = d.offset;
  block_size = d.block_size;
  index = d.start_index;
}

unfoldable pub to_round_robin : SingleServer → RoundRobin
to_round_robin d = record {
  server_count = d.server_count;
  length = d.length;
  offset = d.offset;
  block_size = d.block_size;
  start_index = d.index;
}

view_round_robin : Impl → Option View
unfolding to_round_robin
view_round_robin (round_robin d) = some (View.round_robin d)
view_round_robin (single_server d) = some (View.round_robin (to_round_robin d))
view_round_robin (weighted d) = none

view_single_server : Impl → Option View
unfolding to_single_server
view_single_server (round_robin d) = some (View.single_server (to_single_server d))
view_single_server (single_server d) = some (View.single_server d)
view_single_server (weighted d) = none

view_weighted : Impl → Option View
view_weighted (round_robin d) = none
view_weighted (single_server d) = none
view_weighted (weighted d) = some (View.weighted d)

-- `none` is a vtable that does not exist, or one whose functions read the memory of another
-- struct as a pointer.
unfoldable pub view : Distribution → Option View
unfolding view_round_robin view_single_server view_weighted
view d =
    if d.type == 0
    then view_round_robin d.impl
    else if d.type == 1
    then view_single_server d.impl
    else if d.type == 2
    then view_weighted d.impl
    else none

abbrev put : Distribution → Impl → Distribution
put d i = record d { impl = i }

-- `random` is `g_random_int_range(0, server_count)`.
unfoldable pub new_common : ℕ → (random server_count stripe_size : ℕ) → Option Distribution
new_common zero random n stripe =
    some (record { type = 0; impl = round_robin (RoundRobin.new random n stripe); ref_count = 1 })
new_common (suc zero) random n stripe =
    some
      (record { type = 1; impl = single_server (SingleServer.new random n stripe); ref_count = 1 })
new_common (suc (suc zero)) random n stripe =
    some (record { type = 2; impl = weighted (Weighted.new n stripe); ref_count = 1 })
new_common (suc (suc (suc type))) random n stripe = none

unfoldable pub ref : Distribution → Distribution
ref d = record d { ref_count = u32 (d.ref_count + 1) }

-- `none` when the last reference is dropped and the memory is freed.
unfoldable pub unref : Distribution → Option Distribution
unref d = if d.ref_count == 1 then none else some (record d { ref_count = d.ref_count - 1 })

unfoldable pub reset_view : ℕ → ℕ → View → Impl
reset_view length offset (View.round_robin d) = round_robin (RoundRobin.reset d length offset)
reset_view length offset (View.single_server d) = single_server (SingleServer.reset d length offset)
reset_view length offset (View.weighted d) = weighted (Weighted.reset d length offset)

unfoldable pub reset : Distribution → ℕ → ℕ → Option Distribution
unfolding reset_view
reset d length offset = view d >>= λ v. some (put d (reset_view length offset v))

unfoldable pub distribute_view : View → Option (Option Piece × Impl)
distribute_view (View.round_robin d) =
    RoundRobin.distribute d >>= λ (c, d'). some (c, round_robin d')
distribute_view (View.single_server d) =
    SingleServer.distribute d >>= λ (c, d'). some (c, single_server d')
distribute_view (View.weighted d) = Weighted.distribute d >>= λ (c, d'). some (c, weighted d')

unfoldable pub distribute : Distribution → Option (Option Piece × Distribution)
unfolding distribute_view
distribute d = do v ← view d; (c, i) ← distribute_view v; some (c, put d i)

set_view : String → ℕ → View → Impl
set_view key value (View.round_robin d) = round_robin (RoundRobin.set d key value)
set_view key value (View.single_server d) = single_server (SingleServer.set d key value)
set_view key value (View.weighted d) = weighted (Weighted.set_key d key value)

unfoldable pub set : Distribution → String → ℕ → Option Distribution
unfolding set_view
set d key value = view d >>= λ v. some (put d (set_view key value v))

-- A block size of zero is refused.
unfoldable pub set_block_size : Distribution → ℕ → Option Distribution
unfolding set
set_block_size d block_size = if block_size == 0 then some d else set d "block-size" block_size

-- Only the weighted vtable has a `distribution_set2`.
set2_view : String → ℕ → ℕ → View → Impl
set2_view key value1 value2 (View.round_robin d) = round_robin d
set2_view key value1 value2 (View.single_server d) = single_server d
set2_view key value1 value2 (View.weighted d) = weighted (Weighted.set2 d key value1 value2)

unfoldable pub set2 : Distribution → String → ℕ → ℕ → Option Distribution
unfolding set2_view
set2 d key value1 value2 = view d >>= λ v. some (put d (set2_view key value1 value2 v))
