-- ===== src/Distribution/RoundRobin.antt =====
-- lib/core/distribution/round-robin.c
pub mod Laws
use Prim.Native.String.{String}
use text.Mathlib.Text.{◌==◌ as str_eq}
use julea.Bson.{BsonLib, Value}
use julea.Common.{
  ℕ, ◌+◌, ◌-◌, ◌*◌, ◌/◌, ◌%◌, ◌<◌, ◌≤◌, min, ◌≡◌, refl, ap, List, [], ◌∷◌, u32, ap₂, sym, Option,
  none, some, ◌||◌, arith, ◌==◌, ltb, if◌then◌else◌, u64, u64_mod, sub64,
}
use julea.Common.Division.{
  div_within, div_unique, div-le_self, u64_small, u64_round, eq_of_div_mod, shift_mod_inj,
}
use julea.Distribution.Piece.{Piece, Place, Holds}

pub record RoundRobin : Type 0 where
  pub server_count : ℕ
  pub length : ℕ
  pub offset : ℕ
  pub block_size : ℕ
  pub start_index : ℕ

-- What a call hands out while bytes are left.
unfoldable pub piece : RoundRobin → Piece
piece d =
    let block = d.offset / d.block_size in
    let round = block / d.server_count in
    let displacement = d.offset % d.block_size in
    record {
      index = u64 (d.start_index + block) % d.server_count;
      new_length = min d.length (d.block_size - displacement);
      new_offset = u64 (u64 (round * d.block_size) + displacement);
      block_id = block;
    }

-- `none` is a division by zero.
unfoldable pub distribute : RoundRobin → Option (Option Piece × RoundRobin)
unfolding piece
distribute d =
    if d.length == 0
    then some (none, d)
    else if d.block_size == 0 || d.server_count == 0
    then none
    else let taken = (piece d).new_length in
      some (some (piece d), record d { length = d.length - taken; offset = u64 (d.offset + taken) })

-- The random start index is an argument.
unfoldable pub new : ℕ → ℕ → ℕ → RoundRobin
new start server_count stripe_size = record {
  server_count = server_count;
  length = 0;
  offset = 0;
  block_size = stripe_size;
  start_index = start;
}

-- An unknown key, and a server that does not exist, change nothing.
unfoldable pub set : RoundRobin → String → ℕ → RoundRobin
set d key value =
    if str_eq key "block-size"
    then record d { block_size = value }
    else if str_eq key "start-index"
    then (if ltb value d.server_count then record d { start_index = u32 value } else d)
    else d

unfoldable pub reset : RoundRobin → ℕ → ℕ → RoundRobin
reset d length offset = record d { length = length; offset = offset }

module _ (bson : BsonLib) where
  open bson use {Doc, append_int32, append_int64, elements, iter_int32, iter_int64}

  unfoldable pub serialize : RoundRobin → Doc → Doc
  serialize d b =
      append_int32 (append_int64 b "block_size" d.block_size) "start_index" d.start_index

  unfoldable pub read_field : RoundRobin → String × Value Doc → RoundRobin
  read_field d (key, v) =
      if str_eq key "block_size"
      then record d { block_size = iter_int64 v }
      else if str_eq key "start_index"
      then record d { start_index = iter_int32 v }
      else d

  unfoldable pub read_fields : RoundRobin → List (String × Value Doc) → RoundRobin
  unfolding read_field
  read_fields d [] = d
  read_fields d (e ∷ es) = read_fields (read_field d e) es

  unfoldable pub deserialize : RoundRobin → Doc → RoundRobin
  unfolding read_fields
  deserialize d b = read_fields d (elements b)

-- Where byte `p` of the object is kept, over unbounded numbers.
unfoldable pub place : RoundRobin → ℕ → Place
place d p = record {
  server = (d.start_index + p / d.block_size) % d.server_count;
  position = p / d.block_size / d.server_count * d.block_size + p % d.block_size;
}
