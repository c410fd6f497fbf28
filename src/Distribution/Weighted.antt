-- ===== src/Distribution/Weighted.antt =====
-- lib/core/distribution/weighted.c
pub mod Search
pub mod Laws
use Prim.Native.String.{String}
use text.Mathlib.Text.{◌==◌ as str_eq}
use julea.Bson.{BsonLib, Value}
use julea.Common.{
  ℕ, zero, suc, ◌+◌, ◌-◌, ◌*◌, ◌/◌, ◌%◌, ◌<◌, min, Option, none, some, ◌>>=◌, List, [], ◌∷◌, ◌||◌,
  ◌&&◌, ◌==◌, ltb, if◌then◌else◌, u32, u64, sub64, get_or, set, replicate,
}
use julea.Distribution.Piece.{Piece, Place}

-- `weights` is the allocated array: one entry for each server.
pub record Weighted : Type 0 where
  pub server_count : ℕ
  pub length : ℕ
  pub offset : ℕ
  pub block_size : ℕ
  pub weights : List ℕ
  pub sum : ℕ

-- The loop over the servers from server `i` on: the server and the block's offset within it.
-- Where no server is found the index is still 0.
unfoldable pub find_server : ℕ → List ℕ → ℕ → ℕ × ℕ
find_server i [] block_offset = (0, block_offset)
find_server i (w ∷ ws) block_offset =
    let rest = find_server (i + 1) ws (block_offset - w) in
    if ltb block_offset w then (i, block_offset) else rest

-- What a call hands out while bytes are left.
unfoldable pub piece : Weighted → Piece
piece d =
    let block = d.offset / d.block_size in
    let round = block / d.sum in
    let displacement = d.offset % d.block_size in
    let found = find_server 0 d.weights (block % d.sum) in
    let before = u64 (u64 (round * get_or d.weights found.0 0) + found.1) in
    record {
      index = found.0;
      new_length = min d.length (d.block_size - displacement);
      new_offset = u64 (u64 (before * d.block_size) + displacement);
      block_id = block;
    }

-- `none` is a division by zero.
unfoldable pub distribute : Weighted → Option (Option Piece × Weighted)
unfolding piece
distribute d =
    if d.length == 0
    then some (none, d)
    else if d.block_size == 0 || d.sum == 0
    then none
    else let taken = (piece d).new_length in
      some (some (piece d), record d { length = d.length - taken; offset = u64 (d.offset + taken) })

unfoldable pub new : ℕ → ℕ → Weighted
new server_count stripe_size = record {
  server_count = server_count;
  length = 0;
  offset = 0;
  block_size = stripe_size;
  weights = replicate server_count 0;
  sum = 0;
}

unfoldable pub set_key : Weighted → String → ℕ → Weighted
set_key d key value = if str_eq key "block-size" then record d { block_size = value } else d

unfoldable pub update_weight : Weighted → ℕ → ℕ → Weighted
update_weight d value1 value2 = record d {
  sum = u32 (d.sum + sub64 value2 (get_or d.weights value1 0));
  weights = set d.weights value1 value2;
}

-- A bad server, a bad weight and a sum of zero change nothing.
unfoldable pub set2 : Weighted → String → ℕ → ℕ → Weighted
set2 d key value1 value2 =
    if str_eq key "weight"
    then (if ltb value1 d.server_count
          && ltb value2 256
          && ltb 0 (sub64 (u64 (d.sum + value2)) (get_or d.weights value1 0))
        then update_weight d value1 value2
        else d)
    else d

unfoldable pub reset : Weighted → ℕ → ℕ → Weighted
reset d length offset = record d { length = length; offset = offset }

module _ (bson : BsonLib) where
  open bson use {
    Doc, empty, append_int32, append_int64, append_array, elements, iter_int32, iter_int64,
    iter_recurse,
  }

  -- `number_string` is `j_helper_get_number_string`, a call of `g_snprintf`.
  unfoldable pub append_weights : (number_string : ℕ → String) → ℕ → List ℕ → Doc → Doc
  append_weights number_string i [] b = b
  append_weights number_string i (w ∷ ws) b =
      append_weights number_string (i + 1) ws (append_int32 b (number_string i) w)

  unfoldable pub serialize : (number_string : ℕ → String) → Weighted → Doc → Doc
  unfolding append_weights
  serialize number_string d b =
      append_array (append_int64 b "block_size" d.block_size) "weights"
        (append_weights number_string 0 d.weights empty)

  -- The inner loop from index `i` on. `none` is a write behind the end of the array.
  unfoldable pub read_weights : Weighted → ℕ → List (String × Value Doc) → Option Weighted
  read_weights d i [] = some d
  read_weights d i ((key, v) ∷ es) =
      let rest =
        read_weights
          (record d { weights = set d.weights i (iter_int32 v); sum = u32 (d.sum + iter_int32 v) })
          (i + 1) es in
      if ltb i d.server_count then rest else none

  unfoldable pub read_field : Weighted → String × Value Doc → Option Weighted
  unfolding read_weights
  read_field d (key, v) =
      if str_eq key "block_size"
      then some (record d { block_size = iter_int64 v })
      else if str_eq key "weights"
      then read_weights (record d { sum = 0 }) 0 (elements (iter_recurse v))
      else some d

  unfoldable pub read_fields : Weighted → List (String × Value Doc) → Option Weighted
  unfolding read_field
  read_fields d [] = some d
  read_fields d (e ∷ es) = read_field d e >>= λ d'. read_fields d' es

  unfoldable pub deserialize : Weighted → Doc → Option Weighted
  unfolding read_fields
  deserialize d b = read_fields d (elements b)

-- Where byte `p` of the object is kept, over unbounded numbers.
unfoldable pub place : Weighted → ℕ → Place
place d p =
    let block = p / d.block_size in
    let found = find_server 0 d.weights (block % d.sum) in
    record {
      server = found.0;
      position =
          (block / d.sum * get_or d.weights found.0 0 + found.1) * d.block_size + p % d.block_size;
    }
