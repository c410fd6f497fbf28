-- ===== src/Distribution/SingleServer.antt =====
-- lib/core/distribution/single-server.c
pub mod Laws
use Prim.Native.String.{String}
use text.Mathlib.Text.{◌==◌ as str_eq}
use julea.Bson.{BsonLib, Value}
use julea.Common.{
  ℕ, ◌+◌, ◌-◌, ◌/◌, ◌%◌, ◌<◌, ◌≤◌, min, ◌≡◌, refl, ap, Option, none, some, List, [], ◌∷◌, arith,
  ◌==◌, ltb, if◌then◌else◌, u32, u64, u64_mod,
}
use julea.Common.Division.{div_within, u64_small}
use julea.Distribution.Piece.{Piece, Place, Holds}

pub record SingleServer : Type 0 where
  pub server_count : ℕ
  pub length : ℕ
  pub offset : ℕ
  pub block_size : ℕ
  pub index : ℕ

-- What a call hands out while bytes are left.
unfoldable pub piece : SingleServer → Piece
piece d =
    let displacement = d.offset % d.block_size in
    record {
      index = d.index;
      new_length = min d.length (d.block_size - displacement);
      new_offset = d.offset;
      block_id = d.offset / d.block_size;
    }

-- `none` is a division by zero.
unfoldable pub distribute : SingleServer → Option (Option Piece × SingleServer)
unfolding piece
distribute d =
    if d.length == 0
    then some (none, d)
    else if d.block_size == 0
    then none
    else let taken = (piece d).new_length in
      some (some (piece d), record d { length = d.length - taken; offset = u64 (d.offset + taken) })

-- The random index is an argument.
unfoldable pub new : ℕ → ℕ → ℕ → SingleServer
new random server_count stripe_size = record {
  server_count = server_count;
  length = 0;
  offset = 0;
  block_size = stripe_size;
  index = random;
}

-- An unknown key, and a server that does not exist, change nothing.
unfoldable pub set : SingleServer → String → ℕ → SingleServer
set d key value =
    if str_eq key "block-size"
    then record d { block_size = value }
    else if str_eq key "index"
    then (if ltb value d.server_count then record d { index = u32 value } else d)
    else d

unfoldable pub reset : SingleServer → ℕ → ℕ → SingleServer
reset d length offset = record d { length = length; offset = offset }

module _ (bson : BsonLib) where
  open bson use {Doc, append_int32, append_int64, elements, iter_int32, iter_int64}

  unfoldable pub serialize : SingleServer → Doc → Doc
  serialize d b = append_int32 (append_int64 b "block_size" d.block_size) "index" d.index

  unfoldable pub read_field : SingleServer → String × Value Doc → SingleServer
  read_field d (key, v) =
      if str_eq key "block_size"
      then record d { block_size = iter_int64 v }
      else if str_eq key "index"
      then record d { index = iter_int32 v }
      else d

  unfoldable pub read_fields : SingleServer → List (String × Value Doc) → SingleServer
  unfolding read_field
  read_fields d [] = d
  read_fields d (e ∷ es) = read_fields (read_field d e) es

  unfoldable pub deserialize : SingleServer → Doc → SingleServer
  unfolding read_fields
  deserialize d b = read_fields d (elements b)

-- Where byte `p` of the object is kept.
unfoldable pub place : SingleServer → ℕ → Place
place d p = record { server = d.index; position = p }
