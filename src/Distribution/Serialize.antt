-- ===== src/Distribution/Serialize.antt =====
-- Serialization of a distribution, as it is stored with an item (lib/core/jdistribution.c).
use Prim.Native.String.{String}
use text.Mathlib.Text.{◌==◌ as str_eq}
use julea.Bson.{BsonLib, Value, int32, int64, array}
use julea.Common.{
  ℕ, ◌<◌, ◌≡◌, refl, false, Option, none, some, ◌>>=◌, List, [], ◌∷◌, arith, if◌then◌else◌, u32_mod,
  u64_mod,
}
use julea.Distribution.RoundRobin
use julea.Distribution.RoundRobin.{RoundRobin}
use julea.Distribution.SingleServer
use julea.Distribution.SingleServer.{SingleServer}
use julea.Distribution.Weighted
use julea.Distribution.Weighted.{Weighted}
use julea.Distribution.Dispatch.{
  Impl, round_robin, single_server, weighted, Distribution, View, view, new_common,
  to_single_server,
}

-- `number_string` prints an array index.
module _ (bson : BsonLib) (number_string : ℕ → String) where
  open bson use {Doc, empty, append_int32, elements, iter_int32}

  unfoldable pub serialize_view : View → Doc → Doc
  serialize_view (View.round_robin d) b = RoundRobin.serialize bson d b
  serialize_view (View.single_server d) b = SingleServer.serialize bson d b
  serialize_view (View.weighted d) b = Weighted.serialize bson number_string d b

  unfoldable pub serialize : Distribution → Option Doc
  unfolding serialize_view
  serialize d = view d >>= λ v. some (serialize_view v (append_int32 empty "type" d.type))

module _ (bson : BsonLib) where
  open bson use {Doc, elements, iter_int32}

  unfoldable pub read_type : ℕ → List (String × Value Doc) → ℕ
  read_type type [] = type
  read_type type ((key, v) ∷ es) = read_type (if str_eq key "type" then iter_int32 v else type) es

  unfoldable pub deserialize_view : View → Doc → Option Impl
  deserialize_view (View.round_robin d) b = some (round_robin (RoundRobin.deserialize bson d b))
  deserialize_view (View.single_server d) b =
      some (single_server (SingleServer.deserialize bson d b))
  deserialize_view (View.weighted d) b = Weighted.deserialize bson d b >>= λ d'. some (weighted d')

  unfoldable pub deserialize : Distribution → Doc → Option Distribution
  unfolding read_type deserialize_view
  deserialize d b = do
    let typed = record d { type = read_type d.type (elements b) }
    v ← view typed
    i ← deserialize_view v b
    some (record typed { impl = i })

  -- The new distribution is a round robin one, whatever the document holds.
  unfoldable pub new_from_bson : (random server_count stripe_size : ℕ) → Doc → Option Distribution
  unfolding deserialize
  new_from_bson random server_count stripe_size b =
      new_common 0 random server_count stripe_size >>= λ d. deserialize d b

-- A distribution as `new_common` and the setters leave it.
abbrev pub made : Impl → Distribution
made (round_robin d) = record { type = 0; impl = round_robin d; ref_count = 1 }
made (single_server d) = record { type = 1; impl = single_server d; ref_count = 1 }
made (weighted d) = record { type = 2; impl = weighted d; ref_count = 1 }

-- What is written fits into the words of the document.
abbrev pub Fits : Impl → Type 0
Fits (round_robin d) = (d.block_size < u64_mod) × (d.start_index < u32_mod)
Fits (single_server d) = (d.block_size < u64_mod) × (d.index < u32_mod)
Fits (weighted d) = d.block_size < u64_mod

-- What is read back: the settings on the reader's servers; nothing for a weighted distribution.
abbrev pub rebuilt : ℕ → Impl → Option Distribution
rebuilt n (round_robin d) =
    some (made (round_robin (record d { server_count = n; length = 0; offset = 0 })))
rebuilt n (single_server d) =
    some (made (single_server (record d { server_count = n; length = 0; offset = 0 })))
rebuilt n (weighted d) = none

-- The elements of a document with a type, a block size and an index.
elements_settings :
    (bson : BsonLib) (t v v' : ℕ) (k k' : String)
    → t < u32_mod
    → v < u64_mod
    → v' < u32_mod
    → bson.elements
        (bson.append_int32 (bson.append_int64 (bson.append_int32 bson.empty "type" t) k v) k' v')
      ≡ ("type", int32 t) ∷ (k, int64 v) ∷ (k', int32 v') ∷ []
elements_settings bson t v v' k k' ht hv hv' = rw (
  bson.elements-append_int32 _ k' v' hv',
  bson.elements-append_int64 _ k v hv,
  bson.elements-append_int32 _ "type" t ht,
  bson.elements-empty,
)

-- Reading the elements of such a document back.
module _ (bson : BsonLib) (b : bson.Doc) (t v w : ℕ) where
  abbrev Settings : String → Type 0
  Settings index =
      bson.elements b ≡ ("type", int32 t) ∷ ("block_size", int64 v) ∷ (index, int32 w) ∷ []

  read_round_robin :
      (d : RoundRobin)
      → Settings "start_index"
      → RoundRobin.deserialize bson d b ≡ record d { block_size = v; start_index = w }
  unfolding RoundRobin.deserialize
  read_round_robin d e = rw (e, bson.iter_int64-int64, bson.iter_int32-int32)

  read_single_server :
      (d : SingleServer)
      → Settings "index"
      → SingleServer.deserialize bson d b ≡ record d { block_size = v; index = w }
  unfolding SingleServer.deserialize
  read_single_server d e = rw (e, bson.iter_int64-int64, bson.iter_int32-int32)

  read_type_lem :
      (t' : ℕ) (index : String)
      → str_eq index "type" ≡ false
      → Settings index
      → read_type bson t' (bson.elements b) ≡ t
  unfolding read_type
  read_type_lem t' index other e = rw (e, other) (bson.iter_int32-int32 t)

  deserialize_round_robin :
      (d : RoundRobin)
      → t ≡ 0
      → Settings "start_index"
      → deserialize bson (made (round_robin d)) b
        ≡ some (made (round_robin (record d { block_size = v; start_index = w })))
  unfolding deserialize view
  deserialize_round_robin d zero_type e =
      rw (read_type_lem 0 "start_index" refl e, zero_type, read_round_robin d e)

  deserialize_single_server :
      (d : RoundRobin)
      → t ≡ 1
      → Settings "index"
      → deserialize bson (made (round_robin d)) b
        ≡ some (made (single_server (record (to_single_server d) { block_size = v; index = w })))
  unfolding deserialize view
  deserialize_single_server d one_type e =
      rw (read_type_lem 0 "index" refl e, one_type, read_single_server (to_single_server d) e)

-- Reading the type of a weighted distribution.
deserialize_weighted :
    (bson : BsonLib) (b a : bson.Doc) (v : ℕ) (d : RoundRobin)
    → bson.elements b ≡ ("type", int32 2) ∷ ("block_size", int64 v) ∷ ("weights", array a) ∷ []
    → deserialize bson (made (round_robin d)) b ≡ none
unfolding deserialize view
deserialize_weighted bson b a v d e = rw (e, bson.iter_int32-int32)

module _ (bson : BsonLib) (number_string : ℕ → String) where
  -- A distribution that was serialized and is rebuilt from the document has the same type and
  -- settings, on the reader's servers and with no range left, if it is round robin or on a single
  -- server. A weighted one reads memory that it does not own.
  pub new_from_bson-serialize :
      (random n stripe : ℕ) (i : Impl)
      → Fits i
      → (serialize bson number_string (made i) >>= new_from_bson bson random n stripe) ≡ rebuilt n i
  unfolding serialize new_from_bson new_common view RoundRobin.new to_single_server
      RoundRobin.serialize SingleServer.serialize Weighted.serialize
  new_from_bson-serialize random n stripe (round_robin d) f =
      deserialize_round_robin bson _ 0 d.block_size d.start_index _ refl (
        elements_settings bson 0 d.block_size d.start_index "block_size" "start_index" (omega arith)
          f.0 f.1)
  new_from_bson-serialize random n stripe (single_server d) f =
      deserialize_single_server bson _ 1 d.block_size d.index _ refl
        (elements_settings bson 1 d.block_size d.index "block_size" "index" (omega arith) f.0 f.1)
  new_from_bson-serialize random n stripe (weighted d) f =
      deserialize_weighted bson
        (Weighted.serialize bson number_string d (bson.append_int32 bson.empty "type" 2))
        (Weighted.append_weights bson number_string 0 d.weights bson.empty) d.block_size _
        (rw (
          bson.elements-append_array _ "weights" _,
          bson.elements-append_int64 _ "block_size" d.block_size f,
          bson.elements-append_int32 _ "type" 2 (omega arith),
          bson.elements-empty,
        ))
