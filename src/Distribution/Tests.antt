-- ===== src/Distribution/Tests.antt =====
-- A concrete document library, and the distributions at concrete inputs.
use Prim.Native.String.{String}
use julea.Bson.{BsonLib, Value, int32, int64, array}
use julea.Common.{ℕ, ◌≡◌, refl, some, ◌>>=◌, List, [], ◌∷◌, ◌++◌, arith}
use julea.Distribution.SingleServer.{SingleServer}
use julea.Distribution.Weighted.{Weighted, set2}
use julea.Distribution.Weighted.Laws.{HasSum, set2-HasSum}
use julea.Distribution.Weighted.Search.{total}
use julea.Distribution.Dispatch.{single_server}
use julea.Distribution.Serialize.{made, serialize, new_from_bson, new_from_bson-serialize}

-- Documents, the newest element first.
data Doc : Type 0 where
  nil : Doc
  with_int32 : String → ℕ → Doc → Doc
  with_int64 : String → ℕ → Doc → Doc
  with_array : String → Doc → Doc → Doc

elements : Doc → List (String × Value Doc)
elements nil = []
elements (with_int32 k v d) = elements d ++ (k, int32 v) ∷ []
elements (with_int64 k v d) = elements d ++ (k, int64 v) ∷ []
elements (with_array k a d) = elements d ++ (k, array a) ∷ []

abbrev number : Value Doc → ℕ
number (int32 v) = v
number (int64 v) = v
number (array a) = 0

abbrev document : Value Doc → Doc
document (int32 v) = nil
document (int64 v) = nil
document (array a) = a

bson : BsonLib
unfolding elements
bson = record {
  Doc = Doc;
  empty = nil;
  append_int32 = λ d k v. with_int32 k v d;
  append_int64 = λ d k v. with_int64 k v d;
  append_array = λ d k a. with_array k a d;
  elements = elements;
  iter_int32 = number;
  iter_int64 = number;
  iter_recurse = document;
  elements-empty = refl;
  elements-append_int32 = λ d k v h. refl;
  elements-append_int64 = λ d k v h. refl;
  elements-append_array = λ d k a. refl;
  iter_int32-int32 = λ v. refl;
  iter_int64-int64 = λ v. refl;
  iter_recurse-array = λ a. refl;
}

abbrev on_server_one : SingleServer
on_server_one = record { server_count = 2; length = 7; offset = 5; block_size = 4096; index = 1 }

new_from_bson-serialize_example :
    (serialize bson (λ _. "0") (made (single_server on_server_one)) >>= new_from_bson bson 0 2 512)
    ≡ some (made (single_server (record on_server_one { length = 0; offset = 0 })))
new_from_bson-serialize_example =
    new_from_bson-serialize bson (λ _. "0") 0 2 512 (single_server on_server_one)
      (omega arith, omega arith)

abbrev two_weights : Weighted
two_weights = record {
  server_count = 2;
  length = 0;
  offset = 0;
  block_size = 4;
  weights = 1 ∷ 3 ∷ [];
  sum = 4;
}

two_weights-HasSum : HasSum two_weights
unfolding total
two_weights-HasSum = record { table = refl; sum = refl; weights = omega arith; small = omega arith }

set2-HasSum_example : HasSum (set2 two_weights "weight" 1 7)
set2-HasSum_example = set2-HasSum two_weights "weight" 1 7 two_weights-HasSum
