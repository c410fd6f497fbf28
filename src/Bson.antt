-- ===== src/Bson.antt =====
-- The part of libbson that the code calls. The library is not part of the repository, so it is an
-- interface: documents, the appending calls, and what an iteration over a document returns.
use Prim.Native.String.{String}
use julea.Common.{ℕ, ◌<◌, ◌≡◌, List, [], ◌∷◌, ◌++◌, u32_mod, u64_mod}

-- An element's value, integers as bit patterns.
pub data Value (D : Type 0) : Type 0 where
  int32 : ℕ → Value D
  int64 : ℕ → Value D
  array : D → Value D

pub record BsonLib : Type 1 where
  pub Doc : Type 0
  pub empty : Doc
  pub append_int32 : Doc → String → ℕ → Doc
  pub append_int64 : Doc → String → ℕ → Doc
  pub append_array : Doc → String → Doc → Doc
  pub elements : Doc → List (String × Value Doc)
  pub iter_int32 : Value Doc → ℕ
  pub iter_int64 : Value Doc → ℕ
  pub iter_recurse : Value Doc → Doc
  pub elements-empty : elements empty ≡ []
  pub elements-append_int32 :
      (d : Doc) (k : String) (v : ℕ)
      → v < u32_mod
      → elements (append_int32 d k v) ≡ elements d ++ (k, int32 v) ∷ []
  pub elements-append_int64 :
      (d : Doc) (k : String) (v : ℕ)
      → v < u64_mod
      → elements (append_int64 d k v) ≡ elements d ++ (k, int64 v) ∷ []
  pub elements-append_array :
      (d : Doc) (k : String) (a : Doc)
      → elements (append_array d k a) ≡ elements d ++ (k, array a) ∷ []
  pub iter_int32-int32 : (v : ℕ) → iter_int32 (int32 v) ≡ v
  pub iter_int64-int64 : (v : ℕ) → iter_int64 (int64 v) ≡ v
  pub iter_recurse-array : (a : Doc) → iter_recurse (array a) ≡ a
