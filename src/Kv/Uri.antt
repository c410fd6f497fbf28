-- ===== src/Kv/Uri.antt =====
-- lib/kv/jkv-uri.c: URIs of key-value pairs.
use julea.Common.{ℕ, ◌≡◌, refl, Option, none, some, List, [], ◌∷◌, ◌++◌, ◌>>=◌, u32}
use julea.Kv.{Kv, new_for_index}
use julea.Semantics.Parse.{bytes}
use julea.Uri.{parse}
use julea.Uri.Laws.{Splits, join, ArePartsOf, parse-ArePartsOf}

pub data Scheme : Type 0 where
  namespace kv : Scheme

-- NULL is `none`.
pub record Uri : Type 0 where
  pub scheme : Scheme
  pub index : ℕ
  pub namespace : Option (List ℕ)
  pub name : Option (List ℕ)
  pub kv : Option Kv

abbrev pub scheme_parts : Scheme → ℕ
scheme_parts namespace = 2
scheme_parts kv = 3

-- The functions of GLib are parameters as for an object's URI.
module _ (strsplit : ℕ → List ℕ → List (List ℕ)) (strtoull : List ℕ → ℕ) (server_count : ℕ) where
  -- `none` is a read behind the parts. A server that does not exist leaves `uri->kv` NULL.
  unfoldable pub set_parts : Scheme → List (List ℕ) → Option Uri
  unfolding new_for_index
  set_parts scheme (i ∷ ns ∷ []) = some (record {
    scheme = scheme;
    index = u32 (strtoull i);
    namespace = some ns;
    name = none;
    kv = none;
  })
  set_parts scheme (i ∷ ns ∷ name ∷ rest) = some (record {
    scheme = scheme;
    index = u32 (strtoull i);
    namespace = some ns;
    name = some name;
    kv = new_for_index server_count (u32 (strtoull i)) ns name;
  })
  set_parts scheme _ = none

  -- The inner `none` is NULL, for a URI that is refused.
  unfoldable pub new : (uri : List ℕ) → Scheme → Option (Option Uri)
  unfolding set_parts
  new uri scheme = elim (parse strsplit (bytes "kv://") (scheme_parts scheme) 2 uri) [
    | none ↦ some none
    | some parts ↦ set_parts scheme parts >>= λ u. some (some u)
  ]

  module _ (splits : Splits strsplit) where
    -- A URI whose key has slashes is taken apart at the first two.
    new-kv :
        (i ns key : List ℕ)
        → ArePartsOf 3 2 (i ∷ ns ∷ key ∷ [])
        → new (bytes "kv://" ++ join (i ∷ ns ∷ key ∷ [])) kv
          ≡ some (
              some (record {
                scheme = kv;
                index = u32 (strtoull i);
                namespace = some ns;
                name = some key;
                kv = new_for_index server_count (u32 (strtoull i)) ns key;
              }))
    unfolding new
    new-kv i ns key are =
        let parts = i ∷ ns ∷ key ∷ [] in
        let e =
          (parse-ArePartsOf strsplit splits (bytes "kv://") 2 2 (bytes "kv://" ++ join parts)
              parts).1
            (refl, are) in
        rw (new, e) refl
