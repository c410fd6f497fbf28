-- ===== src/Object/Uri.antt =====
-- lib/object/jobject-uri.c: URIs of objects and distributed objects.
pub mod Laws
pub mod Tests
use julea.Common.{ℕ, zero, suc, Option, none, some, List, [], ◌∷◌, ◌>>=◌, u32}
use julea.Distribution.Dispatch.{Distribution, new_common, set, unref}
use julea.DistributedObject
use julea.DistributedObject.{DistributedObject}
use julea.Object.{Object, new_for_index}
use julea.Semantics.Parse.{bytes}
use julea.Uri.{parse}

pub data Scheme : Type 0 where
  namespace object distributed_namespace distributed_object : Scheme

-- NULL is `none`.
pub record Uri : Type 0 where
  pub scheme : Scheme
  pub index : ℕ
  pub namespace : Option (List ℕ)
  pub name : Option (List ℕ)
  pub distributed_object : Option DistributedObject
  pub object : Option Object

abbrev pub scheme_parts : Scheme → ℕ
scheme_parts namespace = 2
scheme_parts object = 3
scheme_parts distributed_namespace = 1
scheme_parts distributed_object = 2

abbrev pub scheme_prefix : Scheme → List ℕ
scheme_prefix namespace = bytes "object://"
scheme_prefix object = bytes "object://"
scheme_prefix distributed_namespace = bytes "dobject://"
scheme_prefix distributed_object = bytes "dobject://"

-- How many parts are searched for slashes.
abbrev pub checked : Scheme → ℕ
checked namespace = 2
checked object = 2
checked distributed_namespace = 1
checked distributed_object = 1

-- `strsplit n text` is `g_strsplit(text, "/", n)`, and `strtoull text` is
-- `g_ascii_strtoull(text, NULL, 10)`; the numbers are those of the configuration, and a random one.
module _ (strsplit : ℕ → List ℕ → List (List ℕ)) (strtoull : List ℕ → ℕ)
    (server_count stripe_size random : ℕ) where
  -- The distribution has one reference when the function returns, that of the object.
  unfoldable pub distributed : (ns name : List ℕ) → Option DistributedObject
  unfolding new_common set unref DistributedObject.new
  distributed ns name = do
    d ← new_common 0 random server_count stripe_size
    d' ← set d "start-index" 0
    d'' ← unref (DistributedObject.new ns name d').distribution
    some (record (DistributedObject.new ns name d') { distribution = d'' })

  -- A server that does not exist leaves `uri->object` NULL.
  unfoldable pub set_indexed : Uri → List (List ℕ) → Option Uri
  unfolding new_for_index
  set_indexed u (i ∷ ns ∷ []) = some (record u { index = u32 (strtoull i); namespace = some ns })
  set_indexed u (i ∷ ns ∷ name ∷ rest) = some (record u {
    index = u32 (strtoull i);
    namespace = some ns;
    name = some name;
    object = new_for_index server_count (u32 (strtoull i)) ns name;
  })
  set_indexed u _ = none

  unfoldable pub set_distributed : Uri → List (List ℕ) → Option Uri
  unfolding distributed
  set_distributed u (ns ∷ []) = some (record u { namespace = some ns })
  set_distributed u (ns ∷ name ∷ rest) = distributed ns name >>= λ o.
      some (record u { namespace = some ns; name = some name; distributed_object = some o })
  set_distributed u [] = none

  -- The last `switch` of `j_object_uri_parse`. `none` is a read behind the parts.
  unfoldable pub set_parts : Uri → Scheme → List (List ℕ) → Option Uri
  unfolding set_indexed set_distributed
  set_parts u namespace parts = set_indexed u parts
  set_parts u object parts = set_indexed u parts
  set_parts u distributed_namespace parts = set_distributed u parts
  set_parts u distributed_object parts = set_distributed u parts

  -- What is allocated before the URI is parsed.
  abbrev empty : Scheme → Uri
  empty scheme = record {
    scheme = scheme;
    index = 0;
    namespace = none;
    name = none;
    distributed_object = none;
    object = none;
  }

  -- The inner `none` is NULL, for a URI that is refused.
  unfoldable pub new : (uri : List ℕ) → Scheme → Option (Option Uri)
  unfolding set_parts
  new uri scheme =
      elim (parse strsplit (scheme_prefix scheme) (scheme_parts scheme) (checked scheme) uri) [
        | none ↦ some none
        | some parts ↦ set_parts (empty scheme) scheme parts >>= λ u. some (some u)
      ]
