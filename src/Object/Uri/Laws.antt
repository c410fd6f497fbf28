-- ===== src/Object/Uri/Laws.antt =====
-- What `j_object_uri_new` makes of a URI.
use julea.Common.{
  ℕ, ◌≡◌, refl, ◌⊎◌, inl, inr, none, some, List, [], ◌∷◌, ◌++◌, ◌>>=◌, length, get_elem?, get_or,
  sym, ◌∙◌, ◌↔◌, if◌then◌else◌, ltb, u32, arith, Option-cases, Bool-cases,
}
use julea.Distribution.RoundRobin
use julea.Distribution.Dispatch.{Distribution, Impl, new_common, set, unref, view}
use julea.DistributedObject
use julea.DistributedObject.{DistributedObject}
use julea.Object.{new_for_index}
use julea.Object.Uri.{
  Scheme, Uri, namespace, object, distributed_namespace, distributed_object, scheme_parts,
  scheme_prefix, checked, distributed, set_indexed, set_distributed, set_parts, empty, new,
}
use julea.Uri.{parse}
use julea.Uri.Laws.{Splits, join, ArePartsOf, parse-ArePartsOf}

module _ (strsplit : ℕ → List ℕ → List (List ℕ)) (strtoull : List ℕ → ℕ)
    (server_count stripe_size random : ℕ) where
  -- A distributed object's range begins on the first server, if there is one.
  abbrev pub from_first : Distribution
  from_first = record {
    type = 0;
    impl =
        Impl.round_robin
          (RoundRobin.new (if ltb 0 server_count then 0 else random) server_count stripe_size);
    ref_count = 1;
  }

  -- What the URI of a scheme with these parts stands for: a place on a server, or on all of them.
  abbrev on_server : Scheme → List (List ℕ) → Uri
  on_server scheme parts =
      let index = u32 (strtoull (get_or parts 0 [])) in
      record {
        scheme = scheme;
        index = index;
        namespace = get_elem? parts 1;
        name = get_elem? parts 2;
        distributed_object = none;
        object = get_elem? parts 2 >>= new_for_index server_count index (get_or parts 1 []);
      }

  abbrev on_servers : Scheme → List (List ℕ) → Uri
  on_servers scheme parts = record {
    scheme = scheme;
    index = 0;
    namespace = get_elem? parts 0;
    name = get_elem? parts 1;
    distributed_object = get_elem? parts 1 >>= λ name. some (record {
      namespace = get_or parts 0 [];
      name = name;
      distribution = from_first;
      ref_count = 1;
    });
    object = none;
  }

  abbrev pub meaning : Scheme → List (List ℕ) → Uri
  meaning namespace parts = on_server namespace parts
  meaning object parts = on_server object parts
  meaning distributed_namespace parts = on_servers distributed_namespace parts
  meaning distributed_object parts = on_servers distributed_object parts

  distributed-from_first :
      (ns name : List ℕ)
      → distributed strsplit strtoull server_count stripe_size random ns name
        ≡ some (record { namespace = ns; name = name; distribution = from_first; ref_count = 1 })
  unfolding distributed new_common set unref view RoundRobin.set RoundRobin.new
      DistributedObject.new
  distributed-from_first ns name = elim (Bool-cases (ltb 0 server_count)) [
    | inl h ↦ rw h refl
    | inr h ↦ rw h refl
  ]

  set_parts-meaning :
      (scheme : Scheme) (parts : List (List ℕ))
      → length parts ≡ scheme_parts scheme
      → set_parts strsplit strtoull server_count stripe_size random
          (empty strsplit strtoull server_count stripe_size random scheme)
          scheme
          parts
        ≡ some (meaning scheme parts)
  unfolding set_parts set_indexed set_distributed new_for_index
  set_parts-meaning namespace (i ∷ ns ∷ []) e = refl
  set_parts-meaning namespace [] e = absurd (omega (arith, e))
  set_parts-meaning namespace (i ∷ []) e = absurd (omega (arith, e))
  set_parts-meaning namespace (i ∷ ns ∷ name ∷ rest) e = absurd (omega (arith, e))
  set_parts-meaning object (i ∷ ns ∷ name ∷ []) e = refl
  set_parts-meaning object [] e = absurd (omega (arith, e))
  set_parts-meaning object (i ∷ []) e = absurd (omega (arith, e))
  set_parts-meaning object (i ∷ ns ∷ []) e = absurd (omega (arith, e))
  set_parts-meaning object (i ∷ ns ∷ name ∷ more ∷ rest) e = absurd (omega (arith, e))
  set_parts-meaning distributed_namespace (ns ∷ []) e = refl
  set_parts-meaning distributed_namespace [] e = absurd (omega (arith, e))
  set_parts-meaning distributed_namespace (ns ∷ name ∷ rest) e = absurd (omega (arith, e))
  set_parts-meaning distributed_object (ns ∷ name ∷ []) e = rw (distributed-from_first ns name) refl
  set_parts-meaning distributed_object [] e = absurd (omega (arith, e))
  set_parts-meaning distributed_object (ns ∷ []) e = absurd (omega (arith, e))
  set_parts-meaning distributed_object (ns ∷ name ∷ more ∷ rest) e = absurd (omega (arith, e))

  -- The parts of a URI of the scheme.
  abbrev pub Written : Scheme → List ℕ → List (List ℕ) → Type 0
  Written scheme uri parts =
      (uri ≡ scheme_prefix scheme ++ join parts)
      × ArePartsOf (scheme_parts scheme) (checked scheme) parts

  module _ (splits : Splits strsplit) where
    parse-Written :
        (scheme : Scheme) (uri : List ℕ) (parts : List (List ℕ))
        → (parse strsplit (scheme_prefix scheme) (scheme_parts scheme) (checked scheme) uri
            ≡ some parts)
          ↔ Written scheme uri parts
    parse-Written namespace = parse-ArePartsOf strsplit splits (scheme_prefix namespace) 1 2
    parse-Written object = parse-ArePartsOf strsplit splits (scheme_prefix object) 2 2
    parse-Written distributed_namespace =
        parse-ArePartsOf strsplit splits (scheme_prefix distributed_namespace) 0 1
    parse-Written distributed_object =
        parse-ArePartsOf strsplit splits (scheme_prefix distributed_object) 1 1

    -- A text that is the prefix of its scheme and as many parts as the scheme has, with slashes
    -- between them, none empty, and none with a slash but the last where that is a name, gives the
    -- URI with these parts; any other text is refused.
    pub new-meaning :
        (uri : List ℕ) (scheme : Scheme)
        → ((parts : List (List ℕ)) × Written scheme uri parts
            × (new strsplit strtoull server_count stripe_size random uri scheme
                ≡ some (some (meaning scheme parts))))
          ⊎ (((parts : List (List ℕ)) → ¬ Written scheme uri parts)
              × (new strsplit strtoull server_count stripe_size random uri scheme ≡ some none))
    unfolding new
    new-meaning uri scheme =
        elim (Option-cases
          (parse strsplit (scheme_prefix scheme) (scheme_parts scheme) (checked scheme) uri)) [
            | inl refused ↦ inr (
              (λ parts written. cc (sym ((parse-Written scheme uri parts).1 written) ∙ refused)),
              rw (new, refused) refl,
            )
            | inr accepted ↦
                let (parts, e) = accepted in
                let written = (parse-Written scheme uri parts).0 e in
                inl (
                  parts,
                  written,
                  rw (new, e, set_parts-meaning scheme parts written.1.counted) refl,
                )
          ]
