-- ===== src/Kv/Requests.antt =====
-- The requests of the key-value client are messages of fields.
use mathlib.Core.List.{append-nil}
use julea.Common.Slices.{slice}
use julea.Common.{
  ℕ, ◌+◌, ◌<◌, ◌≤◌, ◌≡◌, refl, ap, List, [], ◌∷◌, ◌++◌, length, map, arith, u32_mod, All, max,
  length-append, ◌≢◌,
}
use julea.Semantics.{Semantics}
use julea.Message.{Message, new, append_4, add_operation}
use julea.Message.Bytes.{Field, int4, block, text, length-le_bytes}
use julea.Message.Reserve.{total, joined}
use julea.Message.Wire.{set_semantics, serialized}
use julea.Message.Operations.{
  Carries, append_each, append_each-Carries, pieces, operation, operations, AllSmall,
  operations-Carries, all_operations,
}
use julea.Kv.{
  Kv, request, add_put, add_puts, add_key, add_keys, put_request, delete_request, get_request,
  kv_put, kv_delete, kv_get,
}

abbrev pub put_fields : Kv × List ℕ → List Field
put_fields (kv, value) = text kv.key ∷ int4 (length value) ∷ block value ∷ []

abbrev pub key_fields : Kv → List Field
key_fields kv = text kv.key ∷ []

-- A text without zero bytes.
abbrev pub IsText : List ℕ → Type 0
IsText = All (λ b. b ≢ 0)

-- What a request holds: the namespace, and the fields of each operation.
abbrev pub HoldsRequest :
    (random : ℕ) → Message → (op_type : ℕ) → List ℕ → Semantics → List (List Field) → Type 0
HoldsRequest random m op_type namespace s fss =
    Carries m random (serialized s) op_type (length fss)
      ((namespace ++ 0 ∷ []) ++ all_operations fss)

module _ (memory : ℕ → ℕ) (random : ℕ) (magnitude : ℕ → ℕ) where
  add_put-operation :
      (m : Message) (op : Kv × List ℕ)
      → add_put memory random magnitude m op ≡ operation magnitude m (put_fields op)
  unfolding add_put operation append_4 append_each total
  add_put-operation m (kv, value) =
      let e : length kv.key + 1 + 4 + length value ≡ total (pieces (put_fields (kv, value))) =
        omega (arith, length-append kv.key (0 ∷ []), length-le_bytes 4 (length value)) in
      ap (λ (n : ℕ). append_each (add_operation magnitude m n) (pieces (put_fields (kv, value)))) e

  add_key-operation :
      (m : Message) (kv : Kv)
      → add_key memory random magnitude m kv ≡ operation magnitude m (key_fields kv)
  unfolding add_key operation append_each total
  add_key-operation m kv =
      let e : length kv.key + 1 ≡ total (pieces (key_fields kv)) =
        omega (arith, length-append kv.key (0 ∷ [])) in
      ap (λ (n : ℕ). append_each (add_operation magnitude m n) (pieces (key_fields kv))) e

  add_puts-operations :
      (m : Message) (ops : List (Kv × List ℕ))
      → add_puts memory random magnitude m ops ≡ operations magnitude m (map put_fields ops)
  unfolding add_puts operations
  add_puts-operations m [] = refl
  add_puts-operations m (op ∷ ops) =
      rw (add_put-operation m op) (add_puts-operations (operation magnitude m (put_fields op)) ops)

  add_keys-operations :
      (m : Message) (kvs : List Kv)
      → add_keys memory random magnitude m kvs ≡ operations magnitude m (map key_fields kvs)
  unfolding add_keys operations
  add_keys-operations m [] = refl
  add_keys-operations m (kv ∷ kvs) =
      rw (add_key-operation m kv) (add_keys-operations (operation magnitude m (key_fields kv)) kvs)

  request-Carries :
      (op_type : ℕ) (namespace : List ℕ) (s : Semantics)
      → length namespace + 1 < u32_mod
      → Carries
          (request memory random magnitude op_type namespace s)
          random
          (serialized s)
          op_type
          0
          (namespace ++ 0 ∷ [])
  unfolding request new set_semantics joined append_each total slice
  request-Carries op_type namespace s short =
      let m : Message = set_semantics (new memory random op_type (length namespace + 1)) s in
      let fits : length namespace + 1 ≤ max 256 (length namespace + 1) = ground arith in
      let len = length-append namespace (0 ∷ []) in
      let base : Carries m random (serialized s) op_type 0 [] = record {
        built = record { at_end = refl; within = omega arith };
        holds = refl;
        small = ground arith;
        same_id = refl;
        same_semantics = refl;
        same_type = refl;
        counted = refl;
      } in
      rw (append-nil (namespace ++ 0 ∷ [])) at (
        append_each-Carries random (serialized s) op_type m 0 [] ((namespace ++ 0 ∷ []) ∷ []) base
          (omega arith))

  pub request-operations :
      (op_type : ℕ) (namespace : List ℕ) (s : Semantics) (fss : List (List Field))
      → ((n : ℕ) → 0 < n → 0 < magnitude n)
      → length namespace + 1 < u32_mod
      → AllSmall magnitude (request memory random magnitude op_type namespace s) fss
      → length fss < u32_mod
      → HoldsRequest random
          (operations magnitude (request memory random magnitude op_type namespace s) fss)
          op_type
          namespace
          s
          fss
  request-operations op_type namespace s fss scaled short small few =
      let e : 0 + length fss ≡ length fss = omega arith in
      rw e at (
        operations-Carries magnitude scaled random (serialized s) op_type _ 0 (namespace ++ 0 ∷ [])
          fss (request-Carries op_type namespace s short) small (omega arith))

  module _ (scaled : (n : ℕ) → 0 < n → 0 < magnitude n) (s : Semantics) where
    pub put_request-HoldsRequest :
        (op : Kv × List ℕ) (ops : List (Kv × List ℕ))
        → length op.0.namespace + 1 < u32_mod
        → AllSmall magnitude
            (request memory random magnitude kv_put op.0.namespace s)
            (map put_fields (op ∷ ops))
        → length (map put_fields (op ∷ ops)) < u32_mod
        → HoldsRequest random
            (put_request memory random magnitude op ops s)
            kv_put
            op.0.namespace
            s
            (map put_fields (op ∷ ops))
    unfolding put_request
    put_request-HoldsRequest op ops short small few =
        rw
          (add_puts-operations (request memory random magnitude kv_put op.0.namespace s) (op ∷ ops))
          (request-operations kv_put op.0.namespace s (map put_fields (op ∷ ops)) scaled short small
            few)

    pub delete_request-HoldsRequest :
        (kv : Kv) (kvs : List Kv)
        → length kv.namespace + 1 < u32_mod
        → AllSmall magnitude
            (request memory random magnitude kv_delete kv.namespace s)
            (map key_fields (kv ∷ kvs))
        → length (map key_fields (kv ∷ kvs)) < u32_mod
        → HoldsRequest random
            (delete_request memory random magnitude kv kvs s)
            kv_delete
            kv.namespace
            s
            (map key_fields (kv ∷ kvs))
    unfolding delete_request
    delete_request-HoldsRequest kv kvs short small few =
        rw
          (add_keys-operations (request memory random magnitude kv_delete kv.namespace s)
            (kv ∷ kvs))
          (request-operations kv_delete kv.namespace s (map key_fields (kv ∷ kvs)) scaled short
            small few)

    pub get_request-HoldsRequest :
        (kv : Kv) (kvs : List Kv)
        → length kv.namespace + 1 < u32_mod
        → AllSmall magnitude
            (request memory random magnitude kv_get kv.namespace s)
            (map key_fields (kv ∷ kvs))
        → length (map key_fields (kv ∷ kvs)) < u32_mod
        → HoldsRequest random
            (get_request memory random magnitude kv kvs s)
            kv_get
            kv.namespace
            s
            (map key_fields (kv ∷ kvs))
    unfolding get_request
    get_request-HoldsRequest kv kvs short small few =
        rw (add_keys-operations (request memory random magnitude kv_get kv.namespace s) (kv ∷ kvs))
          (request-operations kv_get kv.namespace s (map key_fields (kv ∷ kvs)) scaled short small
            few)
