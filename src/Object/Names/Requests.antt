-- ===== src/Object/Names/Requests.antt =====
-- The requests whose operations are names of objects.
use julea.Common.{
  ℕ, ◌+◌, u32_mod, ◌<◌, ◌≡◌, refl, ap, List, [], ◌∷◌, length, map, arith, length-append,
}
use julea.Semantics.{Semantics}
use julea.Message.{Message, add_operation}
use julea.Message.Bytes.{Field, text}
use julea.Message.Reserve.{total}
use julea.Message.Operations.{AllSmall, operation, operations, pieces, append_each}
use julea.Kv.{request}
use julea.Kv.Requests.{IsText, HoldsRequest, request-operations}
use julea.Object.{Object}
use julea.Object.Names.{
  object_delete, object_create, create_request, object_sync, sync_request, object_status,
  status_request, namespace_request, add_name, add_names, remove_request,
}

abbrev pub name_fields : Object → List Field
name_fields o = text o.name ∷ []

-- The objects of a call are in one namespace, and their names are texts.
abbrev pub InNamespace : List ℕ → Object → Type 0
InNamespace namespace o = (o.namespace ≡ namespace) × IsText o.name

module _ (memory : ℕ → ℕ) (random : ℕ) (magnitude : ℕ → ℕ) where
  add_name-operation :
      (m : Message) (o : Object)
      → add_name memory random magnitude m o ≡ operation magnitude m (name_fields o)
  unfolding add_name operation append_each total
  add_name-operation m o =
      let e : length o.name + 1 ≡ total (pieces (name_fields o)) =
        omega (arith, length-append o.name (0 ∷ [])) in
      ap (λ (n : ℕ). append_each (add_operation magnitude m n) (pieces (name_fields o))) e

  add_names-operations :
      (m : Message) (os : List Object)
      → add_names memory random magnitude m os ≡ operations magnitude m (map name_fields os)
  unfolding add_names operations
  add_names-operations m [] = refl
  add_names-operations m (o ∷ os) =
      rw (add_name-operation m o) (add_names-operations (operation magnitude m (name_fields o)) os)

  -- The names of one call fit into a message: less than 4 GiB.
  abbrev pub NamesFit : (op_type : ℕ) → Semantics → Object → List Object → Type 0
  NamesFit op_type s o os =
      IsText o.namespace
      × (length o.namespace + 1 < u32_mod)
      × AllSmall magnitude (request memory random magnitude op_type o.namespace s)
          (map name_fields (o ∷ os))
      × (length (map name_fields (o ∷ os)) < u32_mod)

  names-HoldsRequest :
      ((n : ℕ) → 0 < n → 0 < magnitude n)
      → (op_type : ℕ) (s : Semantics) (o : Object) (os : List Object) → NamesFit op_type s o os
      → HoldsRequest random
          (add_names memory random magnitude
            (namespace_request memory random magnitude op_type o.namespace s)
            (o ∷ os))
          op_type
          o.namespace
          s
          (map name_fields (o ∷ os))
  unfolding namespace_request request
  names-HoldsRequest scaled op_type s o os (name, short, small, few) =
      rw (add_names-operations (request memory random magnitude op_type o.namespace s) (o ∷ os)) (
        request-operations memory random magnitude op_type o.namespace s (map name_fields (o ∷ os))
          scaled short small few)

  pub remove_request-HoldsRequest :
      ((n : ℕ) → 0 < n → 0 < magnitude n)
      → (s : Semantics) (o : Object) (os : List Object) → NamesFit object_delete s o os
      → HoldsRequest random
          (remove_request memory random magnitude o os s)
          object_delete
          o.namespace
          s
          (map name_fields (o ∷ os))
  unfolding remove_request
  remove_request-HoldsRequest scaled s o os fits =
      names-HoldsRequest scaled object_delete s o os fits

  pub create_request-HoldsRequest :
      ((n : ℕ) → 0 < n → 0 < magnitude n)
      → (s : Semantics) (o : Object) (os : List Object) → NamesFit object_create s o os
      → HoldsRequest random
          (create_request memory random magnitude o os s)
          object_create
          o.namespace
          s
          (map name_fields (o ∷ os))
  unfolding create_request
  create_request-HoldsRequest scaled s o os fits =
      names-HoldsRequest scaled object_create s o os fits

  pub sync_request-HoldsRequest :
      ((n : ℕ) → 0 < n → 0 < magnitude n)
      → (s : Semantics) (o : Object) (os : List Object) → NamesFit object_sync s o os
      → HoldsRequest random
          (sync_request memory random magnitude o os s)
          object_sync
          o.namespace
          s
          (map name_fields (o ∷ os))
  unfolding sync_request
  sync_request-HoldsRequest scaled s o os fits = names-HoldsRequest scaled object_sync s o os fits

  pub status_request-HoldsRequest :
      ((n : ℕ) → 0 < n → 0 < magnitude n)
      → (s : Semantics) (o : Object) (os : List Object) → NamesFit object_status s o os
      → HoldsRequest random
          (status_request memory random magnitude o os s)
          object_status
          o.namespace
          s
          (map name_fields (o ∷ os))
  unfolding status_request
  status_request-HoldsRequest scaled s o os fits =
      names-HoldsRequest scaled object_status s o os fits
