-- ===== src/Object/Read/Requests.antt =====
-- The request of a read.
use julea.Common.{
  ℕ, ◌+◌, ◌<◌, ◌≡◌, refl, ap, some, List, [], ◌∷◌, ◌++◌, length, map, arith, u32_mod, length-map,
}
use julea.Semantics.{Semantics}
use julea.Message.{Message, add_operation, append_8, get_string, get_count}
use julea.Message.Buffer.{contents}
use julea.Message.Bytes.{Field, Holds, moved}
use julea.Message.Reserve.{total}
use julea.Message.Stream.Arrival.{Arrived}
use julea.Message.Operations.{
  Carries, AllSmall, append_each, pieces, operation, operations, operations-Carries, all_operations,
}
use julea.Message.Pairs.{pair_fields, total-pair}
use julea.Message.Wire.{serialized, get_semantics, on_wire}
use julea.Kv.Requests.{IsText}
use julea.Object.{Object, object_request}
use julea.Object.Requests.{names, object_request-Carries}
use julea.Object.Arrival.{object_request-Arrived}
use julea.Object.Read.{Read, object_read, add_read, add_reads, read_request}

abbrev pub read_fields : Read → List Field
read_fields r = pair_fields r.len r.offset

module _ (memory : ℕ → ℕ) (random : ℕ) (magnitude : ℕ → ℕ) where
  add_read-operation :
      (m : Message) (r : Read)
      → add_read memory random magnitude m r ≡ operation magnitude m (read_fields r)
  unfolding add_read operation append_8 append_each total
  add_read-operation m r =
      ap (λ (n : ℕ). append_each (add_operation magnitude m n) (pieces (read_fields r)))
        (total-pair r.len r.offset)

  add_reads-operations :
      (m : Message) (rs : List Read)
      → add_reads memory random magnitude m rs ≡ operations magnitude m (map read_fields rs)
  unfolding add_reads operations
  add_reads-operations m [] = refl
  add_reads-operations m (r ∷ rs) =
      rw (add_read-operation m r) (add_reads-operations (operation magnitude m (read_fields r)) rs)

  -- The names are texts, and the message stays below 4 GiB.
  abbrev pub CanAsk : Semantics → Object → List Read → Type 0
  CanAsk s o rs =
      IsText o.namespace
      × IsText o.name
      × (length o.namespace + 1 + (length o.name + 1) < u32_mod)
      × AllSmall magnitude (object_request memory random magnitude object_read o s)
          (map read_fields rs)
      × (length rs < u32_mod)

  read_request-Carries :
      ((n : ℕ) → 0 < n → 0 < magnitude n)
      → (s : Semantics) (o : Object) (rs : List Read) → CanAsk s o rs
      → Carries
          (read_request memory random magnitude o rs s)
          random
          (serialized s)
          object_read
          (length rs)
          (names o ++ all_operations (map read_fields rs))
  unfolding read_request
  read_request-Carries scaled s o rs (text1, text2, short, small, few) =
      let m = object_request memory random magnitude object_read o s in
      let (c, none_yet) = object_request-Carries memory random magnitude object_read o s short in
      let len = length-map read_fields rs in
      let e : 0 + length (map read_fields rs) ≡ length rs = omega arith in
      rw (add_reads-operations m rs) (
        rw e at (
          operations-Carries magnitude scaled random (serialized s) object_read m 0 (names o)
            (map read_fields rs) c small (omega arith)))

  pub read_request-Arrived :
      ((n : ℕ) → 0 < n → 0 < magnitude n)
      → (s : Semantics) (o : Object) (rs : List Read) (m' : Message) → CanAsk s o rs
      → let m = read_request memory random magnitude o rs s in
        Arrived m' m.header (contents m)
        → let m1 = moved m' (length (o.namespace ++ 0 ∷ [])) in
          let m2 = moved m1 (length (o.name ++ 0 ∷ [])) in
          (get_string m' ≡ some (m1, o.namespace))
          × (get_string m1 ≡ some (m2, o.name))
          × (get_semantics m' ≡ on_wire s)
          × (get_count m' ≡ length rs)
          × Holds m2 (all_operations (map read_fields rs))
  read_request-Arrived scaled s o rs m' send arrived =
      object_request-Arrived random object_read (length rs) s o
        (all_operations (map read_fields rs)) (read_request memory random magnitude o rs s) m'
        send.0 send.1 (read_request-Carries scaled s o rs send) arrived
