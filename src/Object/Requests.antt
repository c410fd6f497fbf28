-- ===== src/Object/Requests.antt =====
-- The request of a write: a message of fields, and behind it the bytes to be written.
use mathlib.Core.List.{append-nil}
use julea.Common.Slices.{slice}
use julea.Common.{
  ℕ, ◌+◌, ◌<◌, ◌≤◌, ◌≡◌, refl, ap, ◌∙◌, List, [], ◌∷◌, ◌++◌, length, map, arith, u32_mod, max,
  length-append,
}
use julea.Semantics.{Semantics}
use julea.Message.{Message, new, append_8, add_operation, add_send}
use julea.Message.Bytes.{Field}
use julea.Message.Reserve.{total, joined}
use julea.Message.Wire.{set_semantics, serialized}
use julea.Message.Operations.{
  Carries, append_each, append_each-Carries, pieces, operation, all_operations,
}
use julea.Message.Sending.{
  append_each-send_list, sending, SendsSmall, sending-Carries, sending-joined,
}
use julea.Object.{Object, Write, object_request, add_write, add_writes, write_request, object_write}
use julea.Message.Pairs.{pair_fields, total-pair}
use julea.Object.Chunks.{write_bytes_of}

abbrev pub write_fields : Write → List Field
write_fields w = pair_fields (length w.bytes) w.offset

-- The namespace and the name stand first in the buffer.
abbrev pub names : Object → List ℕ
names o = (o.namespace ++ 0 ∷ []) ++ (o.name ++ 0 ∷ [])

module _ (memory : ℕ → ℕ) (random : ℕ) (magnitude : ℕ → ℕ) where
  add_write-operation :
      (m : Message) (w : Write)
      → add_write memory random magnitude m w
        ≡ add_send (operation magnitude m (write_fields w)) w.bytes
  unfolding add_write operation append_8 append_each total
  add_write-operation m w =
      ap
        (λ (n : ℕ).
          add_send (append_each (add_operation magnitude m n) (pieces (write_fields w))) w.bytes)
        (total-pair (length w.bytes) w.offset)

  add_writes-sending :
      (m : Message) (ws : List Write)
      → add_writes memory random magnitude m ws ≡ sending magnitude write_fields write_bytes_of m ws
  unfolding add_writes sending
  add_writes-sending m [] = refl
  add_writes-sending m (w ∷ ws) =
      rw (add_write-operation m w)
        (add_writes-sending (add_send (operation magnitude m (write_fields w)) w.bytes) ws)

  -- The message stays below 4 GiB while it grows.
  abbrev pub WritesSmall : Message → List Write → Type 0
  WritesSmall = SendsSmall magnitude write_fields write_bytes_of

  pub object_request-Carries :
      (op_type : ℕ) (o : Object) (s : Semantics)
      → length o.namespace + 1 + (length o.name + 1) < u32_mod
      → Carries
          (object_request memory random magnitude op_type o s)
          random
          (serialized s)
          op_type
          0
          (names o)
        × (joined (object_request memory random magnitude op_type o s).send_list ≡ [])
  unfolding object_request new set_semantics joined append_each total slice
  object_request-Carries op_type o s short =
      let n = length o.namespace + 1 + (length o.name + 1) in
      let m : Message = set_semantics (new memory random op_type n) s in
      let fits : n ≤ max 256 n = ground arith in
      let len = length-append o.namespace (0 ∷ []) in
      let len' = length-append o.name (0 ∷ []) in
      let base : Carries m random (serialized s) op_type 0 [] = record {
        built = record { at_end = refl; within = omega arith };
        holds = refl;
        small = ground arith;
        same_id = refl;
        same_semantics = refl;
        same_type = refl;
        counted = refl;
      } in
      let parts = (o.namespace ++ 0 ∷ []) ∷ (o.name ++ 0 ∷ []) ∷ [] in
      (
        rw (append-nil (o.name ++ 0 ∷ [])) at
            (append_each-Carries random (serialized s) op_type m 0 [] parts base (omega arith)),
        ap joined (append_each-send_list m parts),
      )

  -- The request of a write, and what follows it on the connection.
  pub write_request-Carries :
      ((n : ℕ) → 0 < n → 0 < magnitude n)
      → (o : Object) (ws : List Write) (s : Semantics)
      → length o.namespace + 1 + (length o.name + 1) < u32_mod
      → WritesSmall (object_request memory random magnitude object_write o s) ws
      → length ws < u32_mod
      → let m = write_request memory random magnitude o ws s in
        Carries m random
          (serialized s)
          object_write
          (length ws)
          (names o ++ all_operations (map write_fields ws))
        × (joined m.send_list ≡ joined (map write_bytes_of ws))
  unfolding write_request
  write_request-Carries scaled o ws s short small few =
      let (c, none_yet) = object_request-Carries object_write o s short in
      let m = object_request memory random magnitude object_write o s in
      let e : 0 + length ws ≡ length ws = omega arith in
      rw (add_writes-sending m ws) (
        rw e at (
            sending-Carries magnitude write_fields write_bytes_of scaled random (serialized s)
              object_write m 0 (names o) ws c small (omega arith)),
        sending-joined magnitude write_fields write_bytes_of m ws
            ∙ ap (λ (xs : List ℕ). xs ++ joined (map write_bytes_of ws)) none_yet,
      )
