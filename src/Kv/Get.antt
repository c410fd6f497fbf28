-- ===== src/Kv/Get.antt =====
-- A get through the server yields what the client's own backend would.
use mathlib.Core.List.{append-nil, append_assoc}
use julea.Common.{
  ℕ, ◌+◌, ◌^◌, u32_mod, ◌<◌, ◌≡◌, refl, sym, ap, ◌∙◌, Bool, true, ◌&&◌, Option, none, some, List,
  [], ◌∷◌, ◌++◌, length, map, arith, All, length-map, ltb,
}
use julea.Common.Slices.{slice}
use julea.Semantics.{Semantics}
use julea.Message.{Message, le_bytes, get_4, new_reply, append_4, add_operation}
use julea.Message.Buffer.{contents}
use julea.Message.Reserve.{total}
use julea.Message.Bytes.{
  Field, int4, block, all_encoded, Holds, moved, next-Holds, get_string-Holds, get_4-Holds,
  get_n-Holds, length-le_bytes,
}
use julea.Message.Stream.Arrival.{Arrived}
use julea.Message.Operations.{
  Carries, AllSmall, all_operations, operation, operations, operations-Carries, pieces, append_each,
}
use julea.Message.Wire.{on_wire}
use julea.KvBackend.{KvBackend}
use julea.Server.Kv.{get_loop, handle_get, answer_value}
use julea.Kv.{Kv, got_of, found, get_each, get_local, read_value, read_values, get_request, kv_get}
use julea.Kv.Requests.{key_fields, get_request-HoldsRequest}
use julea.Kv.Remote.{KeyFits, Sendable, request-Arrived}

abbrev pub value_fields : Option (List ℕ) → List Field
value_fields none = int4 0 ∷ []
value_fields (some value) = int4 (length value) ∷ block value ∷ []

-- A value that is found is not empty, and its length a 32-bit word.
abbrev pub ValueFits : Option (List ℕ) → Type 0
ValueFits none = Unit
ValueFits (some value) = (0 < length value) × (length value < 2 ^ 32)

answer_value-operation :
    (magnitude : ℕ → ℕ) (r : Message) (value : Option (List ℕ))
    → answer_value magnitude r value ≡ operation magnitude r (value_fields value)
unfolding answer_value operation append_4 append_each total
answer_value-operation magnitude r none =
    let e : 4 ≡ total (pieces (value_fields none)) = omega (arith, length-le_bytes 4 0) in
    ap (λ (n : ℕ). append_each (add_operation magnitude r n) (pieces (value_fields none))) e
answer_value-operation magnitude r (some value) =
    let e : 4 + length value ≡ total (pieces (value_fields (some value))) =
      omega (arith, length-le_bytes 4 (length value)) in
    ap (λ (n : ℕ). append_each (add_operation magnitude r n) (pieces (value_fields (some value)))) e

read_value-Holds :
    (r : Message) (value : Option (List ℕ)) (rest : List ℕ)
    → ValueFits value
    → Holds r (all_encoded (value_fields value) ++ rest)
    → (r' : Message) × (read_value r ≡ (r', got_of value))
      × (ltb 0 (got_of value).len ≡ found value)
      × Holds r' rest
unfolding read_value all_encoded
read_value-Holds r none rest fits h =
    let n = le_bytes 4 0 in
    let (h1, t1) = next-Holds r n rest (rw (append-nil n) at h) in
    let e : get_4 r ≡ (moved r (length n), 0) =
      rw (length-le_bytes 4 0) (get_4-Holds r 0 (omega arith) h1) in
    (moved r (length n), rw e refl, refl, t1)
read_value-Holds r (some value) rest (positive, short) h =
    let n = le_bytes 4 (length value) in
    let shape =
      append_assoc n (value ++ []) rest
      ∙ ap (λ (xs : List ℕ). n ++ xs) (append_assoc value [] rest) in
    let (h1, t1) = next-Holds r n (value ++ rest) (rw shape at h) in
    let r1 = moved r (length n) in
    let (h2, t2) = next-Holds r1 value rest t1 in
    let e : get_4 r ≡ (r1, length value) =
      rw (length-le_bytes 4 (length value)) (get_4-Holds r (length value) short h1) in
    let full : ltb 0 (length value) ≡ true = ground arith in
    (moved r1 (length value), rw (e, get_n-Holds r1 value h2, full) refl, full, t2)

module _ (memory : ℕ → ℕ) (magnitude : ℕ → ℕ) (b : KvBackend) where
  -- What the backend returns for each key.
  unfoldable pub values : b.Batch → b.State → List Kv → List (Option (List ℕ))
  values batch s [] = []
  values batch s (kv ∷ kvs) = let (s', value) = b.get s batch kv.key in value ∷ values batch s' kvs

  get_loop-get_each :
      (m : Message) (batch : b.Batch) (s : b.State) (reply : Message) (ret : Bool) (kvs : List Kv)
      → All KeyFits kvs
      → Holds m (all_operations (map key_fields kvs))
      → (m' : Message) × (get_loop memory magnitude b (length kvs) m batch s reply
          ≡ some (
            m',
            (get_each b batch s kvs ret).0,
            operations magnitude reply (map value_fields (values batch s kvs)),
          ))
  unfolding get_loop get_each values all_operations all_encoded operations
  get_loop-get_each m batch s reply ret [] fits h = (m, refl)
  get_loop-get_each m batch s reply ret (kv ∷ kvs) fits h =
      let k = kv.key ++ 0 ∷ [] in
      let rest = all_operations (map key_fields kvs) in
      let (h1, t1) = next-Holds m k rest (rw (append-nil k) at h) in
      let (s', value) = b.get s batch kv.key in
      let (m', e) =
        get_loop-get_each (moved m (length k)) batch s'
          (operation magnitude reply (value_fields value)) (found value && ret) kvs fits.1 t1 in
      (m', rw (get_string-Holds m kv.key fits.0 h1, answer_value-operation magnitude reply value) e)

  -- What the callbacks receive does not depend on the result so far.
  get_each-values :
      (batch : b.Batch) (s : b.State) (kvs : List Kv) (ret : Bool)
      → (get_each b batch s kvs ret).1 ≡ map got_of (values batch s kvs)
  unfolding get_each values
  get_each-values batch s [] ret = refl
  get_each-values batch s (kv ∷ kvs) ret =
      let (s', value) = b.get s batch kv.key in
      ap (◌∷◌ (got_of value)) (get_each-values batch s' kvs (found value && ret))

  read_values-get_each :
      (r : Message) (batch : b.Batch) (s : b.State) (ret : Bool) (kvs : List Kv)
      → All ValueFits (values batch s kvs)
      → Holds r (all_operations (map value_fields (values batch s kvs)))
      → read_values kvs r ret ≡ ((get_each b batch s kvs ret).1, (get_each b batch s kvs ret).2)
  unfolding read_values get_each values all_operations
  read_values-get_each r batch s ret [] fits h = refl
  read_values-get_each r batch s ret (kv ∷ kvs) fits h =
      let (s', value) = b.get s batch kv.key in
      let rest = all_operations (map value_fields (values batch s' kvs)) in
      let (r', e, len, h') = read_value-Holds r value rest fits.0 h in
      rw (e, len, read_values-get_each r' batch s' (found value && ret) kvs fits.1 h') refl

pub new_reply-Carries :
    (memory : ℕ → ℕ) (m : Message)
    → Carries (new_reply memory m) m.header.id 0 m.header.op_type 0 []
unfolding new_reply slice
new_reply-Carries memory m = record {
  built = record { at_end = refl; within = omega arith };
  holds = refl;
  small = omega arith;
  same_id = refl;
  same_semantics = refl;
  same_type = refl;
  counted = refl;
}

module _ (memory : ℕ → ℕ) (random : ℕ) (magnitude : ℕ → ℕ) (b : KvBackend)
    (scaled : (n : ℕ) → 0 < n → 0 < magnitude n) (s : Semantics) where
  -- The values that the server's backend has for the keys of a call.
  abbrev pub found_values : Kv → List Kv → b.State → List (Option (List ℕ))
  found_values kv kvs st =
      let (s1, batch, started) = b.batch_start st kv.namespace (on_wire s) in
      values memory magnitude b batch s1 (kv ∷ kvs)

  -- The server's reply to the request `m'`.
  abbrev pub get_reply : Kv → List Kv → Message → b.State → Message
  get_reply kv kvs m' st =
      operations magnitude (new_reply memory m') (map value_fields (found_values kv kvs st))

  -- Getting through the server: the request and then the reply have arrived. The handler ends, and
  -- its backend is as the client's own would be after the local branch of the same call; what the
  -- client hands to its callbacks is what the local branch would, and the result is whether every
  -- key was found. Values that are found are not empty, and the reply stays below 4 GiB.
  pub read_values-handle_get :
      (kv : Kv) (kvs : List Kv) (m' r' : Message) (st : b.State)
      → Sendable memory random magnitude b scaled s kv_get kv.namespace (map key_fields (kv ∷ kvs))
      → All KeyFits (kv ∷ kvs)
      → All ValueFits (found_values kv kvs st)
      → AllSmall magnitude (new_reply memory m') (map value_fields (found_values kv kvs st))
      → length (map value_fields (found_values kv kvs st)) < u32_mod
      → let m = get_request memory random magnitude kv kvs s in
        Arrived m' m.header (contents m)
        → let reply = get_reply kv kvs m' st in
          Arrived r' reply.header (contents reply)
          → let (s1, batch, started) = b.batch_start st kv.namespace (on_wire s) in
            let (s2, gots, all_found) = get_each b batch s1 (kv ∷ kvs) true in
            (handle_get memory magnitude b m' st
              ≡ some ((get_local b kv kvs (on_wire s) st).0, get_reply kv kvs m' st))
            × (read_values (kv ∷ kvs) r' true ≡ (gots, all_found))
            × ((get_local b kv kvs (on_wire s) st).1 ≡ gots)
  unfolding handle_get get_local
  read_values-handle_get kv kvs m' r' st (name, short, small, few) fits present fit answers arrived
        returned =
      let fss = map key_fields (kv ∷ kvs) in
      let m = get_request memory random magnitude kv kvs s in
      let c = get_request-HoldsRequest memory random magnitude scaled s kv kvs short small few in
      let (e1, e2, e3, h) = request-Arrived random m m' kv_get kv.namespace s fss c arrived name in
      let (s1, batch, started) = b.batch_start st kv.namespace (on_wire s) in
      let (m2, e4) =
        get_loop-get_each memory magnitude b _ batch s1 (new_reply memory m') started (kv ∷ kvs)
          fits h in
      let built =
        operations-Carries magnitude scaled m'.header.id 0 m'.header.op_type _ 0 []
          (map value_fields (found_values kv kvs st)) (new_reply-Carries memory m') fit
          (omega arith) in
      (
        rw (e1, e2, e3, length-map key_fields (kv ∷ kvs), e4) refl,
        read_values-get_each memory magnitude b r' batch s1 true (kv ∷ kvs) present
            (rw built.holds at returned.3),
        get_each-values memory magnitude b batch s1 (kv ∷ kvs) started
            ∙ sym (get_each-values memory magnitude b batch s1 (kv ∷ kvs) true),
      )
