-- ===== src/Kv/Remote.antt =====
-- Putting and deleting through the server does to its backend what the client's own would do.
use mathlib.Core.List.{append-nil, append_assoc}
use julea.Common.{
  ℕ, ◌+◌, ◌^◌, u32_mod, ◌<◌, ◌≡◌, refl, ap, sym, ◌∙◌, Bool, ◌&&◌, Option, some, List, [], ◌∷◌, ◌++◌,
  length, map, All, length-map,
}
use julea.Semantics.{Semantics}
use julea.Message.{Message, Header, le_bytes, get_count, get_string, get_4}
use julea.Message.Buffer.{contents}
use julea.Message.Bytes.{
  Field, all_encoded, Holds, moved, next-Holds, get_string-Holds, get_4-Holds, get_n-Holds,
  length-le_bytes,
}
use julea.Message.Stream.Arrival.{Arrived}
use julea.Message.Operations.{AllSmall, all_operations}
use julea.Message.Wire.{get_semantics, get_semantics_of_word, on_wire}
use julea.KvBackend.{KvBackend}
use julea.Server.{answer_status, reply_to}
use julea.Server.Answers.{answered, answered-nil, answered-status, status_fields}
use julea.Server.Kv.{put_loop, handle_put, delete_loop, handle_delete}
use julea.Kv.{
  Kv, put_each, put_local, delete_each, delete_local, request, put_request, delete_request, kv_put,
  kv_delete,
}
use julea.Kv.Requests.{
  put_fields, key_fields, IsText, HoldsRequest, put_request-HoldsRequest,
  delete_request-HoldsRequest,
}

-- Keys are texts, and the lengths of values 32-bit words.
abbrev pub PutFits : Kv × List ℕ → Type 0
PutFits (kv, value) = IsText kv.key × (length value < 2 ^ 32)

abbrev pub KeyFits : Kv → Type 0
KeyFits kv = IsText kv.key

module _ (memory : ℕ → ℕ) (magnitude : ℕ → ℕ) (b : KvBackend) where
  -- Whether each operation succeeds.
  unfoldable pub put_outcomes : b.Batch → b.State → List (Kv × List ℕ) → List Bool
  put_outcomes batch s [] = []
  put_outcomes batch s ((kv, value) ∷ ops) =
      let (s', done) = b.put s batch kv.key value in done ∷ put_outcomes batch s' ops

  put_fields-append :
      (kv : Kv) (value rest : List ℕ)
      → all_encoded (put_fields (kv, value)) ++ rest
        ≡ (kv.key ++ 0 ∷ []) ++ (le_bytes 4 (length value) ++ (value ++ rest))
  unfolding all_encoded
  put_fields-append kv value rest =
      let k = kv.key ++ 0 ∷ [] in
      let n = le_bytes 4 (length value) in
      append_assoc k (n ++ (value ++ [])) rest
      ∙ ap (λ (xs : List ℕ). k ++ xs)
          (append_assoc n (value ++ []) rest
            ∙ ap (λ (xs : List ℕ). n ++ xs) (append_assoc value [] rest))

  put_loop-put_each :
      (m : Message) (batch : b.Batch) (s : b.State) (reply : Option Message) (ret : Bool)
      (ops : List (Kv × List ℕ))
      → All PutFits ops
      → Holds m (all_operations (map put_fields ops))
      → (m' : Message) × (put_loop memory magnitude b (length ops) m batch s reply
          ≡ some (
            m',
            (put_each b batch s ops ret).0,
            answered magnitude reply (map status_fields (put_outcomes batch s ops)),
          ))
  unfolding put_loop put_each put_outcomes all_operations
  put_loop-put_each m batch s reply ret [] fits h =
      (m, ap (λ r. some (m, _, r)) (sym (answered-nil magnitude reply)))
  put_loop-put_each m batch s reply ret ((kv, value) ∷ ops) fits h =
      let k = kv.key ++ 0 ∷ [] in
      let n = le_bytes 4 (length value) in
      let rest = all_operations (map put_fields ops) in
      let (h1, t1) =
        next-Holds m k (n ++ (value ++ rest)) (rw (put_fields-append kv value rest) at h) in
      let m1 = moved m (length k) in
      let (h2, t2) = next-Holds m1 n (value ++ rest) t1 in
      let m2 = moved m1 (length n) in
      let (h3, t3) = next-Holds m2 value rest t2 in
      let m3 = moved m2 (length value) in
      let e2 : get_4 m1 ≡ (m2, length value) =
        rw (length-le_bytes 4 (length value)) (get_4-Holds m1 (length value) fits.0.1 h2) in
      let (s', done) = b.put s batch kv.key value in
      let (m', e) =
        put_loop-put_each m3 batch s' (answer_status magnitude reply done) (done && ret) ops fits.1
          t3 in
      let after = (put_each b batch s' ops (done && ret)).0 in
      let others = map status_fields (put_outcomes batch s' ops) in
      (
        m',
        rw (get_string-Holds m kv.key fits.0.0 h1, e2, get_n-Holds m2 value h3)
            (e ∙ ap (λ r. some (m', after, r)) (answered-status magnitude reply done others)),
      )

  unfoldable pub delete_outcomes : b.Batch → b.State → List Kv → List Bool
  delete_outcomes batch s [] = []
  delete_outcomes batch s (kv ∷ kvs) =
      let (s', done) = b.delete s batch kv.key in done ∷ delete_outcomes batch s' kvs

  delete_loop-delete_each :
      (m : Message) (batch : b.Batch) (s : b.State) (reply : Option Message) (ret : Bool)
      (kvs : List Kv)
      → All KeyFits kvs
      → Holds m (all_operations (map key_fields kvs))
      → (m' : Message) × (delete_loop memory magnitude b (length kvs) m batch s reply
          ≡ some (
            m',
            (delete_each b batch s kvs ret).0,
            answered magnitude reply (map status_fields (delete_outcomes batch s kvs)),
          ))
  unfolding delete_loop delete_each delete_outcomes all_operations all_encoded
  delete_loop-delete_each m batch s reply ret [] fits h =
      (m, ap (λ r. some (m, _, r)) (sym (answered-nil magnitude reply)))
  delete_loop-delete_each m batch s reply ret (kv ∷ kvs) fits h =
      let k = kv.key ++ 0 ∷ [] in
      let rest = all_operations (map key_fields kvs) in
      let (h1, t1) = next-Holds m k rest (rw (append-nil k) at h) in
      let (s', done) = b.delete s batch kv.key in
      let (m', e) =
        delete_loop-delete_each (moved m (length k)) batch s' (answer_status magnitude reply done)
          (done && ret) kvs fits.1 t1 in
      let after = (delete_each b batch s' kvs (done && ret)).0 in
      let others = map status_fields (delete_outcomes batch s' kvs) in
      (
        m',
        rw (get_string-Holds m kv.key fits.0 h1)
            (e ∙ ap (λ r. some (m', after, r)) (answered-status magnitude reply done others)),
      )

-- What the server knows of a request that arrived.
module _ (random : ℕ) where
  pub request-Arrived :
      (m m' : Message) (op_type : ℕ) (namespace : List ℕ) (s : Semantics) (fss : List (List Field))
      → HoldsRequest random m op_type namespace s fss
      → Arrived m' m.header (contents m)
      → IsText namespace
      → (get_string m' ≡ some (moved m' (length (namespace ++ 0 ∷ [])), namespace))
        × (get_semantics m' ≡ on_wire s)
        × (get_count m' ≡ length fss)
        × Holds (moved m' (length (namespace ++ 0 ∷ []))) (all_operations fss)
  unfolding get_count
  request-Arrived m m' op_type namespace s fss c (h, same, start, holds) fits =
      let (name, rest) =
        next-Holds m' (namespace ++ 0 ∷ []) (all_operations fss) (rw c.holds at holds) in
      (
        get_string-Holds m' namespace fits name,
        get_semantics_of_word m' s (ap (λ (h : Header). h.semantics) h ∙ c.same_semantics),
        ap (λ (h : Header). h.op_count) h ∙ c.counted,
        rest,
      )

module _ (memory : ℕ → ℕ) (random : ℕ) (magnitude : ℕ → ℕ) (b : KvBackend)
    (scaled : (n : ℕ) → 0 < n → 0 < magnitude n) (s : Semantics) where
  -- The operations of one call fit into a message: a text as the namespace, and less than 4 GiB.
  abbrev pub Sendable : (op_type : ℕ) → List ℕ → List (List Field) → Type 0
  Sendable op_type namespace fss =
      IsText namespace
      × (length namespace + 1 < u32_mod)
      × AllSmall magnitude (request memory random magnitude op_type namespace s) fss
      × (length fss < u32_mod)

  -- Putting through the server: when the client's request has arrived, the server's handler ends,
  -- its backend is as the client's own would be after the local branch of the same call (the
  -- semantics as received), and the reply, if one is wanted, has an operation for each put with its
  -- status, 1 or 0, in 4 bytes. Names are texts, the values' lengths 32-bit words, and the request
  -- stays below 4 GiB.
  pub handle_put-put_local :
      (op : Kv × List ℕ) (ops : List (Kv × List ℕ)) (m' : Message) (st : b.State)
      → Sendable kv_put op.0.namespace (map put_fields (op ∷ ops))
      → All PutFits (op ∷ ops)
      → let m = put_request memory random magnitude op ops s in
        Arrived m' m.header (contents m)
        → let (s1, batch, started) = b.batch_start st op.0.namespace (on_wire s) in
          handle_put memory magnitude b m' st
          ≡ some (
            (put_local b op ops (on_wire s) st).0,
            answered magnitude
                (reply_to memory m' (on_wire s))
                (map status_fields (put_outcomes memory magnitude b batch s1 (op ∷ ops))),
          )
  unfolding handle_put put_local
  handle_put-put_local op ops m' st (name, short, small, few) fits arrived =
      let fss = map put_fields (op ∷ ops) in
      let m = put_request memory random magnitude op ops s in
      let c = put_request-HoldsRequest memory random magnitude scaled s op ops short small few in
      let (e1, e2, e3, h) =
        request-Arrived random m m' kv_put op.0.namespace s fss c arrived name in
      let (s1, batch, started) = b.batch_start st op.0.namespace (on_wire s) in
      let (m2, e4) =
        put_loop-put_each memory magnitude b _ batch s1 (reply_to memory m' (on_wire s)) started
          (op ∷ ops) fits h in
      rw (e1, e2, e3, length-map put_fields (op ∷ ops), e4) refl

  -- Deleting through the server, in the same way.
  pub handle_delete-delete_local :
      (kv : Kv) (kvs : List Kv) (m' : Message) (st : b.State)
      → Sendable kv_delete kv.namespace (map key_fields (kv ∷ kvs))
      → All KeyFits (kv ∷ kvs)
      → let m = delete_request memory random magnitude kv kvs s in
        Arrived m' m.header (contents m)
        → let (s1, batch, started) = b.batch_start st kv.namespace (on_wire s) in
          handle_delete memory magnitude b m' st
          ≡ some (
            (delete_local b kv kvs (on_wire s) st).0,
            answered magnitude
                (reply_to memory m' (on_wire s))
                (map status_fields (delete_outcomes memory magnitude b batch s1 (kv ∷ kvs))),
          )
  unfolding handle_delete delete_local
  handle_delete-delete_local kv kvs m' st (name, short, small, few) fits arrived =
      let fss = map key_fields (kv ∷ kvs) in
      let m = delete_request memory random magnitude kv kvs s in
      let c = delete_request-HoldsRequest memory random magnitude scaled s kv kvs short small few in
      let (e1, e2, e3, h) =
        request-Arrived random m m' kv_delete kv.namespace s fss c arrived name in
      let (s1, batch, started) = b.batch_start st kv.namespace (on_wire s) in
      let (m2, e4) =
        delete_loop-delete_each memory magnitude b _ batch s1 (reply_to memory m' (on_wire s))
          started (kv ∷ kvs) fits h in
      rw (e1, e2, e3, length-map key_fields (kv ∷ kvs), e4) refl
