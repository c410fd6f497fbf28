-- ===== src/Kv/Stored/Served.antt =====
-- A session of puts, deletes and a get through the server is one on a map.
use julea.Common.{
  ℕ, ◌<◌, ◌≡◌, refl, sym, ap, ap₂, subst, ◌∙◌, Bool, true, false, ◌&&◌, Option, none, some, List,
  [], ◌∷◌, length, map, All, u32_mod, ◌>>=◌,
}
use julea.Semantics.{Semantics}
use julea.Message.{Message, new_reply}
use julea.Message.Buffer.{contents}
use julea.Message.Operations.{AllSmall, operations}
use julea.Message.Stream.Arrival.{Arrived}
use julea.Message.Wire.{on_wire}
use julea.KvBackend.{KvBackend}
use julea.Server.Kv.{handle_put, handle_delete, handle_get}
use julea.Kv.{
  Kv, Got, got_of, put_local, delete_local, put_request, delete_request, get_request, read_values,
  kv_put, kv_delete, kv_get,
}
use julea.Kv.Requests.{put_fields, key_fields}
use julea.Kv.Remote.{PutFits, KeyFits, Sendable, handle_put-put_local, handle_delete-delete_local}
use julea.Kv.Get.{ValueFits, value_fields, read_values-handle_get}
use julea.Kv.Stored.{
  Stored, IsStore, Change, puts, deletes, put_all, delete_all, change_all, all_found,
  put_local-stored, delete_local-stored, get_each-seen, values-seen,
}

&&-true : (x : Bool) → (x && true) ≡ x
&&-true true = refl
&&-true false = refl

module _ (memory : ℕ → ℕ) (random : ℕ) (magnitude : ℕ → ℕ) (b : KvBackend) (store : IsStore b)
    (scaled : (n : ℕ) → 0 < n → 0 < magnitude n) (sem : Semantics) (ns : List ℕ) where
  -- The handler of the request of a change, and what is left of the backend.
  abbrev pub serve : Change → Message → b.State → Option b.State
  serve (puts op ops) m st = handle_put memory magnitude b m st >>= λ (st', reply). some st'
  serve (deletes kv kvs) m st = handle_delete memory magnitude b m st >>= λ (st', reply). some st'

  -- The requests that arrived, one after the other.
  abbrev pub serve_all : List Change → List Message → b.State → Option b.State
  serve_all [] ms st = some st
  serve_all (c ∷ cs) [] st = none
  serve_all (c ∷ cs) (m ∷ ms) st = serve c m st >>= serve_all cs ms

  -- A request for a change of the namespace was sent and has arrived.
  abbrev pub Requested : Change → Message → Type 0
  Requested (puts op ops) m =
      let sent = put_request memory random magnitude op ops sem in
      (op.0.namespace ≡ ns)
      × Sendable memory random magnitude b scaled sem kv_put op.0.namespace
          (map put_fields (op ∷ ops))
      × All PutFits (op ∷ ops)
      × Arrived m sent.header (contents sent)
  Requested (deletes kv kvs) m =
      let sent = delete_request memory random magnitude kv kvs sem in
      (kv.namespace ≡ ns)
      × Sendable memory random magnitude b scaled sem kv_delete kv.namespace
          (map key_fields (kv ∷ kvs))
      × All KeyFits (kv ∷ kvs)
      × Arrived m sent.header (contents sent)

  abbrev pub AllRequested : List Change → List Message → Type 0
  AllRequested [] ms = Unit
  AllRequested (c ∷ cs) [] = ⊥
  AllRequested (c ∷ cs) (m ∷ ms) = Requested c m × AllRequested cs ms

  serve-Requested :
      (c : Change) (m : Message) (st : b.State)
      → Requested c m
      → (st' : b.State) × (serve c m st ≡ some st')
        × (store.stored st' ns ≡ change_all (c ∷ []) (store.stored st ns))
  serve-Requested (puts op ops) m st (in_ns, sendable, fits, arrived) =
      let st' = (put_local b op ops (on_wire sem) st).0 in
      let e =
        handle_put-put_local memory random magnitude b scaled sem op ops m st sendable fits
          arrived in
      let h = put_local-stored b store op ops (on_wire sem) st in
      (
        st',
        rw e refl,
        subst (λ n. store.stored st' n ≡ put_all (op ∷ ops) (store.stored st n)) in_ns h,
      )
  serve-Requested (deletes kv kvs) m st (in_ns, sendable, fits, arrived) =
      let st' = (delete_local b kv kvs (on_wire sem) st).0 in
      let e =
        handle_delete-delete_local memory random magnitude b scaled sem kv kvs m st sendable fits
          arrived in
      let h = delete_local-stored b store kv kvs (on_wire sem) st in
      (
        st',
        rw e refl,
        subst (λ n. store.stored st' n ≡ delete_all (kv ∷ kvs) (store.stored st n)) in_ns h,
      )

  change_all-cons :
      (c : Change) (cs : List Change) (f : Stored)
      → change_all (c ∷ cs) f ≡ change_all cs (change_all (c ∷ []) f)
  change_all-cons (puts op ops) cs f = refl
  change_all-cons (deletes kv kvs) cs f = refl

  serve_all-Requested :
      (cs : List Change) (ms : List Message) (st : b.State)
      → AllRequested cs ms
      → (st' : b.State) × (serve_all cs ms st ≡ some st')
        × (store.stored st' ns ≡ change_all cs (store.stored st ns))
  serve_all-Requested [] ms st a = (st, refl, refl)
  serve_all-Requested (c ∷ cs) [] st a = absurd a
  serve_all-Requested (c ∷ cs) (m ∷ ms) st (a, others) =
      let (st1, e1, h1) = serve-Requested c m st a in
      let (st', e, h) = serve_all-Requested cs ms st1 others in
      (
        st',
        rw (e1, e) refl,
        h ∙ ap (change_all cs) h1 ∙ sym (change_all-cons c cs (store.stored st ns)),
      )

  abbrev pub GetRequested : Kv → List Kv → Message → Type 0
  GetRequested kv kvs m =
      let sent = get_request memory random magnitude kv kvs sem in
      (kv.namespace ≡ ns)
      × Sendable memory random magnitude b scaled sem kv_get kv.namespace
          (map key_fields (kv ∷ kvs))
      × All KeyFits (kv ∷ kvs)
      × Arrived m sent.header (contents sent)

  -- The reply to a get with these values.
  abbrev pub get_answer : Message → List (Option (List ℕ)) → Message
  get_answer m vs = operations magnitude (new_reply memory m) (map value_fields vs)

  -- The reply has arrived; the values are not empty, and it stays below 4 GiB.
  abbrev pub Answered : Message → List (Option (List ℕ)) → Message → Type 0
  Answered m vs r =
      All ValueFits vs
      × AllSmall magnitude (new_reply memory m) (map value_fields vs)
      × (length (map value_fields vs) < u32_mod)
      × Arrived r (get_answer m vs).header (contents (get_answer m vs))

  -- What a get gets, from a backend that stores `f` in the namespace.
  read_values-stored :
      (kv : Kv) (kvs : List Kv) (m r : Message) (st : b.State) (f : Stored)
      → store.stored st ns ≡ f
      → GetRequested kv kvs m
      → Answered m (map (λ kv. f kv.key) (kv ∷ kvs)) r
      → let vs = map (λ kv. f kv.key) (kv ∷ kvs) in
        ((handle_get memory magnitude b m st >>= λ (st', reply). some reply)
          ≡ some (get_answer m vs))
        × (read_values (kv ∷ kvs) r true ≡ (map got_of vs, all_found vs))
  read_values-stored kv kvs m r st f h (in_ns, sendable, fits, arrived) answered =
      let (s1, batch, started) = b.batch_start st kv.namespace (on_wire sem) in
      let seen = store.start-seen st kv.namespace (on_wire sem) ∙ ap (store.stored st) in_ns ∙ h in
      let e = values-seen b store memory magnitude batch s1 f (kv ∷ kvs) seen in
      let (present, fit, few, returned) = subst (λ vs. Answered m vs r) (sym e) answered in
      let (handled, read, _) =
        read_values-handle_get memory random magnitude b scaled sem kv kvs m r st sendable fits
          present fit few arrived returned in
      let (gots, all) = get_each-seen b store batch s1 f (kv ∷ kvs) true seen in
      (
        rw handled (ap (λ vs. some (get_answer m vs)) e),
        read ∙ ap₂ (λ (x : List Got) (y : Bool). (x, y)) gots (all ∙ &&-true _),
      )

  -- The key-value store is a map. After any sequence of puts and deletes in a namespace that
  -- clients have sent to the server, a get through the server yields for each key the value that
  -- was put last, if it was not deleted since, and otherwise what was stored before; the result is
  -- whether every key was found. All handlers end. The server's backend stores what it is given,
  -- the requests and the reply arrived, and no value that the get finds is empty. Names are
  -- texts, and requests and reply stay below 4 GiB.
  pub read_values-change_all :
      (cs : List Change) (ms : List Message) (st : b.State) (kv : Kv) (kvs : List Kv)
      (m r : Message)
      → AllRequested cs ms
      → GetRequested kv kvs m
      → Answered m (map (λ kv. change_all cs (store.stored st ns) kv.key) (kv ∷ kvs)) r
      → let vs = map (λ kv. change_all cs (store.stored st ns) kv.key) (kv ∷ kvs) in
        ((serve_all cs ms st >>= λ st'.
        handle_get memory magnitude b m st' >>= λ (st'', reply). some reply)
          ≡ some (get_answer m vs))
        × (read_values (kv ∷ kvs) r true ≡ (map got_of vs, all_found vs))
  read_values-change_all cs ms st kv kvs m r requested asked answered =
      let (st', e, h) = serve_all-Requested cs ms st requested in
      let (handled, read) =
        read_values-stored kv kvs m r st' (change_all cs (store.stored st ns)) h asked answered in
      (rw e handled, read)
