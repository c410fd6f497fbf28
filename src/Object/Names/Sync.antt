-- ===== src/Object/Names/Sync.antt =====
-- Flushing objects through the server does what the client's own backend would do.
use mathlib.Core.List.{append-nil}
use mathlib.Core.Option.{some-injective}
use julea.Common.{
  ℕ, ◌+◌, ◌<◌, ◌≡◌, refl, ap, sym, ◌∙◌, Bool, true, ◌&&◌, Option, some, List, [], ◌∷◌, ◌++◌, length,
  map, All, arith, length-map, inl, inr, Option-cases, u64, u64_mod,
}
use julea.Semantics.{Semantics}
use julea.Message.{Message}
use julea.Message.Buffer.{contents}
use julea.Message.Bytes.{all_encoded, Holds, moved, next-Holds, get_string-Holds}
use julea.Message.Stream.Arrival.{Arrived}
use julea.Message.Wire.{on_wire}
use julea.Message.Operations.{all_operations}
use julea.ObjectBackend.{ObjectBackend}
use julea.Statistics.{Counter}
use julea.Statistics
use julea.Server.{reply_to}
use julea.Server.Answers.{answered, answered-nil, answered-empty}
use julea.Server.Object.{Serving, count_in}
use julea.Server.ObjectNames.{answer_empty, sync_one, sync_opened, sync_loop, handle_sync}
use julea.Kv.Remote.{request-Arrived}
use julea.Object.{Object}
use julea.Object.Names.{object_sync, sync_request, sync_local}
use julea.Object.Names.Requests.{name_fields, InNamespace, NamesFit, sync_request-HoldsRequest}
use julea.Object.Names.Create.{no_fields}

module _ (memory : ℕ → ℕ) (magnitude : ℕ → ℕ) (b : ObjectBackend) where
  -- The thread after an object was opened, flushed and closed.
  abbrev after : Serving b.State → b.State → b.Handle → Serving b.State
  after v s object = record (count_in (record v { state = s }) Counter.sync 1) {
    state = (b.close (b.sync s object).0 object).0;
  }

  sync_one-after :
      (namespace path : List ℕ) (v : Serving b.State) (object : b.Handle)
      → (b.open_object v.state namespace path).1 ≡ some object
      → sync_one memory magnitude b namespace path v
        ≡ after v (b.open_object v.state namespace path).0 object
  unfolding sync_one sync_opened
  sync_one-after namespace path v object e = rw e refl

  sync_count-after :
      (v : Serving b.State) (s : b.State) (object : b.Handle)
      → (after v s object).statistics.sync_count ≡ u64 (v.statistics.sync_count + 1)
  unfolding Statistics.add
  sync_count-after v s object = refl

  sync_loop-sync_local :
      (namespace : List ℕ) (m : Message) (v : Serving b.State) (reply : Option Message) (ret : Bool)
      (os : List Object) (s' : b.State) (ret' : Bool)
      → All (InNamespace namespace) os
      → Holds m (all_operations (map name_fields os))
      → v.statistics.sync_count < u64_mod
      → sync_local b os v.state ret ≡ some (s', ret')
      → (m' : Message) × (v' : Serving b.State) × (sync_loop memory magnitude b
            (length os)
            m
            namespace
            v
            reply
          ≡ some (m', v', answered magnitude reply (map no_fields os)))
        × (v'.state ≡ s')
        × (v'.statistics.sync_count ≡ u64 (v.statistics.sync_count + length os))
  unfolding sync_loop sync_local all_operations all_encoded
  sync_loop-sync_local namespace m v reply ret [] s' ret' fits h small e = (
    m,
    v,
    ap (λ r. some (m, v, r)) (sym (answered-nil magnitude reply)),
    ap (λ (r : b.State × Bool). r.0) (some-injective (v.state, ret) (s', ret') e),
    omega arith,
  )
  sync_loop-sync_local namespace m v reply ret (o ∷ os) s' ret' fits h small e =
      let name = o.name ++ 0 ∷ [] in
      let (h1, t1) =
        next-Holds m name (all_operations (map name_fields os)) (rw (append-nil name) at h) in
      elim (Option-cases (b.open_object v.state o.namespace o.name).1) [
        | inl failed ↦ absurd (ground (arith, rw failed at e))
        | inr (object, made) ↦
            let s1 = (b.open_object v.state o.namespace o.name).0 in
            let (s2, synced) = b.sync s1 object in
            let v1 = after v s1 object in
            let one = sync_count-after v s1 object in
            let made_one : sync_one memory magnitude b namespace o.name v ≡ v1 =
              ap (λ (ns : List ℕ). sync_one memory magnitude b ns o.name v) (sym fits.0.0)
              ∙ sync_one-after o.namespace o.name v object made in
            let (m', v', e2, e3, e4) =
              sync_loop-sync_local namespace (moved m (length name)) v1
                (answer_empty magnitude reply) ((b.close s2 object).1 && (synced && ret)) os s' ret'
                fits.1 t1 (omega (arith, one)) (rw made at e) in
            (
              m',
              v',
              rw (get_string-Holds m o.name fits.0.1 h1, made_one)
                  (e2
                    ∙ ap (λ r. some (m', v', r))
                        (answered-empty magnitude reply (map no_fields os))),
              e3,
              omega (arith, e4, one),
            )
      ]

module _ (memory : ℕ → ℕ) (magnitude : ℕ → ℕ) (b : ObjectBackend) where
  -- Flushing through the server, if every object of the call can be opened and is in the same
  -- namespace: when the request has arrived, the server's handler ends, its backend is as the
  -- client's own would be after the local branch of the same call, the flushes are counted, and
  -- the reply, if one is wanted, has an operation without contents for each. Names are texts,
  -- the request stays below 4 GiB, and the counter was a 64-bit word.
  pub handle_sync-sync_local :
      (random : ℕ) (scaled : (n : ℕ) → 0 < n → 0 < magnitude n) (s : Semantics) (o : Object)
      (os : List Object) (m' : Message) (v : Serving b.State) (s' : b.State) (ret : Bool)
      → NamesFit memory random magnitude object_sync s o os
      → All (InNamespace o.namespace) (o ∷ os)
      → v.statistics.sync_count < u64_mod
      → sync_local b (o ∷ os) v.state true ≡ some (s', ret)
      → let m = sync_request memory random magnitude o os s in
        Arrived m' m.header (contents m)
        → (v' : Serving b.State) × (handle_sync memory magnitude b m' v
            ≡ some
                (v', answered magnitude (reply_to memory m' (on_wire s)) (map no_fields (o ∷ os))))
          × (v'.state ≡ s')
          × (v'.statistics.sync_count ≡ u64 (v.statistics.sync_count + length (o ∷ os)))
  unfolding handle_sync
  handle_sync-sync_local random scaled s o os m' v s' ret send fits small created arrived =
      let m = sync_request memory random magnitude o os s in
      let fss = map name_fields (o ∷ os) in
      let c = sync_request-HoldsRequest memory random magnitude scaled s o os send in
      let (e1, e2, e3, h) =
        request-Arrived random m m' object_sync o.namespace s fss c arrived send.0 in
      let (m2, v', e4, e5, e6) =
        sync_loop-sync_local memory magnitude b o.namespace _ v (reply_to memory m' (on_wire s))
          true (o ∷ os) s' ret fits h small created in
      (v', rw (e1, e2, e3, length-map name_fields (o ∷ os), e4) refl, e5, e6)
