-- ===== src/Object/Names/Create.antt =====
-- Creating objects through the server does what the client's own backend would do.
use mathlib.Core.List.{append-nil}
use mathlib.Core.Option.{some-injective}
use julea.Common.{
  ℕ, ◌+◌, ◌<◌, ◌≡◌, ◌≢◌, refl, ap, sym, ◌∙◌, Bool, true, ◌&&◌, Option, some, List, [], ◌∷◌, ◌++◌,
  length, map, All, arith, length-map, inl, inr, Option-cases, u64, u64_mod,
}
use julea.Semantics.{Semantics, Persistency, storage, network, volatile}
use julea.Message.{Message}
use julea.Message.Buffer.{contents}
use julea.Message.Bytes.{Field, all_encoded, Holds, moved, next-Holds, get_string-Holds}
use julea.Message.Stream.Arrival.{Arrived}
use julea.Message.Wire.{on_wire}
use julea.Message.Operations.{all_operations}
use julea.ObjectBackend.{ObjectBackend}
use julea.Statistics.{Counter}
use julea.Statistics
use julea.Server.{reply_to}
use julea.Server.Answers.{answered, answered-nil, answered-empty}
use julea.Server.Object.{Serving, count_in}
use julea.Server.ObjectNames.{answer_empty, create_one, finish_create, create_loop, handle_create}
use julea.Kv.Remote.{request-Arrived}
use julea.Object.{Object}
use julea.Object.Names.{object_create, create_request, create_local}
use julea.Object.Names.Requests.{name_fields, InNamespace, NamesFit, create_request-HoldsRequest}

-- The answer to one object has no contents.
abbrev pub no_fields : Object → List Field
no_fields o = []

module _ (memory : ℕ → ℕ) (magnitude : ℕ → ℕ) (b : ObjectBackend) (p : Persistency)
    (unflushed : p ≢ storage) where
  -- The thread after an object was created and closed.
  abbrev after : Serving b.State → b.State → b.Handle → Serving b.State
  after v s object = record (count_in (record v { state = s }) Counter.files_created 1) {
    state = (b.close s object).0;
  }

  finish_create-after :
      (q : Persistency) (v : Serving b.State) (s : b.State) (object : b.Handle)
      → q ≢ storage
      → finish_create memory magnitude b q (some object) (record v { state = s }) ≡ after v s object
  unfolding finish_create
  finish_create-after storage v s object h = absurd (h refl)
  finish_create-after network v s object h = refl
  finish_create-after volatile v s object h = refl

  create_one-after :
      (namespace path : List ℕ) (v : Serving b.State) (object : b.Handle)
      → (b.create v.state namespace path).1 ≡ some object
      → create_one memory magnitude b p namespace path v
        ≡ after v (b.create v.state namespace path).0 object
  unfolding create_one
  create_one-after namespace path v object e =
      let s = (b.create v.state namespace path).0 in
      rw e (finish_create-after p v s object unflushed)

  files_created-after :
      (v : Serving b.State) (s : b.State) (object : b.Handle)
      → (after v s object).statistics.files_created ≡ u64 (v.statistics.files_created + 1)
  unfolding Statistics.add
  files_created-after v s object = refl

  create_loop-create_local :
      (namespace : List ℕ) (m : Message) (v : Serving b.State) (reply : Option Message) (ret : Bool)
      (os : List Object) (s' : b.State) (ret' : Bool)
      → All (InNamespace namespace) os
      → Holds m (all_operations (map name_fields os))
      → v.statistics.files_created < u64_mod
      → create_local b os v.state ret ≡ some (s', ret')
      → (m' : Message) × (v' : Serving b.State) × (create_loop memory magnitude b
            (length os)
            m
            p
            namespace
            v
            reply
          ≡ some (m', v', answered magnitude reply (map no_fields os)))
        × (v'.state ≡ s')
        × (v'.statistics.files_created ≡ u64 (v.statistics.files_created + length os))
  unfolding create_loop create_local all_operations all_encoded
  create_loop-create_local namespace m v reply ret [] s' ret' fits h small e = (
    m,
    v,
    ap (λ r. some (m, v, r)) (sym (answered-nil magnitude reply)),
    ap (λ (r : b.State × Bool). r.0) (some-injective (v.state, ret) (s', ret') e),
    omega arith,
  )
  create_loop-create_local namespace m v reply ret (o ∷ os) s' ret' fits h small e =
      let name = o.name ++ 0 ∷ [] in
      let (h1, t1) =
        next-Holds m name (all_operations (map name_fields os)) (rw (append-nil name) at h) in
      elim (Option-cases (b.create v.state o.namespace o.name).1) [
        | inl failed ↦ absurd (ground (arith, rw failed at e))
        | inr (object, made) ↦
            let v1 = after v (b.create v.state o.namespace o.name).0 object in
            let one = files_created-after v (b.create v.state o.namespace o.name).0 object in
            let made_one : create_one memory magnitude b p namespace o.name v ≡ v1 =
              ap (λ (ns : List ℕ). create_one memory magnitude b p ns o.name v) (sym fits.0.0)
              ∙ create_one-after o.namespace o.name v object made in
            let (m', v', e2, e3, e4) =
              create_loop-create_local namespace (moved m (length name)) v1
                (answer_empty magnitude reply)
                ((b.close (b.create v.state o.namespace o.name).0 object).1 && ret) os s' ret'
                fits.1 t1 (omega (arith, one)) (rw made at e) in
            (
              m',
              v',
              rw (get_string-Holds m o.name fits.0.1 h1, made_one)
                  (e2
                    ∙ ap (λ r. some (m', v', r))
                        (answered-empty magnitude reply (map no_fields os))),
              e3,
              omega (arith, e4, one),
            )
      ]

module _ (memory : ℕ → ℕ) (magnitude : ℕ → ℕ) (b : ObjectBackend) where
  -- Creating through the server, if storage persistency does not ask for a flush and every object
  -- of the call can be created and is in the same namespace: when the request has arrived, the
  -- server's handler ends, its backend is as the client's own would be after the local branch of
  -- the same call, the objects are counted, and the reply, if one is wanted, has an operation
  -- without contents for each. Names are texts, the request stays below 4 GiB, and the counter was a
  -- 64-bit word.
  pub handle_create-create_local :
      (random : ℕ) (scaled : (n : ℕ) → 0 < n → 0 < magnitude n) (s : Semantics) (o : Object)
      (os : List Object) (m' : Message) (v : Serving b.State) (s' : b.State) (ret : Bool)
      → s.persistency ≢ storage
      → NamesFit memory random magnitude object_create s o os
      → All (InNamespace o.namespace) (o ∷ os)
      → v.statistics.files_created < u64_mod
      → create_local b (o ∷ os) v.state true ≡ some (s', ret)
      → let m = create_request memory random magnitude o os s in
        Arrived m' m.header (contents m)
        → (v' : Serving b.State) × (handle_create memory magnitude b m' v
            ≡ some
                (v', answered magnitude (reply_to memory m' (on_wire s)) (map no_fields (o ∷ os))))
          × (v'.state ≡ s')
          × (v'.statistics.files_created ≡ u64 (v.statistics.files_created + length (o ∷ os)))
  unfolding handle_create
  handle_create-create_local random scaled s o os m' v s' ret unflushed send fits small created
        arrived =
      let m = create_request memory random magnitude o os s in
      let fss = map name_fields (o ∷ os) in
      let c = create_request-HoldsRequest memory random magnitude scaled s o os send in
      let (e1, e2, e3, h) =
        request-Arrived random m m' object_create o.namespace s fss c arrived send.0 in
      let (m2, v', e4, e5, e6) =
        create_loop-create_local memory magnitude b s.persistency unflushed o.namespace _ v
          (reply_to memory m' (on_wire s)) true (o ∷ os) s' ret fits h small created in
      (v', rw (e1, e2, e3, length-map name_fields (o ∷ os), e4) refl, e5, e6)
