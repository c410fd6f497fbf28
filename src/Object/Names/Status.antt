-- ===== src/Object/Names/Status.antt =====
-- The status of objects through the server is what the client's own backend would give.
use mathlib.Core.List.{append-nil}
use mathlib.Core.Option.{some-injective}
use julea.Common.{
  ℕ, suc, ◌<◌, ◌≡◌, refl, ap, Bool, true, ◌&&◌, Option, some, List, [], ◌∷◌, ◌++◌, length, map, All,
  arith, length-map, inl, inr, Option-cases, subst, ◌>>=◌,
}
use julea.Semantics.{Semantics}
use julea.Message.{Message, new_reply}
use julea.Message.Buffer.{contents}
use julea.Message.Bytes.{all_encoded, Holds, moved, next-Holds, get_string-Holds}
use julea.Message.Stream.Arrival.{Arrived}
use julea.Message.Operations.{AllSmall, all_operations, operation, operations, operations-Carries}
use julea.ObjectBackend.{ObjectBackend}
use julea.Kv.Get.{new_reply-Carries}
use julea.Server.Object.{Serving, is_some}
use julea.Server.ObjectStatus.{sent_stat, status_one, status_loop, handle_status}
use julea.Kv.Remote.{request-Arrived}
use julea.Object.{Object}
use julea.Object.Names.{object_status, status_request, status_local, read_stats}
use julea.Object.Names.Requests.{name_fields, InNamespace, NamesFit, status_request-HoldsRequest}
use julea.Object.Names.Stats.{stat_fields, StatFits, answer_stat-operation, read_stats-Holds}

module _ (memory : ℕ → ℕ) (magnitude : ℕ → ℕ) (b : ObjectBackend) where
  status_one-state :
      (object : b.Handle) (s : b.State) (v : Serving b.State)
      → (status_one memory magnitude b object s v).0.state
        ≡ (b.close (b.status s object).0 object).0
  unfolding status_one
  status_one-state object s v = refl

  status_one-stat :
      (object : b.Handle) (s : b.State) (v : Serving b.State)
      → (status_one memory magnitude b object s v).1 ≡ (b.status s object).1
  unfolding status_one
  status_one-stat object s v = refl

  -- What the server's loop leaves, next to the result of the local branch.
  abbrev LoopEnds :
      List ℕ
      → Message
      → Serving b.State
      → Message
      → List Object
      → b.State
      → List (Option (ℕ × ℕ))
      → Type 0
  LoopEnds namespace m v r os s' stats =
      (m' : Message) × (v' : Serving b.State) × (status_loop memory magnitude b (length os) m
          namespace v r
        ≡ some (m', v', operations magnitude r (map stat_fields stats)))
      × (v'.state ≡ s')
      × (length stats ≡ length os)

  status_loop-status_local :
      (namespace : List ℕ) (m : Message) (v : Serving b.State) (s : b.State) (r : Message)
      (ret : Bool) (os : List Object) (result : b.State × List (Option (ℕ × ℕ)) × Bool)
      → All (InNamespace namespace) os
      → Holds m (all_operations (map name_fields os))
      → v.state ≡ s
      → status_local b os s ret ≡ some result
      → LoopEnds namespace m v r os result.0 result.1
  unfolding status_loop status_local operations all_operations all_encoded
  status_loop-status_local namespace m v s r ret [] result fits h same e =
      let p : (s, [], ret) ≡ result = some-injective (s, [], ret) result e in
      subst (λ (q : b.State × List (Option (ℕ × ℕ)) × Bool). LoopEnds namespace m v r [] q.0 q.1) p
        (m, v, refl, same, refl)
  status_loop-status_local namespace m v s r ret (o ∷ os) result fits h same e =
      let name = o.name ++ 0 ∷ [] in
      let (h1, t1) =
        next-Holds m name (all_operations (map name_fields os)) (rw (append-nil name) at h) in
      elim (Option-cases (b.open_object s o.namespace o.name).1) [
        | inl failed ↦ absurd (ground (arith, rw failed at e))
        | inr (object, made) ↦
            let s1 = (b.open_object s o.namespace o.name).0 in
            let (s2, stat) = b.status s1 object in
            let (s3, closed) = b.close s2 object in
            let ret1 = closed && (is_some stat && ret) in
            let e' : (status_local b os s3 ret1 >>= λ (s4, stats, ret').
            some (s4, stat ∷ stats, ret'))
                ≡ some result =
              rw made at e in
            elim (Option-cases (status_local b os s3 ret1)) [
              | inl failed ↦ absurd (ground (arith, rw failed at e'))
              | inr (rest, done) ↦
                  let p : (rest.0, stat ∷ rest.1, rest.2) ≡ result =
                    some-injective (rest.0, stat ∷ rest.1, rest.2) result (rw done at e') in
                  let (m', v', e2, e3, e4) =
                    status_loop-status_local namespace (moved m (length name))
                      (status_one memory magnitude b object s1 v).0 s3
                      (operation magnitude r (stat_fields stat)) ret1 os rest fits.1 t1
                      (status_one-state object s1 v) done in
                  let found : b.open_object v.state namespace o.name
                      ≡ b.open_object s o.namespace o.name =
                    rw (same, fits.0.0) refl in
                  subst
                    (λ (q : b.State × List (Option (ℕ × ℕ)) × Bool).
                      LoopEnds namespace m v r (o ∷ os) q.0 q.1)
                    p
                    (
                      m',
                      v',
                      rw
                          (
                            get_string-Holds m o.name fits.0.1 h1,
                            found,
                            made,
                            status_one-stat object s1 v,
                            answer_stat-operation magnitude r stat,
                          )
                          e2,
                      e3,
                      ap suc e4,
                    )
            ]
      ]

  -- The status of objects through the server, if every object of the call can be opened and is in
  -- the same namespace: when the request has arrived, the server's handler ends, its backend is as
  -- the client's own would be after the local branch of the same call, and what the client reads
  -- from the reply, when that has arrived, is what the local branch got, and 0 where the backend
  -- gave nothing. The numbers are 64-bit words, and the reply stays below 4 GiB.
  pub read_stats-handle_status :
      (random : ℕ) (scaled : (n : ℕ) → 0 < n → 0 < magnitude n) (s : Semantics) (o : Object)
      (os : List Object) (m' r' : Message) (v : Serving b.State) (s' : b.State)
      (stats : List (Option (ℕ × ℕ))) (ret : Bool)
      → NamesFit memory random magnitude object_status s o os
      → All (InNamespace o.namespace) (o ∷ os)
      → status_local b (o ∷ os) v.state true ≡ some (s', stats, ret)
      → All StatFits stats
      → AllSmall magnitude (new_reply memory m') (map stat_fields stats)
      → let m = status_request memory random magnitude o os s in
        Arrived m' m.header (contents m)
        → let reply = operations magnitude (new_reply memory m') (map stat_fields stats) in
          Arrived r' reply.header (contents reply)
          → (v' : Serving b.State) × (handle_status memory magnitude b m' v
              ≡ some (v', operations magnitude (new_reply memory m') (map stat_fields stats)))
            × (v'.state ≡ s')
            × (read_stats (o ∷ os) r' ≡ map sent_stat stats)
  unfolding handle_status
  read_stats-handle_status random scaled s o os m' r' v s' stats ret send fits asked words small
        arrived returned =
      let m = status_request memory random magnitude o os s in
      let fss = map name_fields (o ∷ os) in
      let c = status_request-HoldsRequest memory random magnitude scaled s o os send in
      let (e1, e2, e3, h) =
        request-Arrived random m m' object_status o.namespace s fss c arrived send.0 in
      let (m2, v', e4, e5, len) =
        status_loop-status_local o.namespace _ v v.state (new_reply memory m') true (o ∷ os)
          (s', stats, ret) fits h refl asked in
      let few = rw (length-map name_fields (o ∷ os)) at send.3 in
      let answers = map stat_fields stats in
      let built =
        operations-Carries magnitude scaled m'.header.id 0 m'.header.op_type _ 0 [] answers
          (new_reply-Carries memory m') small
          (omega (arith, len, few, length-map stat_fields stats)) in
      (
        v',
        rw (e1, e3, length-map name_fields (o ∷ os), e4) refl,
        e5,
        read_stats-Holds (o ∷ os) stats r' len words (rw built.holds at returned.3),
      )
