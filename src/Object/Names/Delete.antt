-- ===== src/Object/Names/Delete.antt =====
-- Deleting objects through the server does what the client's own backend would do.
use mathlib.Core.List.{append-nil}
use julea.Common.{
  ℕ, suc, ◌<◌, ◌≡◌, refl, ap, sym, ◌∙◌, Bool, true, false, ◌&&◌, Option, some, List, [], ◌∷◌, ◌++◌,
  length, map, All, arith, length-map,
}
use julea.Semantics.{Semantics}
use julea.Message.{Message, new_reply}
use julea.Message.Buffer.{contents}
use julea.Message.Bytes.{all_encoded, Holds, moved, next-Holds, get_string-Holds}
use julea.Message.Stream.Arrival.{Arrived}
use julea.Message.Operations.{AllSmall, all_operations, operations, operations-Carries}
use julea.ObjectBackend.{ObjectBackend, open_and_delete}
use julea.Server.{answer_status, reply_to, safe}
use julea.Server.Answers.{status_fields}
use julea.Server.Object.{Serving}
use julea.Server.ObjectNames.{deleted, remove_loop, handle_remove}
use julea.Kv.Remote.{request-Arrived}
use julea.Kv.Get.{new_reply-Carries}
use julea.Object.{Object}
use julea.Object.Arrival.{get_count-same}
use julea.Object.Names.{object_delete, remove_request, remove_result, remove_local}
use julea.Object.Names.Requests.{name_fields, InNamespace, NamesFit, remove_request-HoldsRequest}
use julea.Object.Names.Statuses.{
  statuses, statuses-operations, all_done, read_statuses-Holds, remove_result-safe,
}

module _ (b : ObjectBackend) where
  -- Whether each delete succeeds.
  unfoldable pub outcomes : List Object → b.State → List Bool
  outcomes [] s = []
  outcomes (o ∷ os) s =
      let (s', done) = open_and_delete b s o.namespace o.name in done ∷ outcomes os s'

  length-outcomes : (os : List Object) (s : b.State) → length (outcomes os s) ≡ length os
  unfolding outcomes
  length-outcomes [] s = refl
  length-outcomes (o ∷ os) s =
      ap suc (length-outcomes os (open_and_delete b s o.namespace o.name).0)

module _ (memory : ℕ → ℕ) (magnitude : ℕ → ℕ) (b : ObjectBackend) where
  remove_local-all_done :
      (os : List Object) (s : b.State) (ret : Bool)
      → (remove_local b os s ret).1 ≡ all_done (outcomes b os s) ret
  unfolding remove_local all_done outcomes
  remove_local-all_done [] s ret = refl
  remove_local-all_done (o ∷ os) s ret =
      let (s', done) = open_and_delete b s o.namespace o.name in
      remove_local-all_done os s' (done && ret)

  state-deleted :
      (v : Serving b.State) (r : b.State × Bool) → (deleted memory magnitude b v r).state ≡ r.0
  state-deleted v (s, true) = refl
  state-deleted v (s, false) = refl

  remove_loop-remove_local :
      (namespace : List ℕ) (m : Message) (v : Serving b.State) (reply : Option Message)
      (s : b.State) (ret : Bool) (os : List Object)
      → All (InNamespace namespace) os
      → Holds m (all_operations (map name_fields os))
      → v.state ≡ s
      → (m' : Message) × (v' : Serving b.State) × (remove_loop memory magnitude b
            (length os)
            m
            namespace
            v
            reply
          ≡ some (m', v', statuses magnitude reply (outcomes b os s)))
        × (v'.state ≡ (remove_local b os s ret).0)
  unfolding remove_loop remove_local statuses outcomes all_operations all_encoded
  remove_loop-remove_local namespace m v reply s ret [] fits h e = (m, v, refl, e)
  remove_loop-remove_local namespace m v reply s ret (o ∷ os) fits h e =
      let name = o.name ++ 0 ∷ [] in
      let (h1, t1) =
        next-Holds m name (all_operations (map name_fields os)) (rw (append-nil name) at h) in
      let result = open_and_delete b s o.namespace o.name in
      let e1 : open_and_delete b v.state namespace o.name ≡ result = rw (e, fits.0.0) refl in
      let (m', v', e2, e3) =
        remove_loop-remove_local namespace (moved m (length name))
          (deleted memory magnitude b v result) (answer_status magnitude reply result.1) result.0
          (result.1 && ret) os fits.1 t1 (state-deleted v result) in
      (m', v', rw (get_string-Holds m o.name fits.0.1 h1, e1) e2, e3)

  -- The server's reply to the request `m'`.
  abbrev pub remove_reply : (m' : Message) → List Bool → Message
  remove_reply m' dones = operations magnitude (new_reply memory m') (map status_fields dones)

  -- Deleting through the server, if the client asked for safety: when the request has arrived, the
  -- server's handler ends, its backend is as the client's own would be after the local branch of
  -- the same call, and the result that the client reads from the reply, when that has arrived, is
  -- the result of the local branch. The objects are in one namespace.
  pub remove_result-handle_remove :
      (random : ℕ) (scaled : (n : ℕ) → 0 < n → 0 < magnitude n) (s : Semantics) (o : Object)
      (os : List Object) (m' r' : Message) (v : Serving b.State)
      → safe s.persistency ≡ true
      → NamesFit memory random magnitude object_delete s o os
      → All (InNamespace o.namespace) (o ∷ os)
      → AllSmall magnitude (new_reply memory m') (map status_fields (outcomes b (o ∷ os) v.state))
      → let m = remove_request memory random magnitude o os s in
        Arrived m' m.header (contents m)
        → let reply = remove_reply m' (outcomes b (o ∷ os) v.state) in
          Arrived r' reply.header (contents reply)
          → (v' : Serving b.State) × (handle_remove memory magnitude b m' v
              ≡ some (v', some (remove_reply m' (outcomes b (o ∷ os) v.state))))
            × (v'.state ≡ (remove_local b (o ∷ os) v.state true).0)
            × (remove_result s.persistency r' ≡ (remove_local b (o ∷ os) v.state true).1)
  unfolding handle_remove reply_to
  remove_result-handle_remove random scaled s o os m' r' v wanted send fits small arrived
        (h', same, start, holds) =
      let m = remove_request memory random magnitude o os s in
      let fss = map name_fields (o ∷ os) in
      let c = remove_request-HoldsRequest memory random magnitude scaled s o os send in
      let (e1, e2, e3, h) =
        request-Arrived random m m' object_delete o.namespace s fss c arrived send.0 in
      let dones = outcomes b (o ∷ os) v.state in
      let answers = map status_fields dones in
      let (m2, v', e4, e5) =
        remove_loop-remove_local o.namespace _ v (some (new_reply memory m')) v.state true (o ∷ os)
          fits h refl in
      let len : length answers ≡ length dones = length-map status_fields dones in
      let len' : length dones ≡ length (o ∷ os) = length-outcomes b (o ∷ os) v.state in
      let few = rw (length-map name_fields (o ∷ os)) at send.3 in
      let built =
        operations-Carries magnitude scaled m'.header.id 0 m'.header.op_type _ 0 [] answers
          (new_reply-Carries memory m') small (omega (arith, len, len', few)) in
      let n_operations : (remove_reply m' dones).header.op_count ≡ length dones =
        omega (arith, built.counted, len) in
      (
        v',
        rw
            (
              e1,
              e2,
              e3,
              length-map name_fields (o ∷ os),
              wanted,
              e4,
              statuses-operations magnitude (new_reply memory m') dones,
            )
            refl,
        e5,
        remove_result-safe s.persistency r' wanted
            ∙ rw (get_count-same (remove_reply m' dones) r' (length dones) h' n_operations)
                (read_statuses-Holds dones r' true (rw built.holds at holds))
            ∙ sym (remove_local-all_done (o ∷ os) v.state true),
      )
