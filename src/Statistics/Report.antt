-- ===== src/Statistics/Report.antt =====
-- The counters of the servers in the statistics tool.
use julea.Common.{
  ℕ, ◌+◌, ◌<◌, ◌≡◌, refl, sym, ap, ap₂, ◌∙◌, false, List, [], ◌∷◌, map, arith, u64, u64_mod,
}
use julea.Message.{
  Message, new_reply, get_8, get_1, append_1, append_8, add_operation, le_bytes, get_count,
}
use julea.Message
use julea.Message.Bytes.{
  Field, int8, all_encoded, Holds, moved, next-Holds, get_8-Holds, get_1-Holds, length-le_bytes,
}
use julea.Message.Buffer.{contents}
use julea.Common.Slices.{slice}
use julea.Message.Reserve.{total, joined, Small}
use julea.Message.Stream.Arrival.{Arrived}
use julea.Message.Operations.{
  Carries, append_each, append_each-Carries, pieces, operation, operation-Carries,
}
use julea.Kv.Get.{new_reply-Carries}
use julea.Server.Statistics.{counters, append_counters, handle_statistics}
use julea.Statistics.{
  Counter, files_created, files_deleted, files_stated, sync, bytes_read, bytes_written,
  bytes_received, bytes_sent, Statistics, new, get, add,
}
use julea.Statistics.Laws.{add_all, added, get-add_all}
use julea.Statistics.Tool.{read_counters, read_servers, statistics_request}

abbrev counter_fields : Statistics → List Counter → List Field
counter_fields s = map (λ c. int8 (get s c))

append_counters-each :
    (r : Message) (s : Statistics) (cs : List Counter)
    → append_counters r s cs ≡ append_each r (pieces (counter_fields s cs))
unfolding append_counters append_each append_8
append_counters-each r s [] = refl
append_counters-each r s (c ∷ cs) = append_counters-each (append_8 r (get s c)).0 s cs

-- A server's counters are words.
abbrev pub Bounded : Statistics → Type 0
Bounded s = (c : Counter) → get s c < u64_mod

adds_of : Statistics → List Counter → List (Counter × ℕ)
adds_of s = map (λ c. (c, get s c))

read_counters-Holds :
    (cs : List Counter) (r : Message) (one every s : Statistics)
    → Bounded s
    → Holds r (all_encoded (counter_fields s cs))
    → read_counters cs r one every ≡ (add_all one (adds_of s cs), add_all every (adds_of s cs))
unfolding read_counters all_encoded adds_of add_all
read_counters-Holds [] r one every s small h = refl
read_counters-Holds (c ∷ cs) r one every s small h =
    let n = le_bytes 8 (get s c) in
    let (h1, t1) = next-Holds r n (all_encoded (counter_fields s cs)) h in
    let e = get_8-Holds r (get s c) (omega (arith, small c)) h1 in
    let t2 = rw (length-le_bytes 8 (get s c)) at t1 in
    rw e
      (read_counters-Holds cs (moved r 8) (add one c (get s c)) (add every c (get s c)) s small t2)

added-adds_of : (s : Statistics) (c : Counter) → added c (adds_of s counters) ≡ get s c
unfolding adds_of
added-adds_of s files_created = omega arith
added-adds_of s files_deleted = omega arith
added-adds_of s files_stated = omega arith
added-adds_of s sync = omega arith
added-adds_of s bytes_read = omega arith
added-adds_of s bytes_written = omega arith
added-adds_of s bytes_received = omega arith
added-adds_of s bytes_sent = omega arith

get-new : (c : Counter) → get (new false) c ≡ 0
unfolding new get
get-new files_created = refl
get-new files_deleted = refl
get-new files_stated = refl
get-new sync = refl
get-new bytes_read = refl
get-new bytes_written = refl
get-new bytes_received = refl
get-new bytes_sent = refl

read_servers-cons :
    (r : Message) (rs : List Message) (one every every' : Statistics)
    → read_counters counters r (new false) every ≡ (one, every')
    → read_servers (r ∷ rs) every ≡ (one ∷ (read_servers rs every').0, (read_servers rs every').1)
unfolding read_servers
read_servers-cons r rs one every every' e =
    ap (λ (p : Statistics × Statistics). (p.0 ∷ (read_servers rs p.1).0, (read_servers rs p.1).1)) e

counters-total : (s : Statistics) → total (pieces (counter_fields s counters)) ≡ 64
unfolding total le_bytes
counters-total s = refl

reply-operation :
    (magnitude : ℕ → ℕ) (r : Message) (s : Statistics)
    → append_counters (add_operation magnitude r 64) s counters
      ≡ operation magnitude r (counter_fields s counters)
unfolding operation
reply-operation magnitude r s =
    append_counters-each (add_operation magnitude r 64) s counters
    ∙ ap (λ n. append_each (add_operation magnitude r n) (pieces (counter_fields s counters)))
        (sym (counters-total s))

module _ (memory : ℕ → ℕ) (random : ℕ) (magnitude : ℕ → ℕ)
    (scaled : (n : ℕ) → 0 < n → 0 < magnitude n) (unit : magnitude 1 ≡ 1) where
  statistics_request-Carries :
      Carries (statistics_request memory random magnitude) random 0 2 1 (le_bytes 1 1)
  unfolding statistics_request add_operation append_1 Message.new append_each joined total le_bytes
      slice
  statistics_request-Carries =
      let m = add_operation magnitude (Message.new memory random 2 1) 0 in
      let c : Carries m random 0 2 1 [] = record {
        built = record { at_end = refl; within = omega arith };
        holds = refl;
        small = omega arith;
        same_id = refl;
        same_semantics = refl;
        same_type = refl;
        counted = refl;
      } in
      append_each-Carries random 0 2 m 1 [] (le_bytes 1 1 ∷ []) c (omega arith)

  -- A server with these counters answered the request, which had arrived, and its reply arrived.
  abbrev pub Reported : Message → (thread shared : Statistics) → Message → Type 0
  Reported m thread shared r =
      let request = statistics_request memory random magnitude in
      let reply = handle_statistics memory magnitude m thread shared in
      Arrived m request.header (contents request)
      × Arrived r reply.header (contents reply)
      × Bounded shared

  reply-Small : (m : Message) → Small magnitude (new_reply memory m) 64
  unfolding new_reply
  reply-Small m = rw unit (omega arith)

  Reported-Holds :
      (m r : Message) (thread shared : Statistics)
      → Reported m thread shared r
      → Holds r (all_encoded (counter_fields shared counters))
  Reported-Holds m r thread shared ((_, _, _, h), (_, _, _, h'), small) =
      let asked = get_1-Holds m 1 (omega arith) (rw statistics_request-Carries.holds at h) in
      let size = counters-total shared in
      let c =
        operation-Carries magnitude scaled m.header.id 0 m.header.op_type (new_reply memory m) 0 []
          (counter_fields shared counters) (new_reply-Carries memory m) (rw size (reply-Small m))
          (omega arith) in
      let answered : handle_statistics memory magnitude m thread shared
          ≡ operation magnitude (new_reply memory m) (counter_fields shared counters) =
        unfold handle_statistics in
        rw asked (reply-operation magnitude (new_reply memory m) shared) in
      rw (answered, c.holds) at h'

  abbrev pub AllReported : List Message → List (Statistics × Statistics) → List Message → Type 0
  AllReported [] [] [] = Unit
  AllReported (m ∷ ms) ((thread, shared) ∷ ss) (r ∷ rs) =
      Reported m thread shared r × AllReported ms ss rs
  AllReported _ _ _ = ⊥

  -- The sum of a counter over the servers.
  abbrev pub sum_of : Counter → List (Statistics × Statistics) → ℕ
  sum_of c [] = 0
  sum_of c ((thread, shared) ∷ ss) = get shared c + sum_of c ss

  read_servers-total :
      (ms : List Message) (ss : List (Statistics × Statistics)) (rs : List Message)
      (every : Statistics)
      → AllReported ms ss rs
      → Bounded every
      → (c : Counter)
      → (map (λ one. get one c) (read_servers rs every).0 ≡ map (λ s. get s.1 c) ss)
        × (get (read_servers rs every).1 c ≡ u64 (get every c + sum_of c ss))
  read_servers-total [] [] [] every reported bounded c =
      unfold read_servers in (refl, omega (arith, bounded c))
  read_servers-total (m ∷ ms) ((thread, shared) ∷ ss) (r ∷ rs) every (reported, others) bounded c =
      let (_, _, small) = reported in
      let adds = adds_of shared counters in
      let e =
        read_counters-Holds counters r (new false) every shared small
          (Reported-Holds m r thread shared reported) in
      let fresh-Bounded : Bounded (new false) = λ d. omega (arith, get-new d) in
      let one = get-add_all (new false) c adds (fresh-Bounded c) in
      let all = get-add_all every c adds (bounded c) in
      let all-Bounded : Bounded (add_all every adds) =
        λ d. omega (arith, get-add_all every d adds (bounded d)) in
      let (heads, tail) = read_servers-total ms ss rs (add_all every adds) others all-Bounded c in
      let own = added-adds_of shared c in
      let first : get (add_all (new false) adds) c ≡ get shared c =
        omega (arith, one, get-new c, own, small c) in
      rw (read_servers-cons r rs (add_all (new false) adds) every (add_all every adds) e)
        (ap₂ ◌∷◌ first heads, omega (arith, tail, all, own))
  read_servers-total [] [] (r ∷ rs) every a bounded c = absurd a
  read_servers-total [] (s ∷ ss) rs every a bounded c = absurd a
  read_servers-total (m ∷ ms) [] rs every a bounded c = absurd a
  read_servers-total (m ∷ ms) (s ∷ ss) [] every a bounded c = absurd a

  -- The statistics tool shows for each server the counters that its threads share, and in total
  -- the sum of each counter over all servers, modulo 2^64. Each server answered the tool's
  -- request, and its reply arrived.
  pub read_servers-handle_statistics :
      (ms : List Message) (ss : List (Statistics × Statistics)) (rs : List Message)
      → AllReported ms ss rs
      → let (ones, every) = read_servers rs (new false) in
        (c : Counter)
        → (map (λ one. get one c) ones ≡ map (λ s. get s.1 c) ss)
          × (get every c ≡ u64 (sum_of c ss))
  read_servers-handle_statistics ms ss rs reported c =
      let fresh : Bounded (new false) = λ d. omega (arith, get-new d) in
      let (ones, every) = read_servers-total ms ss rs (new false) reported fresh c in
      (ones, omega (arith, every, get-new c))
