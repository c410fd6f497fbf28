-- ===== src/Object/Read/Replies.antt =====
-- What the client makes of the server's replies to a read.
use mathlib.Core.List.{append-nil, append_assoc}
use julea.Common.{
  length-drop, All-append, concat, ℕ, ◌+◌, ◌*◌, ◌^◌, u32, ◌<◌, ◌≤◌, ◌≡◌, refl, ap, sym, ◌∙◌, true,
  false, some, List, [], ◌∷◌, ◌++◌, length, map, All, arith, ltb, ◌==◌, drop, take-append,
  drop-append, length-append,
}
use julea.Message.{Message, le_bytes, new_reply, get_count, get_8}
use julea.Message.Buffer.{contents}
use julea.Message.Bytes.{all_encoded, Holds, moved, next-Holds, get_8-Holds, length-le_bytes}
use julea.Message.Stream.Arrival.{Arrived}
use julea.Message.Reserve.{joined}
use julea.Message.Operations.{all_operations}
use julea.Message.Sending.{sending-Carries, sending-joined}
use julea.Kv.Get.{new_reply-Carries}
use julea.Object.Arrival.{get_count-same}
use julea.Object.Read.{Read, Delivery, read_answers, read_replies}
use julea.Object.Read.Groups.{data_fields, itself, group_reply}
use julea.Object.Read.Small.{SendsSmall-of_few}

read_answers-Holds :
    (g : List (List ℕ)) (rs : List Read) (reply : Message) (more : List ℕ)
    → length g ≤ length rs
    → All (λ bytes. length bytes < 2 ^ 64) g
    → Holds reply (all_operations (map data_fields g))
    → read_answers (length g) rs reply (joined (map itself g) ++ more)
      ≡ some (g, drop (length g) rs, more)
unfolding read_answers all_operations all_encoded joined
read_answers-Holds [] rs reply more le fits h = refl
read_answers-Holds (bytes ∷ g) [] reply more le fits h = absurd (omega arith)
read_answers-Holds (bytes ∷ g) (r ∷ rs) reply more le fits h =
    let n = le_bytes 8 (length bytes) in
    let rest = all_operations (map data_fields g) in
    let behind = joined (map itself g) ++ more in
    let (h1, t1) = next-Holds reply n rest (rw (append-nil n) at h) in
    let e : get_8 reply ≡ (moved reply (length n), length bytes) =
      rw (length-le_bytes 8 (length bytes)) (get_8-Holds reply (length bytes) fits.0 h1) in
    let all : ltb (length (bytes ++ behind)) (length bytes) ≡ false =
      ground (arith, length-append bytes behind) in
    rw
      (
        e,
        append_assoc bytes (joined (map itself g)) more,
        all,
        take-append bytes behind,
        drop-append bytes behind,
        read_answers-Holds g rs (moved reply (length n)) more (omega arith) fits.1 t1,
      )
      refl

-- The replies have arrived one after the other, each with its bytes behind it.
abbrev pub Delivered : List Message → List Delivery → Type 0
Delivered [] [] = Unit
Delivered [] (d ∷ ds) = ⊥
Delivered (r ∷ rs) [] = ⊥
Delivered (r ∷ rs) ((r', stream) ∷ ds) =
    Arrived r' r.header (contents r) × (stream ≡ joined r.send_list) × Delivered rs ds

module _ (memory : ℕ → ℕ) (magnitude : ℕ → ℕ) (scaled : (n : ℕ) → 0 < n → 0 < magnitude n)
    (bounded : (n : ℕ) → magnitude n ≤ n) (request : Message) where
  abbrev pub reply_of : List (List ℕ) → Message
  reply_of = group_reply magnitude (new_reply memory request)

  new_reply-size : (new_reply memory request).size ≤ 256 + 80000 * 0
  unfolding new_reply
  new_reply-size = omega arith

  new_reply-joined : joined (new_reply memory request).send_list ≡ []
  unfolding new_reply joined
  new_reply-joined = refl

  delivered-group :
      (g : List (List ℕ)) (rs : List Read) (r' : Message)
      → length g ≤ length rs
      → length g ≤ 10000
      → All (λ bytes. length bytes < 2 ^ 64) g
      → Arrived r' (reply_of g).header (contents (reply_of g))
      → (get_count r' ≡ length g)
        × (read_answers (length g) rs r' (joined (reply_of g).send_list)
            ≡ some (g, drop (length g) rs, []))
  delivered-group g rs r' le few words (h, same, start, holds) =
      let fresh = new_reply memory request in
      let c0 = new_reply-Carries memory request in
      let small =
        SendsSmall-of_few magnitude scaled bounded request.header.id 0 request.header.op_type fresh
          0 [] g c0 new_reply-size (omega arith) in
      let c =
        sending-Carries magnitude data_fields itself scaled request.header.id 0
          request.header.op_type fresh 0 [] g c0 small (omega arith) in
      let e : (reply_of g).header.op_count ≡ length g = omega (arith, c.counted) in
      let bytes : joined (reply_of g).send_list ≡ joined (map itself g) ++ [] =
        sending-joined magnitude data_fields itself fresh g
        ∙ ap (λ (xs : List ℕ). xs ++ joined (map itself g)) new_reply-joined
        ∙ sym (append-nil (joined (map itself g))) in
      (
        get_count-same (reply_of g) r' (length g) h e,
        rw bytes (read_answers-Holds g rs r' [] le words (rw c.holds at holds)),
      )

  pub read_replies-groups :
      (count done : ℕ) (gs : List (List (List ℕ))) (rs : List Read) (ds : List Delivery)
      → All (λ g. 0 < length g) gs
      → All (λ bytes. length bytes < 2 ^ 64) (concat gs)
      → Delivered (map reply_of gs) ds
      → length rs ≡ length (concat gs)
      → done + length (concat gs) ≡ count
      → count ≤ 10000
      → read_replies count done rs ds ≡ some (concat gs, true)
  unfolding read_replies
  read_replies-groups count done [] rs [] each words came len sum few =
      let over : ltb done count ≡ false = ground arith in rw over refl
  read_replies-groups count done [] rs (d ∷ ds) each words came len sum few = absurd came
  read_replies-groups count done (g ∷ gs) rs [] each words came len sum few = absurd came
  read_replies-groups count done (g ∷ gs) rs ((r', stream) ∷ ds) each words (arrived, behind, came)
        len sum few =
      let both = length-append g (concat gs) in
      let (words1, words2) =
        All-append (λ (bytes : List ℕ). length bytes < 2 ^ 64) g (concat gs) words in
      let (e1, e2) =
        delivered-group g rs r' (omega (arith, both)) (omega (arith, both)) words1 arrived in
      let going : ltb done count ≡ true = ground (arith, each.0, both) in
      let answered : (length g == 0) ≡ false = ground (arith, each.0) in
      let next : u32 (done + length g) ≡ done + length g = omega (arith, both) in
      let left = length-drop (length g) rs in
      let rest =
        read_replies-groups count (done + length g) gs (drop (length g) rs) ds each.1 words2 came
          (omega (arith, both)) (omega (arith, both)) few in
      rw (behind, e1, going, answered, e2, next, rest) refl
