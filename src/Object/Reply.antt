-- ===== src/Object/Reply.antt =====
-- What the client reads from the server's reply to a write.
use julea.Common.{
  ℕ, suc, ◌^◌, u32_mod, ◌<◌, ◌≡◌, refl, ap, sym, ◌∙◌, Bool, true, Option, some, List, [], ◌∷◌,
  length, map, All, arith, ltb, length-map,
}
use mathlib.Core.List.{append-nil}
use julea.Semantics.{Semantics, Persistency, storage, network, volatile}
use julea.Message.{Message, le_bytes, new_reply, get_8}
use julea.Message.Buffer.{contents}
use julea.Message.Bytes.{all_encoded, Holds, moved, next-Holds, get_8-Holds, length-le_bytes}
use julea.Message.Stream.Arrival.{Arrived}
use julea.Message.Operations.{AllSmall, all_operations, operation, operations, operations-Carries}
use julea.Message.Wire.{on_wire}
use julea.Kv.Get.{new_reply-Carries}
use julea.ObjectBackend.{ObjectBackend}
use julea.Server.{reply_to, safe}
use julea.Server.Object.{answer_8}
use julea.Object.{Write, write_each, read_counts, read_written, write_result}
use julea.Server.Answers.{count_fields, answer_8-operation}
use julea.Object.Arrival.{get_count-same}

module _ (magnitude : ℕ → ℕ) where
  -- The numbers of written bytes, as the server puts them into the reply.
  unfoldable pub write_answers : Option Message → List ℕ → Option Message
  write_answers reply [] = reply
  write_answers reply (n ∷ ns) = write_answers (answer_8 magnitude reply n) ns

  write_answers-operations :
      (r : Message) (counts : List ℕ)
      → write_answers (some r) counts ≡ some (operations magnitude r (map count_fields counts))
  unfolding write_answers operations
  write_answers-operations r [] = refl
  write_answers-operations r (n ∷ counts) =
      rw (answer_8-operation magnitude r n)
        (write_answers-operations (operation magnitude r (count_fields n)) counts)

read_counts-Holds :
    (ws : List Write) (counts : List ℕ) (reply : Message)
    → length ws ≡ length counts
    → All (λ n. n < 2 ^ 64) counts
    → Holds reply (all_operations (map count_fields counts))
    → read_counts ws reply ≡ counts
unfolding read_counts all_operations all_encoded
read_counts-Holds [] [] reply len fits h = refl
read_counts-Holds [] (n ∷ counts) reply len fits h = absurd (omega arith)
read_counts-Holds (w ∷ ws) [] reply len fits h = absurd (omega arith)
read_counts-Holds (w ∷ ws) (n ∷ counts) reply len fits h =
    let bytes = le_bytes 8 n in
    let rest = all_operations (map count_fields counts) in
    let (h1, t1) = next-Holds reply bytes rest (rw (append-nil bytes) at h) in
    let e : get_8 reply ≡ (moved reply (length bytes), n) =
      rw (length-le_bytes 8 n) (get_8-Holds reply n fits.0 h1) in
    rw (e, read_counts-Holds ws counts (moved reply (length bytes)) (omega arith) fits.1 t1) refl

write_result-safe :
    (p : Persistency) (ws : List Write) (reply : Message)
    → safe p ≡ true
    → write_result p ws reply ≡ read_written ws reply
unfolding write_result
write_result-safe storage ws reply h = refl
write_result-safe network ws reply h = refl
write_result-safe volatile ws reply h = absurd (ground (arith, h))

length-write_each :
    (b : ObjectBackend) (object : b.Handle) (s : b.State) (ws : List Write) (ret : Bool)
    → length (write_each b object s ws ret).1 ≡ length ws
unfolding write_each
length-write_each b object s [] ret = refl
length-write_each b object s (w ∷ ws) ret = ap suc (length-write_each b object _ ws _)

module _ (memory : ℕ → ℕ) (magnitude : ℕ → ℕ) (b : ObjectBackend)
    (scaled : (n : ℕ) → 0 < n → 0 < magnitude n) where
  -- The numbers of bytes that the writes write.
  abbrev pub written : b.Handle → b.State → List Write → List ℕ
  written object st ws = (write_each b object st ws true).1

  -- The server's reply to the request `m'`.
  abbrev pub write_reply : (m' : Message) → List ℕ → Message
  write_reply m' counts = operations magnitude (new_reply memory m') (map count_fields counts)

  -- If the client asked for safety, the server's reply has as many operations as there are writes,
  -- and when it has arrived, the client adds to the counters what the server's backend wrote, write
  -- by write, and reports success. There is at least one write, the numbers of written bytes are
  -- 64-bit words, and the reply stays below 4 GiB.
  pub write_result-write_answers :
      (s : Semantics) (object : b.Handle) (st : b.State) (w : Write) (ws : List Write)
      (m' r' : Message)
      → safe s.persistency ≡ true
      → All (λ n. n < 2 ^ 64) (written object st (w ∷ ws))
      → AllSmall magnitude (new_reply memory m') (map count_fields (written object st (w ∷ ws)))
      → length (w ∷ ws) < u32_mod
      → let reply = write_reply m' (written object st (w ∷ ws)) in
        Arrived r' reply.header (contents reply)
        → (write_answers magnitude (reply_to memory m' (on_wire s)) (written object st (w ∷ ws))
            ≡ some (write_reply m' (written object st (w ∷ ws))))
          × (write_result s.persistency (w ∷ ws) r' ≡ (written object st (w ∷ ws), true))
  unfolding reply_to read_written
  write_result-write_answers s object st w ws m' r' wanted fits small few (h, same, start, holds) =
      let counts = written object st (w ∷ ws) in
      let fss = map count_fields counts in
      let len = length-write_each b object st (w ∷ ws) true in
      let len' = length-map count_fields counts in
      let built =
        operations-Carries magnitude scaled m'.header.id 0 m'.header.op_type _ 0 [] fss
          (new_reply-Carries memory m') small (omega arith) in
      let n_operations : (write_reply m' counts).header.op_count ≡ length fss =
        omega (arith, built.counted) in
      let some_operations : ltb 0 (length fss) ≡ true = ground (arith, len, len') in
      (
        rw wanted (write_answers-operations magnitude (new_reply memory m') counts),
        write_result-safe s.persistency (w ∷ ws) r' wanted
            ∙ rw
                (
                  get_count-same (write_reply m' counts) r' (length fss) h n_operations,
                  some_operations,
                  read_counts-Holds (w ∷ ws) counts r' (sym len) fits (rw built.holds at holds),
                )
                refl,
      )
