-- ===== src/Kv/Iterator/Servers.antt =====
-- Iterating over the pairs of all servers, from the servers' handlers to the client's loop.
use mathlib.Core.Option.{some-injective}
use julea.Common.{
  ℕ, suc, ◌+◌, ◌<◌, ◌≡◌, sym, ap, ◌∙◌, List, [], ◌∷◌, ◌++◌, length, map, arith, All, u32_mod, some,
  length-append,
}
use julea.Message.{Message, new_reply, append_4, append_string, add_operation}
use julea.Message.Buffer.{contents}
use julea.Message.Reserve.{total}
use julea.Message.Bytes.{int4, Holds, length-le_bytes, get_string-Holds}
use julea.Message.Stream.Arrival.{Arrived}
use julea.Message.Operations.{
  AllSmall, all_operations, operation, operations, operations-Carries, pieces, append_each,
}
use julea.KvBackend.{KvBackend}
use julea.Server.KvIteration.{answer_item, answer_items, handle_get_all}
use julea.Kv.Get.{new_reply-Carries}
use julea.Kv.Requests.{IsText}
use julea.Kv.Iterator.{read_item}
use julea.Message.Iteration.{Iterator, collect, AllAnswered, all_listed, collect-AllAnswered}
use julea.Kv.Iterator.Drain.{
  item_fields, reply_fields, ItemFits, item, Answers, read_item-some, read_item-none,
}

module _ (magnitude : ℕ → ℕ) where
  answer_item-operation :
      (r : Message) (x : List ℕ × List ℕ)
      → answer_item magnitude r x ≡ operation magnitude r (item_fields x)
  unfolding answer_item operation append_4 append_string append_each total
  answer_item-operation r (key, value) =
      let e : 4 + length value + (length key + 1) ≡ total (pieces (item_fields (key, value))) =
        omega (arith, length-le_bytes 4 (length value), length-append key (0 ∷ [])) in
      ap (λ (n : ℕ). append_each (add_operation magnitude r n) (pieces (item_fields (key, value))))
        e

  answer_items-operations :
      (r : Message) (xs : List (List ℕ × List ℕ))
      → answer_items magnitude r xs ≡ operations magnitude r (reply_fields xs)
  unfolding answer_items operations operation append_4 append_each total
  answer_items-operations r [] =
      let e : 4 ≡ total (pieces (int4 0 ∷ [])) = omega (arith, length-le_bytes 4 0) in
      ap (λ (n : ℕ). append_each (add_operation magnitude r n) (pieces (int4 0 ∷ []))) e
  answer_items-operations r (x ∷ xs) =
      rw (answer_item-operation r x)
        (answer_items-operations (operation magnitude r (item_fields x)) xs)

module _ (memory : ℕ → ℕ) (magnitude : ℕ → ℕ) (b : KvBackend)
    (scaled : (n : ℕ) → 0 < n → 0 < magnitude n) (namespace : List ℕ) where
  -- A server in the state `s` answered the request `m`, and `r` is the reply as it arrived.
  abbrev pub Answered : Message → b.State → Message → Type 0
  Answered m s r =
      Holds m (namespace ++ 0 ∷ [])
      × ((reply : Message) × (handle_get_all memory magnitude b m s ≡ some reply)
          × Arrived r reply.header (contents reply))

  -- The pairs fit into a message: keys are texts, values are not empty, and there are less than
  -- 4 GiB of them.
  abbrev pub PairsFit : Message → List (List ℕ × List ℕ) → Type 0
  PairsFit m xs =
      All ItemFits xs
      × AllSmall magnitude (new_reply memory m) (reply_fields xs)
      × (length (reply_fields xs) < u32_mod)

  abbrev pub AnsweredFit : Message → b.State → Message → Type 0
  AnsweredFit m s r = Answered m s r × PairsFit m (b.get_all s namespace)

  answered-Holds :
      (m : Message) (s : b.State) (r : Message)
      → IsText namespace
      → Answered m s r
      → PairsFit m (b.get_all s namespace)
      → Holds r (all_operations (reply_fields (b.get_all s namespace)))
  unfolding handle_get_all
  answered-Holds m s r is_text (h, answer) (fits, small, few) =
      let (reply, e, arrived) = answer in
      let xs = b.get_all s namespace in
      let built =
        operations-Carries magnitude scaled m.header.id 0 m.header.op_type _ 0 [] (reply_fields xs)
          (new_reply-Carries memory m) small (omega arith) in
      let e' : reply ≡ operations magnitude (new_reply memory m) (reply_fields xs) =
        sym (some-injective _ _ (rw (get_string-Holds m namespace is_text h) at e))
        ∙ answer_items-operations magnitude (new_reply memory m) xs in
      rw (e', built.holds) at arrived.3

  -- The pairs of all servers' backends, server by server.
  abbrev pub all_pairs : List b.State → List (List ℕ × List ℕ)
  all_pairs = all_listed (λ s. b.get_all s namespace)

  module _ (is_text : IsText namespace) where
    answered-Answers :
        (m : Message) (s : b.State) (r : Message)
        → AnsweredFit m s r
        → Answers r (b.get_all s namespace)
    answered-Answers m s r (a, fit) = (answered-Holds m s r is_text a fit, fit.0)

    -- The client's loop over an iterator ends, one call after the last pair, and has then seen the
    -- pairs of all servers' backends under the namespace, server by server, each in its server's
    -- order, once. Each server answered its request; keys are texts and values not empty.
    pub collect-handle_get_all :
        (m : Message) (ms : List Message) (s : b.State) (ss : List b.State) (r : Message)
        (rs : List Message)
        → AllAnswered AnsweredFit (m ∷ ms) (s ∷ ss) (r ∷ rs)
        → (it' : Iterator) × (collect read_item
              (suc (length (all_pairs (s ∷ ss))))
              (record { current = r; others = rs })
            ≡ some (it', map item (all_pairs (s ∷ ss))))
    collect-handle_get_all =
        collect-AllAnswered read_item item Answers read_item-some read_item-none AnsweredFit
          (λ s. b.get_all s namespace) answered-Answers
