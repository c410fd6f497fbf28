-- ===== src/Object/Read/Remote.antt =====
-- Reading through the server gives what the client's own backend would give.
use julea.Common.{
  concat, ℕ, suc, ◌+◌, ◌^◌, ◌<◌, ◌≤◌, ◌≡◌, refl, ap, sym, ◌∙◌, Bool, ◌&&◌, true, Option, some, none,
  List, [], ◌∷◌, ◌++◌, length, map, All, arith, u64_mod, subst,
}
use mathlib.Core.List.{append-nil, append_assoc}
use julea.Semantics.{Semantics}
use julea.Message.{Message, new_reply}
use julea.Message.Buffer.{contents}
use julea.Message.Bytes.{moved}
use julea.Message.Stream.Arrival.{Arrived}
use julea.MemoryChunk.{MemoryChunk}
use julea.MemoryChunk
use julea.ObjectBackend.{ObjectBackend}
use julea.Server.Object.{Serving, close_open}
use julea.Server.ObjectRead.{handle_read}
use julea.Object.{Object}
use julea.Object.Read.{Read, Delivery, read_request, read_replies, read_each, read_local}
use julea.Object.Read.Requests.{CanAsk, read_request-Arrived}
use julea.Object.Read.Groups.{group_reply, group_nil}
use julea.Object.Read.Loop.{ReadFits, Waiting, read_loop-Divided}
use julea.Object.Read.Replies.{Delivered, reply_of, read_replies-groups}

-- The replies that a handler sent.
abbrev pub sent_replies : {State : Type 0} → Option (Serving State × List Message) → List Message
sent_replies none = []
sent_replies (some (v, replies)) = replies

length-read_each :
    (b : ObjectBackend) (object : b.Handle) (s : b.State) (rs : List Read) (ret : Bool)
    → length (read_each b object s rs ret).1 ≡ length rs
unfolding read_each
length-read_each b object s [] ret = refl
length-read_each b object s (r ∷ rs) ret = ap suc (length-read_each b object _ rs _)

map-snoc :
    {A B : Type 0} (f : A → B) (xs : List A) (x : A) → map f (xs ++ x ∷ []) ≡ map f xs ++ f x ∷ []
map-snoc f [] x = refl
map-snoc f (y ∷ xs) x = ap (◌∷◌ (f y)) (map-snoc f xs x)

concat-snoc :
    {A : Type 0} (xss : List (List A)) (xs : List A) → concat (xss ++ xs ∷ []) ≡ concat xss ++ xs
concat-snoc [] xs = append-nil xs
concat-snoc (ys ∷ xss) xs =
    ap (λ zs. ys ++ zs) (concat-snoc xss xs) ∙ sym (append_assoc ys (concat xss) xs)

All-snoc :
    {A : Type 0} (P : A → Type 0) (xs : List A) (x : A) → All P xs → P x → All P (xs ++ x ∷ [])
All-snoc P [] x hs h = (h, tt)
All-snoc P (y ∷ xs) x hs h = (hs.0, All-snoc P xs x hs.1 h)

-- What the server leaves after the reads: its replies, of groups that are not empty.
abbrev Served :
    (memory magnitude : ℕ → ℕ) (b : ObjectBackend) (address bound : ℕ)
    → Message
    → Serving b.State
    → b.State
    → List (List ℕ)
    → Type 0
Served memory magnitude b address bound m v s datas =
    (gs : List (List (List ℕ))) × (v' : Serving b.State) × (handle_read memory magnitude b m v
      ≡ some (v', map (group_reply magnitude (new_reply memory m)) gs))
    × (concat gs ≡ datas)
    × All (λ g. 0 < length g) gs
    × (v'.state ≡ s)
    × (v'.chunk ≡ MemoryChunk.new address bound)

module _ (memory : ℕ → ℕ) (magnitude : ℕ → ℕ) (b : ObjectBackend) (address bound : ℕ)
    (pos : 0 < address) (valid : address + bound + bound < u64_mod) where
  -- A chunk that was reset.
  chunk-reset :
      (c : MemoryChunk)
      → c.start ≡ address
      → c.size ≡ bound
      → MemoryChunk.reset c ≡ MemoryChunk.new address bound
  unfolding MemoryChunk.reset MemoryChunk.new
  chunk-reset c start size = rw (start, size) refl

  Waiting-new : (c : MemoryChunk) → c ≡ MemoryChunk.new address bound → Waiting address bound c []
  unfolding MemoryChunk.new
  Waiting-new c e = rw e (record {
    start = refl;
    size = refl;
    from = omega arith;
    to = omega arith;
    unused = λ h. refl;
  })

  new_reply-moved :
      (m : Message) (n k : ℕ) → new_reply memory (moved (moved m n) k) ≡ new_reply memory m
  unfolding new_reply moved
  new_reply-moved m n k = refl

  handle_read-Served :
      (random : ℕ)
      → ((n : ℕ) → 0 < n → 0 < magnitude n)
      → (s : Semantics) (o : Object) (rs : List Read) (m' : Message) (v : Serving b.State)
        (object : b.Handle)
      → CanAsk memory random magnitude s o rs
      → 0 < length rs
      → All (ReadFits bound) rs
      → v.chunk ≡ MemoryChunk.new address bound
      → (b.open_object v.state o.namespace o.name).1 ≡ some object
      → let m = read_request memory random magnitude o rs s in
        Arrived m' m.header (contents m)
        → let (s2, datas, ret) =
            read_each b object (b.open_object v.state o.namespace o.name).0 rs true in
          Served memory magnitude b address bound m' v (b.close s2 object).0 datas
  unfolding handle_read close_open
  handle_read-Served random scaled s o rs m' v object ask more fits chunk opened arrived =
      let (e1, e2, e3, e4, h) =
        read_request-Arrived memory random magnitude scaled s o rs m' ask arrived in
      let s1 = (b.open_object v.state o.namespace o.name).0 in
      let v1 : Serving b.State = record v { state = s1 } in
      let fresh = new_reply memory m' in
      let f = group_reply magnitude fresh in
      let (gs, last, v2, e5, all, some_each, some_last, state, start, size) =
        read_loop-Divided memory magnitude address bound pos valid b _ object v1 [] s1 true rs fresh
          fits h refl (Waiting-new v.chunk chunk) (new_reply-moved m' _ _) in
      let e6 = rw (group_nil magnitude fresh) at e5 in
      let v3 = close_open memory magnitude b (some object) v2 in
      (
        gs ++ last ∷ [],
        record v3 { chunk = MemoryChunk.reset v3.chunk },
        rw (e1, e2, e4, opened, e6, map-snoc f gs last) refl,
        concat-snoc gs last ∙ all,
        All-snoc (λ (g : List (List ℕ)). 0 < length g) gs last some_each (some_last (omega arith)),
        ap (λ (s : b.State). (b.close s object).0) state,
        chunk-reset v2.chunk start size,
      )

  -- Reading through the server, with one to ten thousand operations at a time: when the client's request
  -- has arrived, the object can be opened and each read fits into the server's memory chunk, the
  -- server's handler ends, whatever number of replies it needs; its backend is as the client's own
  -- would be after the local branch of the same call, and its chunk is as new. When its replies have
  -- arrived in their order, the client's loops end, and give for each operation the bytes that the
  -- local branch reads, and success. Twice the chunk's size behind its start is still an address,
  -- and what the backend reads has a length of 64 bits.
  pub read_replies-handle_read :
      (random : ℕ)
      → ((n : ℕ) → 0 < n → 0 < magnitude n)
      → ((n : ℕ) → magnitude n ≤ n)
      → (s : Semantics) (o : Object) (rs : List Read) (m' : Message) (v : Serving b.State)
        (object : b.Handle) (ds : List Delivery)
      → CanAsk memory random magnitude s o rs
      → 0 < length rs
      → length rs ≤ 10000
      → All (ReadFits bound) rs
      → v.chunk ≡ MemoryChunk.new address bound
      → (b.open_object v.state o.namespace o.name).1 ≡ some object
      → All
          (λ bytes. length bytes < 2 ^ 64)
          (read_each b object (b.open_object v.state o.namespace o.name).0 rs true).1
      → let m = read_request memory random magnitude o rs s in
        Arrived m' m.header (contents m)
        → Delivered (sent_replies (handle_read memory magnitude b m' v)) ds
        → let (s2, datas, ret) =
            read_each b object (b.open_object v.state o.namespace o.name).0 rs true in
          (v' : Serving b.State) × (handle_read memory magnitude b m' v
            ≡ some (v', sent_replies (handle_read memory magnitude b m' v)))
          × (v'.state ≡ (b.close s2 object).0)
          × (v'.chunk ≡ MemoryChunk.new address bound)
          × (read_replies (length rs) 0 rs ds ≡ some (datas, true))
          × (read_local b o rs v.state
              ≡ some ((b.close s2 object).0, datas, (b.close s2 object).1 && ret))
  unfolding read_local
  read_replies-handle_read random scaled bounded s o rs m' v object ds ask more few fits chunk
        opened words arrived came =
      let (gs, v', e, all, some_each, state, chunk') =
        handle_read-Served random scaled s o rs m' v object ask more fits chunk opened arrived in
      let s1 = (b.open_object v.state o.namespace o.name).0 in
      let datas = (read_each b object s1 rs true).1 in
      let len = length-read_each b object s1 rs true in
      let same : length (concat gs) ≡ length datas = ap length all in
      let came' : Delivered (map (reply_of memory magnitude scaled bounded m') gs) ds =
        subst (λ x. Delivered (sent_replies x) ds) e came in
      let words' : All (λ bytes. length bytes < 2 ^ 64) (concat gs) =
        subst (All (λ bytes. length bytes < 2 ^ 64)) (sym all) words in
      let got =
        read_replies-groups memory magnitude scaled bounded m' (length rs) 0 gs rs ds some_each
          words' came' (omega (arith, same, len)) (omega (arith, same, len)) few in
      (
        v',
        e ∙ ap (λ x. some (v', x)) (sym (ap sent_replies e)),
        state,
        chunk',
        got ∙ ap (λ x. some (x, true)) all,
        rw opened refl,
      )
