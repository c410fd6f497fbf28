-- ===== src/Object/Read/Loop.antt =====
-- The server's replies to a read: what is read is divided into groups, one for each reply.
use mathlib.Core.List.{append_assoc, append-nil}
use julea.Common.{
  concat, ℕ, ◌+◌, ◌^◌, ◌<◌, ◌≤◌, ◌≡◌, refl, ap, sym, ◌∙◌, Bool, ◌&&◌, false, Option, some, List, [],
  ◌∷◌, ◌++◌, length, map, All, arith, u64, u64_mod, ltb, ◌==◌, ◌⊎◌, inl, inr, Bool-cases,
  length-append,
}
use julea.Message.{Message, new_reply}
use julea.Message.Bytes.{Holds, moved}
use julea.Message.Operations.{all_operations}
use julea.Message.Pairs.{get_8_twice-Holds}
use julea.MemoryChunk.{MemoryChunk}
use julea.MemoryChunk
use julea.ObjectBackend.{ObjectBackend}
use julea.Server.Object.{Serving}
use julea.Server.ObjectRead.{Buffer, take_buffer, read_open, read_loop}
use julea.Object.Read.{Read, read_each}
use julea.Object.Read.Requests.{read_fields}
use julea.Object.Read.Groups.{group_reply, group_nil, answer_bytes-group}

-- A read that fits into the server's memory chunk.
abbrev pub ReadFits : (size : ℕ) → Read → Type 0
ReadFits size r = (r.len ≤ size) × (r.offset < 2 ^ 64)

-- The chunk while a reply waits: used from its start on, and not at all as long as the reply is
-- empty.
pub record Waiting (address bound : ℕ) (c : MemoryChunk) (g : List (List ℕ)) : Type 0 where
  pub start : c.start ≡ address
  pub size : c.size ≡ bound
  pub from : address ≤ c.current
  pub to : c.current ≤ address + bound
  pub unused : length g ≡ 0 → c.current ≡ address

module _ (memory : ℕ → ℕ) (magnitude : ℕ → ℕ) (address bound : ℕ) (pos : 0 < address)
    (valid : address + bound + bound < u64_mod) where
  -- There is room, or the reply is sent.
  abbrev TakesBuffer : (request reply : Message) → MemoryChunk → List (List ℕ) → ℕ → Type 0
  TakesBuffer request reply c g n =
      (c' : MemoryChunk) × (place : ℕ) × (0 < place)
      × ((g' : List (List ℕ)) → 0 < length g' → Waiting address bound c' g')
      × ((take_buffer memory magnitude request reply c n
            ≡ record { sent = []; reply = reply; chunk = c'; address = place })
          ⊎ ((0 < length g)
              × (take_buffer memory magnitude request reply c n ≡ record {
                sent = reply ∷ [];
                reply = new_reply memory request;
                chunk = c';
                address = place;
              })))

  take_buffer-TakesBuffer :
      (request reply : Message) (c : MemoryChunk) (g : List (List ℕ)) (n : ℕ)
      → Waiting address bound c g
      → n ≤ bound
      → TakesBuffer request reply c g n
  unfolding take_buffer MemoryChunk.get MemoryChunk.reset
  take_buffer-TakesBuffer request reply c g n w fits =
      elim (Bool-cases (ltb (u64 (c.start + c.size)) (u64 (c.current + n)))) [
        | inl full ↦
            let some_wait : 0 < length g = ground (arith, w.unused) in
            let again : ltb (u64 (c.start + c.size)) (u64 (c.start + n)) ≡ false =
              ground (arith, w.start, w.size) in
            (
              record c { current = u64 (c.start + n) },
              c.start,
              omega (arith, w.start),
              (λ g' h. record {
                start = w.start;
                size = w.size;
                from = omega (arith, w.start, w.size);
                to = omega (arith, w.start, w.size);
                unused = λ e. absurd (omega arith);
              }),
              inr (some_wait, rw (full, again) refl),
            )
        | inr room ↦
            let used : (c.current == 0) ≡ false = ground (arith, w.from) in
            (
              record c { current = u64 (c.current + n) },
              c.current,
              omega (arith, w.from),
              (λ g' h. record {
                start = w.start;
                size = w.size;
                from = omega (arith, w.from, w.to);
                to = ground (arith, w.start, w.size, w.from, w.to);
                unused = λ e. absurd (omega arith);
              }),
              inl (rw (room, used) refl),
            )
      ]

  module _ (b : ObjectBackend) where
    -- What the loop leaves: the replies, of groups that are not empty and together hold the reads.
    abbrev pub Divided :
        Message
        → Message
        → Option b.Handle
        → Serving b.State
        → List (List ℕ)
        → List Read
        → b.State
        → List (List ℕ)
        → Type 0
    Divided fresh m object v g rs s' datas =
        (gs : List (List (List ℕ))) × (last : List (List ℕ)) × (v' : Serving b.State) × (read_loop
            memory magnitude b (length rs) m object v (group_reply magnitude fresh g)
          ≡ some (map (group_reply magnitude fresh) gs, v', group_reply magnitude fresh last))
        × (concat gs ++ last ≡ g ++ datas)
        × All (λ g. 0 < length g) gs
        × (0 < length g + length rs → 0 < length last)
        × (v'.state ≡ s')
        × (v'.chunk.start ≡ address)
        × (v'.chunk.size ≡ bound)

    read_open-group :
        (object : b.Handle) (v : Serving b.State) (buffer : Buffer) (s : b.State) (r : Read)
        (fresh : Message) (g : List (List ℕ))
        → v.state ≡ s
        → 0 < buffer.address
        → buffer.reply ≡ group_reply magnitude fresh g
        → let (s', bytes, done) = b.read s object r.len r.offset in
          (v' : Serving b.State) × (read_open memory magnitude b object v buffer r.len r.offset
            ≡ some (v', group_reply magnitude fresh (g ++ bytes ∷ [])))
          × (v'.state ≡ s')
          × (v'.chunk ≡ buffer.chunk)
    unfolding read_open
    read_open-group object v buffer s r fresh g same placed reply =
        let used : (buffer.address == 0) ≡ false = ground (arith, placed) in
        rw
          (
            same,
            used,
            reply,
            answer_bytes-group memory magnitude fresh g (b.read s object r.len r.offset).1,
          )
          (_, refl, refl, refl)

    pub read_loop-Divided :
        (m : Message) (object : b.Handle) (v : Serving b.State) (g : List (List ℕ)) (s : b.State)
        (ret : Bool) (rs : List Read) (fresh : Message)
        → All (ReadFits bound) rs
        → Holds m (all_operations (map read_fields rs))
        → v.state ≡ s
        → Waiting address bound v.chunk g
        → new_reply memory m ≡ fresh
        → let (s', datas, ret') = read_each b object s rs ret in
          Divided fresh m (some object) v g rs s' datas
    unfolding read_loop read_each all_operations new_reply moved
    read_loop-Divided m object v g s ret [] fresh fits h same w begun =
        ([], g, v, refl, sym (append-nil g), tt, (λ e. omega arith), same, w.start, w.size)
    read_loop-Divided m object v g s ret (r ∷ rs) fresh fits h same w begun =
        let (e1, e2, t2) =
          get_8_twice-Holds m r.len r.offset (all_operations (map read_fields rs))
            (omega (arith, fits.0.0, valid)) fits.0.1 h in
        let m2 = moved (moved m 8) 8 in
        let small : ltb v.chunk.size r.len ≡ false = ground (arith, fits.0.0, w.size) in
        let (c', place, placed, waits, taken) =
          take_buffer-TakesBuffer m2 (group_reply magnitude fresh g) v.chunk g r.len w fits.0.0 in
        let bytes = (b.read s object r.len r.offset).1 in
        let s' = (b.read s object r.len r.offset).0 in
        let ret' = (b.read s object r.len r.offset).2 && ret in
        let datas = (read_each b object s' rs ret').1 in
        elim taken [
          | inl room ↦
              let buffer : Buffer = record {
                sent = [];
                reply = group_reply magnitude fresh g;
                chunk = c';
                address = place;
              } in
              let (v1, e3, same1, chunk1) =
                read_open-group object v buffer s r fresh g same placed refl in
              let len = length-append g (bytes ∷ []) in
              let w1 : Waiting address bound v1.chunk (g ++ bytes ∷ []) =
                rw chunk1 (waits (g ++ bytes ∷ []) (omega arith)) in
              let (gs, last, v', e4, all, some_each, some_last, state, start, end) =
                read_loop-Divided m2 object v1 (g ++ bytes ∷ []) s' ret' rs fresh fits.1 t2 same1 w1
                  begun in
              (
                gs,
                last,
                v',
                rw (e1, e2, small, room, e3, e4) refl,
                all ∙ append_assoc g (bytes ∷ []) datas,
                some_each,
                (λ h. some_last (omega (arith, len))),
                state,
                start,
                end,
              )
          | inr (some_wait, full) ↦
              let buffer : Buffer = record {
                sent = group_reply magnitude fresh g ∷ [];
                reply = new_reply memory m2;
                chunk = c';
                address = place;
              } in
              let (v1, e3, same1, chunk1) =
                read_open-group object v buffer s r fresh [] same placed
                  (begun ∙ sym (group_nil magnitude fresh)) in
              let w1 : Waiting address bound v1.chunk (bytes ∷ []) =
                rw chunk1 (waits (bytes ∷ []) (omega arith)) in
              let (gs, last, v', e4, all, some_each, some_last, state, start, end) =
                read_loop-Divided m2 object v1 (bytes ∷ []) s' ret' rs fresh fits.1 t2 same1 w1
                  begun in
              (
                g ∷ gs,
                last,
                v',
                rw (e1, e2, small, full, e3, e4) refl,
                append_assoc g (concat gs) last ∙ ap (λ (xs : List (List ℕ)). g ++ xs) all,
                (some_wait, some_each),
                (λ h. some_last (omega arith)),
                state,
                start,
                end,
              )
        ]
