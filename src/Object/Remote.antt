-- ===== src/Object/Remote.antt =====
-- Writing through the server does to its backend what the client's own would do.
use mathlib.Core.List.{append_assoc}
use julea.Common.{
  ℕ, ◌+◌, u64_mod, u64, ◌<◌, ◌≤◌, ◌≡◌, refl, ap, sym, ◌∙◌, Bool, true, false, ◌&&◌, Option, some,
  List, [], ◌∷◌, ◌++◌, length, map, All, arith, take-append, drop-append, ltb, ◌==◌, length-append,
}
use julea.Semantics.{Semantics, Persistency, storage, network, volatile}
use julea.Message.{Message}
use julea.Message.Buffer.{contents}
use julea.Message.Bytes.{Holds, moved}
use julea.Message.Stream.Arrival.{Arrived}
use julea.Message.Operations.{all_operations}
use julea.Message.Wire.{on_wire}
use julea.Message.Pairs.{get_8_twice-Holds}
use julea.Message.Reserve.{joined}
use julea.MemoryChunk.{MemoryChunk}
use julea.MemoryChunk
use julea.ObjectBackend.{ObjectBackend}
use julea.Server.{reply_to}
use julea.Server.Answers.{answered, answered-nil, answered-8, count_fields}
use julea.Server.Object.{
  Serving, answer_8, write_bytes, write_open, write_loop, flush, close_open, handle_write,
}
use julea.Object.{Object, Write, write_each, write_local, write_request}
use julea.Object.Chunks.{write_bytes_of}
use julea.Object.Requests.{write_fields}
use julea.Object.Arrival.{WriteFits, Ready, CanSend, write_request-Arrived}

module _ (memory : ℕ → ℕ) (magnitude : ℕ → ℕ) (b : ObjectBackend) (address size : ℕ)
    (pos : 0 < address) (valid : address + size < u64_mod) where
  write_bytes-write :
      (object : b.Handle) (v : Serving b.State) (reply : Option Message) (s : b.State) (w : Write)
      (more : List ℕ)
      → Ready address size v s (w.bytes ++ more)
      → length w.bytes ≤ size
      → let (s', nbytes, done) = b.write s object w.bytes w.offset in
        (v' : Serving b.State) × (write_bytes memory magnitude b
            (some object)
            v
            reply
            (length w.bytes)
            w.offset
          ≡ some (v', answer_8 magnitude reply nbytes))
        × Ready address size v' s' more
  unfolding write_bytes MemoryChunk.get MemoryChunk.reset MemoryChunk.new write_open
  write_bytes-write object v reply s w more ready fits =
      let bytes = w.bytes in
      let len = length-append bytes more in
      let room : ltb (u64 (address + size)) (u64 (address + length bytes)) ≡ false = ground arith in
      let got : (address == 0) ≡ false = ground arith in
      let all : ltb (length (bytes ++ more)) (length bytes) ≡ false = ground (arith, len) in
      rw
        (
          ready.state,
          ready.incoming,
          ready.chunk,
          room,
          got,
          all,
          take-append bytes more,
          drop-append bytes more,
        )
        (_, refl, record { state = refl; incoming = refl; chunk = refl })

  write_loop-write_each :
      (m : Message) (object : b.Handle) (v : Serving b.State) (reply : Option Message) (s : b.State)
      (ret : Bool) (ws : List Write) (more : List ℕ)
      → All (WriteFits size) ws
      → Holds m (all_operations (map write_fields ws))
      → Ready address size v s (joined (map write_bytes_of ws) ++ more)
      → let (s', counts, ret') = write_each b object s ws ret in
        (m' : Message) × (v' : Serving b.State) × (write_loop memory magnitude b
            (length ws)
            m
            (some object)
            v
            reply
          ≡ some (m', v', answered magnitude reply (map count_fields counts)))
        × Ready address size v' s' more
  unfolding write_loop write_each all_operations joined MemoryChunk.new
  write_loop-write_each m object v reply s ret [] more fits h ready =
      (m, v, ap (λ r. some (m, v, r)) (sym (answered-nil magnitude reply)), ready)
  write_loop-write_each m object v reply s ret (w ∷ ws) more fits h ready =
      let rest = all_operations (map write_fields ws) in
      let behind = joined (map write_bytes_of ws) in
      let (e1, e2, t2) =
        get_8_twice-Holds m (length w.bytes) w.offset rest (omega (arith, fits.0.0, valid)) fits.0.1
          h in
      let small : ltb v.chunk.size (length w.bytes) ≡ false =
        rw (ready.chunk) (ground (arith, fits.0.0)) in
      let (v1, e3, ready1) =
        write_bytes-write object v reply s w (behind ++ more)
          (rw (append_assoc w.bytes behind more) at ready) fits.0.0 in
      let (s', nbytes, done) = b.write s object w.bytes w.offset in
      let (m', v', e4, ready') =
        write_loop-write_each (moved (moved m 8) 8) object v1 (answer_8 magnitude reply nbytes) s'
          (done && ret) ws more fits.1 t2 ready1 in
      let counts = map count_fields (write_each b object s' ws (done && ret)).1 in
      (
        m',
        v',
        rw (e1, e2, small, e3)
            (e4 ∙ ap (λ r. some (m', v', r)) (answered-8 magnitude reply nbytes counts)),
        ready',
      )

  -- What the server's backend does before the object is closed.
  unfoldable pub synced : Persistency → b.Handle → b.State → b.State
  synced storage object s = (b.sync s object).0
  synced _ object s = s

  flush-synced :
      (p : Persistency) (object : b.Handle) (v : Serving b.State) (s : b.State) (more : List ℕ)
      → Ready address size v s more
      → (v' : Serving b.State) × (flush memory magnitude b p (some object) v ≡ some v')
        × Ready address size v' (synced p object s) more
  unfolding flush synced
  flush-synced storage object v s more ready = (
    _,
    refl,
    record {
      state = ap (λ (s : b.State). (b.sync s object).0) ready.state;
      incoming = ready.incoming;
      chunk = ready.chunk;
    },
  )
  flush-synced network object v s more ready = (v, refl, ready)
  flush-synced volatile object v s more ready = (v, refl, ready)

  -- Writing through the server: when the client's request has arrived, its bytes are the next on
  -- the connection, the object can be opened and each write fits into the server's memory chunk,
  -- the server's handler ends; it has taken from the connection the bytes of this request and no
  -- more; its backend is as the client's own would be after the local branch of the same call,
  -- but for the flush that storage persistency asks for; its chunk is as new; and the reply, if
  -- one is wanted, has an operation for each write with the number of bytes that it wrote, in 8
  -- bytes. Names are texts, and the request and the number of its operations fit into 32 bits.
  pub handle_write-write_local :
      (random : ℕ)
      → ((n : ℕ) → 0 < n → 0 < magnitude n)
      → (s : Semantics) (o : Object) (ws : List Write) (m' : Message) (v : Serving b.State)
        (object : b.Handle) (more : List ℕ)
      → CanSend memory random magnitude s o ws
      → All (WriteFits size) ws
      → v.chunk ≡ MemoryChunk.new address size
      → (b.open_object v.state o.namespace o.name).1 ≡ some object
      → let m = write_request memory random magnitude o ws s in
        Arrived m' m.header (contents m)
        → v.incoming ≡ joined m.send_list ++ more
        → let s1 = (b.open_object v.state o.namespace o.name).0 in
          let (s2, counts, ret) = write_each b object s1 ws true in
          (v' : Serving b.State) × (handle_write memory magnitude b m' v
            ≡ some
                (v', answered magnitude (reply_to memory m' (on_wire s)) (map count_fields counts)))
          × Ready address size v' (b.close (synced s.persistency object s2) object).0 more
          × (write_local b o ws v.state
              ≡ some ((b.close s2 object).0, counts, (b.close s2 object).1 && ret))
  unfolding handle_write write_local close_open MemoryChunk.reset MemoryChunk.new
  handle_write-write_local random scaled s o ws m' v object more send fits chunk opened arrived
        unread =
      let (e1, e2, e3, e4, t2, sends) =
        write_request-Arrived memory random magnitude scaled s o ws m' send arrived in
      let s1 = (b.open_object v.state o.namespace o.name).0 in
      let ready : Ready address size (record v { state = s1 }) s1
          (joined (map write_bytes_of ws) ++ more) =
        record {
          state = refl;
          incoming = unread ∙ ap (λ (xs : List ℕ). xs ++ more) sends;
          chunk = chunk;
        } in
      let (m1, v1, e5, ready1) =
        write_loop-write_each _ object (record v { state = s1 }) (reply_to memory m' (on_wire s)) s1
          true ws more fits t2 ready in
      let (v2, e6, ready2) =
        flush-synced s.persistency object v1 (write_each b object s1 ws true).0 more ready1 in
      (
        (let v3 = close_open memory magnitude b (some object) v2 in
            record v3 { chunk = MemoryChunk.reset v3.chunk }),
        rw (e1, e2, e3, e4, opened, e5, e6) refl,
        record {
          state = ap (λ (s : b.State). (b.close s object).0) ready2.state;
          incoming = ready2.incoming;
          chunk = ap MemoryChunk.reset ready2.chunk;
        },
        rw opened refl,
      )
