-- ===== src/Object/Unopened.antt =====
-- Writing to an object that the server cannot open.
use mathlib.Core.List.{append_assoc}
use julea.Common.{
  ℕ, ◌+◌, u64_mod, u64, ◌<◌, ◌≤◌, ◌≡◌, refl, ap, ◌∙◌, false, Option, some, none, List, [], ◌∷◌,
  ◌++◌, length, map, All, arith, drop-append, ltb, ◌==◌, length-append, ◌>>=◌,
}
use julea.Semantics.{Semantics, Persistency, storage}
use julea.Message.{Message}
use julea.Message.Buffer.{contents}
use julea.Message.Bytes.{Holds, moved}
use julea.Message.Stream.Arrival.{Arrived}
use julea.Message.Operations.{all_operations}
use julea.Message.Wire.{on_wire}
use julea.Message.Pairs.{get_8_twice-Holds}
use julea.Message.Reserve.{joined}
use julea.MemoryChunk.{MemoryChunk}
use julea.MemoryChunk
use julea.ObjectBackend.{ObjectBackend}
use julea.Server.{reply_to}
use julea.Server.Object.{
  Serving, write_bytes, write_open, write_loop, flush, close_open, handle_write,
}
use julea.Object.{Object, Write, write_request}
use julea.Object.Chunks.{write_bytes_of}
use julea.Object.Requests.{write_fields}
use julea.Object.Arrival.{WriteFits, Ready, CanSend, write_request-Arrived}

module _ (memory : ℕ → ℕ) (magnitude : ℕ → ℕ) (b : ObjectBackend) (address size : ℕ)
    (pos : 0 < address) (valid : address + size < u64_mod) where
  write_bytes-drop :
      (v : Serving b.State) (reply : Option Message) (s : b.State) (w : Write) (more : List ℕ)
      → Ready address size v s (w.bytes ++ more)
      → length w.bytes ≤ size
      → (v' : Serving b.State) × (write_bytes memory magnitude b none v reply
            (length w.bytes)
            w.offset
          ≡ some (v', reply))
        × Ready address size v' s more
  unfolding write_bytes MemoryChunk.get MemoryChunk.reset MemoryChunk.new write_open
  write_bytes-drop v reply s w more ready fits =
      let bytes = w.bytes in
      let len = length-append bytes more in
      let room : ltb (u64 (address + size)) (u64 (address + length bytes)) ≡ false = ground arith in
      let got : (address == 0) ≡ false = ground arith in
      let all : ltb (length (bytes ++ more)) (length bytes) ≡ false = ground (arith, len) in
      rw (ready.incoming, ready.chunk, room, got, all, drop-append bytes more)
        (_, refl, record { state = ready.state; incoming = refl; chunk = refl })

  write_loop-drop :
      (m : Message) (v : Serving b.State) (reply : Option Message) (s : b.State) (ws : List Write)
      (more : List ℕ)
      → All (WriteFits size) ws
      → Holds m (all_operations (map write_fields ws))
      → Ready address size v s (joined (map write_bytes_of ws) ++ more)
      → (m' : Message) × (v' : Serving b.State) × (write_loop memory magnitude b
            (length ws)
            m
            none
            v
            reply
          ≡ some (m', v', reply))
        × Ready address size v' s more
  unfolding write_loop all_operations joined MemoryChunk.new
  write_loop-drop m v reply s [] more fits h ready = (m, v, refl, ready)
  write_loop-drop m v reply s (w ∷ ws) more fits h ready =
      let rest = all_operations (map write_fields ws) in
      let behind = joined (map write_bytes_of ws) in
      let (e1, e2, t2) =
        get_8_twice-Holds m (length w.bytes) w.offset rest (omega (arith, fits.0.0, valid)) fits.0.1
          h in
      let small : ltb v.chunk.size (length w.bytes) ≡ false =
        rw (ready.chunk) (ground (arith, fits.0.0)) in
      let (v1, e3, ready1) =
        write_bytes-drop v reply s w (behind ++ more)
          (rw (append_assoc w.bytes behind more) at ready) fits.0.0 in
      let (m', v', e4, ready') =
        write_loop-drop (moved (moved m 8) 8) v1 reply s ws more fits.1 t2 ready1 in
      (m', v', rw (e1, e2, small, e3) e4, ready')

  -- How the handler ends without an open object: under storage persistency it flushes a handle
  -- that was never set.
  unfoldable pub unopened :
      Persistency → Serving b.State → Option Message → Option (Serving b.State × Option Message)
  unopened storage v reply = none
  unopened _ v reply = some (v, reply)

  finish :
      (p : Persistency) (v : Serving b.State) (reply : Option Message) (s : b.State) (more : List ℕ)
      → Ready address size v s more
      → (v' : Serving b.State) × ((flush memory magnitude b p none v >>= λ v2.
            let v3 = close_open memory magnitude b none v2 in
            some (record v3 { chunk = MemoryChunk.reset v3.chunk }, reply))
          ≡ unopened p v' reply)
        × Ready address size v' s more
  unfolding flush close_open unopened MemoryChunk.reset MemoryChunk.new
  finish storage v reply s more ready = (v, refl, ready)
  finish _ v reply s more ready = (
    record v { chunk = MemoryChunk.reset v.chunk },
    refl,
    record {
      state = ready.state;
      incoming = ready.incoming;
      chunk = ap MemoryChunk.reset ready.chunk;
    },
  )

  -- If the object cannot be opened and each write fits into the server's memory chunk, the handler
  -- takes the request's bytes from the connection and writes none: the backend is as after the
  -- attempt to open, and the reply, if one is wanted, has no operation. Under storage persistency
  -- the handler then faults. The request has arrived, its bytes are the next on the connection,
  -- and the chunk is as new. Names are texts, and the request stays below 4 GiB.
  pub handle_write-unopened :
      (random : ℕ)
      → ((n : ℕ) → 0 < n → 0 < magnitude n)
      → (s : Semantics) (o : Object) (ws : List Write) (m' : Message) (v : Serving b.State)
        (more : List ℕ)
      → CanSend memory random magnitude s o ws
      → All (WriteFits size) ws
      → v.chunk ≡ MemoryChunk.new address size
      → (b.open_object v.state o.namespace o.name).1 ≡ none
      → let m = write_request memory random magnitude o ws s in
        Arrived m' m.header (contents m)
        → v.incoming ≡ joined m.send_list ++ more
        → (v' : Serving b.State) × (handle_write memory magnitude b m' v
            ≡ unopened s.persistency v' (reply_to memory m' (on_wire s)))
          × Ready address size v' (b.open_object v.state o.namespace o.name).0 more
  unfolding handle_write
  handle_write-unopened random scaled s o ws m' v more send fits chunk opened arrived unread =
      let (e1, e2, e3, e4, t2, sends) =
        write_request-Arrived memory random magnitude scaled s o ws m' send arrived in
      let s1 = (b.open_object v.state o.namespace o.name).0 in
      let ready : Ready address size (record v { state = s1 }) s1
          (joined (map write_bytes_of ws) ++ more) =
        record {
          state = refl;
          incoming = unread ∙ ap (λ (xs : List ℕ). xs ++ more) sends;
          chunk = chunk;
        } in
      let (m1, v1, e5, ready1) =
        write_loop-drop _ (record v { state = s1 }) (reply_to memory m' (on_wire s)) s1 ws more fits
          t2 ready in
      let (v2, e6, ready2) =
        finish s.persistency v1 (reply_to memory m' (on_wire s)) s1 more ready1 in
      (v2, rw (e1, e2, e3, e4, opened, e5) e6, ready2)
