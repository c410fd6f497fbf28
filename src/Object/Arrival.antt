-- ===== src/Object/Arrival.antt =====
-- What the server knows of a write request that arrived.
use mathlib.Core.List.{append_assoc}
use julea.Common.{
  ℕ, ◌+◌, ◌^◌, u32_mod, ◌<◌, ◌≤◌, ◌≡◌, ap, ◌∙◌, some, List, [], ◌∷◌, ◌++◌, length, map,
}
use julea.Semantics.{Semantics}
use julea.Message.{Message, Header, get_count, get_string}
use julea.Message.Buffer.{contents}
use julea.Message.Bytes.{Holds, moved, next-Holds, get_string-Holds}
use julea.Message.Stream.Arrival.{Arrived}
use julea.Message.Operations.{all_operations, Carries}
use julea.Message.Wire.{serialized, get_semantics, get_semantics_of_word, on_wire}
use julea.Message.Reserve.{joined}
use julea.MemoryChunk.{MemoryChunk}
use julea.MemoryChunk
use julea.Server.Object.{Serving}
use julea.Object.{Object, Write, write_request, object_request, object_write}
use julea.Kv.Requests.{IsText}
use julea.Object.Chunks.{write_bytes_of}
use julea.Object.Requests.{names, write_fields, WritesSmall, write_request-Carries}

-- A write that fits into the server's memory chunk.
abbrev pub WriteFits : (size : ℕ) → Write → Type 0
WriteFits size w = (length w.bytes ≤ size) × (w.offset < 2 ^ 64)

pub get_count-same :
    (m m' : Message) (n : ℕ) → m'.header ≡ m.header → m.header.op_count ≡ n → get_count m' ≡ n
unfolding get_count
get_count-same m m' n h e = ap (λ (h : Header). h.op_count) h ∙ e

-- A thread of the server between two writes: its memory chunk is as new.
pub record Ready {State : Type 0} (address size : ℕ) (v : Serving State) (s : State)
    (unread : List ℕ) : Type 0 where
  pub state : v.state ≡ s
  pub incoming : v.incoming ≡ unread
  pub chunk : v.chunk ≡ MemoryChunk.new address size

-- A request of any type for an object has arrived.
pub object_request-Arrived :
    (random op_type count : ℕ) (s : Semantics) (o : Object) (ops : List ℕ) (m m' : Message)
    → IsText o.namespace
    → IsText o.name
    → Carries m random (serialized s) op_type count (names o ++ ops)
    → Arrived m' m.header (contents m)
    → let m1 = moved m' (length (o.namespace ++ 0 ∷ [])) in
      let m2 = moved m1 (length (o.name ++ 0 ∷ [])) in
      (get_string m' ≡ some (m1, o.namespace))
      × (get_string m1 ≡ some (m2, o.name))
      × (get_semantics m' ≡ on_wire s)
      × (get_count m' ≡ count)
      × Holds m2 ops
object_request-Arrived random op_type count s o ops m m' text1 text2 c (h, same, start, holds) =
    let ns = o.namespace ++ 0 ∷ [] in
    let name = o.name ++ 0 ∷ [] in
    let (h1, t1) =
      next-Holds m' ns (name ++ ops) (rw (c.holds, append_assoc ns name ops) at holds) in
    let (h2, t2) = next-Holds (moved m' (length ns)) name ops t1 in
    (
      get_string-Holds m' o.namespace text1 h1,
      get_string-Holds (moved m' (length ns)) o.name text2 h2,
      get_semantics_of_word m' s (ap (λ (h : Header). h.semantics) h ∙ c.same_semantics),
      get_count-same m m' count h c.counted,
      t2,
    )

module _ (memory : ℕ → ℕ) (random : ℕ) (magnitude : ℕ → ℕ) where
  -- The names are texts, and the message stays below 4 GiB.
  abbrev pub CanSend : Semantics → Object → List Write → Type 0
  CanSend s o ws =
      IsText o.namespace
      × IsText o.name
      × (length o.namespace + 1 + (length o.name + 1) < u32_mod)
      × WritesSmall memory random magnitude
          (object_request memory random magnitude object_write o s) ws
      × (length ws < u32_mod)

  pub write_request-Arrived :
      ((n : ℕ) → 0 < n → 0 < magnitude n)
      → (s : Semantics) (o : Object) (ws : List Write) (m' : Message) → CanSend s o ws
      → let m = write_request memory random magnitude o ws s in
        Arrived m' m.header (contents m)
        → let m1 = moved m' (length (o.namespace ++ 0 ∷ [])) in
          let m2 = moved m1 (length (o.name ++ 0 ∷ [])) in
          (get_string m' ≡ some (m1, o.namespace))
          × (get_string m1 ≡ some (m2, o.name))
          × (get_semantics m' ≡ on_wire s)
          × (get_count m' ≡ length ws)
          × Holds m2 (all_operations (map write_fields ws))
          × (joined m.send_list ≡ joined (map write_bytes_of ws))
  write_request-Arrived scaled s o ws m' (text1, text2, short, small, few) arrived =
      let m = write_request memory random magnitude o ws s in
      let (c, sends) =
        write_request-Carries memory random magnitude scaled o ws s short small few in
      let ops = all_operations (map write_fields ws) in
      let (e1, e2, e3, e4, h) =
        object_request-Arrived random object_write (length ws) s o ops m m' text1 text2 c arrived in
      (e1, e2, e3, e4, h, sends)
