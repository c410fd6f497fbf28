-- ===== src/DistributedObject.antt =====
-- The write and read loops of lib/object/jdistributed-object.c for one operation without a local
-- backend: the range is split by the distribution, and each piece goes to its server.
-- The servers' object backends are a store: what `pwrite` and `pread` do at a place.
pub mod Pieces
pub mod Flat
pub mod Tests
use julea.Common.{
  ℕ, zero, suc, ◌+◌, ◌-◌, ◌>>=◌, Option, none, some, List, [], ◌∷◌, ◌++◌, ◌&&◌, ◌==◌, leb, ltb,
  if◌then◌else◌, take, drop, get_or, length,
}
use julea.Distribution.Piece.{Piece, Place}
use julea.Distribution.Scheme.{split}
use julea.Distribution.Dispatch
use julea.Distribution.Dispatch.{Distribution, distribute, reset}

pub record DistributedObject : Type 0 where
  pub namespace : List ℕ
  pub name : List ℕ
  pub distribution : Distribution
  pub ref_count : ℕ

unfoldable pub new : (namespace name : List ℕ) → Distribution → DistributedObject
unfolding Dispatch.ref
new namespace name distribution = record {
  namespace = namespace;
  name = name;
  distribution = Dispatch.ref distribution;
  ref_count = 1;
}

-- The bytes of all servers.
abbrev pub Store : Type 0
Store = Place → ℕ

-- The backend's write of `bytes` at the piece's server and offset.
pub write_piece : Store → Piece → List ℕ → Store
write_piece s c bytes at =
    if (at.server == c.index)
      && leb c.new_offset at.position
      && ltb at.position (c.new_offset + c.new_length)
    then get_or bytes (at.position - c.new_offset) 0
    else s at

-- The body of the write loop: `new_data` moves on by `new_length`.
pub write_pieces : Store → List Piece → List ℕ → Store
unfolding write_piece
write_pieces s [] new_data = s
write_pieces s (c ∷ cs) new_data =
    write_pieces (write_piece s c (take c.new_length new_data)) cs (drop c.new_length new_data)

-- The backend's read of `n` bytes.
pub read_bytes : Store → ℕ → ℕ → ℕ → List ℕ
read_bytes s server position zero = []
read_bytes s server position (suc n) =
    s (record { server = server; position = position }) ∷ read_bytes s server (position + 1) n

-- The body of the read loop: each piece fills the buffer behind the ones before.
pub read_pieces : Store → List Piece → List ℕ
unfolding read_bytes
read_pieces s [] = []
read_pieces s (c ∷ cs) = read_bytes s c.index c.new_offset c.new_length ++ read_pieces s cs

-- The pieces of `[offset, offset + length)`. Each round takes at least one byte, so `length + 1`
-- rounds are enough.
pub pieces_of : Distribution → ℕ → ℕ → Option (List Piece × Distribution)
pieces_of d length offset = reset d length offset >>= λ d'. split distribute (length + 1) d'

pub write : Distribution → Store → List ℕ → ℕ → Option (Store × Distribution)
unfolding pieces_of write_pieces
write d s new_data offset =
    pieces_of d (length new_data) offset >>= λ (cs, d'). some (write_pieces s cs new_data, d')

pub read : Distribution → Store → ℕ → ℕ → Option (List ℕ × Distribution)
unfolding pieces_of read_pieces
read d s length offset = pieces_of d length offset >>= λ (cs, d'). some (read_pieces s cs, d')
