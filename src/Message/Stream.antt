-- ===== src/Message/Stream.antt =====
-- `j_message_write` and `j_message_read`: messages on a stream.
pub mod Arrival
use mathlib.Core.List.{append-nil, append_assoc}
use julea.Common.{
  ℕ, ◌<◌, ◌≤◌, ◌≡◌, refl, sym, ap, ◌∙◌, true, false, Bool, Option, none, some, List, [], ◌∷◌, ◌++◌,
  length, arith, leb, Bool-cases, inl, inr, u32_mod, if◌then◌else◌, ◌==◌, take, drop, append_inj,
  All,
}
use julea.Common.Slices.{slice, copy_to, slice-copy_to, length-slice}
use julea.Message.{Message, Header, le_bytes, of_le_bytes, ensure_size}
use julea.Message.Buffer.{contents}
use julea.Message.Bytes.{
  of_le_bytes-le_bytes, Field, Fits, all_encoded, receive_all, Holds, receive_all-Holds,
}
use julea.Message.Reserve.{joined}

-- The streams of GIO: a blocking call transfers all bytes or reports an error. The laws say that
-- what is written arrives behind what was written before, and that the bytes that are available
-- are read in order.
pub record StreamLib : Type 1 where
  pub Output : Type 0
  pub Input : Type 0
  pub write_all : Output → List ℕ → Output × Bool
  pub read_all : Input → ℕ → Input × Option (List ℕ)
  pub sent : Output → List ℕ
  pub unread : Input → List ℕ
  pub sent-write_all :
      (o : Output) (bs : List ℕ)
      → (write_all o bs).1 ≡ true
      → sent (write_all o bs).0 ≡ sent o ++ bs
  pub read_all-unread :
      (i : Input) (bs rest : List ℕ)
      → unread i ≡ bs ++ rest
      → ((read_all i (length bs)).1 ≡ some bs) × (unread (read_all i (length bs)).0 ≡ rest)

-- The packed struct, as it stands in memory.
unfoldable pub header_bytes : Header → List ℕ
header_bytes h =
    le_bytes 4 h.length
    ++ le_bytes 4 h.id
    ++ le_bytes 4 h.semantics
    ++ le_bytes 4 h.op_type
    ++ le_bytes 4 h.op_count

unfoldable pub header_of : List ℕ → Header
header_of bs = record {
  length = of_le_bytes (take 4 bs);
  id = of_le_bytes (take 4 (drop 4 bs));
  semantics = of_le_bytes (take 4 (drop 8 bs));
  op_type = of_le_bytes (take 4 (drop 12 bs));
  op_count = of_le_bytes (take 4 (drop 16 bs));
}

-- What `j_message_read` does: it returns FALSE, it aborts as a reply has the ID of another message,
-- or it fills the message.
pub data Received : Type 0 where
  failed aborted : Received
  received : Message → Received

-- A reply has the ID of the message that it answers.
unfoldable pub answers : Option ℕ → ℕ → Bool
answers none id = true
answers (some original) id = id == original

-- The message with its header and its data read.
unfoldable pub filled : Message → Header → List ℕ → Received
unfolding ensure_size answers
filled m h bs =
    let m' = ensure_size (record m { header = h }) h.length in
    if answers m.original h.id
    then received (record m' { bytes = copy_to m'.bytes 0 bs; current = 0 })
    else aborted

module _ (g : StreamLib) where
  unfoldable pub write_list : g.Output → List (List ℕ) → g.Output × Bool
  write_list o [] = (o, true)
  write_list o (b ∷ bs) =
      let (o', done) = g.write_all o b in
      let rest = write_list o' bs in if done then rest else (o', false)

  unfoldable pub write : Message → g.Output → g.Output × Bool
  unfolding slice
  write m o =
      let (o1, header_done) = g.write_all o (header_bytes m.header) in
      let (o2, data_done) = g.write_all o1 (slice m.bytes 0 m.header.length) in
      if header_done
      then (if data_done then write_list o2 m.send_list else (o2, false))
      else (o1, false)

  unfoldable pub read_data : Message → Header → g.Input × Option (List ℕ) → g.Input × Received
  unfolding filled
  read_data m h (i, none) = (i, failed)
  read_data m h (i, some bs) = (i, filled m h bs)

  unfoldable pub read_header : Message → g.Input × Option (List ℕ) → g.Input × Received
  unfolding read_data header_of
  read_header m (i, none) = (i, failed)
  read_header m (i, some bs) = read_data m (header_of bs) (g.read_all i (header_of bs).length)

  unfoldable pub read : Message → g.Input → g.Input × Received
  unfolding read_header
  read m i = read_header m (g.read_all i 20)
