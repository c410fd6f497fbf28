-- ===== src/Message/Stream/Arrival.antt =====
-- What is written to a stream arrives: the header, the contents, and the fields in them.
use mathlib.Core.List.{append-nil, append_assoc}
use julea.Common.{
  ℕ, ◌<◌, ◌≤◌, ◌≡◌, refl, sym, ap, ◌∙◌, true, Option, some, List, [], ◌∷◌, ◌++◌, length, arith, leb,
  Bool-cases, inl, inr, u32_mod, append_inj, All,
}
use julea.Common.Slices.{copy_to, slice-copy_to, length-slice}
use julea.Message.{Message, Header, le_bytes, of_le_bytes, ensure_size}
use julea.Message.Buffer.{contents}
use julea.Message.Bytes.{
  of_le_bytes-le_bytes, Field, Fits, all_encoded, receive_all, Holds, receive_all-Holds,
}
use julea.Message.Reserve.{joined}
use julea.Message.Stream.{
  StreamLib, header_bytes, header_of, received, write_list, write, answers, filled, read_data,
  read_header, read,
}

-- A message whose data are `bs`, ready to be read from the start.
abbrev pub Arrived : Message → Header → List ℕ → Type 0
Arrived m h bs = (m.header ≡ h) × (contents m ≡ bs) × (m.current ≡ 0) × Holds m bs

-- What a message is on the stream.
abbrev pub message_bytes : Message → List ℕ
message_bytes m = header_bytes m.header ++ (contents m ++ joined m.send_list)

-- The fields of a header are 32-bit words.
pub record Words (h : Header) : Type 0 where
  pub length : h.length < u32_mod
  pub id : h.id < u32_mod
  pub semantics : h.semantics < u32_mod
  pub op_type : h.op_type < u32_mod
  pub op_count : h.op_count < u32_mod

length-header_bytes : (h : Header) → length (header_bytes h) ≡ 20
unfolding header_bytes le_bytes
length-header_bytes h = refl

word : (v : ℕ) → v < u32_mod → of_le_bytes (le_bytes 4 v) ≡ v
word v lt = of_le_bytes-le_bytes 4 v (omega arith)

abbrev reread : Header → Header
reread h = record {
  length = of_le_bytes (le_bytes 4 h.length);
  id = of_le_bytes (le_bytes 4 h.id);
  semantics = of_le_bytes (le_bytes 4 h.semantics);
  op_type = of_le_bytes (le_bytes 4 h.op_type);
  op_count = of_le_bytes (le_bytes 4 h.op_count);
}

reread-Words : (h : Header) → Words h → reread h ≡ h
reread-Words h w =
    rw
      (
        word h.length w.length,
        word h.id w.id,
        word h.semantics w.semantics,
        word h.op_type w.op_type,
        word h.op_count w.op_count,
      )
      refl

header_of-header_bytes : (h : Header) → Words h → header_of (header_bytes h) ≡ h
unfolding header_of header_bytes le_bytes
header_of-header_bytes h w = reread-Words h w

module _ (g : StreamLib) where
  write_list-sent :
      (o : g.Output) (bs : List (List ℕ))
      → (write_list g o bs).1 ≡ true
      → g.sent (write_list g o bs).0 ≡ g.sent o ++ joined bs
  unfolding write_list joined
  write_list-sent o [] h = sym (append-nil (g.sent o))
  write_list-sent o (b ∷ bs) h = elim (Bool-cases (g.write_all o b).1) [
    | inl done ↦ rw done (
        write_list-sent (g.write_all o b).0 bs (rw done at h)
        ∙ ap (λ (xs : List ℕ). xs ++ joined bs) (g.sent-write_all o b done)
        ∙ append_assoc (g.sent o) b (joined bs))
    | inr broken ↦ absurd (ground arith)
  ]

  write-sent :
      (m : Message) (o : g.Output)
      → (write g m o).1 ≡ true
      → g.sent (write g m o).0 ≡ g.sent o ++ message_bytes m
  unfolding write
  write-sent m o h =
      let hb = header_bytes m.header in
      let o1 = (g.write_all o hb).0 in
      let o2 = (g.write_all o1 (contents m)).0 in
      elim (Bool-cases (g.write_all o hb).1) [
        | inr broken ↦ absurd (ground arith)
        | inl d1 ↦ elim (Bool-cases (g.write_all o1 (contents m)).1) [
          | inr broken ↦ absurd (ground arith)
          | inl d2 ↦
              let e1 = g.sent-write_all o hb d1 in
              let e2 = g.sent-write_all o1 (contents m) d2 in
              let e3 = write_list-sent o2 m.send_list (rw (d1, d2) at h) in
              rw (d1, d2)
                (e3
                  ∙ ap (λ (xs : List ℕ). xs ++ joined m.send_list)
                      (e2 ∙ ap (λ (xs : List ℕ). xs ++ contents m) e1)
                  ∙ append_assoc (g.sent o ++ hb) (contents m) (joined m.send_list)
                  ∙ append_assoc (g.sent o) hb (contents m ++ joined m.send_list))
        ]
      ]

  read-unread :
      (m : Message) (h : Header) (i : g.Input) (bs rest : List ℕ)
      → Words h
      → length bs ≡ h.length
      → g.unread i ≡ header_bytes h ++ (bs ++ rest)
      → ((read g m i).1 ≡ filled m h bs) × (g.unread (read g m i).0 ≡ rest)
  unfolding read read_header read_data
  read-unread m h i bs rest w len e =
      let first =
        rw (length-header_bytes h) at (g.read_all-unread i (header_bytes h) (bs ++ rest) e) in
      let second = rw len at (g.read_all-unread (g.read_all i 20).0 bs rest first.1) in
      let i' = (g.read_all i 20).0 in
      let step : read g m i ≡ ((g.read_all i' h.length).0, filled m h bs) =
        ap (λ (o : Option (List ℕ)). read_header g m (i', o)) first.0
        ∙ ap (λ (hd : Header). read_data g m hd (g.read_all i' hd.length))
            (header_of-header_bytes h w)
        ∙ ap (λ (o : Option (List ℕ)). read_data g m h ((g.read_all i' h.length).0, o)) second.0 in
      rw step (refl, second.1)

  resized :
      (m : Message) (n : ℕ) → (size : ℕ) × (ensure_size m n ≡ record m { size = size }) × (n ≤ size)
  unfolding ensure_size
  resized m n = elim (Bool-cases (leb n m.size)) [
    | inl fits ↦ (m.size, rw fits refl, ground arith)
    | inr full ↦ (n, rw full refl, omega arith)
  ]

  filled-Arrived :
      (m : Message) (h : Header) (bs : List ℕ)
      → answers m.original h.id ≡ true
      → length bs ≡ h.length
      → (m' : Message) × (filled m h bs ≡ received m') × Arrived m' h bs
  unfolding filled
  filled-Arrived m h bs ok len =
      let (size, e, room) = resized (record m { header = h }) h.length in
      let m' : Message = record m {
        header = h;
        size = size;
        bytes = copy_to m.bytes 0 bs;
        current = 0;
      } in
      let written = slice-copy_to m.bytes 0 bs in
      (
        m',
        rw (ok, e) refl,
        (
          refl,
          rw len at written,
          refl,
          record { bytes = written; inside = omega (arith, len); within = room },
        ),
      )

  -- What was written arrives: if `j_message_write` succeeds and the reader is at the first of the
  -- bytes that it put on the stream, `j_message_read` fills the reader's message with the same
  -- header and contents, at the start, and leaves the data of the send list. The reader's message
  -- is no reply, or a reply to the message with this ID.
  pub read-write-Arrived :
      (m m0 : Message) (o : g.Output) (i : g.Input) (wire more : List ℕ)
      → Words m.header
      → answers m0.original m.header.id ≡ true
      → (write g m o).1 ≡ true
      → g.sent (write g m o).0 ≡ g.sent o ++ wire
      → g.unread i ≡ wire ++ more
      → (m' : Message) × ((read g m0 i).1 ≡ received m')
        × Arrived m' m.header (contents m)
        × (g.unread (read g m0 i).0 ≡ joined m.send_list ++ more)
  read-write-Arrived m m0 o i wire more w ok done sent e =
      let same : wire ≡ message_bytes m =
        (append_inj (g.sent o) wire (g.sent o) (message_bytes m) refl
          (sym sent ∙ write-sent m o done)).1 in
      let len = length-slice m.bytes 0 m.header.length in
      let front =
        append_assoc (header_bytes m.header) (contents m ++ joined m.send_list) more
        ∙ ap (λ (xs : List ℕ). header_bytes m.header ++ xs)
            (append_assoc (contents m) (joined m.send_list) more) in
      let (result, rest) =
        read-unread m0 m.header i (contents m) (joined m.send_list ++ more) w len
          (e ∙ ap (λ (xs : List ℕ). xs ++ more) same ∙ front) in
      let (m', filled_eq, arrived) = filled-Arrived m0 m.header (contents m) ok len in
      (m', result ∙ filled_eq, arrived, rest)

  -- Sent fields arrive: a message whose contents are integers, blocks and texts, written to a
  -- stream and read from it, yields the same fields to the get calls of the receiver.
  pub receive_all-read :
      (m m0 : Message) (o : g.Output) (i : g.Input) (wire more : List ℕ) (fs : List Field)
      → contents m ≡ all_encoded fs
      → All Fits fs
      → Words m.header
      → answers m0.original m.header.id ≡ true
      → (write g m o).1 ≡ true
      → g.sent (write g m o).0 ≡ g.sent o ++ wire
      → g.unread i ≡ wire ++ more
      → (m' m'' : Message) × ((read g m0 i).1 ≡ received m') × (receive_all m' fs ≡ some (m'', fs))
  receive_all-read m m0 o i wire more fs built fits w ok done sent e =
      let (m', got, (h, c, z, holds), rest) =
        read-write-Arrived m m0 o i wire more w ok done sent e in
      (m', _, got, receive_all-Holds m' fs fits (rw built at holds))
