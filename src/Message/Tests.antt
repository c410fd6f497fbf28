-- ===== src/Message/Tests.antt =====
-- Messages at concrete values.
use julea.Common.{
  ℕ, ◌≡◌, refl, true, false, Option, none, some, List, [], ◌∷◌, ◌++◌, length, arith, leb,
  if◌then◌else◌, take, drop, take-append, drop-append, length-append, All,
}
use julea.Common.Slices.{copy_to}
use julea.Semantics.{Semantics, batch, session, network, strict}
use julea.Message.{Message, new, le_bytes, add_operation}
use julea.Message.Wire.{set_semantics, get_semantics, get_semantics-set_semantics}
use julea.Message.Buffer.{contents, IsBuilt}
use julea.Message.Reserve.{append_all, append_all-add_operation, joined, total}
use julea.Message.Bytes.{Field, int4, block, text, Fits, all_encoded, receive_all}
use julea.Message.Stream.{StreamLib, write, read, received, header_bytes, answers, write_list}
use julea.Message.Stream.Arrival.{
  Words, receive_all-read, read-write-Arrived, Arrived, message_bytes,
}

abbrev read_list : List ℕ → ℕ → List ℕ × Option (List ℕ)
read_list i n = (drop n i, if leb n (length i) then some (take n i) else none)

read_list-append :
    (i bs rest : List ℕ)
    → i ≡ bs ++ rest
    → ((read_list i (length bs)).1 ≡ some bs) × ((read_list i (length bs)).0 ≡ rest)
read_list-append i bs rest e =
    let fits : leb (length bs) (length (bs ++ rest)) ≡ true =
      ground (arith, length-append bs rest) in
    rw (e, fits, take-append bs rest) (refl, drop-append bs rest)

-- Streams as lists of bytes.
abbrev lists : StreamLib
lists = record {
  Output = List ℕ;
  Input = List ℕ;
  write_all = λ o bs. (o ++ bs, true);
  read_all = read_list;
  sent = λ o. o;
  unread = λ i. i;
  sent-write_all = λ o bs h. refl;
  read_all-unread = read_list-append;
}

abbrev empty : Message
empty = new (λ i. 0) 7 3 0

empty-IsBuilt : IsBuilt empty
unfolding new
empty-IsBuilt = record { at_end = refl; within = omega arith }

abbrev sample : Semantics
sample = record {
  atomicity = batch;
  consistency = session;
  persistency = network;
  security = strict;
  immutable = true;
  ref_count = 2;
}

get_semantics-set_semantics_example :
    get_semantics (set_semantics empty sample) ≡ record sample { immutable = false; ref_count = 1 }
get_semantics-set_semantics_example = get_semantics-set_semantics empty sample

-- A message that is full after 300 bytes of a text has been made room for.
append_all-add_operation_example :
    let (m', done) =
      append_all (add_operation (λ n. 10) empty 300) ((1 ∷ 2 ∷ []) ∷ (3 ∷ []) ∷ []) in
    (done ≡ true)
    × (contents m' ≡ contents empty ++ joined ((1 ∷ 2 ∷ []) ∷ (3 ∷ []) ∷ []))
    × IsBuilt m'
unfolding new total
append_all-add_operation_example =
    append_all-add_operation (λ n. 10) empty 300 ((1 ∷ 2 ∷ []) ∷ (3 ∷ []) ∷ []) (omega arith)
      (omega arith) empty-IsBuilt (omega arith)

-- A message with one integer and one text, and data behind it.
abbrev fields : List Field
fields = int4 5 ∷ text (97 ∷ 98 ∷ []) ∷ block (9 ∷ []) ∷ []

abbrev sending : Message
sending = record {
  header = record { length = 8; id = 7; semantics = 0; op_type = 3; op_count = 1 };
  size = 256;
  bytes = copy_to (λ i. 0) 0 (5 ∷ 0 ∷ 0 ∷ 0 ∷ 97 ∷ 98 ∷ 0 ∷ 9 ∷ []);
  current = 8;
  send_list = (1 ∷ 2 ∷ []) ∷ [];
  original = none;
  ref_count = 1;
}

fields-Fits : All Fits fields
fields-Fits =
    (omega arith, (((λ e. absurd (omega arith)), ((λ e. absurd (omega arith)), tt)), (tt, tt)))

sending-Words : Words sending.header
sending-Words = record {
  length = omega arith;
  id = omega arith;
  semantics = omega arith;
  op_type = omega arith;
  op_count = omega arith;
}

read-write-Arrived_example :
    (m' : Message) × ((read lists empty (message_bytes sending ++ 42 ∷ [])).1 ≡ received m')
    × Arrived m' sending.header (contents sending)
    × (lists.unread (read lists empty (message_bytes sending ++ 42 ∷ [])).0
        ≡ joined sending.send_list ++ 42 ∷ [])
unfolding write write_list header_bytes le_bytes new joined answers
read-write-Arrived_example =
    read-write-Arrived lists sending empty [] (message_bytes sending ++ 42 ∷ [])
      (message_bytes sending) (42 ∷ []) sending-Words refl refl refl refl

receive_all-read_example :
    (m' m'' : Message) × ((read lists empty (message_bytes sending ++ 42 ∷ [])).1 ≡ received m')
    × (receive_all m' fields ≡ some (m'', fields))
unfolding write write_list header_bytes le_bytes new joined all_encoded answers copy_to
receive_all-read_example =
    receive_all-read lists sending empty [] (message_bytes sending ++ 42 ∷ [])
      (message_bytes sending) (42 ∷ []) fields refl fields-Fits sending-Words refl refl refl refl
