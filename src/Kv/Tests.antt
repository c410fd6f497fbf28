-- ===== src/Kv/Tests.antt =====
-- A key-value store in memory, a client and a server.
use julea.Common.{
  ℕ, ◌<◌, ◌≡◌, refl, Bool, true, false, ◌&&◌, Option, none, some, List, [], ◌∷◌, map, arith,
  if◌then◌else◌, ◌==◌, All,
}
use julea.Common.Slices.{length-slice}
use julea.Semantics.{Semantics, batch, immediate, storage, strict}
use julea.Message.{
  Message, new, append_n, can_append, appended, add_operation, extend, get_count, le_bytes,
  new_reply,
}
use julea.Message.Reserve.{total}
use julea.Message.Buffer.{contents}
use julea.Message.Stream.Arrival.{Arrived}
use julea.Message.Operations.{operation, append_each}
use julea.Message.Wire.{on_wire, set_semantics}
use julea.KvBackend.{KvBackend}
use julea.Server.{reply_to}
use julea.Server.Answers.{answered, status_fields}
use julea.Server.Kv.{handle_put, handle_get}
use julea.Kv.{
  Kv, put_request, delete_request, get_request, put_local, get_local, get_each, read_values,
  request,
}
use julea.Kv.Requests.{put_fields, key_fields}
use julea.Kv.Remote.{PutFits, KeyFits, put_outcomes, handle_put-put_local, Sendable}
use julea.Kv.Get.{read_values-handle_get, get_reply, values}

abbrev same : List ℕ → List ℕ → Bool
same [] [] = true
same (a ∷ xs) (c ∷ cs) = a == c && same xs cs
same _ _ = false

abbrev find : List (List ℕ × List ℕ) → List ℕ → Option (List ℕ)
find [] key = none
find ((k, v) ∷ kvs) key = if same k key then some v else find kvs key

-- The batch is the namespace; a delete forgets everything.
abbrev pub in_memory : KvBackend
in_memory = record {
  State = List (List ℕ × List ℕ);
  Batch = List ℕ;
  batch_start = λ s namespace semantics. (s, namespace, true);
  put = λ s batch key value. ((key, value) ∷ s, true);
  delete = λ s batch key. ([], true);
  get = λ s batch key. (s, find s key);
  batch_execute = λ s batch. (s, true);
  get_all = λ s namespace. s;
  get_by_prefix = λ s namespace prefix. s;
}

abbrev pub kv : Kv
kv = record { index = 0; namespace = 110 ∷ []; key = 107 ∷ []; ref_count = 1 }

abbrev pub other : Kv
other = record { index = 0; namespace = 110 ∷ []; key = 108 ∷ 108 ∷ []; ref_count = 1 }

abbrev pub semantics : Semantics
semantics = record {
  atomicity = batch;
  consistency = immediate;
  persistency = storage;
  security = strict;
  immutable = true;
  ref_count = 2;
}

abbrev pub blank : ℕ → ℕ
blank i = 0

abbrev pub tens : ℕ → ℕ
tens n = 10

pub tens-pos : (n : ℕ) → 0 < n → 0 < tens n
tens-pos n h = omega arith

-- What arrives of a message.
abbrev pub arrived : Message → Message
arrived m = record {
  header = m.header;
  size = m.header.length;
  bytes = m.bytes;
  current = 0;
  send_list = [];
  original = none;
  ref_count = 1;
}

abbrev pub put_message : Message
put_message = put_request blank 7 tens (kv, 1 ∷ 2 ∷ []) ((other, 3 ∷ []) ∷ []) semantics

pub arrived-Arrived : (m : Message) → Arrived (arrived m) m.header (contents m)
arrived-Arrived m =
    let len = length-slice m.bytes 0 m.header.length in
    (
      refl,
      refl,
      refl,
      record { bytes = rw len refl; inside = omega (arith, len); within = omega arith },
    )

pub put_fits : All PutFits ((kv, 1 ∷ 2 ∷ []) ∷ (other, 3 ∷ []) ∷ [])
put_fits = (
  (((λ e. absurd (omega arith)), tt), omega arith),
  ((((λ e. absurd (omega arith)), ((λ e. absurd (omega arith)), tt)), omega arith), tt),
)

pub put-Sendable :
    Sendable blank 7 tens in_memory tens-pos semantics 11
      (110 ∷ [])
      (map put_fields ((kv, 1 ∷ 2 ∷ []) ∷ (other, 3 ∷ []) ∷ []))
unfolding request new set_semantics append_n can_append appended operation add_operation extend
    get_count append_each total le_bytes
put-Sendable =
    (((λ e. absurd (omega arith)), tt), omega arith, (omega arith, (omega arith, tt)), omega arith)

handle_put-put_local_example :
    handle_put blank tens in_memory (arrived put_message) []
    ≡ some (
      (put_local in_memory (kv, 1 ∷ 2 ∷ []) ((other, 3 ∷ []) ∷ []) (on_wire semantics) []).0,
      answered tens
          (reply_to blank (arrived put_message) (on_wire semantics))
          (map status_fields (true ∷ true ∷ [])),
    )
unfolding put_outcomes
handle_put-put_local_example =
    handle_put-put_local blank 7 tens in_memory tens-pos semantics (kv, 1 ∷ 2 ∷ [])
      ((other, 3 ∷ []) ∷ []) (arrived put_message) [] put-Sendable put_fits
      (arrived-Arrived put_message)

pub key-Sendable :
    (op_type : ℕ)
    → Sendable blank 7 tens in_memory tens-pos semantics op_type
        (110 ∷ [])
        (map key_fields (kv ∷ other ∷ []))
unfolding request new set_semantics append_n can_append appended operation add_operation extend
    get_count append_each total le_bytes
key-Sendable op_type =
    (((λ e. absurd (omega arith)), tt), omega arith, (omega arith, (omega arith, tt)), omega arith)

pub key_fits : All KeyFits (kv ∷ other ∷ [])
key_fits = (
  ((λ e. absurd (omega arith)), tt),
  (((λ e. absurd (omega arith)), ((λ e. absurd (omega arith)), tt)), tt),
)

abbrev pub delete_message : Message
delete_message = delete_request blank 7 tens kv (other ∷ []) semantics

abbrev pub get_message : Message
get_message = get_request blank 7 tens kv (other ∷ []) semantics

-- The first key is found, and the second is not.
abbrev stored : List (List ℕ × List ℕ)
stored = (107 ∷ [], 5 ∷ 6 ∷ []) ∷ []

abbrev reply : Message
reply =
    get_reply blank 7 tens in_memory tens-pos semantics kv (other ∷ []) (arrived get_message) stored

read_values-handle_get_example :
    (handle_get blank tens in_memory (arrived get_message) stored
      ≡ some ((get_local in_memory kv (other ∷ []) (on_wire semantics) stored).0, reply))
    × (read_values (kv ∷ other ∷ []) (arrived reply) true ≡ (
      (get_each in_memory (110 ∷ []) stored (kv ∷ other ∷ []) true).1,
      (get_each in_memory (110 ∷ []) stored (kv ∷ other ∷ []) true).2,
    ))
    × ((get_local in_memory kv (other ∷ []) (on_wire semantics) stored).1
        ≡ (get_each in_memory (110 ∷ []) stored (kv ∷ other ∷ []) true).1)
unfolding values new_reply append_n can_append appended operation add_operation extend get_count
    append_each total le_bytes
read_values-handle_get_example =
    read_values-handle_get blank 7 tens in_memory tens-pos semantics kv (other ∷ [])
      (arrived get_message) (arrived reply) stored (key-Sendable 13) key_fits
      ((omega arith, omega arith), (tt, tt)) (omega arith, (omega arith, tt)) (omega arith)
      (arrived-Arrived get_message) (arrived-Arrived reply)

misses : (get_each in_memory (110 ∷ []) stored (kv ∷ other ∷ []) true).2 ≡ false
unfolding get_each
misses = refl
