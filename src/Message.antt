-- ===== src/Message.antt =====
-- lib/core/jmessage.c: messages with a growing buffer. `data` is the allocated memory, as a
-- function of the offset, and `current` an offset into it. Integers are sent in little-endian
-- order on every host. Pointers do not wrap.
pub mod Wire
pub mod Bytes
pub mod Buffer
pub mod Reserve
pub mod Operations
pub mod Sending
pub mod Pairs
pub mod Iteration
pub mod Stream
pub mod Tests
use julea.Common.Slices.{slice, copy_to}
use julea.Common.{
  ℕ, zero, suc, ◌+◌, ◌-◌, ◌*◌, ◌/◌, ◌%◌, max, Bool, true, false, ◌&&◌, Option, none, some, List, [],
  ◌∷◌, ◌++◌, ◌==◌, leb, ltb, if◌then◌else◌, length, get_or, u32, u64,
}

pub record Header : Type 0 where
  pub length : ℕ
  pub id : ℕ
  pub semantics : ℕ
  pub op_type : ℕ
  pub op_count : ℕ

-- `send_list` holds the byte strings of the `JMessageData` elements, and `original` the ID of the
-- message that a reply answers.
pub record Message : Type 0 where
  pub header : Header
  pub size : ℕ
  pub bytes : ℕ → ℕ
  pub current : ℕ
  pub send_list : List (List ℕ)
  pub original : Option ℕ
  pub ref_count : ℕ

-- `memory` is what `g_malloc` returns, and `random` what `g_random_int` returns.
unfoldable pub new : (memory : ℕ → ℕ) → (random op_type length : ℕ) → Message
new memory random op_type length = record {
  header = record { length = 0; id = random; semantics = 0; op_type = op_type; op_count = 0 };
  size = max 256 length;
  bytes = memory;
  current = 0;
  send_list = [];
  original = none;
  ref_count = 1;
}

unfoldable pub new_reply : (memory : ℕ → ℕ) → Message → Message
new_reply memory m = record {
  header = record {
    length = 0;
    id = m.header.id;
    semantics = 0;
    op_type = m.header.op_type;
    op_count = 0;
  };
  size = 256;
  bytes = memory;
  current = 0;
  send_list = [];
  original = some m.header.id;
  ref_count = 1;
}

unfoldable pub ref : Message → Message
ref m = record m { ref_count = m.ref_count + 1 }

-- The freed message is `none`.
unfoldable pub unref : Message → Option Message
unref m = if m.ref_count == 1 then none else some (record m { ref_count = m.ref_count - 1 })

unfoldable pub can_append : Message → ℕ → Bool
can_append m n = leb (m.current + n) m.size

unfoldable pub can_get : Message → ℕ → Bool
can_get m n = leb (m.current + n) m.header.length

-- The message with the bytes behind `current`.
unfoldable pub appended : Message → List ℕ → Message
appended m bs = record m {
  bytes = copy_to m.bytes m.current bs;
  current = m.current + length bs;
  header = record (m.header) { length = u32 (m.header.length + length bs) };
}

unfoldable pub append_n : Message → List ℕ → Message × Bool
append_n m bs = if can_append m (length bs) then (appended m bs, true) else (m, false)

-- The `n` low bytes of a number, the lowest first.
unfoldable pub le_bytes : ℕ → ℕ → List ℕ
le_bytes zero v = []
le_bytes (suc n) v = (v % 256) ∷ le_bytes n (v / 256)

unfoldable pub append_1 : Message → ℕ → Message × Bool
append_1 m v = append_n m (le_bytes 1 v)

unfoldable pub append_4 : Message → ℕ → Message × Bool
append_4 m v = append_n m (le_bytes 4 v)

unfoldable pub append_8 : Message → ℕ → Message × Bool
append_8 m v = append_n m (le_bytes 8 v)

-- The terminating zero byte is sent too.
unfoldable pub append_string : Message → List ℕ → Message × Bool
append_string m str = append_n m (str ++ 0 ∷ [])

unfoldable pub of_le_bytes : List ℕ → ℕ
of_le_bytes [] = 0
of_le_bytes (b ∷ bs) = b + 256 * of_le_bytes bs

unfoldable pub get_n : Message → ℕ → Message × Option (List ℕ)
unfolding can_get slice
get_n m n =
    if can_get m n
    then (record m { current = m.current + n }, some (slice m.bytes m.current n))
    else (m, none)

-- A number that cannot be read is 0.
abbrev pub number : Message × Option (List ℕ) → Message × ℕ
number (m, none) = (m, 0)
number (m, some bs) = (m, of_le_bytes bs)

unfoldable pub get_1 : Message → Message × ℕ
unfolding of_le_bytes
get_1 m = number (get_n m 1)

unfoldable pub get_4 : Message → Message × ℕ
unfolding of_le_bytes
get_4 m = number (get_n m 4)

unfoldable pub get_8 : Message → Message × ℕ
unfolding of_le_bytes
get_8 m = number (get_n m 8)

-- The bytes up to the next zero, among the `n` bytes from `p` on. `none` is a read behind them.
unfoldable pub string_at : (ℕ → ℕ) → ℕ → ℕ → Option (List ℕ)
string_at memory p zero = none
string_at memory p (suc n) =
    if memory p == 0
    then some []
    else elim (string_at memory (suc p) n) [ none ↦ none | some bs ↦ some (memory p ∷ bs) ]

-- There is no check against the length: `none` is a read behind the allocated memory.
unfoldable pub get_string : Message → Option (Message × List ℕ)
unfolding string_at
get_string m = elim (string_at m.bytes m.current (m.size - m.current)) [
  | none ↦ none
  | some bs ↦ some (record m { current = m.current + length bs + 1 }, bs)
]

unfoldable pub get_count : Message → ℕ
get_count m = m.header.op_count

unfoldable pub get_type : Message → ℕ
get_type m = m.header.op_type

-- `magnitude count` is `pow(10, floor(log10(count)))`, which libm computes.
module _ (magnitude : ℕ → ℕ) where
  unfoldable pub extend : Message → ℕ → Message
  extend m n =
      if n == 0
      then m
      else if leb (m.header.length + n) m.size
      then m
      else let factor : ℕ = if ltb 10 (get_count m) then magnitude (get_count m) else 1 in
        record m { size = u64 (m.size + n * factor) }

  unfoldable pub add_operation : Message → ℕ → Message
  unfolding extend get_count
  add_operation m n =
      extend (record m { header = record (m.header) { op_count = u32 (get_count m + 1) } }) n

unfoldable pub ensure_size : Message → ℕ → Message
ensure_size m n = if leb n m.size then m else record m { size = n }

-- Empty data is refused.
unfoldable pub add_send : Message → List ℕ → Message
add_send m bs = if length bs == 0 then m else record m { send_list = m.send_list ++ bs ∷ [] }
