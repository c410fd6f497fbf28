-- ===== src/Object/Read.antt =====
-- lib/object/jobject.c: reading an object. The server may answer one request by several replies.
-- `none` is a fault: a handle that was not set, a reply that never comes, or bytes on the connection
-- that are not those of the operation at hand.
pub mod Requests
pub mod Groups
pub mod Loop
pub mod Small
pub mod Replies
pub mod Remote
pub mod Tests
use julea.Common.{
  ℕ, zero, suc, ◌+◌, ltb, ◌==◌, Bool, true, false, ◌&&◌, Option, none, some, List, [], ◌∷◌, ◌++◌,
  length, take, drop, if◌then◌else◌, ◌>>=◌, u32,
}
use julea.Semantics.{Semantics}
use julea.Message.{Message, append_8, add_operation, get_count, get_8}
use julea.ObjectBackend.{ObjectBackend}
use julea.Object.{Object, object_request}

-- The message type of include/core/jmessage.h.
abbrev pub object_read : ℕ
object_read = 7

pub record Read : Type 0 where
  pub len : ℕ
  pub offset : ℕ

module _ (memory : ℕ → ℕ) (random : ℕ) (magnitude : ℕ → ℕ) where
  unfoldable pub add_read : Message → Read → Message
  unfolding add_operation append_8
  add_read m r = (append_8 (append_8 (add_operation magnitude m (8 + 8)) r.len).0 r.offset).0

  unfoldable pub add_reads : Message → List Read → Message
  unfolding add_read
  add_reads m [] = m
  add_reads m (r ∷ rs) = add_reads (add_read m r) rs

  unfoldable pub read_request : Object → List Read → Semantics → Message
  unfolding object_request add_reads
  read_request o rs s = add_reads (object_request memory random magnitude object_read o s) rs

-- A reply as it was received, and the bytes that follow it on the connection before the next one.
abbrev pub Delivery : Type 0
Delivery = Message × List ℕ

-- The loop over the operations of one reply, `n` of them, as long as there are reads to be
-- answered: the bytes for each, and the reads that are left.
unfoldable pub read_answers :
    ℕ → List Read → Message → (stream : List ℕ) → Option (List (List ℕ) × List Read × List ℕ)
read_answers zero rs reply stream = some ([], rs, stream)
read_answers (suc n) [] reply stream = some ([], [], stream)
read_answers (suc n) (r ∷ rs) reply stream =
    let (reply', nbytes) = get_8 reply in
    if ltb (length stream) nbytes
    then none
    else (read_answers n rs reply' (drop nbytes stream) >>= λ (datas, rs', stream').
        some (take nbytes stream ∷ datas, rs', stream'))

-- The loop that receives replies until all operations are done: what was read for each of them,
-- and the result. The bytes behind a reply are all taken, or else they are taken for the next one.
unfoldable pub read_replies :
    (operation_count operations_done : ℕ)
    → List Read
    → List Delivery
    → Option (List (List ℕ) × Bool)
read_replies operation_count operations_done rs [] =
    if ltb operations_done operation_count then none else some ([], true)
read_replies operation_count operations_done rs ((reply, stream) ∷ more) =
    let n = get_count reply in
    let rest = read_answers n rs reply stream >>= λ (datas, rs', left).
    if length left == 0
    then (read_replies operation_count (u32 (operations_done + n)) rs' more >>= λ (datas', ret).
        some (datas ++ datas', ret))
    else none in
    if ltb operations_done operation_count
    then (if n == 0 then some ([], false) else rest)
    else some ([], true)

-- With a backend on the client's side.
module _ (b : ObjectBackend) where
  unfoldable pub read_each : b.Handle → b.State → List Read → Bool → b.State × List (List ℕ) × Bool
  read_each object s [] ret = (s, [], ret)
  read_each object s (r ∷ rs) ret =
      let (s', bytes, done) = b.read s object r.len r.offset in
      let (s'', datas, ret') = read_each object s' rs (done && ret) in (s'', bytes ∷ datas, ret')

  unfoldable pub read_local : Object → List Read → b.State → Option (b.State × List (List ℕ) × Bool)
  unfolding read_each
  read_local o rs s =
      let (s1, opened) = b.open_object s o.namespace o.name in
      opened >>= λ object.
      let (s2, datas, ret) = read_each object s1 rs true in
      let (s3, closed) = b.close s2 object in some (s3, datas, closed && ret)
