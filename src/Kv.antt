-- ===== src/Kv.antt =====
-- lib/kv/jkv.c: the client of the key-value store. An operation's function sends a message to the
-- server, or calls the client's own backend. Texts are lists of bytes without the closing zero
-- byte, and have none inside.
pub mod Stored
pub mod Uri
pub mod Requests
pub mod Remote
pub mod Get
pub mod Iterator
pub mod Tests
use julea.Common.{
  ℕ, ◌+◌, ◌-◌, ◌*◌, ◌%◌, ◌==◌, ltb, Bool, true, false, ◌&&◌, Option, none, some, List, [], ◌∷◌,
  ◌++◌, length, if◌then◌else◌, u32, u32_mod,
}
use julea.Semantics.{Semantics, Persistency, storage, network, volatile}
use julea.Message.{Message, append_n, append_4, append_string, add_operation, get_4, get_n}
use julea.Message
use julea.Message.Wire.{set_semantics}
use julea.KvBackend.{KvBackend}

pub record Kv : Type 0 where
  pub index : ℕ
  pub namespace : List ℕ
  pub key : List ℕ
  pub ref_count : ℕ

-- The hash of a key: a `gchar` is signed.
abbrev pub signed_char : ℕ → ℕ
signed_char c = if ltb c 128 then c else u32_mod - 256 + c

unfoldable pub hash_from : ℕ → List ℕ → ℕ
hash_from hash [] = hash
hash_from hash (c ∷ cs) = hash_from (u32 (hash * 33 + signed_char c)) cs

unfoldable pub hash : List ℕ → ℕ
unfolding hash_from
hash = hash_from 5381

-- `none` is a division by zero.
unfoldable pub new : (server_count : ℕ) → (namespace key : List ℕ) → Option Kv
unfolding hash
new server_count namespace key =
    if server_count == 0
    then none
    else some (record {
      index = hash key % server_count;
      namespace = namespace;
      key = key;
      ref_count = 1;
    })

unfoldable pub new_for_index : (server_count index : ℕ) → (namespace key : List ℕ) → Option Kv
new_for_index server_count index namespace key =
    if ltb index server_count
    then some (record { index = index; namespace = namespace; key = key; ref_count = 1 })
    else none

unfoldable pub ref : Kv → Kv
ref kv = record kv { ref_count = kv.ref_count + 1 }

unfoldable pub unref : Kv → Option Kv
unref kv = if kv.ref_count == 1 then none else some (record kv { ref_count = kv.ref_count - 1 })

-- The client waits for a reply in these cases.
abbrev pub waits : Persistency → Bool
waits network = true
waits storage = true
waits volatile = false

-- The message types of include/core/jmessage.h.
abbrev pub kv_put : ℕ
kv_put = 11

abbrev pub kv_delete : ℕ
kv_delete = 12

abbrev pub kv_get : ℕ
kv_get = 13

-- What the callback of a get, or its result pointers, receive.
pub record Got : Type 0 where
  pub value : Option (List ℕ)
  pub len : ℕ

module _ (memory : ℕ → ℕ) (random : ℕ) (magnitude : ℕ → ℕ) where
  -- The start of each request.
  unfoldable pub request : (op_type : ℕ) → (namespace : List ℕ) → Semantics → Message
  unfolding Message.new append_n
  request op_type namespace s =
      let m = Message.new memory random op_type (length namespace + 1) in
      (append_n (set_semantics m s) (namespace ++ 0 ∷ [])).0

  unfoldable pub add_put : Message → Kv × List ℕ → Message
  unfolding add_operation append_n append_4
  add_put m (kv, value) =
      let m1 = add_operation magnitude m (length kv.key + 1 + 4 + length value) in
      let m2 = (append_n m1 (kv.key ++ 0 ∷ [])).0 in
      let m3 = (append_4 m2 (length value)).0 in (append_n m3 value).0

  -- A delete or a get.
  unfoldable pub add_key : Message → Kv → Message
  unfolding add_operation append_n
  add_key m kv = (append_n (add_operation magnitude m (length kv.key + 1)) (kv.key ++ 0 ∷ [])).0

  unfoldable pub add_puts : Message → List (Kv × List ℕ) → Message
  unfolding add_put
  add_puts m [] = m
  add_puts m (op ∷ ops) = add_puts (add_put m op) ops

  unfoldable pub add_keys : Message → List Kv → Message
  unfolding add_key
  add_keys m [] = m
  add_keys m (kv ∷ kvs) = add_keys (add_key m kv) kvs

  -- The operations of one call, the first of which gives the namespace and the server.
  unfoldable pub put_request : Kv × List ℕ → List (Kv × List ℕ) → Semantics → Message
  unfolding request add_puts
  put_request op ops s = add_puts (request kv_put op.0.namespace s) (op ∷ ops)

  unfoldable pub delete_request : Kv → List Kv → Semantics → Message
  unfolding request add_keys
  delete_request kv kvs s = add_keys (request kv_delete kv.namespace s) (kv ∷ kvs)

  unfoldable pub get_request : Kv → List Kv → Semantics → Message
  unfolding request add_keys
  get_request kv kvs s = add_keys (request kv_get kv.namespace s) (kv ∷ kvs)

-- What a get reads from the reply for each of `n` operations, and the result of the call.
unfoldable pub read_value : Message → Message × Got
unfolding get_4 get_n
read_value reply =
    let (reply', len) = get_4 reply in
    let (reply'', value) = get_n reply' len in
    if ltb 0 len
    then (reply'', record { value = value; len = len })
    else (reply', record { value = none; len = len })

unfoldable pub read_values : List Kv → Message → Bool → List Got × Bool
unfolding read_value
read_values [] reply ret = ([], ret)
read_values (kv ∷ kvs) reply ret =
    let (reply', got) = read_value reply in
    let (gots, ret') = read_values kvs reply' (ltb 0 got.len && ret) in (got ∷ gots, ret')

-- `value` and `len` are NULL and 0 before the call.
abbrev pub got_of : Option (List ℕ) → Got
got_of none = record { value = none; len = 0 }
got_of (some value) = record { value = some value; len = length value }

abbrev pub found : Option (List ℕ) → Bool
found none = false
found (some value) = true

-- With a backend on the client's side.
module _ (b : KvBackend) where
  unfoldable pub put_each : b.Batch → b.State → List (Kv × List ℕ) → Bool → b.State × Bool
  put_each batch s [] ret = (s, ret)
  put_each batch s ((kv, value) ∷ ops) ret =
      let (s', done) = b.put s batch kv.key value in put_each batch s' ops (done && ret)

  unfoldable pub put_local : Kv × List ℕ → List (Kv × List ℕ) → Semantics → b.State → b.State × Bool
  unfolding put_each
  put_local op ops semantics s =
      let (s1, batch, started) = b.batch_start s op.0.namespace semantics in
      let (s2, ret) = put_each batch s1 (op ∷ ops) started in
      let (s3, done) = b.batch_execute s2 batch in (s3, done && ret)

  unfoldable pub delete_each : b.Batch → b.State → List Kv → Bool → b.State × Bool
  delete_each batch s [] ret = (s, ret)
  delete_each batch s (kv ∷ kvs) ret =
      let (s', done) = b.delete s batch kv.key in delete_each batch s' kvs (done && ret)

  unfoldable pub delete_local : Kv → List Kv → Semantics → b.State → b.State × Bool
  unfolding delete_each
  delete_local kv kvs semantics s =
      let (s1, batch, started) = b.batch_start s kv.namespace semantics in
      let (s2, ret) = delete_each batch s1 (kv ∷ kvs) started in
      let (s3, done) = b.batch_execute s2 batch in (s3, done && ret)

  unfoldable pub get_each : b.Batch → b.State → List Kv → Bool → b.State × List Got × Bool
  get_each batch s [] ret = (s, [], ret)
  get_each batch s (kv ∷ kvs) ret =
      let (s', value) = b.get s batch kv.key in
      let (s'', gots, ret') = get_each batch s' kvs (found value && ret) in
      (s'', got_of value ∷ gots, ret')

  unfoldable pub get_local : Kv → List Kv → Semantics → b.State → b.State × List Got × Bool
  unfolding get_each
  get_local kv kvs semantics s =
      let (s1, batch, started) = b.batch_start s kv.namespace semantics in
      let (s2, gots, ret) = get_each batch s1 (kv ∷ kvs) started in
      let (s3, done) = b.batch_execute s2 batch in (s3, gots, done && ret)
