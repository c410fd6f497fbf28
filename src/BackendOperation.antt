-- ===== src/BackendOperation.antt =====
-- lib/core/jbackend-operation.c: the parameters of a database call in a message. A text is a list
-- of bytes without a zero, and the bytes at a pointer stand for the pointer. libbson's
-- `bson_init_static` is the parameter `valid`. The unwrap functions are not modelled.
pub mod Sending
pub mod Receiving
pub mod Taking
pub mod RoundTrip
pub mod Tests
use julea.Common.{
  ℕ, ◌+◌, ◌-◌, Bool, true, false, ◌&&◌, not, Option, none, some, List, [], ◌∷◌, ◌++◌, ◌==◌,
  if◌then◌else◌, length, take, u32, ◌>>=◌,
}
use julea.Message.{Message, append_n, append_4, add_operation, get_4, get_n, string_at}

-- The enumeration `JBackendOperationParamType`.
pub data ParamType : Type 0 where
  type_str type_blob type_bson type_error : ParamType

-- A parameter to be sent. The `_null` ones have a NULL pointer (for BSON, or a document that is
-- not initialized), and `blob_null` a length of its own. An error parameter points to a pointer to
-- an error, which is NULL in `error_unset`; the error has its domain's text, its code as a 32-bit
-- word, and its message.
pub data Param : Type 0 where
  str : List ℕ → Param
  str_null : Param
  blob : List ℕ → Param
  blob_null : ℕ → Param
  bson : List ℕ → Param
  bson_null : Param
  error : List ℕ → ℕ → List ℕ → Param
  error_unset error_null : Param

-- `element->len`.
unfoldable pub param_len : Param → ℕ
param_len (str s) = u32 (length s + 1)
param_len str_null = 0
param_len (blob bs) = u32 (length bs)
param_len (blob_null n) = u32 n
param_len (bson d) = u32 (length d)
param_len bson_null = 0
param_len (error domain code text) =
    u32 (4 + 4 + (4 + 4 + 4) + (length domain + 1) + (length text + 1))
param_len error_unset = 8
param_len error_null = 4

-- The length of the operation, from `len` on.
unfoldable pub params_len : ℕ → List Param → ℕ
unfolding param_len
params_len len [] = len
params_len len (p ∷ ps) = params_len (u32 (u32 (len + 4) + param_len p)) ps

unfoldable pub append_error : Message → List ℕ → ℕ → List ℕ → Message
append_error m domain code text =
    let domain_len = u32 (length domain + 1) in
    let text_len = u32 (length text + 1) in
    let m1 = (append_4 m 1).0 in
    let m2 = (append_4 m1 1).0 in
    let m3 = (append_4 m2 code).0 in
    let m4 = (append_4 m3 domain_len).0 in
    let m5 = (append_4 m4 text_len).0 in
    let m6 = (append_n m5 (take domain_len (domain ++ 0 ∷ []))).0 in
    (append_n m6 (take text_len (text ++ 0 ∷ []))).0

-- What follows the length `n` of a parameter.
unfoldable pub append_value : Message → ℕ → Param → Message
unfolding append_error
append_value m n (str s) = (append_n m (take n (s ++ 0 ∷ []))).0
append_value m n str_null = m
append_value m n (blob bs) = (append_n m (take n bs)).0
append_value m n (blob_null len) = m
append_value m n (bson d) = (append_n m (take n d)).0
append_value m n bson_null = m
append_value m n (error domain code text) = append_error m domain code text
append_value m n error_unset = (append_4 (append_4 m 1).0 0).0
append_value m n error_null = (append_4 m 0).0

unfoldable pub append_param : Message → Param → Message
unfolding append_value param_len
append_param m p =
    let m' = (append_4 m (param_len p)).0 in
    if param_len p == 0 then m' else append_value m' (param_len p) p

unfoldable pub append_params : Message → List Param → Message
unfolding append_param
append_params m [] = m
append_params m (p ∷ ps) = append_params (append_param m p) ps

-- A document that was sent is no longer initialized, and an error that was sent is freed.
unfoldable pub after_sending : Param → Param
after_sending (str s) = str s
after_sending str_null = str_null
after_sending (blob bs) = blob bs
after_sending (blob_null n) = blob_null n
after_sending (bson []) = bson []
after_sending (bson (b ∷ bs)) = bson_null
after_sending bson_null = bson_null
after_sending (error domain code text) = error_unset
after_sending error_unset = error_unset
after_sending error_null = error_null

-- It returns `TRUE` always.
unfoldable pub to_message : (ℕ → ℕ) → Message → List Param → Message
unfolding append_params params_len add_operation
to_message magnitude m ps = append_params (add_operation magnitude m (params_len 0 ps)) ps

-- What the receiver finds at a parameter's pointer: `null` if the pointer stays NULL (or the
-- caller's memory as it was), and `no_error` for a pointer to a NULL error. An error's domain and
-- message are `none` where the message does not hold them.
pub data Value : Type 0 where
  null : Value
  bytes : List ℕ → Value
  no_error : Value
  an_error : Option (List ℕ) → ℕ → Option (List ℕ) → Value

-- The text at the pointer that `j_message_get_n` returns. The outer `none` is a read behind the
-- allocated memory.
abbrev text_at : Message → Message × Option (List ℕ) → Option (Message × Option (List ℕ))
text_at m (m', none) = some (m', none)
text_at m (m', some bs) =
    string_at m.bytes m.current (m.size - m.current) >>= λ text. some (m', some text)

unfoldable pub get_text : Message → ℕ → Option (Message × Option (List ℕ))
get_text m n = text_at m (get_n m n)

-- The pointer itself.
abbrev pub pointer : Message × Option (List ℕ) → Option (Message × Value × Bool)
pointer (m, none) = some (m, null, true)
pointer (m, some bs) = some (m, bytes bs, true)

-- A copy of a text.
abbrev pub copied : Message × Option (List ℕ) → Option (Message × Value × Bool)
copied (m, none) = some (m, null, true)
copied (m, some text) = some (m, bytes text, true)

-- The code, the lengths, the domain and the message of an error.
unfoldable pub get_error : Message → Option (Message × Value)
unfolding get_text
get_error m =
    let (m1, code) = get_4 m in
    let (m2, domain_len) = get_4 m1 in
    let (m3, text_len) = get_4 m2 in
    get_text m3 domain_len >>= λ (m4, domain).
    get_text m4 text_len >>= λ (m5, text). some (m5, an_error domain code text)

module _ (valid : List ℕ → Bool) where
  -- The parameters of `j_backend_operation_from_message_static`, of the given length. The Boolean
  -- is what is conjoined to the result. `none` is a fault: `bson_init_static` at a NULL pointer, or
  -- a read behind the allocated memory.
  unfoldable pub get_value : Message → ℕ → ParamType → Option (Message × Value × Bool)
  unfolding get_error
  get_value m n type_str = pointer (get_n m n)
  get_value m n type_blob = pointer (get_n m n)
  get_value m n type_bson = let (m', got) = get_n m n in got >>= λ d. some (m', bytes d, valid d)
  get_value m n type_error =
      let (m1, given) = get_4 m in
      if given == 0
      then some (m1, null, true)
      else let (m2, set) = get_4 m1 in
        if set == 0
        then some (m2, no_error, true)
        else (get_error m2 >>= λ (m3, e). some (m3, e, false))

  unfoldable pub get_param : Message → ParamType → Option (Message × Value × Bool)
  unfolding get_value
  get_param m t =
      let (m', n) = get_4 m in if n == 0 then some (m', null, true) else get_value m' n t

  unfoldable pub from_message_static :
      Message → List ParamType → Option (Message × List Value × Bool)
  unfolding get_param
  from_message_static m [] = some (m, [], true)
  from_message_static m (t ∷ ts) = get_param m t >>= λ (m', v, ok).
      from_message_static m' ts >>= λ (m'', vs, oks). some (m'', v ∷ vs, ok && oks)

  -- `g_set_error_literal`: an error needs a domain and a message.
  unfoldable pub set_error : Value → Value
  set_error (an_error (some domain) code (some text)) = an_error (some domain) code (some text)
  set_error (an_error none code text) = null
  set_error (an_error (some domain) code none) = null
  set_error null = null
  set_error (bytes bs) = null
  set_error no_error = null

  -- The parameters of `j_backend_operation_from_message`; `wanted` is whether `element->ptr` is
  -- set, and without it a text or a block is written through NULL. `g_strdup` copies what stands
  -- before the first zero.
  unfoldable pub take_value : Message → ℕ → ParamType → Bool → Option (Message × Value × Bool)
  unfolding get_text get_error set_error
  take_value m n type_str wanted = if wanted then (get_text m n >>= copied) else none
  take_value m n type_blob wanted = if wanted then (get_text m n >>= copied) else none
  take_value m n type_bson wanted =
      let (m', got) = get_n m n in got >>= λ d. some (m', if wanted then bytes d else null, valid d)
  take_value m n type_error wanted =
      let (m1, given) = get_4 m in
      if given == 0
      then some (m1, null, true)
      else let (m2, set) = get_4 m1 in
        if set == 0
        then some (m2, null, true)
        else if wanted
        then (get_error m2 >>= λ (m3, e). some (m3, set_error e, false))
        else let (m3, code) = get_4 m2 in
          let (m4, domain_len) = get_4 m3 in
          let (m5, text_len) = get_4 m4 in
          some ((get_n (get_n m5 domain_len).0 text_len).0, null, false)

  unfoldable pub take_param : Message → ParamType × Bool → Option (Message × Value × Bool)
  unfolding take_value
  take_param m (t, wanted) =
      let (m', n) = get_4 m in if n == 0 then some (m', null, true) else take_value m' n t wanted

  unfoldable pub from_message :
      Message → List (ParamType × Bool) → Option (Message × List Value × Bool)
  unfolding take_param
  from_message m [] = some (m, [], true)
  from_message m (t ∷ ts) = take_param m t >>= λ (m', v, ok).
      from_message m' ts >>= λ (m'', vs, oks). some (m'', v ∷ vs, ok && oks)
