-- ===== src/BackendOperation/Tests.antt =====
-- A text, a document, a missing document and an error in a message.
use julea.Common.{ℕ, ◌<◌, ◌≡◌, refl, Bool, true, false, some, List, [], ◌∷◌, map, arith}
use julea.Common.Slices.{copy_to}
use julea.Message.{Message, new, le_bytes}
use julea.Message.Buffer.{IsBuilt}
use julea.Message.Bytes.{moved}
use julea.Message.Reserve.{total}
use julea.Kv.Tests.{blank, arrived, arrived-Arrived}
use julea.BackendOperation.{
  Param, str, bson, bson_null, error, to_message, from_message_static, param_len,
}
use julea.BackendOperation.Receiving.{type_of, value_of}
use julea.BackendOperation.RoundTrip.{to_message-from_message_static}

abbrev pub linear : ℕ → ℕ
linear n = n

abbrev pub any_document : List ℕ → Bool
any_document d = true

abbrev fresh : Message
fresh = new blank 7 3 0

abbrev params : List Param
params =
    str (110 ∷ []) ∷ bson (5 ∷ 0 ∷ 0 ∷ 0 ∷ 0 ∷ []) ∷ bson_null ∷ error (106 ∷ []) 2 (120 ∷ []) ∷ []

lengths : map param_len params ≡ 2 ∷ 5 ∷ 0 ∷ 24 ∷ []
unfolding param_len
lengths = refl

fresh-IsBuilt : IsBuilt fresh
unfolding new
fresh-IsBuilt = record { at_end = refl; within = omega arith }

to_message-from_message_static_example :
    (r' : Message) × (from_message_static any_document
        (moved (arrived (to_message linear fresh params)) 0)
        (map type_of params)
      ≡ some (r', map value_of params, false))
unfolding new total le_bytes julea.Common.Slices.slice
to_message-from_message_static_example =
    to_message-from_message_static linear (λ n h. h) any_document fresh
      (arrived (to_message linear fresh params)) params fresh-IsBuilt (omega arith) (omega arith)
      (
        ((λ e. absurd (omega arith)), tt),
        (
          omega arith,
          (
            tt,
            (
              (((λ e. absurd (omega arith)), tt), ((λ e. absurd (omega arith)), tt), omega arith),
              tt,
            ),
          ),
        ),
      )
      (arrived-Arrived (to_message linear fresh params))
