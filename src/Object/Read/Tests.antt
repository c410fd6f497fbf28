-- ===== src/Object/Read/Tests.antt =====
-- A read that takes two replies.
use mathlib.Core.List.{append-nil}
use julea.Common.{sym, ◌∙◌, ℕ, ◌≡◌, refl, true, some, List, [], ◌∷◌, arith}
use julea.Common.Slices.{copy_to}
use julea.Message.{
  Message, new, new_reply, append_n, can_append, appended, add_operation, extend, get_count,
  le_bytes, get_8, get_n, get_string,
}
use julea.Message.Reserve.{total, joined}
use julea.Message.Operations.{operation, append_each}
use julea.Message.Sending.{sending, sending-joined}
use julea.Message.Wire.{set_semantics}
use julea.MemoryChunk
use julea.Server.Object.{Serving}
use julea.Server.ObjectRead.{handle_read, read_loop, take_buffer, read_open}
use julea.Kv.Tests.{semantics, blank, arrived, arrived-Arrived}
use julea.Object.{object_request}
use julea.Object.Tests.{in_memory, named, serving}
use julea.Object.Read.{Read, Delivery, read_request, read_replies, read_each, read_local}
use julea.Object.Read.Requests.{CanAsk}
use julea.Object.Read.Groups.{data_fields, itself, group_reply}
use julea.Object.Read.Replies.{Delivered}
use julea.Object.Read.Remote.{sent_replies, read_replies-handle_read}

abbrev linear : ℕ → ℕ
linear n = n

-- A chunk of four bytes, and an object of five.
abbrev narrow : Serving (List ℕ)
narrow = record serving { state = 1 ∷ 2 ∷ 3 ∷ 4 ∷ 5 ∷ []; chunk = MemoryChunk.new 4096 4 }

abbrev first : Read
first = record { len = 3; offset = 0 }

abbrev second : Read
second = record { len = 2; offset = 0 }

abbrev asking : Message
asking = read_request blank 7 linear named (first ∷ second ∷ []) semantics

asks : CanAsk blank 7 linear semantics named (first ∷ second ∷ [])
unfolding object_request new set_semantics append_n can_append appended operation add_operation
    extend get_count append_each total le_bytes
asks = (
  ((λ e. absurd (omega arith)), tt),
  ((λ e. absurd (omega arith)), tt),
  omega arith,
  (omega arith, (omega arith, tt)),
  omega arith,
)

abbrev reply : List (List ℕ) → Message
reply = group_reply linear (new_reply blank (arrived asking))

abbrev deliveries : List Delivery
deliveries =
    (arrived (reply ((1 ∷ 2 ∷ 3 ∷ []) ∷ [])), 1 ∷ 2 ∷ 3 ∷ [])
    ∷ (arrived (reply ((1 ∷ 2 ∷ []) ∷ [])), 1 ∷ 2 ∷ [])
    ∷ []

two_replies :
    sent_replies (handle_read blank linear in_memory (arrived asking) narrow)
    ≡ reply ((1 ∷ 2 ∷ 3 ∷ []) ∷ []) ∷ reply ((1 ∷ 2 ∷ []) ∷ []) ∷ []
unfolding handle_read read_request get_string can_append set_semantics appended le_bytes copy_to
    read_loop MemoryChunk.new get_8 get_n read_open take_buffer sending operation new_reply
two_replies = refl

sent : (bytes : List ℕ) → bytes ≡ joined (reply (bytes ∷ [])).send_list
unfolding new_reply joined
sent bytes = sym (
    sending-joined linear data_fields itself (new_reply blank (arrived asking)) (bytes ∷ [])
    ∙ append-nil bytes)

came :
    Delivered (sent_replies (handle_read blank linear in_memory (arrived asking) narrow)) deliveries
came = rw two_replies (
  arrived-Arrived (reply ((1 ∷ 2 ∷ 3 ∷ []) ∷ [])),
  sent (1 ∷ 2 ∷ 3 ∷ []),
  (arrived-Arrived (reply ((1 ∷ 2 ∷ []) ∷ [])), sent (1 ∷ 2 ∷ []), tt),
)

read_replies-handle_read_example :
    (v' : Serving (List ℕ)) × (handle_read blank linear in_memory (arrived asking) narrow
      ≡ some (v', sent_replies (handle_read blank linear in_memory (arrived asking) narrow)))
    × (v'.state ≡ 1 ∷ 2 ∷ 3 ∷ 4 ∷ 5 ∷ [])
    × (v'.chunk ≡ MemoryChunk.new 4096 4)
    × (read_replies 2 0 (first ∷ second ∷ []) deliveries
        ≡ some ((1 ∷ 2 ∷ 3 ∷ []) ∷ (1 ∷ 2 ∷ []) ∷ [], true))
    × (read_local in_memory named (first ∷ second ∷ []) (1 ∷ 2 ∷ 3 ∷ 4 ∷ 5 ∷ [])
        ≡ some (1 ∷ 2 ∷ 3 ∷ 4 ∷ 5 ∷ [], (1 ∷ 2 ∷ 3 ∷ []) ∷ (1 ∷ 2 ∷ []) ∷ [], true))
unfolding read_each
read_replies-handle_read_example =
    read_replies-handle_read blank linear in_memory 4096 4 (omega arith) (omega arith) 7 (λ n h. h)
      (λ n. omega arith) semantics named (first ∷ second ∷ []) (arrived asking) narrow (111 ∷ [])
      deliveries asks (omega arith) (omega arith)
      ((omega arith, omega arith), ((omega arith, omega arith), tt)) refl refl
      (omega arith, (omega arith, tt)) (arrived-Arrived asking) came
