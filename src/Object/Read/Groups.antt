-- ===== src/Object/Read/Groups.antt =====
-- The replies to a read: each holds the reads of a group.
use julea.Common.{
  ℕ, ◌≡◌, refl, ap, sym, ◌∙◌, true, List, [], ◌∷◌, ◌++◌, length, arith, ltb, if◌then◌else◌,
}
use julea.Message.{Message, add_operation, append_8, add_send}
use julea.Message.Bytes.{Field, int8, length-le_bytes}
use julea.Message.Reserve.{total}
use julea.Message.Operations.{operation, append_each, pieces}
use julea.Message.Sending.{sending}
use julea.Server.ObjectRead.{answer_bytes}

abbrev pub data_fields : List ℕ → List Field
data_fields bytes = int8 (length bytes) ∷ []

abbrev pub itself : List ℕ → List ℕ
itself bytes = bytes

module _ (magnitude : ℕ → ℕ) (fresh : Message) where
  -- The reply that holds the reads of a group.
  abbrev pub group_reply : List (List ℕ) → Message
  group_reply = sending magnitude data_fields itself fresh

pub group_nil : (magnitude : ℕ → ℕ) (fresh : Message) → group_reply magnitude fresh [] ≡ fresh
unfolding sending
group_nil magnitude fresh = refl

sending-snoc :
    (magnitude : ℕ → ℕ) (m : Message) (xs : List (List ℕ)) (x : List ℕ)
    → sending magnitude data_fields itself m (xs ++ x ∷ [])
      ≡ add_send (operation magnitude (sending magnitude data_fields itself m xs) (data_fields x)) x
unfolding sending
sending-snoc magnitude m [] x = refl
sending-snoc magnitude m (y ∷ xs) x =
    sending-snoc magnitude (add_send (operation magnitude m (data_fields y)) y) xs x

add_send-guarded :
    (m : Message) (bytes : List ℕ)
    → (if ltb 0 (length bytes) then add_send m bytes else m) ≡ add_send m bytes
unfolding add_send
add_send-guarded m [] = refl
add_send-guarded m (x ∷ xs) = let e : ltb 0 (length (x ∷ xs)) ≡ true = ground arith in rw e refl

pub answer_bytes-group :
    (memory magnitude : ℕ → ℕ) (fresh : Message) (g : List (List ℕ)) (bytes : List ℕ)
    → answer_bytes memory magnitude (group_reply magnitude fresh g) bytes
      ≡ group_reply magnitude fresh (g ++ bytes ∷ [])
unfolding answer_bytes operation append_8 append_each total
answer_bytes-group memory magnitude fresh g bytes =
    let r = group_reply magnitude fresh g in
    let e : 8 ≡ total (pieces (data_fields bytes)) =
      omega (arith, length-le_bytes 8 (length bytes)) in
    add_send-guarded (append_8 (add_operation magnitude r 8) (length bytes)).0 bytes
    ∙ ap
        (λ (n : ℕ).
          add_send (append_each (add_operation magnitude r n) (pieces (data_fields bytes))) bytes)
        e
    ∙ sym (sending-snoc magnitude fresh g bytes)
