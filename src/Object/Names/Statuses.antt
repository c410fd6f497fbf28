-- ===== src/Object/Names/Statuses.antt =====
-- The statuses in the reply to a delete.
use mathlib.Core.List.{append-nil}
use julea.Common.{
  ℕ, ◌^◌, ◌<◌, ◌≡◌, refl, ap, ◌∙◌, Bool, true, false, ◌&&◌, ◌==◌, Option, some, List, [], ◌∷◌,
  length, map, arith, if◌then◌else◌,
}
use julea.Semantics.{Persistency, storage, network, volatile}
use julea.Message.{Message, le_bytes, get_count, get_4}
use julea.Message.Bytes.{all_encoded, Holds, moved, next-Holds, get_4-Holds, length-le_bytes}
use julea.Message.Operations.{all_operations, operation, operations}
use julea.Server.{answer_status, safe}
use julea.Server.Answers.{status_fields, answer_status-operation}
use julea.Object.Names.{read_statuses, remove_result}

module _ (magnitude : ℕ → ℕ) where
  unfoldable pub statuses : Option Message → List Bool → Option Message
  statuses reply [] = reply
  statuses reply (done ∷ rest) = statuses (answer_status magnitude reply done) rest

  pub statuses-operations :
      (r : Message) (dones : List Bool)
      → statuses (some r) dones ≡ some (operations magnitude r (map status_fields dones))
  unfolding statuses operations
  statuses-operations r [] = refl
  statuses-operations r (done ∷ dones) =
      rw (answer_status-operation magnitude r done)
        (statuses-operations (operation magnitude r (status_fields done)) dones)

-- The conjunction that both branches compute.
unfoldable pub all_done : List Bool → Bool → Bool
all_done [] ret = ret
all_done (done ∷ dones) ret = all_done dones (done && ret)

status-lt : (done : Bool) → (if done then 1 else 0) < 2 ^ 32
status-lt true = omega arith
status-lt false = omega arith

status-one : (done : Bool) → ((if done then 1 else 0) == 1) ≡ done
status-one true = refl
status-one false = refl

pub read_statuses-Holds :
    (dones : List Bool) (reply : Message) (ret : Bool)
    → Holds reply (all_operations (map status_fields dones))
    → read_statuses (length dones) reply ret ≡ all_done dones ret
unfolding read_statuses all_done all_operations all_encoded
read_statuses-Holds [] reply ret h = refl
read_statuses-Holds (done ∷ dones) reply ret h =
    let status : ℕ = if done then 1 else 0 in
    let bytes = le_bytes 4 status in
    let (h1, t1) =
      next-Holds reply bytes (all_operations (map status_fields dones))
        (rw (append-nil bytes) at h) in
    let e : get_4 reply ≡ (moved reply (length bytes), status) =
      rw (length-le_bytes 4 status) (get_4-Holds reply status (status-lt done) h1) in
    let same : (status == 1) ≡ done = status-one done in
    ap (λ (r : Message × ℕ). read_statuses (length dones) r.0 (r.1 == 1 && ret)) e
    ∙ ap (λ (x : Bool). read_statuses (length dones) (moved reply (length bytes)) (x && ret)) same
    ∙ read_statuses-Holds dones (moved reply (length bytes)) (done && ret) t1

pub remove_result-safe :
    (p : Persistency) (reply : Message)
    → safe p ≡ true
    → remove_result p reply ≡ read_statuses (get_count reply) reply true
unfolding remove_result
remove_result-safe storage reply h = refl
remove_result-safe network reply h = refl
remove_result-safe volatile reply h = absurd (ground (arith, h))
