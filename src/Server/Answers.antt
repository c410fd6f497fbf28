-- ===== src/Server/Answers.antt =====
-- What server/loop.c puts into a reply, as the fields of its operations.
use julea.Common.{ℕ, ◌≡◌, refl, ap, Bool, Option, none, some, List, [], ◌∷◌, arith, if◌then◌else◌}
use julea.Message.{Message, append_4, append_8, add_operation}
use julea.Message.Bytes.{Field, int4, int8, length-le_bytes}
use julea.Message.Reserve.{total}
use julea.Message.Operations.{operation, operations, pieces, append_each}
use julea.Server.{answer_status}
use julea.Server.Object.{answer_8}
use julea.Server.ObjectNames.{answer_empty}

-- The status of an operation is 1 for success and 0 for failure, in 4 bytes.
abbrev pub status_fields : Bool → List Field
status_fields done = int4 (if done then 1 else 0) ∷ []

-- The bytes that a write wrote, in 8 bytes.
abbrev pub count_fields : ℕ → List Field
count_fields n = int8 n ∷ []

module _ (magnitude : ℕ → ℕ) where
  -- A reply, if one is wanted, to which an operation with these fields is added for each list.
  unfoldable pub answered : Option Message → List (List Field) → Option Message
  answered none fss = none
  answered (some r) fss = some (operations magnitude r fss)

  pub answer_status-operation :
      (r : Message) (done : Bool)
      → answer_status magnitude (some r) done ≡ some (operation magnitude r (status_fields done))
  unfolding answer_status operation append_4 append_each total
  answer_status-operation r done =
      let e : 4 ≡ total (pieces (status_fields done)) =
        omega (arith, length-le_bytes 4 (if done then 1 else 0)) in
      ap (λ (k : ℕ). some (append_each (add_operation magnitude r k) (pieces (status_fields done))))
        e

  pub answer_8-operation :
      (r : Message) (n : ℕ)
      → answer_8 magnitude (some r) n ≡ some (operation magnitude r (count_fields n))
  unfolding answer_8 operation append_8 append_each total
  answer_8-operation r n =
      let e : 8 ≡ total (pieces (count_fields n)) = omega (arith, length-le_bytes 8 n) in
      ap (λ (k : ℕ). some (append_each (add_operation magnitude r k) (pieces (count_fields n)))) e

  answer_empty-operation :
      (r : Message) → answer_empty magnitude (some r) ≡ some (operation magnitude r [])
  unfolding answer_empty operation append_each total
  answer_empty-operation r = refl

  pub answered-nil : (reply : Option Message) → answered reply [] ≡ reply
  unfolding answered operations
  answered-nil none = refl
  answered-nil (some r) = refl

  -- Answering one operation and then the others.
  pub answered-status :
      (reply : Option Message) (done : Bool) (fss : List (List Field))
      → answered (answer_status magnitude reply done) fss
        ≡ answered reply (status_fields done ∷ fss)
  unfolding answered operations answer_status
  answered-status none done fss = refl
  answered-status (some r) done fss =
      ap (λ reply. answered reply fss) (answer_status-operation r done)

  pub answered-8 :
      (reply : Option Message) (n : ℕ) (fss : List (List Field))
      → answered (answer_8 magnitude reply n) fss ≡ answered reply (count_fields n ∷ fss)
  unfolding answered operations answer_8
  answered-8 none n fss = refl
  answered-8 (some r) n fss = ap (λ reply. answered reply fss) (answer_8-operation r n)

  pub answered-empty :
      (reply : Option Message) (fss : List (List Field))
      → answered (answer_empty magnitude reply) fss ≡ answered reply ([] ∷ fss)
  unfolding answered operations answer_empty
  answered-empty none fss = refl
  answered-empty (some r) fss = ap (λ reply. answered reply fss) (answer_empty-operation r)
