-- ===== src/Message/Sending.antt =====
-- Messages whose operations are followed, behind the buffer, by bytes of their own.
use mathlib.Core.List.{append-nil, append_assoc}
use julea.Common.{
  ℕ, ◌+◌, ◌<◌, ◌≡◌, refl, ap, sym, ◌∙◌, List, [], ◌∷◌, ◌++◌, length, map, arith, u32_mod, ◌==◌, leb,
  Bool-cases, inl, inr, false,
}
use julea.Message.{Message, append_n, can_append, appended, add_operation, add_send, extend}
use julea.Message.Bytes.{Field, all_encoded}
use julea.Message.Reserve.{total, joined, Small}
use julea.Message.Operations.{
  Carries, append_each, pieces, operation, operation-Carries, all_operations,
}

-- What is sent behind a message stays as it is while fields are appended.
append_n-send_list : (m : Message) (b : List ℕ) → (append_n m b).0.send_list ≡ m.send_list
unfolding append_n appended
append_n-send_list m b = elim (Bool-cases (can_append m (length b))) [
  | inl fits ↦ rw fits refl
  | inr full ↦ rw full refl
]

pub append_each-send_list :
    (m : Message) (bs : List (List ℕ)) → (append_each m bs).send_list ≡ m.send_list
unfolding append_each
append_each-send_list m [] = refl
append_each-send_list m (b ∷ bs) =
    append_each-send_list (append_n m b).0 bs ∙ append_n-send_list m b

pub joined-append : (xs ys : List (List ℕ)) → joined (xs ++ ys) ≡ joined xs ++ joined ys
unfolding joined
joined-append [] ys = refl
joined-append (x ∷ xs) ys =
    ap (λ (zs : List ℕ). x ++ zs) (joined-append xs ys)
    ∙ sym (append_assoc x (joined xs) (joined ys))

pub add_send-joined :
    (m : Message) (b : List ℕ) → joined (add_send m b).send_list ≡ joined m.send_list ++ b
unfolding add_send joined
add_send-joined m [] = sym (append-nil (joined m.send_list))
add_send-joined m (c ∷ cs) =
    let kept : (length (c ∷ cs) == 0) ≡ false = ground arith in
    rw kept (
      joined-append m.send_list ((c ∷ cs) ∷ [])
      ∙ ap (λ (zs : List ℕ). joined m.send_list ++ zs) (append-nil (c ∷ cs)))

pub add_send-Carries :
    (m : Message) (b : List ℕ) (id semantics op_type count : ℕ) (bs : List ℕ)
    → Carries m id semantics op_type count bs
    → Carries (add_send m b) id semantics op_type count bs
unfolding add_send
add_send-Carries m b id semantics op_type count bs c = elim (Bool-cases (length b == 0)) [
  | inl nothing ↦ rw nothing c
  | inr something ↦ rw something (record {
    built = record { at_end = c.built.at_end; within = c.built.within };
    holds = c.holds;
    small = c.small;
    same_id = c.same_id;
    same_semantics = c.same_semantics;
    same_type = c.same_type;
    counted = c.counted;
  })
]

module _ (magnitude : ℕ → ℕ) where
  add_operation-send_list :
      (m : Message) (n : ℕ) → (add_operation magnitude m n).send_list ≡ m.send_list
  unfolding add_operation extend
  add_operation-send_list m n = elim (Bool-cases (n == 0)) [
    | inl nothing ↦ rw nothing refl
    | inr something ↦ elim (Bool-cases (leb (m.header.length + n) m.size)) [
      | inl fits ↦ rw (something, fits) refl
      | inr full ↦ rw (something, full) refl
    ]
  ]

  pub operation-send_list :
      (m : Message) (fs : List Field) → (operation magnitude m fs).send_list ≡ m.send_list
  unfolding operation
  operation-send_list m fs =
      append_each-send_list (add_operation magnitude m (total (pieces fs))) (pieces fs)
      ∙ add_operation-send_list m (total (pieces fs))

module _ {A : Type 0} (magnitude : ℕ → ℕ) (fields : A → List Field) (bytes : A → List ℕ) where
  -- For each item an operation with its fields, and its bytes to be sent.
  unfoldable pub sending : Message → List A → Message
  sending m [] = m
  sending m (x ∷ xs) = sending (add_send (operation magnitude m (fields x)) (bytes x)) xs

  -- The message stays below 4 GiB while it grows.
  abbrev pub SendsSmall : Message → List A → Type 0
  SendsSmall m [] = Unit
  SendsSmall m (x ∷ xs) =
      Small magnitude m (total (pieces (fields x)))
      × SendsSmall (add_send (operation magnitude m (fields x)) (bytes x)) xs

  pub sending-Carries :
      ((n : ℕ) → 0 < n → 0 < magnitude n)
      → (id semantics op_type : ℕ) (m : Message) (count : ℕ) (bs : List ℕ) (xs : List A)
      → Carries m id semantics op_type count bs
      → SendsSmall m xs
      → count + length xs < u32_mod
      → Carries
          (sending m xs)
          id
          semantics
          op_type
          (count + length xs)
          (bs ++ all_operations (map fields xs))
  unfolding sending all_operations
  sending-Carries scaled id semantics op_type m count bs [] c small few =
      let e : count + 0 ≡ count = omega arith in rw (e, append-nil bs) c
  sending-Carries scaled id semantics op_type m count bs (x ∷ xs) c small few =
      let e : count + length (x ∷ xs) ≡ count + 1 + length xs = omega arith in
      let fs = fields x in
      let c1 =
        operation-Carries magnitude scaled id semantics op_type m count bs fs c small.0
          (omega arith) in
      let c2 =
        add_send-Carries (operation magnitude m fs) (bytes x) id semantics op_type (count + 1) _
          c1 in
      rw (e, ← append_assoc bs (all_encoded fs) (all_operations (map fields xs)))
        (sending-Carries scaled id semantics op_type (add_send (operation magnitude m fs) (bytes x))
          (count + 1) (bs ++ all_encoded fs) xs c2 small.1 (omega arith))

  pub sending-joined :
      (m : Message) (xs : List A)
      → joined (sending m xs).send_list ≡ joined m.send_list ++ joined (map bytes xs)
  unfolding sending joined
  sending-joined m [] = sym (append-nil (joined m.send_list))
  sending-joined m (x ∷ xs) =
      let fs = fields x in
      let here : joined (add_send (operation magnitude m fs) (bytes x)).send_list
          ≡ joined m.send_list ++ bytes x =
        rw
          (add_send-joined (operation magnitude m fs) (bytes x), operation-send_list magnitude m fs)
          refl in
      sending-joined (add_send (operation magnitude m fs) (bytes x)) xs
      ∙ ap (λ (ys : List ℕ). ys ++ joined (map bytes xs)) here
      ∙ append_assoc (joined m.send_list) (bytes x) (joined (map bytes xs))
