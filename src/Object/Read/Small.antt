-- ===== src/Object/Read/Small.antt =====
-- A reply to a read stays far below 4 GiB: ten thousand operations make it grow by less than a
-- gigabyte.
use julea.Common.{
  ℕ, ◌+◌, ◌*◌, ◌<◌, ◌≤◌, ◌≡◌, refl, ◌∙◌, List, [], ◌∷◌, ◌++◌, length, arith, u32, ◌==◌, leb, ltb,
  Bool-cases, inl, inr,
}
use julea.Message.{
  Message, append_n, can_append, appended, add_operation, add_send, extend, get_count,
}
use julea.Message.Bytes.{all_encoded, length-le_bytes}
use julea.Message.Reserve.{total, Small}
use julea.Message.Operations.{Carries, append_each, pieces, operation, operation-Carries}
use julea.Message.Sending.{SendsSmall, add_send-Carries}
use julea.Object.Read.Groups.{data_fields, itself}

append_n-size : (m : Message) (b : List ℕ) → (append_n m b).0.size ≡ m.size
unfolding append_n appended
append_n-size m b = elim (Bool-cases (can_append m (length b))) [
  | inl fits ↦ rw fits refl
  | inr full ↦ rw full refl
]

append_each-size : (m : Message) (bs : List (List ℕ)) → (append_each m bs).size ≡ m.size
unfolding append_each
append_each-size m [] = refl
append_each-size m (b ∷ bs) = append_each-size (append_n m b).0 bs ∙ append_n-size m b

add_send-size : (m : Message) (b : List ℕ) → (add_send m b).size ≡ m.size
unfolding add_send
add_send-size m b = elim (Bool-cases (length b == 0)) [
  | inl nothing ↦ rw nothing refl
  | inr something ↦ rw something refl
]

module _ (magnitude : ℕ → ℕ) (scaled : (n : ℕ) → 0 < n → 0 < magnitude n)
    (bounded : (n : ℕ) → magnitude n ≤ n) where
  add_operation-size :
      (m : Message) (count : ℕ)
      → m.header.op_count ≡ count
      → count < 10000
      → (add_operation magnitude m 8).size ≤ m.size + 80000
  unfolding add_operation extend get_count
  add_operation-size m count e few =
      let counts : u32 (m.header.op_count + 1) ≡ count + 1 = omega arith in
      let least = bounded (count + 1) in
      rw counts (elim (Bool-cases (leb (m.header.length + 8) m.size)) [
        | inl fits ↦ rw fits (omega arith)
        | inr full ↦ rw full (elim (Bool-cases (ltb 10 (count + 1))) [
          | inl many ↦ rw many (omega arith)
          | inr some_few ↦ rw some_few (omega arith)
        ])
      ])

  total_8 : (x : List ℕ) → total (pieces (data_fields x)) ≡ 8
  unfolding total
  total_8 x = omega (arith, length-le_bytes 8 (length x))

  item_small :
      (m : Message) (count : ℕ) (x : List ℕ)
      → m.header.op_count ≡ count
      → count < 10000
      → m.size ≤ 256 + 80000 * count
      → Small magnitude m (total (pieces (data_fields x)))
  item_small m count x e few grown =
      let counts : u32 (m.header.op_count + 1) ≡ count + 1 = omega arith in
      let least = bounded (count + 1) in rw (total_8 x, counts) (omega arith)

  item-size :
      (m : Message) (count : ℕ) (x : List ℕ)
      → m.header.op_count ≡ count
      → count < 10000
      → (add_send (operation magnitude m (data_fields x)) x).size ≤ m.size + 80000
  unfolding operation
  item-size m count x e few =
      let ps = pieces (data_fields x) in
      let grown : (add_operation magnitude m (total ps)).size ≤ m.size + 80000 =
        rw (total_8 x) (add_operation-size m count e few) in
      omega (
        arith,
        grown,
        add_send-size (operation magnitude m (data_fields x)) x,
        append_each-size (add_operation magnitude m (total ps)) ps,
      )

  pub SendsSmall-of_few :
      (id semantics op_type : ℕ) (m : Message) (count : ℕ) (bs : List ℕ) (xs : List (List ℕ))
      → Carries m id semantics op_type count bs
      → m.size ≤ 256 + 80000 * count
      → count + length xs ≤ 10000
      → SendsSmall magnitude data_fields itself m xs
  SendsSmall-of_few id semantics op_type m count bs [] c grown few = tt
  SendsSmall-of_few id semantics op_type m count bs (x ∷ xs) c grown few =
      let fs = data_fields x in
      let small = item_small m count x c.counted (omega arith) grown in
      let c' =
        add_send-Carries (operation magnitude m fs) x id semantics op_type (count + 1)
          (bs ++ all_encoded fs)
          (operation-Carries magnitude scaled id semantics op_type m count bs fs c small
            (omega arith)) in
      let size = item-size m count x c.counted (omega arith) in
      (
        small,
        SendsSmall-of_few id semantics op_type (add_send (operation magnitude m fs) x) (count + 1)
            (bs ++ all_encoded fs) xs c' (omega arith) (omega arith),
      )
