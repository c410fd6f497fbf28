-- ===== src/Message/Reserve.antt =====
-- `j_message_add_operation` makes room: appends of the announced length cannot fail.
use mathlib.Core.List.{append-nil, append_assoc}
use julea.Common.{
  ℕ, ◌+◌, ◌*◌, ◌<◌, ◌≤◌, ◌≡◌, refl, sym, subst, ap, ◌∙◌, true, false, Bool, List, [], ◌∷◌, ◌++◌,
  length, arith, leb, Bool-cases, inl, inr, u32, u64, u32_mod, if◌then◌else◌, ltb, ◌==◌,
}
use julea.Message.{Message, append_n, appended, add_operation, extend, get_count}
use julea.Message.Buffer.{contents, IsBuilt, IsBuilt-appended, contents-appended, append_n-fits}

-- A client's appends, up to the first that fails.
pub append_all : Message → List (List ℕ) → Message × Bool
append_all m [] = (m, true)
append_all m (b ∷ bs) =
    let rest = append_all (append_n m b).0 bs in
    if (append_n m b).1 then rest else ((append_n m b).0, false)

unfoldable pub joined : List (List ℕ) → List ℕ
joined [] = []
joined (b ∷ bs) = b ++ joined bs

unfoldable pub total : List (List ℕ) → ℕ
total [] = 0
total (b ∷ bs) = length b + total bs

-- What is to be shown of a message with room for `n` bytes.
abbrev pub AppendsAll : Message → List (List ℕ) → Message × Bool → Type 0
AppendsAll m bs (m', done) = (done ≡ true) × (contents m' ≡ contents m ++ joined bs) × IsBuilt m'

append_n-room :
    (m : Message) (b : List ℕ)
    → IsBuilt m
    → m.size < u32_mod
    → m.header.length + length b ≤ m.size
    → append_n m b ≡ (appended m b, true)
append_n-room m b v small room = append_n-fits m b v (ground arith)

append_all-AppendsAll :
    (m : Message) (bs : List (List ℕ))
    → IsBuilt m
    → m.size < u32_mod
    → m.header.length + total bs ≤ m.size
    → AppendsAll m bs (append_all m bs)
unfolding append_all joined total
append_all-AppendsAll m [] v small room = (refl, sym (append-nil (contents m)), v)
append_all-AppendsAll m (b ∷ bs) v small room =
    let fits : m.header.length + length b ≤ m.size = omega arith in
    let (done, built, valid) =
      append_all-AppendsAll (appended m b) bs (IsBuilt-appended m b v fits small)
        (unfold appended in small) (unfold appended in omega arith) in
    rw (append_n-room m b v small fits) (
      done,
      built
          ∙ ap (λ (xs : List ℕ). xs ++ joined bs) (contents-appended m b v fits small)
          ∙ append_assoc (contents m) b (joined bs),
      valid,
    )

module _ (magnitude : ℕ → ℕ) (m : Message) (n : ℕ) where
  -- The largest size that the call can ask for.
  abbrev pub Small : Type 0
  Small = m.size + n * magnitude (u32 (m.header.op_count + 1)) + n < u32_mod

  abbrev pub counted : Message
  counted = record m { header = record (m.header) { op_count = u32 (m.header.op_count + 1) } }

  -- The new size, in each of the three cases of `j_message_extend`.
  abbrev pub Resized : Type 0
  Resized =
      (size : ℕ) × (extend magnitude counted n ≡ record counted { size = size })
      × (size < u32_mod)
      × (m.header.length + n ≤ size)

  grown :
      (factor : ℕ)
      → 0 < factor
      → m.size + n * factor < u32_mod
      → IsBuilt m
      → (u64 (m.size + n * factor) < u32_mod) × (m.header.length + n ≤ u64 (m.size + n * factor))
  grown factor pos small v =
      let e : u64 (m.size + n * factor) ≡ m.size + n * factor = omega arith in
      let le : n ≤ n * factor = grind arith in rw e (small, omega (arith, v.within))

  pub extend-Resized : 0 < magnitude (u32 (m.header.op_count + 1)) → Small → IsBuilt m → Resized
  unfolding extend get_count
  extend-Resized scaled small v = elim (Bool-cases (n == 0)) [
    | inl zero_bytes ↦ (m.size, rw zero_bytes refl, omega arith, ground arith)
    | inr some_bytes ↦ elim (Bool-cases (leb (m.header.length + n) m.size)) [
      | inl fits ↦ (m.size, rw (some_bytes, fits) refl, omega arith, ground arith)
      | inr full ↦ elim (Bool-cases (ltb 10 (u32 (m.header.op_count + 1)))) [
        | inl many ↦
            let (lt, room) =
              grown (magnitude (u32 (m.header.op_count + 1))) scaled (omega arith) v in
            (_, rw (some_bytes, full, many) refl, lt, room)
        | inr few ↦
            let (lt, room) = grown 1 (omega arith) (omega arith) v in
            (_, rw (some_bytes, full, few) refl, lt, room)
      ]
    ]
  ]

  abbrev HasRoom : Message → Type 0
  HasRoom m' =
      IsBuilt m'
      × (m'.size < u32_mod)
      × (m.header.length + n ≤ m'.size)
      × (m'.header.length ≡ m.header.length)
      × (contents m' ≡ contents m)

  extend-room :
      0 < magnitude (u32 (m.header.op_count + 1))
      → Small
      → IsBuilt m
      → HasRoom (add_operation magnitude m n)
  unfolding add_operation
  extend-room scaled small v =
      let (size, e, lt, room) = extend-Resized scaled small v in
      subst HasRoom (sym e)
        (record { at_end = v.at_end; within = omega arith }, lt, room, refl, refl)

  -- After `j_message_add_operation(message, n)` every sequence of appends of at most `n` bytes
  -- succeeds, and the bytes stand behind what the message held.
  pub append_all-add_operation :
      (bs : List (List ℕ))
      → 0 < magnitude (u32 (m.header.op_count + 1))
      → Small
      → IsBuilt m
      → total bs ≤ n
      → let (m', done) = append_all (add_operation magnitude m n) bs in
        (done ≡ true) × (contents m' ≡ contents m ++ joined bs) × IsBuilt m'
  append_all-add_operation bs scaled small v fits =
      let (v', small', room, same, kept) = extend-room scaled small v in
      let (done, built, valid) =
        append_all-AppendsAll (add_operation magnitude m n) bs v' small' (omega arith) in
      (done, built ∙ ap (λ (xs : List ℕ). xs ++ joined bs) kept, valid)
