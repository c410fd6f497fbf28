-- ===== src/Message/Operations.antt =====
-- Messages built operation by operation: `j_message_add_operation` and the appends that follow it.
use mathlib.Core.List.{append-nil, append_assoc}
use julea.Common.{
  ℕ, ◌+◌, ◌<◌, ◌≤◌, ◌≡◌, refl, ap, ◌∙◌, List, [], ◌∷◌, ◌++◌, length, map, arith, u32, u32_mod,
}
use julea.Message.{Message, append_n, appended, add_operation, get_count}
use julea.Message.Buffer.{contents, IsBuilt, IsBuilt-appended, contents-appended, append_n-fits}
use julea.Message.Reserve.{Small, counted, extend-Resized, joined, total}
use julea.Message.Bytes.{Field, encoded, all_encoded}

-- A message under construction: its header's fields, how many operations it has, and the bytes of
-- its buffer.
pub record Carries (m : Message) (id semantics op_type count : ℕ) (bs : List ℕ) : Type 0 where
  pub built : IsBuilt m
  pub holds : contents m ≡ bs
  pub small : m.size < u32_mod
  pub same_id : m.header.id ≡ id
  pub same_semantics : m.header.semantics ≡ semantics
  pub same_type : m.header.op_type ≡ op_type
  pub counted : m.header.op_count ≡ count

abbrev pub Room : Message → ℕ → Type 0
Room m n = m.header.length + n ≤ m.size

-- Appends whose result is not looked at.
unfoldable pub append_each : Message → List (List ℕ) → Message
append_each m [] = m
append_each m (b ∷ bs) = append_each (append_n m b).0 bs

module _ (id semantics op_type : ℕ) where
  append_n-Carries :
      (m : Message) (count : ℕ) (bs b : List ℕ)
      → Carries m id semantics op_type count bs
      → Room m (length b)
      → Carries (append_n m b).0 id semantics op_type count (bs ++ b)
        × ((n : ℕ) → Room m (length b + n) → Room (append_n m b).0 n)
  append_n-Carries m count bs b c room =
      let e = append_n-fits m b c.built (ground arith) in
      rw e (
        record {
          built = IsBuilt-appended m b c.built room c.small;
          holds =
              contents-appended m b c.built room c.small ∙ ap (λ (xs : List ℕ). xs ++ b) c.holds;
          small = unfold appended in c.small;
          same_id = unfold appended in c.same_id;
          same_semantics = unfold appended in c.same_semantics;
          same_type = unfold appended in c.same_type;
          counted = unfold appended in c.counted;
        },
        unfold appended in λ n h. omega (arith, c.small),
      )

  pub append_each-Carries :
      (m : Message) (count : ℕ) (bs : List ℕ) (pieces : List (List ℕ))
      → Carries m id semantics op_type count bs
      → Room m (total pieces)
      → Carries (append_each m pieces) id semantics op_type count (bs ++ joined pieces)
  unfolding append_each joined total
  append_each-Carries m count bs [] c room = rw (append-nil bs) c
  append_each-Carries m count bs (b ∷ rest) c room =
      let (c', roomy) = append_n-Carries m count bs b c (omega arith) in
      rw⁻¹ (append_assoc bs b (joined rest))
        (append_each-Carries (append_n m b).0 count (bs ++ b) rest c' (roomy (total rest) room))

-- The bytes of an operation's fields, one append for each.
abbrev pub pieces : List Field → List (List ℕ)
pieces = map encoded

pub joined-pieces : (fs : List Field) → joined (pieces fs) ≡ all_encoded fs
unfolding joined all_encoded
joined-pieces [] = refl
joined-pieces (f ∷ fs) = ap (λ (xs : List ℕ). encoded f ++ xs) (joined-pieces fs)

unfoldable pub all_operations : List (List Field) → List ℕ
all_operations [] = []
all_operations (fs ∷ fss) = all_encoded fs ++ all_operations fss

module _ (magnitude : ℕ → ℕ) where
  unfoldable pub operation : Message → List Field → Message
  unfolding append_each total
  operation m fs = append_each (add_operation magnitude m (total (pieces fs))) (pieces fs)

  unfoldable pub operations : Message → List (List Field) → Message
  unfolding operation
  operations m [] = m
  operations m (fs ∷ fss) = operations (operation m fs) fss

  -- The message stays below 4 GiB while it grows.
  abbrev pub AllSmall : Message → List (List Field) → Type 0
  AllSmall m [] = Unit
  AllSmall m (fs ∷ fss) = Small magnitude m (total (pieces fs)) × AllSmall (operation m fs) fss

  module _ (scaled : (n : ℕ) → 0 < n → 0 < magnitude n) (id semantics op_type : ℕ) where
    pub operation-Carries :
        (m : Message) (count : ℕ) (bs : List ℕ) (fs : List Field)
        → Carries m id semantics op_type count bs
        → Small magnitude m (total (pieces fs))
        → count + 1 < u32_mod
        → Carries (operation m fs) id semantics op_type (count + 1) (bs ++ all_encoded fs)
    unfolding operation add_operation get_count
    operation-Carries m count bs fs c small few =
        let n = total (pieces fs) in
        let counts : u32 (m.header.op_count + 1) ≡ count + 1 = omega (arith, c.counted) in
        let pos : 0 < u32 (m.header.op_count + 1) = omega (arith, counts) in
        let (size, e, lt, room) =
          extend-Resized magnitude m n (scaled (u32 (m.header.op_count + 1)) pos) small c.built in
        let grown : Carries (record (counted magnitude m (total (pieces fs))) { size = size }) id
            semantics op_type (count + 1) bs =
          record {
            built = record { at_end = c.built.at_end; within = omega arith };
            holds = c.holds;
            small = lt;
            same_id = c.same_id;
            same_semantics = c.same_semantics;
            same_type = c.same_type;
            counted = counts;
          } in
        rw (e, ← joined-pieces fs)
          (append_each-Carries id semantics op_type _ (count + 1) bs (pieces fs) grown room)

    pub operations-Carries :
        (m : Message) (count : ℕ) (bs : List ℕ) (fss : List (List Field))
        → Carries m id semantics op_type count bs
        → AllSmall m fss
        → count + length fss < u32_mod
        → Carries
            (operations m fss)
            id
            semantics
            op_type
            (count + length fss)
            (bs ++ all_operations fss)
    unfolding operations all_operations
    operations-Carries m count bs [] c small few =
        let e : count + 0 ≡ count = omega arith in rw (e, append-nil bs) c
    operations-Carries m count bs (fs ∷ fss) c small few =
        let e : count + length (fs ∷ fss) ≡ count + 1 + length fss = omega arith in
        rw (e, ← append_assoc bs (all_encoded fs) (all_operations fss))
          (operations-Carries (operation m fs) (count + 1) (bs ++ all_encoded fs) fss
            (operation-Carries m count bs fs c small.0 (omega arith)) small.1 (omega arith))
