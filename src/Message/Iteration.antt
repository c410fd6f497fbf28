-- ===== src/Message/Iteration.antt =====
-- What lib/kv/jkv-iterator.c and lib/object/jobject-iterator.c share: a reply of each server, and
-- the loop over the items in them. `read` takes the next item from a reply, if it has one left.
use julea.Common.{
  ℕ, suc, zero, ◌≡◌, refl, ap, Option, none, some, List, [], ◌∷◌, ◌++◌, length, map, concat, ◌>>=◌,
}
use julea.Message.{Message}

-- Where an iterator is: the current reply, and the replies behind it. Those before it are not read
-- again.
pub record Iterator : Type 0 where
  pub current : Message
  pub others : List Message

module _ {Item : Type 0} (read : Message → Option (Message × Option Item)) where
  -- `retry`: on to the next reply while the current one has no item left. The last component is
  -- the item that `next` sets, if it returns TRUE.
  unfoldable pub next_from : Message → List Message → Option (Iterator × Option Item)
  next_from r [] = read r >>= λ (r', item). some (record { current = r'; others = [] }, item)
  next_from r (r2 ∷ rs) = read r >>= λ (r', item). elim item [
    | none ↦ next_from r2 rs
    | some i ↦ some (record { current = r'; others = r2 ∷ rs }, some i)
  ]

  unfoldable pub next : Iterator → Option (Iterator × Option Item)
  next it = next_from it.current it.others

  -- A client's loop, `while (next(it))`, for at most `n` rounds.
  unfoldable pub collect : ℕ → Iterator → Option (Iterator × List Item)
  unfolding next
  collect zero it = none
  collect (suc n) it = next it >>= λ (it', item). elim item [
    | none ↦ some (it', [])
    | some i ↦ collect n it' >>= λ (it'', is). some (it'', i ∷ is)
  ]

-- Each server answered its request.
abbrev pub AllAnswered :
    {State : Type 0} (Answered : Message → State → Message → Type 0)
    → List Message
    → List State
    → List Message
    → Type 0
AllAnswered Answered [] [] [] = Unit
AllAnswered Answered (m ∷ ms) (s ∷ ss) (r ∷ rs) = Answered m s r × AllAnswered Answered ms ss rs
AllAnswered Answered _ _ _ = ⊥

-- The entries of all servers, server by server.
abbrev pub all_listed :
    {State Entry : Type 0} → (listed : State → List Entry) → List State → List Entry
all_listed listed [] = []
all_listed listed (s ∷ ss) = listed s ++ all_listed listed ss

-- Replies that hold entries, which are read as items one after the other.
module _ {Item Entry : Type 0} (read : Message → Option (Message × Option Item))
    (item : Entry → Item) (Answers : Message → List Entry → Type 0)
    (some_left : (r : Message) (x : Entry) (xs : List Entry)
      → Answers r (x ∷ xs)
      → (r' : Message) × (read r ≡ some (r', some (item x))) × Answers r' xs)
    (none_left : (r : Message) → Answers r [] → (r' : Message) × (read r ≡ some (r', none))) where
  abbrev AllAnswer : List Message → List (List Entry) → Type 0
  AllAnswer [] [] = Unit
  AllAnswer (r ∷ rs) (xs ∷ xss) = Answers r xs × AllAnswer rs xss
  AllAnswer _ _ = ⊥

  -- Iterating ends, after one call more than there are entries, and yields those of all replies.
  collect-AllAnswer :
      (r : Message) (rs : List Message) (xs : List Entry) (xss : List (List Entry))
      → AllAnswer (r ∷ rs) (xs ∷ xss)
      → (it' : Iterator) × (collect read
            (suc (length (xs ++ concat xss)))
            (record { current = r; others = rs })
          ≡ some (it', map item (xs ++ concat xss)))
  unfolding collect next next_from
  collect-AllAnswer r [] [] [] (h, _) =
      let (r', e) = none_left r h in (record { current = r'; others = [] }, rw e refl)
  collect-AllAnswer r (r2 ∷ rs) [] (ys ∷ yss) (h, others) =
      let (r', e) = none_left r h in
      let (it', e') = collect-AllAnswer r2 rs ys yss others in (it', rw e e')
  collect-AllAnswer r [] (x ∷ xs) [] (h, others) =
      let (r', e, h') = some_left r x xs h in
      let (it', e') = collect-AllAnswer r' [] xs [] (h', others) in (it', rw (e, e') refl)
  collect-AllAnswer r (r2 ∷ rs) (x ∷ xs) (ys ∷ yss) (h, others) =
      let (r', e, h') = some_left r x xs h in
      let (it', e') = collect-AllAnswer r' (r2 ∷ rs) xs (ys ∷ yss) (h', others) in
      (it', rw (e, e') refl)
  collect-AllAnswer r [] xs (ys ∷ yss) (h, others) = absurd others
  collect-AllAnswer r (r2 ∷ rs) xs [] (h, others) = absurd others

  -- Servers with states, each of which answered a request with the entries listed in its state.
  module _ {State : Type 0} (Answered : Message → State → Message → Type 0)
      (listed : State → List Entry)
      (answers : (m : Message) (s : State) (r : Message)
        → Answered m s r
        → Answers r (listed s)) where
    AllAnswered-AllAnswer :
        (ms : List Message) (ss : List State) (rs : List Message)
        → AllAnswered Answered ms ss rs
        → AllAnswer rs (map listed ss)
    AllAnswered-AllAnswer [] [] [] a = tt
    AllAnswered-AllAnswer (m ∷ ms) (s ∷ ss) (r ∷ rs) (a, others) =
        (answers m s r a, AllAnswered-AllAnswer ms ss rs others)
    AllAnswered-AllAnswer [] [] (r ∷ rs) a = absurd a
    AllAnswered-AllAnswer [] (s ∷ ss) rs a = absurd a
    AllAnswered-AllAnswer (m ∷ ms) [] rs a = absurd a
    AllAnswered-AllAnswer (m ∷ ms) (s ∷ ss) [] a = absurd a

    concat-listed : (ss : List State) → concat (map listed ss) ≡ all_listed listed ss
    concat-listed [] = refl
    concat-listed (s ∷ ss) = ap (λ (xs : List Entry). listed s ++ xs) (concat-listed ss)

    pub collect-AllAnswered :
        (m : Message) (ms : List Message) (s : State) (ss : List State) (r : Message)
        (rs : List Message)
        → AllAnswered Answered (m ∷ ms) (s ∷ ss) (r ∷ rs)
        → (it' : Iterator) × (collect read
              (suc (length (all_listed listed (s ∷ ss))))
              (record { current = r; others = rs })
            ≡ some (it', map item (all_listed listed (s ∷ ss))))
    collect-AllAnswered m ms s ss r rs a = rw⁻¹ (concat-listed ss) (
        collect-AllAnswer r rs (listed s) (map listed ss)
          (AllAnswered-AllAnswer (m ∷ ms) (s ∷ ss) (r ∷ rs) a))
