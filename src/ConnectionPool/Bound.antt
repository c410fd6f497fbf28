-- ===== src/ConnectionPool/Bound.antt =====
-- The pool never establishes more than `max_count` connections.
use julea.Common.{
  ℕ, ◌+◌, ◌<◌, ◌≤◌, ◌≡◌, refl, subst, Bool, true, false, Option, none, some, List, length, ltb,
  get_elem?, set, u32, u32_mod, sub32, arith, Bool-cases, inl, inr, sum_by, sum_by-set, sum_by-le,
  sum_by-replicate, length-set, length-replicate, List-cases,
}
use julea.ConnectionPool.{
  Thread, outside, trying, reading, adding, connecting, undoing, waiting, holding, Pool, System,
  advance, init, Step, moves, Reaches, stays, goes,
}

-- A thread that has raised `count` and is about to connect, or about to lower it again.
abbrev pub connects : Thread → ℕ
connects connecting = 1
connects _ = 0

abbrev pub undoes : Thread → ℕ
undoes undoing = 1
undoes _ = 0

pub record Counted (max : ℕ) (p : Pool) (ts : List Thread) : Type 0 where
  pub counted : p.count ≡ p.established + p.failed + sum_by connects ts + sum_by undoes ts
  pub bounded : p.established + p.failed + sum_by connects ts ≤ p.max_count
  pub same_max : p.max_count ≡ max
  pub small : p.max_count + length ts < u32_mod

undoes-le : (t : Thread) → undoes t ≤ 1
undoes-le outside = omega arith
undoes-le trying = omega arith
undoes-le reading = omega arith
undoes-le adding = omega arith
undoes-le connecting = omega arith
undoes-le undoing = omega arith
undoes-le waiting = omega arith
undoes-le (holding c) = omega arith

-- What is to be shown of a step's result.
abbrev After : ℕ → List Thread → ℕ → Option (Thread × Pool) → Type 0
After max ts i none = Unit
After max ts i (some (t, p)) = Counted max p (set ts i t)

-- A step that moves no weight and leaves the counters alone.
module _ (max : ℕ) (p : Pool) (ts : List Thread) (i : ℕ) (t : Thread) (at : get_elem? ts i ≡ some t)
    (v : Counted max p ts) where
  step-Counted :
      (t' : Thread) (count established failed : ℕ) (queue : List ℕ)
      → count + p.established + p.failed + connects t + undoes t
        ≡ p.count + established + failed + connects t' + undoes t'
      → established + failed + sum_by connects ts + connects t' ≤ p.max_count + connects t
      → Counted max
          (record {
            queue = queue;
            count = count;
            max_count = p.max_count;
            established = established;
            failed = failed;
          })
          (set ts i t')
  step-Counted t' count established failed queue ec eb =
      let a = sum_by-set connects ts i t t' at in
      let b = sum_by-set undoes ts i t t' at in
      let l = length-set ts i t' in
      record {
        counted = omega (arith, v.counted);
        bounded = omega (arith, v.bounded);
        same_max = v.same_max;
        small = omega (arith, v.small);
      }

advance-Counted :
    (max : ℕ) (t : Thread) (p : Pool) (succeeds : Bool) (ts : List Thread) (i : ℕ)
    → get_elem? ts i ≡ some t
    → Counted max p ts
    → After max ts i (advance t p succeeds)
unfolding advance
advance-Counted max outside p b ts i at v =
    step-Counted max p ts i outside at v trying _ _ _ _ (omega arith) (omega (arith, v.bounded))
advance-Counted max trying p b ts i at v = elim (List-cases p.queue) [
  | inl empty ↦
      rw empty (
        step-Counted max p ts i trying at v reading _ _ _ _ (omega arith)
          (omega (arith, v.bounded)))
  | inr (c, cs, e) ↦ rw e (
      step-Counted max p ts i trying at v (holding c) _ _ _ _ (omega arith)
        (omega (arith, v.bounded)))
]
advance-Counted max reading p b ts i at v = elim (Bool-cases (ltb p.count p.max_count)) [
  | inl less ↦
      rw less (
        step-Counted max p ts i reading at v adding _ _ _ _ (omega arith)
          (omega (arith, v.bounded)))
  | inr full ↦ rw full (
      step-Counted max p ts i reading at v waiting _ _ _ _ (omega arith) (omega (arith, v.bounded)))
]
advance-Counted max adding p b ts i at v =
    let le = sum_by-le undoes undoes-le (set ts i undoing) in
    let len = length-set ts i undoing in
    let trade = sum_by-set undoes ts i adding undoing at in
    let e : u32 (p.count + 1) ≡ p.count + 1 = omega (arith, v.counted, v.bounded, v.small) in
    elim (Bool-cases (ltb p.count p.max_count)) [
      | inl less ↦
          let lt : p.count < p.max_count = ground arith in
          rw (less, e)
            (step-Counted max p ts i adding at v connecting _ _ _ _ (omega arith)
              (omega (arith, v.bounded, v.counted)))
      | inr full ↦
          rw (full, e)
            (step-Counted max p ts i adding at v undoing _ _ _ _ (omega arith)
              (omega (arith, v.bounded)))
    ]
advance-Counted max connecting p true ts i at v =
    step-Counted max p ts i connecting at v (holding p.established) _ _ _ _ (omega arith)
      (omega (arith, v.bounded))
advance-Counted max connecting p false ts i at v =
    step-Counted max p ts i connecting at v waiting _ _ _ _ (omega arith) (omega (arith, v.bounded))
advance-Counted max undoing p b ts i at v =
    let trade = sum_by-set undoes ts i undoing waiting at in
    let le = sum_by-le undoes undoes-le ts in
    let e : sub32 p.count 1 + 1 ≡ p.count = omega (arith, v.counted, v.bounded, v.small) in
    step-Counted max p ts i undoing at v waiting _ _ _ _ (omega arith) (omega (arith, v.bounded))
advance-Counted max waiting p b ts i at v = elim (List-cases p.queue) [
  | inl empty ↦ rw empty tt
  | inr (c, cs, e) ↦ rw e (
      step-Counted max p ts i waiting at v (holding c) _ _ _ _ (omega arith)
        (omega (arith, v.bounded)))
]
advance-Counted max (holding c) p b ts i at v =
    step-Counted max p ts i (holding c) at v outside _ _ _ _ (omega arith)
      (omega (arith, v.bounded))

Step-Counted :
    (max : ℕ) (s s' : System)
    → Counted max s.pool s.threads
    → Step s s'
    → Counted max s'.pool s'.threads
Step-Counted max s _ v (moves i t t' p succeeds at e) =
    subst (After max s.threads i) e (advance-Counted max t s.pool succeeds s.threads i at v)

-- However the threads' steps interleave, the connections that were established, the attempts that
-- failed and the attempts under way are together at most `max_count`, and `count` is their number
-- plus that of the threads about to lower it again; it never wraps. The threads and the
-- connections allowed are together fewer than 2^32.
pub Reaches-Counted :
    (max n : ℕ) (s : System)
    → max + n < u32_mod
    → Reaches (init max n) s
    → Counted max s.pool s.threads
unfolding init
Reaches-Counted max n _ small stays =
    let a = sum_by-replicate connects n outside refl in
    let b = sum_by-replicate undoes n outside refl in
    let l = length-replicate n outside in
    record { counted = omega arith; bounded = omega arith; same_max = refl; small = omega arith }
Reaches-Counted max n s small (goes {u} r st) =
    Step-Counted max u s (Reaches-Counted max n u small r) st
