-- ===== src/ConnectionPool/Ownership.antt =====
-- A connection is in the queue or with one thread.
use julea.Common.{
  ℕ, ◌+◌, ◌≡◌, refl, ap, subst, ◌==◌, Bool, true, false, Option, none, some, List, [], ◌∷◌, ltb,
  if◌then◌else◌, get_elem?, set, arith, Bool-cases, inl, inr, sum_by, sum_by-set, sum_by-append,
  sum_by-replicate, List-cases,
}
use julea.ConnectionPool.{
  Thread, outside, trying, reading, adding, connecting, undoing, waiting, holding, Pool, System,
  advance, init, Step, moves, Reaches, stays, goes,
}

-- One for the connection `c`, zero for any other.
abbrev pub is : ℕ → ℕ → ℕ
is c d = if c == d then 1 else 0

abbrev pub holds : ℕ → Thread → ℕ
holds c (holding d) = is c d
holds c _ = 0

-- The connection `c` is once in the queue or with one thread if it was established, and else it is
-- nowhere.
abbrev pub OwnedBy : ℕ → List ℕ → ℕ → List Thread → Type 0
OwnedBy c queue established ts =
    sum_by (is c) queue + sum_by (holds c) ts ≡ (if ltb c established then 1 else 0)

abbrev pub Owned : ℕ → Pool → List Thread → Type 0
Owned c p ts = OwnedBy c p.queue p.established ts

abbrev After : ℕ → List Thread → ℕ → Option (Thread × Pool) → Type 0
After c ts i none = Unit
After c ts i (some (t, p)) = Owned c p (set ts i t)

module _ (c : ℕ) (p : Pool) (ts : List Thread) (i : ℕ) (t : Thread) (at : get_elem? ts i ≡ some t)
    (v : Owned c p ts) where
  step-Owned :
      (t' : Thread) (queue : List ℕ) (established : ℕ)
      → sum_by (is c) queue + holds c t' + (if ltb c p.established then 1 else 0)
        ≡ sum_by (is c) p.queue + holds c t + (if ltb c established then 1 else 0)
      → OwnedBy c queue established (set ts i t')
  step-Owned t' queue established e = omega (arith, sum_by-set (holds c) ts i t t' at, v)

advance-Owned :
    (c : ℕ) (t : Thread) (p : Pool) (succeeds : Bool) (ts : List Thread) (i : ℕ)
    → get_elem? ts i ≡ some t
    → Owned c p ts
    → After c ts i (advance t p succeeds)
unfolding advance
advance-Owned c outside p b ts i at v = step-Owned c p ts i outside at v trying _ _ refl
advance-Owned c trying p b ts i at v = elim (List-cases p.queue) [
  | inl empty ↦ rw empty (
      step-Owned c p ts i trying at v reading [] p.established
        (omega (arith, ap (sum_by (is c)) empty)))
  | inr (d, ds, e) ↦ rw e (
      step-Owned c p ts i trying at v (holding d) ds p.established
        (omega (arith, ap (sum_by (is c)) e)))
]
advance-Owned c reading p b ts i at v = elim (Bool-cases (ltb p.count p.max_count)) [
  | inl less ↦ rw less (step-Owned c p ts i reading at v adding _ _ refl)
  | inr full ↦ rw full (step-Owned c p ts i reading at v waiting _ _ refl)
]
advance-Owned c adding p b ts i at v = elim (Bool-cases (ltb p.count p.max_count)) [
  | inl less ↦ rw less (step-Owned c p ts i adding at v connecting _ _ refl)
  | inr full ↦ rw full (step-Owned c p ts i adding at v undoing _ _ refl)
]
advance-Owned c connecting p true ts i at v =
    step-Owned c p ts i connecting at v (holding p.established) _ _ (ground arith)
advance-Owned c connecting p false ts i at v = step-Owned c p ts i connecting at v waiting _ _ refl
advance-Owned c undoing p b ts i at v = step-Owned c p ts i undoing at v waiting _ _ refl
advance-Owned c waiting p b ts i at v = elim (List-cases p.queue) [
  | inl empty ↦ rw empty tt
  | inr (d, ds, e) ↦ rw e (
      step-Owned c p ts i waiting at v (holding d) ds p.established
        (omega (arith, ap (sum_by (is c)) e)))
]
advance-Owned c (holding d) p b ts i at v =
    step-Owned c p ts i (holding d) at v outside _ _
      (omega (arith, sum_by-append (is c) p.queue (d ∷ [])))

Step-Owned :
    (c : ℕ) (s s' : System) → Owned c s.pool s.threads → Step s s' → Owned c s'.pool s'.threads
Step-Owned c s _ v (moves i t t' p succeeds at e) =
    subst (After c s.threads i) e (advance-Owned c t s.pool succeeds s.threads i at v)

-- However the threads' steps interleave, every connection that was established is in the queue or
-- with a thread, once: none is lost, and no two threads ever have the same one.
pub Reaches-Owned : (c max n : ℕ) (s : System) → Reaches (init max n) s → Owned c s.pool s.threads
unfolding init
Reaches-Owned c max n _ stays =
    let none_yet : ltb c 0 ≡ false = ground arith in
    rw (none_yet, sum_by-replicate (holds c) n outside refl) refl
Reaches-Owned c max n s (goes {u} r st) = Step-Owned c u s (Reaches-Owned c max n u r) st
