-- ===== src/Batch/Runs.antt =====
-- `j_batch_execute_internal` groups the operations, and keeps their order.
use julea.Common.{
  ℕ, suc, ◌≡◌, refl, ap, ap₂, ◌∙◌, ◌==◌, Bool, true, false, not, ◌&&◌, ◌||◌, some, List, [], ◌∷◌,
  ◌++◌, map, if◌then◌else◌, Bool-cases, inl, inr, arith,
}
use julea.Batch.{Operation, Loop, execute_same, finish, step, combine, execute_internal}

-- Operations that are executed by one call.
pub record Run (D : Type 0) : Type 0 where
  pub exec_func : ℕ
  pub key : ℕ
  pub first : D
  pub more : List D

pub and_assoc : (a b c : Bool) → (a && b && c) ≡ (a && (b && c))
and_assoc true b c = refl
and_assoc false b c = refl

pub map-snoc :
    {A B : Type 0} (h : A → B) (xs : List A) (x : A) (ys : List B)
    → map h (xs ++ x ∷ []) ++ ys ≡ map h xs ++ (h x ∷ ys)
map-snoc h [] x ys = refl
map-snoc h (e ∷ xs) x ys = ap (◌∷◌ (h e)) (map-snoc h xs x ys)

module _ {D : Type 0} where
  abbrev pub operands : Run D → List D
  operands r = r.first ∷ r.more

  abbrev pub operation_of : Run D → D → Operation D
  operation_of r d = record { exec_func = some r.exec_func; key = r.key; operand = d }

  unfoldable pub expand : List (Run D) → List (Operation D)
  expand [] = []
  expand (r ∷ rs) = map (operation_of r) (operands r) ++ expand rs

  -- Neighbours differ in the function or in the key.
  abbrev pub differ : Run D → Run D → Bool
  differ r s = not (s.exec_func == r.exec_func) || not (s.key == r.key)

  abbrev pub Separated : List (Run D) → Type 0
  Separated [] = Unit
  Separated (r ∷ []) = Unit
  Separated (r ∷ s ∷ rs) = (differ r s ≡ true) × Separated (s ∷ rs)

  -- An operation whose function is not NULL.
  abbrev pub operation : ℕ × ℕ × D → Operation D
  operation (f, k, d) = record { exec_func = some f; key = k; operand = d }

  -- The runs of the operations, the first of which goes on from `r`.
  unfoldable pub runs_from : Run D → List (ℕ × ℕ × D) → List (Run D)
  runs_from r [] = r ∷ []
  runs_from r ((f, k, d) ∷ os) =
      let here = runs_from (record r { exec_func = f; key = k; more = r.more ++ d ∷ [] }) os in
      let behind = runs_from (record { exec_func = f; key = k; first = d; more = [] }) os in
      if not (f == r.exec_func) || not (k == r.key) then r ∷ behind else here

  expand-runs_from :
      (r : Run D) (os : List (ℕ × ℕ × D))
      → expand (runs_from r os) ≡ map (operation_of r) (operands r) ++ map operation os
  unfolding expand runs_from
  expand-runs_from r [] = refl
  expand-runs_from r ((f, k, d) ∷ os) =
      elim (Bool-cases (not (f == r.exec_func) || not (k == r.key))) [
        | inl new_run ↦ rw new_run (
            ap (λ os'. map (operation_of r) (operands r) ++ os')
              (expand-runs_from (record { exec_func = f; key = k; first = d; more = [] }) os))
        | inr same_run ↦
            let e : f ≡ r.exec_func = ground arith in
            let e' : k ≡ r.key = ground arith in
            rw (same_run) (
              expand-runs_from
                (record { exec_func = f; key = k; first = r.first; more = r.more ++ d ∷ [] }) os
              ∙ map-snoc
                  (operation_of
                    (record { exec_func = f; key = k; first = r.first; more = r.more ++ d ∷ [] }))
                  (operands r) d (map operation os)
              ∙ ap₂
                  (λ (f' k' : ℕ).
                    map (operation_of (record r { exec_func = f'; key = k' })) (operands r)
                    ++ operation (f, k, d) ∷ map operation os)
                  e e')
      ]

  cons-Separated :
      (s r : Run D) (os : List (ℕ × ℕ × D)) → differ s r ≡ true → Separated (s ∷ runs_from r os)
  unfolding runs_from
  cons-Separated s r [] h = (h, tt)
  cons-Separated s r ((f, k, d) ∷ os) h =
      elim (Bool-cases (not (f == r.exec_func) || not (k == r.key))) [
        | inl new_run ↦ rw new_run (
          h,
          cons-Separated r (record { exec_func = f; key = k; first = d; more = [] }) os new_run,
        )
        | inr same_run ↦
            let e : f ≡ r.exec_func = ground arith in
            let e' : k ≡ r.key = ground arith in
            rw same_run (
              cons-Separated s
                (record { exec_func = f; key = k; first = r.first; more = r.more ++ d ∷ [] }) os
                (rw (e, e') h))
      ]

  tail-Separated : (s : Run D) (rs : List (Run D)) → Separated (s ∷ rs) → Separated rs
  tail-Separated s [] h = tt
  tail-Separated s (r ∷ rs) h = h.1

  runs_from-Separated : (r : Run D) (os : List (ℕ × ℕ × D)) → Separated (runs_from r os)
  runs_from-Separated r os =
      let s : Run D = record r { key = suc r.key } in
      tail-Separated s (runs_from r os) (cons-Separated s r os (ground arith))

module _ {D W : Type 0} (exec : ℕ → List D → W → W × Bool) where
  -- Every run is executed, also after one that failed, and the result is the conjunction.
  unfoldable pub in_order : List (Run D) → W → Bool → W × Bool
  in_order [] w ret = (w, ret)
  in_order (r ∷ rs) w ret =
      let (w', done) = exec r.exec_func (operands r) w in in_order rs w' (done && ret)

  abbrev at_run : Run D → W → Bool → Loop D W
  at_run r w ret = record {
    last_exec_func = some r.exec_func;
    last_key = r.key;
    same_list = operands r;
    ret = ret;
    world = w;
  }

  abbrev outcome : Loop D W → W × Bool
  outcome l = (l.world, l.ret)

  step-new_run :
      (r : Run D) (f k : ℕ) (d : D) (w : W) (ret : Bool)
      → (not (f == r.exec_func) || not (k == r.key)) ≡ true
      → step exec (at_run r w ret) (operation (f, k, d))
        ≡ at_run
            (record { exec_func = f; key = k; first = d; more = [] })
            (exec r.exec_func (operands r) w).0
            ((exec r.exec_func (operands r) w).1 && ret)
  unfolding step finish execute_same
  step-new_run r f k d w ret h = rw h refl

  step-same_run :
      (r : Run D) (f k : ℕ) (d : D) (w : W) (ret : Bool)
      → (not (f == r.exec_func) || not (k == r.key)) ≡ false
      → step exec (at_run r w ret) (operation (f, k, d))
        ≡ at_run (record r { exec_func = f; key = k; more = r.more ++ d ∷ [] }) w ret
  unfolding step finish execute_same
  step-same_run r f k d w ret h = rw h refl

  pub combine-in_order :
      (r : Run D) (os : List (ℕ × ℕ × D)) (w : W) (ret : Bool)
      → outcome (finish exec (combine exec (at_run r w ret) (map operation os)))
        ≡ in_order (runs_from r os) w ret
  unfolding combine finish execute_same in_order runs_from
  combine-in_order r [] w ret = refl
  combine-in_order r ((f, k, d) ∷ os) w ret =
      let next : Loop D W → W × Bool =
        λ l. outcome (finish exec (combine exec l (map operation os))) in
      elim (Bool-cases (not (f == r.exec_func) || not (k == r.key))) [
        | inl new_run ↦
            ap next (step-new_run r f k d w ret new_run)
            ∙ combine-in_order (record { exec_func = f; key = k; first = d; more = [] }) os _ _
            ∙ rw new_run refl
        | inr same_run ↦
            ap next (step-same_run r f k d w ret same_run)
            ∙ combine-in_order
                (record { exec_func = f; key = k; first = r.first; more = r.more ++ d ∷ [] }) os _ _
            ∙ rw same_run refl
      ]

  -- A batch that is not empty is executed in runs, with one call for each: the runs are the
  -- operations in their order, and neighbours differ in function or key, so that no two of them
  -- could have been one call. All of them are executed, also after one that failed, and the result
  -- is the conjunction. No operation's function is NULL.
  pub execute_internal-in_order :
      (o : ℕ × ℕ × D) (os : List (ℕ × ℕ × D)) (w : W)
      → (runs : List (Run D)) × (expand runs ≡ map operation (o ∷ os))
        × Separated runs
        × (execute_internal exec (map operation (o ∷ os)) w ≡ in_order runs w true)
  unfolding execute_internal combine step
  execute_internal-in_order (f, k, d) os w =
      let r : Run D = record { exec_func = f; key = k; first = d; more = [] } in
      (
        runs_from r os,
        expand-runs_from r os,
        runs_from-Separated r os,
        combine-in_order r os w true,
      )
