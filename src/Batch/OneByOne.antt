-- ===== src/Batch/OneByOne.antt =====
-- Combining the operations of a batch is not seen.
use julea.Common.{
  ℕ, ◌≡◌, refl, sym, ap, ap₂, ◌∙◌, ◌==◌, Bool, true, not, ◌&&◌, ◌||◌, List, [], ◌∷◌, ◌++◌, map,
  Bool-cases, inl, inr, arith,
}
use julea.Batch.{execute_internal, combine, step}
use julea.Batch.Runs.{operation, runs_from, in_order, combine-in_order, and_assoc, map-snoc}

module _ {D W : Type 0} (exec : ℕ → List D → W → W × Bool) where
  -- Each operation by itself.
  unfoldable pub one_by_one : List (ℕ × ℕ × D) → W → Bool → W × Bool
  one_by_one [] w ret = (w, ret)
  one_by_one ((f, k, d) ∷ os) w ret =
      let (w', done) = exec f (d ∷ []) w in one_by_one os w' (done && ret)

  -- A call for several operations does what a call for the first and one for the others do.
  abbrev pub Splits : Type 0
  Splits =
      (f : ℕ) (d e : D) (ds : List D) (w : W)
      → exec f (d ∷ e ∷ ds) w ≡ (
          let (w', done) = exec f (d ∷ []) w in
          let (w'', done') = exec f (e ∷ ds) w' in (w'', done' && done))

  one_run :
      (f k : ℕ) (d : D) (ds : List D) (os : List (ℕ × ℕ × D)) (w : W) (ret : Bool)
      → Splits
      → one_by_one (map (λ e. (f, k, e)) (d ∷ ds) ++ os) w ret
        ≡ (let (w', done) = exec f (d ∷ ds) w in one_by_one os w' (done && ret))
  unfolding one_by_one
  one_run f k d [] os w ret h = refl
  one_run f k d (e ∷ ds) os w ret h =
      let (w', done) = exec f (d ∷ []) w in
      one_run f k e ds os w' (done && ret) h
      ∙ rw (h f d e ds w, and_assoc (exec f (e ∷ ds) w').1 done ret) refl

  in_order-one_by_one :
      (f k : ℕ) (d : D) (ds : List D) (os : List (ℕ × ℕ × D)) (w : W) (ret : Bool)
      → Splits
      → in_order exec (runs_from (record { exec_func = f; key = k; first = d; more = ds }) os) w ret
        ≡ one_by_one (map (λ e. (f, k, e)) (d ∷ ds) ++ os) w ret
  unfolding in_order runs_from one_by_one
  in_order-one_by_one f k d ds [] w ret h = sym (one_run f k d ds [] w ret h)
  in_order-one_by_one f k d ds ((f', k', d') ∷ os) w ret h =
      elim (Bool-cases (not (f' == f) || not (k' == k))) [
        | inl new_run ↦ rw new_run (
            in_order-one_by_one f' k' d' [] os (exec f (d ∷ ds) w).0 ((exec f (d ∷ ds) w).1 && ret)
              h
            ∙ sym (one_run f k d ds ((f', k', d') ∷ os) w ret h))
        | inr same_run ↦
            let e : f' ≡ f = ground arith in
            let e' : k' ≡ k = ground arith in
            rw same_run (
              in_order-one_by_one f' k' d (ds ++ d' ∷ []) os w ret h
              ∙ ap (λ (cs : List (ℕ × ℕ × D)). one_by_one cs w ret)
                  (map-snoc (λ a. (f', k', a)) (d ∷ ds) d' os
                    ∙ ap₂ (λ (g l : ℕ). map (λ a. (g, l, a)) (d ∷ ds) ++ (f', k', d') ∷ os) e e'))
      ]

  -- Combining is not seen: if a call for several operations does what a call for the first and one
  -- for the others do, a batch that is not empty is executed as its operations by themselves, in
  -- their order. No operation's function is NULL.
  pub execute_internal-one_by_one :
      (o : ℕ × ℕ × D) (os : List (ℕ × ℕ × D)) (w : W)
      → Splits
      → execute_internal exec (map operation (o ∷ os)) w ≡ one_by_one (o ∷ os) w true
  unfolding execute_internal combine step
  execute_internal-one_by_one (f, k, d) os w h =
      combine-in_order exec (record { exec_func = f; key = k; first = d; more = [] }) os w true
      ∙ in_order-one_by_one f k d [] os w true h
