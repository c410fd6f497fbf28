-- ===== src/Batch/Tests.antt =====
-- Batches at concrete operations: each call is recorded with its function and its data.
use julea.Common.{ℕ, ◌≡◌, refl, ◌==◌, Bool, true, false, not, ◌&&◌, none, List, [], ◌∷◌, ◌++◌, map}
use julea.Semantics.{session, batch, network, strict}
use julea.Batch.{Batch, execute_internal, combine, step, finish, execute_same, unref}
use julea.Batch.Runs.{Run, operation, expand, Separated, in_order, execute_internal-in_order}
use julea.Batch.OneByOne.{one_by_one, execute_internal-one_by_one, Splits}
use julea.Batch.Session.{Call, adds, executes, perform, added, unref-perform}

-- Function 9 fails.
abbrev record_call : ℕ → List ℕ → List (ℕ × List ℕ) → List (ℕ × List ℕ) × Bool
record_call f ds w = (w ++ (f, ds) ∷ [], not (f == 9))

abbrev record_each : ℕ → List ℕ → List (ℕ × ℕ) → List (ℕ × ℕ) × Bool
record_each f [] w = (w, true)
record_each f (d ∷ ds) w = record_each f ds (w ++ (f, d) ∷ [])

and_true : (b : Bool) → (b && true) ≡ b
and_true true = refl
and_true false = refl

record_each-Splits : Splits record_each
record_each-Splits f d e ds w =
    let last = record_each f ds (w ++ (f, d) ∷ [] ++ (f, e) ∷ []) in rw (and_true last.1) refl

abbrev calls : List (ℕ × ℕ × ℕ)
calls = (1, 5, 11) ∷ (9, 5, 12) ∷ (9, 6, 13) ∷ (1, 5, 14) ∷ []

groups :
    execute_internal record_call (map operation ((1, 5, 10) ∷ calls)) []
    ≡ ((1, 10 ∷ 11 ∷ []) ∷ (9, 12 ∷ []) ∷ (9, 13 ∷ []) ∷ (1, 14 ∷ []) ∷ [], false)
unfolding execute_internal combine step finish execute_same
groups = refl

-- An empty batch fails.
empty_fails : execute_internal record_call [] [] ≡ ([], false)
unfolding execute_internal combine step finish execute_same
empty_fails = refl

execute_internal-in_order_example :
    (runs : List (Run ℕ)) × (expand runs ≡ map operation ((1, 5, 10) ∷ calls))
    × Separated runs
    × (execute_internal record_call (map operation ((1, 5, 10) ∷ calls)) []
        ≡ in_order record_call runs [] true)
execute_internal-in_order_example = execute_internal-in_order record_call (1, 5, 10) calls []

execute_internal-one_by_one_example :
    execute_internal record_each (map operation ((1, 5, 10) ∷ calls)) []
    ≡ one_by_one record_each ((1, 5, 10) ∷ calls) [] true
execute_internal-one_by_one_example =
    execute_internal-one_by_one record_each (1, 5, 10) calls [] record_each-Splits

abbrev in_session : Batch ℕ
in_session = record {
  list = operation (1, 5, 10) ∷ [];
  semantics = record {
    atomicity = batch;
    consistency = session;
    persistency = network;
    security = strict;
    immutable = true;
    ref_count = 2;
  };
  in_background = false;
  ref_count = 1;
}

abbrev uses : List (Call ℕ)
uses = executes ∷ adds (operation (1, 5, 11)) ∷ executes ∷ []

unref-perform_example :
    ((perform record_call (λ b w. (w, false)) (λ w. w) uses (in_session, [])).1 ≡ [])
    × (unref record_call
          (perform record_call (λ b w. (w, false)) (λ w. w) uses (in_session, [])).0
          (perform record_call (λ b w. (w, false)) (λ w. w) uses (in_session, [])).1
        ≡ (none, (execute_internal record_call (in_session.list ++ added uses) []).0))
unref-perform_example =
    unref-perform record_call (λ b w. (w, false)) (λ w. w) uses in_session [] refl refl
