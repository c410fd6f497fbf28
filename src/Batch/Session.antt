-- ===== src/Batch/Session.antt =====
-- Batches with session consistency: `j_batch_execute` defers, the last `j_batch_unref` executes.
use mathlib.Core.List.{append-nil, append_assoc}
use julea.Common.{
  ℕ, ◌≡◌, refl, ◌∙◌, ◌==◌, Bool, true, false, none, List, [], ◌∷◌, ◌++◌, length, Bool-cases, inl,
  inr,
}
use julea.Semantics.{session}
use julea.Batch.{Operation, Batch, add, execute, execute_with, execute_internal, unref}

-- What a client does with a batch before it gives it up.
pub data Call (D : Type 0) : Type 0 where
  adds : Operation D → Call D
  executes : Call D

module _ {D : Type 0} where
  unfoldable pub added : List (Call D) → List (Operation D)
  added [] = []
  added (adds o ∷ cs) = o ∷ added cs
  added (executes ∷ cs) = added cs

module _ {D W : Type 0} (exec : ℕ → List D → W → W × Bool) (cache_add : Batch D → W → W × Bool)
    (cache_flush : W → W) where
  unfoldable pub perform : List (Call D) → Batch D × W → Batch D × W
  perform [] s = s
  perform (adds o ∷ cs) (b, w) = perform cs (add b o, w)
  perform (executes ∷ cs) (b, w) =
      let (b', w', done) = execute exec cache_add cache_flush b w in perform cs (b', w')

  execute-session :
      (b : Batch D) (w : W)
      → b.semantics.consistency ≡ session
      → (done : Bool) × (execute exec cache_add cache_flush b w ≡ (b, w, done))
  unfolding execute execute_with
  execute-session b w h = elim (Bool-cases (length b.list == 0)) [
    | inl empty ↦ (false, rw empty refl)
    | inr waiting ↦ (true, rw (waiting, h) refl)
  ]

  perform-session :
      (cs : List (Call D)) (b : Batch D) (w : W)
      → b.semantics.consistency ≡ session
      → perform cs (b, w) ≡ (record b { list = b.list ++ added cs }, w)
  unfolding perform added add
  perform-session [] b w h = rw (append-nil b.list) refl
  perform-session (adds o ∷ cs) b w h =
      perform-session cs (add b o) w h ∙ rw (append_assoc b.list (o ∷ []) (added cs)) refl
  perform-session (executes ∷ cs) b w h =
      let (done, e) = execute-session b w h in rw e (perform-session cs b w h)

  -- Whatever operations are added to a session's batch and however often it is executed, the
  -- servers see nothing of it before the last reference goes; then all operations that were added
  -- are executed once, in their order, and the batch is freed.
  pub unref-perform :
      (cs : List (Call D)) (b : Batch D) (w : W)
      → b.semantics.consistency ≡ session
      → b.ref_count ≡ 1
      → ((perform cs (b, w)).1 ≡ w)
        × (unref exec (perform cs (b, w)).0 (perform cs (b, w)).1
            ≡ (none, (execute_internal exec (b.list ++ added cs) w).0))
  unfolding unref
  unref-perform cs b w h one = rw (perform-session cs b w h, one, h) (refl, refl)
