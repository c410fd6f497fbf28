-- ===== src/KvBackend.antt =====
-- The `backend.kv` functions of include/core/jbackend.h: what a key-value backend offers. The
-- backends themselves are bindings to databases, so they are an interface, without laws but for
-- those that Kv/Stored names. Texts are lists of bytes without the closing zero byte.
use julea.Common.{ℕ, Bool, Option, List}
use julea.Semantics.{Semantics}

pub record KvBackend : Type 1 where
  pub State : Type 0
  pub Batch : Type 0
  pub batch_start : State → List ℕ → Semantics → State × Batch × Bool
  pub put : State → Batch → (key value : List ℕ) → State × Bool
  pub delete : State → Batch → (key : List ℕ) → State × Bool
  pub get : State → Batch → (key : List ℕ) → State × Option (List ℕ)
  pub batch_execute : State → Batch → State × Bool
  -- The keys and values that `iterate` hands out from the cursor of `get_all` or `get_by_prefix` on.
  pub get_all : State → (namespace : List ℕ) → List (List ℕ × List ℕ)
  pub get_by_prefix : State → (namespace prefix : List ℕ) → List (List ℕ × List ℕ)
