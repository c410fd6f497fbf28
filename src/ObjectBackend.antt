-- ===== src/ObjectBackend.antt =====
-- The `backend.object` functions of include/core/jbackend.h: what an object backend offers. The
-- backends are bindings to file systems and stores, so they are an interface without laws. A
-- backend that returns FALSE from `create` or `open` sets no handle.
use julea.Common.{ℕ, Bool, false, Option, none, some, List}

pub record ObjectBackend : Type 1 where
  pub State : Type 0
  pub Handle : Type 0
  pub create : State → (namespace path : List ℕ) → State × Option Handle
  pub open_object : State → (namespace path : List ℕ) → State × Option Handle
  pub delete : State → Handle → State × Bool
  pub close : State → Handle → State × Bool
  -- The modification time and the size.
  pub status : State → Handle → State × Option (ℕ × ℕ)
  pub sync : State → Handle → State × Bool
  -- The bytes that were read.
  pub read : State → Handle → (length offset : ℕ) → State × List ℕ × Bool
  -- The names that `iterate` hands out from the cursor of `get_all` or `get_by_prefix` on, unless
  -- that returns FALSE.
  pub get_all : State → (namespace : List ℕ) → Option (List (List ℕ))
  pub get_by_prefix : State → (namespace prefix : List ℕ) → Option (List (List ℕ))
  pub write : State → Handle → (bytes : List ℕ) → (offset : ℕ) → State × ℕ × Bool

-- An object is opened and, if that succeeds, deleted.
unfoldable pub open_and_delete :
    (b : ObjectBackend) → b.State → (namespace path : List ℕ) → b.State × Bool
open_and_delete b s namespace path =
    let (s1, object) = b.open_object s namespace path in
    elim object [ none ↦ (s1, false) | some handle ↦ b.delete s1 handle ]
