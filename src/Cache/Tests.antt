-- ===== src/Cache/Tests.antt =====
-- A cache of 100 bytes.
use mathlib.Core.Option.{some-injective}
use julea.Common.{ℕ, ◌≡◌, ◌≢◌, refl, subst, false, none, some, List, [], ◌∷◌, arith}
use julea.Cache.{Cache, get, release}
use julea.Cache.Laws.{
  IsValid, Call, gets, releases, perform, AllAllowed, perform-IsValid, release-unknown,
}

abbrev one_buffer : Cache
one_buffer = record { size = 100; buffers = (4096, 60) ∷ []; used = 60; locked = false }

one_buffer-IsValid : IsValid one_buffer
one_buffer-IsValid = record {
  counted = refl;
  bounded = omega arith;
  small = omega arith;
  free = refl;
}

-- There is no room for 50 bytes, and 40 fit exactly.
abbrev uses : List Call
uses = gets 8192 50 ∷ gets 8192 40 ∷ releases 4096 ∷ []

uses-AllAllowed : AllAllowed uses one_buffer
unfolding perform get release
uses-AllAllowed = (
  (omega arith, refl),
  λ c e. subst (AllAllowed (gets 8192 40 ∷ releases 4096 ∷ [])) (some-injective _ _ e) (
    (omega arith, refl),
    λ c' e'.
        subst (AllAllowed (releases 4096 ∷ [])) (some-injective _ _ e')
          (omega arith, λ c'' e''. tt),
  ),
)

perform-IsValid_example :
    (c' : Cache) × (perform uses one_buffer ≡ some c') × IsValid c' × (c'.size ≡ 100)
perform-IsValid_example = perform-IsValid uses one_buffer one_buffer-IsValid uses-AllAllowed

release-unknown_example :
    (c' : Cache) × (release one_buffer 5 ≡ some c')
    × ((address length : ℕ) → get address c' length ≡ none)
    × ((address : ℕ) → address ≢ 0 → release c' address ≡ none)
    × (release c' 0 ≡ some c')
release-unknown_example = release-unknown one_buffer 5 refl (λ e. absurd (omega arith)) refl
