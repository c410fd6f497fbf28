-- ===== src/Semantics/Laws.antt =====
-- A semantics object is a record of four settings until it is shared; then it is constant.
use julea.Common.{◌≡◌, ◌≢◌, refl, true, false, List, [], ◌∷◌, arith}
use julea.Semantics.{Semantics, Setting, Key, ref, set, get, key_of}

-- `j_semantics_set` in sequence.
pub set_all : Semantics → List Setting → Semantics
set_all s [] = s
set_all s (v ∷ vs) = set_all (set s v) vs

-- On an object that is not shared, a setting is read back and the other settings are kept.
get-set :
    (s : Semantics) (v : Setting) (k : Key)
    → s.immutable ≡ false
    → (get (set s v) (key_of v) ≡ v)
      × (k ≢ key_of v → get (set s v) k ≡ get s k)
      × ((set s v).immutable ≡ false)
unfolding get set
get-set s (Setting.atomicity v) Key.atomicity h = ground arith
get-set s _ _ h = ground arith

set-immutable : (s : Semantics) (v : Setting) → s.immutable ≡ true → set s v ≡ s
unfolding set
set-immutable s v h = rw h

-- Once a reference was taken, no sequence of settings changes the object.
pub set_all-ref : (s : Semantics) (vs : List Setting) → set_all (ref s) vs ≡ ref s
unfolding set_all
set_all-ref s [] = refl
set_all-ref s (v ∷ vs) = rw (set-immutable (ref s) v (unfold ref in refl)) (set_all-ref s vs)
