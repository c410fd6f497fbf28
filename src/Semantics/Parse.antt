-- ===== src/Semantics/Parse.antt =====
-- `j_semantics_new_from_string`: texts are lists of bytes, and `g_strsplit` has split the list of
-- settings at its commas. `none` is an abort by `g_assert_not_reached`.
use Prim.Native.String.{String}
use Prim.Native.Char.{code}
use julea.Common.{
  ℕ, ◌≡◌, refl, ap, Bool, true, false, ◌&&◌, Option, none, some, ◌>>=◌, List, [], ◌∷◌, ◌++◌, ◌==◌,
  if◌then◌else◌,
}
use julea.Semantics.{
  Semantics, Setting, Template, Atomicity, Consistency, Persistency, Security, default, posix,
  temporary_local, batch, operation, unprotected, immediate, session, eventual, storage, network,
  volatile, strict, open_access, new, set,
}

abbrev pub bytes : String → List ℕ
bytes String.[] = []
bytes (String.◌∷◌ c s) = code c ∷ bytes s

-- `g_strcmp0(a, b) == 0`
unfoldable pub same : List ℕ → List ℕ → Bool
same [] [] = true
same [] (y ∷ ys) = false
same (x ∷ xs) [] = false
same (x ∷ xs) (y ∷ ys) = (x == y) && same xs ys

-- `g_str_has_prefix(s, p)`
unfoldable pub has_prefix : List ℕ → List ℕ → Bool
has_prefix s [] = true
has_prefix [] (y ∷ ys) = false
has_prefix (x ∷ xs) (y ∷ ys) = (x == y) && has_prefix xs ys

-- What stands behind the first `=`.
unfoldable pub after_equals : List ℕ → Option (List ℕ)
after_equals [] = none
after_equals (c ∷ cs) = if c == b'=' then some cs else after_equals cs

unfoldable pub parse_template : Option (List ℕ) → Option Template
parse_template none = some default
parse_template (some t) =
    if same t (bytes "default")
    then some default
    else if same t (bytes "posix")
    then some posix
    else if same t (bytes "temporary-local")
    then some temporary_local
    else none

unfoldable pub parse_atomicity : List ℕ → Option Setting
parse_atomicity v =
    if same v (bytes "batch")
    then some (Setting.atomicity batch)
    else if same v (bytes "operation")
    then some (Setting.atomicity operation)
    else if same v (bytes "none")
    then some (Setting.atomicity unprotected)
    else none

unfoldable pub parse_consistency : List ℕ → Option Setting
parse_consistency v =
    if same v (bytes "immediate")
    then some (Setting.consistency immediate)
    else if same v (bytes "session")
    then some (Setting.consistency session)
    else if same v (bytes "eventual")
    then some (Setting.consistency eventual)
    else none

unfoldable pub parse_persistency : List ℕ → Option Setting
parse_persistency v =
    if same v (bytes "storage")
    then some (Setting.persistency storage)
    else if same v (bytes "network")
    then some (Setting.persistency network)
    else if same v (bytes "none")
    then some (Setting.persistency volatile)
    else none

unfoldable pub parse_security : List ℕ → Option Setting
parse_security v =
    if same v (bytes "strict")
    then some (Setting.security strict)
    else if same v (bytes "none")
    then some (Setting.security open_access)
    else none

unfoldable pub parse_setting : List ℕ → List ℕ → Option Setting
unfolding parse_atomicity parse_consistency parse_persistency parse_security
parse_setting part value =
    if has_prefix part (bytes "atomicity=")
    then parse_atomicity value
    else if has_prefix part (bytes "consistency=")
    then parse_consistency value
    else if has_prefix part (bytes "persistency=")
    then parse_persistency value
    else if has_prefix part (bytes "security=")
    then parse_security value
    else none

-- One round of the loop; a part with no `=` is passed over.
unfoldable pub read_part : Semantics → List ℕ → Option Semantics
unfolding parse_setting
read_part s part = elim (after_equals part) [
  | none ↦ some s
  | some value ↦ parse_setting part value >>= λ v. some (set s v)
]

unfoldable pub read_parts : Semantics → List (List ℕ) → Option Semantics
read_parts s [] = some s
read_parts s (p ∷ ps) = read_part s p >>= λ s'. read_parts s' ps

-- `parts` is `none` where no list of settings is given.
unfoldable pub new_from_string : Option (List ℕ) → Option (List (List ℕ)) → Option Semantics
unfolding parse_template read_parts
new_from_string template_str none = parse_template template_str >>= λ t. some (new t)
new_from_string template_str (some parts) =
    parse_template template_str >>= λ t. read_parts (new t) parts

abbrev pub atomicity_name : Atomicity → String
atomicity_name batch = "batch"
atomicity_name operation = "operation"
atomicity_name unprotected = "none"

abbrev pub consistency_name : Consistency → String
consistency_name immediate = "immediate"
consistency_name session = "session"
consistency_name eventual = "eventual"

abbrev pub persistency_name : Persistency → String
persistency_name storage = "storage"
persistency_name network = "network"
persistency_name volatile = "none"

abbrev pub security_name : Security → String
security_name strict = "strict"
security_name open_access = "none"

-- The settings as a user writes them.
abbrev pub printed : Semantics → List (List ℕ)
printed s =
    (bytes "atomicity=" ++ bytes (atomicity_name s.atomicity))
    ∷ (bytes "consistency=" ++ bytes (consistency_name s.consistency))
    ∷ (bytes "persistency=" ++ bytes (persistency_name s.persistency))
    ∷ (bytes "security=" ++ bytes (security_name s.security))
    ∷ []

read_atomicity :
    (s : Semantics) (v : Atomicity)
    → read_part s (bytes "atomicity=" ++ bytes (atomicity_name v))
      ≡ some (set s (Setting.atomicity v))
unfolding read_part after_equals has_prefix same
read_atomicity s batch = refl
read_atomicity s _ = refl

read_consistency :
    (s : Semantics) (v : Consistency)
    → read_part s (bytes "consistency=" ++ bytes (consistency_name v))
      ≡ some (set s (Setting.consistency v))
unfolding read_part after_equals has_prefix same
read_consistency s immediate = refl
read_consistency s _ = refl

read_persistency :
    (s : Semantics) (v : Persistency)
    → read_part s (bytes "persistency=" ++ bytes (persistency_name v))
      ≡ some (set s (Setting.persistency v))
unfolding read_part after_equals has_prefix same
read_persistency s storage = refl
read_persistency s _ = refl

read_security :
    (s : Semantics) (v : Security)
    → read_part s (bytes "security=" ++ bytes (security_name v)) ≡ some (set s (Setting.security v))
unfolding read_part after_equals has_prefix same
read_security s strict = refl
read_security s _ = refl

new-mutable : (t : Template) → ((new t).immutable ≡ false) × ((new t).ref_count ≡ 1)
unfolding new
new-mutable default = (refl, refl)
new-mutable _ = (refl, refl)

-- Four assignments to an object that is not shared replace all its settings.
set_four :
    (s0 s : Semantics)
    → s0.immutable ≡ false
    → set
        (set
          (set (set s0 (Setting.atomicity s.atomicity)) (Setting.consistency s.consistency))
          (Setting.persistency s.persistency))
        (Setting.security s.security)
      ≡ record s { immutable = false; ref_count = s0.ref_count }
unfolding set
set_four s0 s h = rw h

read_parts-printed :
    (s0 s : Semantics)
    → s0.immutable ≡ false
    → read_parts s0 (printed s) ≡ some (record s { immutable = false; ref_count = s0.ref_count })
unfolding read_parts
read_parts-printed s0 s h =
    rw
      (
        read_atomicity s0 s.atomicity,
        read_consistency _ s.consistency,
        read_persistency _ s.persistency,
        read_security _ s.security,
      )
      (ap some (set_four s0 s h))

-- The settings as a user writes them, in the order of the keys, are read back whatever the
-- template is, and the object is a fresh one that can still be changed.
pub new_from_string-printed :
    (template_str : Option (List ℕ)) (t : Template) (s : Semantics)
    → parse_template template_str ≡ some t
    → new_from_string template_str (some (printed s))
      ≡ some (record s { immutable = false; ref_count = 1 })
unfolding new_from_string
new_from_string-printed template_str t s h =
    let (mutable, counted) = new-mutable t in rw (h, read_parts-printed (new t) s mutable, counted)
