-- ===== src/Semantics/Tests.antt =====
-- Semantics objects at concrete settings.
use julea.Common.{◌≡◌, refl, true, false, some, none, [], ◌∷◌}
use julea.Semantics.{
  Semantics, Setting, posix, default, batch, session, volatile, open_access, eventual, ref, new,
  set,
}
use julea.Semantics.Laws.{set_all, set_all-ref}
use julea.Semantics.Parse.{
  bytes, printed, parse_template, read_part, after_equals, has_prefix, same, new_from_string,
  new_from_string-printed,
}

abbrev chosen : Semantics
chosen = record {
  atomicity = batch;
  consistency = session;
  persistency = volatile;
  security = open_access;
  immutable = true;
  ref_count = 3;
}

-- A part with no `=` is passed over, and an unknown value aborts.
skips : new_from_string none (some (bytes "atomicity" ∷ [])) ≡ some (new default)
unfolding new_from_string read_part after_equals has_prefix same new set
skips = refl

aborts : new_from_string none (some (bytes "atomicity=all" ∷ [])) ≡ none
unfolding new_from_string read_part after_equals has_prefix same new set
aborts = refl

posix-template : parse_template (some (bytes "posix")) ≡ some posix
unfolding parse_template same
posix-template = refl

new_from_string-printed_example :
    new_from_string (some (bytes "posix")) (some (printed chosen))
    ≡ some (record chosen { immutable = false; ref_count = 1 })
new_from_string-printed_example =
    new_from_string-printed (some (bytes "posix")) posix chosen posix-template

set_all-ref_example :
    set_all (ref (new posix)) (Setting.consistency eventual ∷ Setting.atomicity batch ∷ [])
    ≡ ref (new posix)
set_all-ref_example =
    set_all-ref (new posix) (Setting.consistency eventual ∷ Setting.atomicity batch ∷ [])
