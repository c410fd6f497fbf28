-- ===== src/Uri.antt =====
-- What lib/object/jobject-uri.c and lib/kv/jkv-uri.c share: taking a URI apart. Texts are lists of
-- bytes.
pub mod Laws
use julea.Common.{
  ℕ, Bool, true, false, not, ◌&&◌, ◌||◌, ◌==◌, Option, none, some, List, [], ◌∷◌, length, take,
  drop, if◌then◌else◌,
}
use julea.Semantics.Parse.{has_prefix, same}

-- `strpbrk(text, "/") != NULL`
unfoldable pub has_slash : List ℕ → Bool
has_slash [] = false
has_slash (c ∷ cs) = (c == b'/') || has_slash cs

unfoldable pub any_slash : List (List ℕ) → Bool
any_slash [] = false
any_slash (p ∷ ps) = has_slash p || any_slash ps

unfoldable pub any_empty : List (List ℕ) → Bool
any_empty [] = false
any_empty (p ∷ ps) = same p [] || any_empty ps

-- The parts of a URI with the prefix and number of parts of its scheme, whose first `checked` parts
-- are searched for slashes; `none` is the error. `strsplit n text` is `g_strsplit(text, "/", n)`.
unfoldable pub parse :
    (strsplit : ℕ → List ℕ → List (List ℕ))
    → (scheme_prefix : List ℕ) → (scheme_parts checked : ℕ) → (uri : List ℕ)
    → Option (List (List ℕ))
unfolding any_slash any_empty
parse strsplit scheme_prefix scheme_parts checked uri =
    let parts = strsplit scheme_parts (drop (length scheme_prefix) uri) in
    if has_prefix uri scheme_prefix
      && (length parts == scheme_parts)
      && not (any_empty parts)
      && not (any_slash (take checked parts))
    then some parts
    else none
