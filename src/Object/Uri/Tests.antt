-- ===== src/Object/Uri/Tests.antt =====
-- A URI of an object, whose name has a slash.
use julea.Common.{
  ℕ, zero, suc, ◌≡◌, refl, ◌⊎◌, inl, inr, Bool, true, false, none, some, List, [], ◌∷◌, ◌++◌, ◌==◌,
  ap, sym, ◌∙◌, arith,
}
use mathlib.Core.List.{append-nil}
use julea.Semantics.Parse.{bytes, has_prefix, same}
use julea.Uri.Laws.{Tokens, Splits, NoSlash, join, behind}
use julea.Uri.{has_slash, parse}
use julea.Object.Uri.{object, new}
use julea.Object.Uri.Laws.{meaning, Written, new-meaning}

-- A text is what stands before and behind its first slash, or has none.
abbrev Cut : List ℕ → Type 0
Cut text =
    ((before : List ℕ) × (after : List ℕ) × (text ≡ before ++ b'/' ∷ after) × NoSlash before)
    ⊎ NoSlash text

abbrev put_before : (c : ℕ) (cs : List ℕ) → (c == b'/') ≡ false → Cut cs → Cut (c ∷ cs)
unfolding has_slash
put_before c cs h (inl (before, after, e, clear)) =
    inl (c ∷ before, after, ap (λ (xs : List ℕ). c ∷ xs) e, rw (h, clear) refl)
put_before c cs h (inr clear) = inr (rw (h, clear) refl)

cut_at : (c : ℕ) → (c == b'/') ≡ true → c ≡ b'/'
cut_at c h = ground (arith, h)

abbrev at_slash : (c : ℕ) (cs : List ℕ) → (c == b'/') ≡ true → Cut (c ∷ cs)
unfolding has_slash
at_slash c cs h = inl ([], cs, ap (λ (x : ℕ). x ∷ cs) (cut_at c h), refl)

abbrev choose : (c : ℕ) (cs : List ℕ) → Cut cs → (b : Bool) → (c == b'/') ≡ b → Cut (c ∷ cs)
choose c cs rest true h = at_slash c cs h
choose c cs rest false h = put_before c cs h rest

abbrev cut : (text : List ℕ) → Cut text
unfolding has_slash
cut [] = inr refl
cut (c ∷ cs) = choose c cs (cut cs) (c == b'/') refl

-- The first token and the others.
abbrev tokens_of :
    (text : List ℕ) → Cut text → (List ℕ → List ℕ × List (List ℕ)) → List ℕ × List (List ℕ)
tokens_of text (inl (before, after, e, clear)) next = (before, (next after).0 ∷ (next after).1)
tokens_of text (inr clear) next = (text, [])

abbrev split_from : ℕ → List ℕ → List ℕ × List (List ℕ)
split_from zero text = (text, [])
split_from (suc n) text = tokens_of text (cut text) (split_from n)

abbrev split : ℕ → List ℕ → List (List ℕ)
split n [] = []
split zero (c ∷ cs) = []
split (suc n) (c ∷ cs) = (split_from n (c ∷ cs)).0 ∷ (split_from n (c ∷ cs)).1

abbrev Joins : (List ℕ → List ℕ × List (List ℕ)) → Type 0
Joins next = (text : List ℕ) → (next text).0 ++ behind (next text).1 ≡ text

tokens_of-Joins :
    (text : List ℕ) (c : Cut text) (next : List ℕ → List ℕ × List (List ℕ))
    → Joins next
    → (tokens_of text c next).0 ++ behind (tokens_of text c next).1 ≡ text
tokens_of-Joins text (inl (before, after, e, clear)) next h =
    ap (λ (xs : List ℕ). before ++ b'/' ∷ xs) (h after) ∙ sym e
tokens_of-Joins text (inr clear) next h = append-nil text

split_from-Joins : (n : ℕ) → Joins (split_from n)
split_from-Joins zero text = append-nil text
split_from-Joins (suc n) text = tokens_of-Joins text (cut text) (split_from n) (split_from-Joins n)

tokens_of-Tokens :
    (n : ℕ) (text : List ℕ) (c : Cut text) (next : List ℕ → List ℕ × List (List ℕ))
    → ((rest : List ℕ) → Tokens (suc n) ((next rest).0 ∷ (next rest).1))
    → Tokens (suc (suc n)) ((tokens_of text c next).0 ∷ (tokens_of text c next).1)
tokens_of-Tokens n text (inl (before, after, e, clear)) next h = (clear, h after)
tokens_of-Tokens n text (inr clear) next h = (clear, tt)

split_from-Tokens :
    (n : ℕ) (text : List ℕ) → Tokens (suc n) ((split_from n text).0 ∷ (split_from n text).1)
split_from-Tokens zero text = refl
split_from-Tokens (suc n) text =
    tokens_of-Tokens n text (cut text) (split_from n) (split_from-Tokens n)

split-joins : (n : ℕ) (text : List ℕ) → join (split (suc n) text) ≡ text
split-joins n [] = refl
split-joins n (c ∷ cs) = split_from-Joins n (c ∷ cs)

split-Tokens : (n : ℕ) (text : List ℕ) → Tokens (suc n) (split (suc n) text)
split-Tokens n [] = tt
split-Tokens n (c ∷ cs) = split_from-Tokens n (c ∷ cs)

split-Splits : Splits split
split-Splits = record { joins = split-joins; tokens = split-Tokens }

-- Not the real one: all servers have the index 3.
abbrev three : List ℕ → ℕ
three text = 3

abbrev uri : List ℕ
uri = bytes "object://3/ns/dir/name"

abbrev three_parts : List (List ℕ)
three_parts = bytes "3" ∷ bytes "ns" ∷ bytes "dir/name" ∷ []

accepted :
    new split three 4 512 1 uri object
    ≡ some (some (meaning split three 4 512 1 object three_parts))
unfolding new parse has_prefix cut same
accepted = refl

new-meaning_example :
    ((parts : List (List ℕ)) × Written split three 4 512 1 object uri parts
      × (new split three 4 512 1 uri object
          ≡ some (some (meaning split three 4 512 1 object parts))))
    ⊎ (((parts : List (List ℕ)) → ¬ Written split three 4 512 1 object uri parts)
        × (new split three 4 512 1 uri object ≡ some none))
new-meaning_example = new-meaning split three 4 512 1 split-Splits uri object
