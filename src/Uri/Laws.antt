-- ===== src/Uri/Laws.antt =====
-- Which URIs are accepted.
use mathlib.Core.List.{append-nil}
use mathlib.Core.Option.{some-injective}
use julea.Common.{
  ℕ, zero, suc, ◌<◌, ◌≡◌, refl, sym, ap, ap₂, ◌∙◌, ◌↔◌, ◌≢◌, Bool, true, false, not, ◌&&◌, ◌==◌,
  none, some, List, [], ◌∷◌, ◌++◌, length, take, drop, if◌then◌else◌, arith, All, drop-append,
}
use julea.Semantics.Parse.{has_prefix, same}
use julea.Uri.{has_slash, any_slash, any_empty, parse}

-- The parts with a slash before each.
abbrev pub behind : List (List ℕ) → List ℕ
behind [] = []
behind (p ∷ ps) = b'/' ∷ (p ++ behind ps)

-- The parts with slashes between them.
abbrev pub join : List (List ℕ) → List ℕ
join [] = []
join (p ∷ ps) = p ++ behind ps

-- At most `n` tokens, of which only the `n`th may have slashes.
abbrev pub Tokens : ℕ → List (List ℕ) → Type 0
Tokens n [] = Unit
Tokens zero (p ∷ ps) = ⊥
Tokens (suc zero) (p ∷ ps) = ps ≡ []
Tokens (suc (suc n)) (p ∷ ps) = (has_slash p ≡ false) × Tokens (suc n) ps

-- What GLib documents of `g_strsplit`: the tokens are what stands between the slashes; when there
-- are `n` of them, the remainder is the last.
pub record Splits (strsplit : ℕ → List ℕ → List (List ℕ)) : Type 0 where
  pub joins : (n : ℕ) (text : List ℕ) → join (strsplit (suc n) text) ≡ text
  pub tokens : (n : ℕ) (text : List ℕ) → Tokens (suc n) (strsplit (suc n) text)

-- Two texts agree on what stands before and behind their first slashes.
first_slash :
    (p q a b : List ℕ)
    → has_slash p ≡ false
    → has_slash q ≡ false
    → p ++ b'/' ∷ a ≡ q ++ b'/' ∷ b
    → (p ≡ q) × (a ≡ b)
unfolding has_slash
first_slash [] [] a b hp hq e = (refl, cc e)
first_slash [] (d ∷ ds) a b hp hq e = let h : b'/' ≡ d = cc e in absurd (ground (arith, h, hq))
first_slash (c ∷ cs) [] a b hp hq e = let h : c ≡ b'/' = cc e in absurd (ground (arith, h, hp))
first_slash (c ∷ cs) (d ∷ ds) a b hp hq e =
    let head : c ≡ d = cc e in
    let tail : cs ++ b'/' ∷ a ≡ ds ++ b'/' ∷ b = cc e in
    let (h, t) = first_slash cs ds a b (ground (arith, hp)) (ground (arith, hq)) tail in
    (ap₂ ◌∷◌ head h, t)

-- A text with a slash has one.
has_slash-behind : (p a : List ℕ) → has_slash (p ++ b'/' ∷ a) ≡ true
unfolding has_slash
has_slash-behind [] a = refl
has_slash-behind (c ∷ cs) a = rw (has_slash-behind cs a) (ground arith)

abbrev pub Filled : List ℕ → Type 0
Filled p = 0 < length p

abbrev pub NoSlash : List ℕ → Type 0
NoSlash p = has_slash p ≡ false

-- What the parts of an accepted URI are.
pub record ArePartsOf (scheme_parts checked : ℕ) (parts : List (List ℕ)) : Type 0 where
  pub counted : length parts ≡ scheme_parts
  pub filled : All Filled parts
  pub tokens : Tokens scheme_parts parts
  pub clear : All NoSlash (take checked parts)

join-filled : (p : List ℕ) (ps : List (List ℕ)) → Filled p → join (p ∷ ps) ≢ []
join-filled [] ps h e = absurd (omega arith)
join-filled (c ∷ cs) ps h e = cc e

-- A text is split in one way only, if none of the parts is empty.
join-Tokens :
    (n : ℕ) (ps qs : List (List ℕ))
    → length ps ≡ suc n
    → All Filled ps
    → Tokens (suc n) ps
    → Tokens (suc n) qs
    → join ps ≡ join qs
    → ps ≡ qs
join-Tokens n [] qs len filled tp tq e = absurd (omega (arith, len))
join-Tokens n (p ∷ ps) [] len filled tp tq e = absurd (join-filled p ps filled.0 e)
join-Tokens zero (p ∷ ps) (q ∷ qs) len filled tp tq e =
    let e' : p ++ [] ≡ q ++ [] = rw (tp, tq) at e in
    ap₂ ◌∷◌ (sym (append-nil p) ∙ e' ∙ append-nil q) (tp ∙ sym tq)
join-Tokens (suc n) (p ∷ []) (q ∷ qs) len filled tp tq e = absurd (omega (arith, len))
join-Tokens (suc n) (p ∷ p2 ∷ ps) (q ∷ []) len filled (tp, tps) (tq, tqs) e =
    let h = has_slash-behind p (p2 ++ behind ps) in
    let e' : p ++ b'/' ∷ (p2 ++ behind ps) ≡ q = e ∙ append-nil q in
    absurd (cc (sym h ∙ ap has_slash e' ∙ tq))
join-Tokens (suc n) (p ∷ p2 ∷ ps) (q ∷ q2 ∷ qs) len (filled, rest) (tp, tps) (tq, tqs) e =
    let (h, t) = first_slash p q (join (p2 ∷ ps)) (join (q2 ∷ qs)) tp tq e in
    ap₂ ◌∷◌ h (join-Tokens n (p2 ∷ ps) (q2 ∷ qs) (omega (arith, len)) rest tps tqs t)

any_empty-Filled : (ps : List (List ℕ)) → (any_empty ps ≡ false) ↔ All Filled ps
unfolding any_empty same
any_empty-Filled [] = ((λ e. tt), λ h. refl)
any_empty-Filled ([] ∷ ps) = ((λ e. cc e), λ h. absurd (omega (arith, h.0)))
any_empty-Filled ((c ∷ cs) ∷ ps) =
    let (there, back) = any_empty-Filled ps in ((λ e. (omega arith, there e)), λ h. back h.1)

any_slash-NoSlash : (ps : List (List ℕ)) → (any_slash ps ≡ false) ↔ All NoSlash ps
unfolding any_slash
any_slash-NoSlash [] = ((λ e. tt), λ h. refl)
any_slash-NoSlash (p ∷ ps) =
    let (there, back) = any_slash-NoSlash ps in
    ((λ e. (ground (arith, e), there (ground (arith, e)))), λ h. rw (h.0, back h.1) refl)

has_prefix-append : (p s : List ℕ) → has_prefix (p ++ s) p ≡ true
unfolding has_prefix
has_prefix-append [] s = refl
has_prefix-append (c ∷ cs) s = let h = has_prefix-append cs s in ground (arith, h)

has_prefix-drop : (p s : List ℕ) → has_prefix s p ≡ true → s ≡ p ++ drop (length p) s
unfolding has_prefix
has_prefix-drop [] s h = refl
has_prefix-drop (c ∷ cs) [] h = cc h
has_prefix-drop (c ∷ cs) (d ∷ ds) h =
    ap₂ ◌∷◌ (ground (arith, h)) (has_prefix-drop cs ds (ground (arith, h)))

guarded :
    {A : Type 0} (a b c d : Bool) (x y : A)
    → (if a && b && not c && not d then some x else none) ≡ some y
    → (a ≡ true) × (b ≡ true) × (c ≡ false) × (d ≡ false) × (x ≡ y)
guarded true true false false x y e = (refl, refl, refl, refl, some-injective x y e)
guarded true true false true x y e = cc e
guarded true true true d x y e = cc e
guarded true false c d x y e = cc e
guarded false b c d x y e = cc e

module _ (strsplit : ℕ → List ℕ → List (List ℕ)) (splits : Splits strsplit) (scheme_prefix : List ℕ)
    (scheme_parts checked : ℕ) where
  -- A URI is accepted exactly if it is the prefix of its scheme followed by parts, with slashes
  -- between them: as many as the scheme has, none empty, and without slashes but in the last one
  -- where that is not searched.
  pub parse-ArePartsOf :
      (uri : List ℕ) (parts : List (List ℕ))
      → (parse strsplit scheme_prefix (suc scheme_parts) checked uri ≡ some parts)
        ↔ ((uri ≡ scheme_prefix ++ join parts) × ArePartsOf (suc scheme_parts) checked parts)
  unfolding parse
  parse-ArePartsOf uri parts =
      let text = drop (length scheme_prefix) uri in
      let tokens = strsplit (suc scheme_parts) text in
      (
        (λ e.
            let (prefixed, counted, filled, clear, same_parts) =
              guarded (has_prefix uri scheme_prefix) (length tokens == suc scheme_parts)
                (any_empty tokens) (any_slash (take checked tokens)) tokens parts e in
            rw⁻¹ same_parts (
              has_prefix-drop scheme_prefix uri prefixed
                  ∙ ap (λ (xs : List ℕ). scheme_prefix ++ xs)
                      (sym (splits.joins scheme_parts text)),
              record {
                counted = ground (arith, counted);
                filled = (any_empty-Filled tokens).0 filled;
                tokens = splits.tokens scheme_parts text;
                clear = (any_slash-NoSlash (take checked tokens)).0 clear;
              },
            )),
        (λ (written, are).
            let rest : text ≡ join parts =
              ap (drop (length scheme_prefix)) written ∙ drop-append scheme_prefix (join parts) in
            let same_parts : parts ≡ tokens =
              join-Tokens scheme_parts parts tokens are.counted are.filled are.tokens
                (splits.tokens scheme_parts text)
                (sym rest ∙ sym (splits.joins scheme_parts text)) in
            let prefixed : has_prefix uri scheme_prefix ≡ true =
              rw written (has_prefix-append scheme_prefix (join parts)) in
            let counted : (length parts == suc scheme_parts) ≡ true = ground (arith, are.counted) in
            let filled = (any_empty-Filled parts).1 are.filled in
            let clear = (any_slash-NoSlash (take checked parts)).1 are.clear in
            rw (sym same_parts, prefixed, counted, filled, clear) refl),
      )
