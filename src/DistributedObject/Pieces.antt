-- ===== src/DistributedObject/Pieces.antt =====
-- Writing and reading piece by piece, over any placement that gives each byte its own place.
use julea.Common.{
  ℕ, zero, suc, ◌+◌, ◌-◌, ◌<◌, ◌≤◌, ◌≡◌, refl, sym, ap, ap₂, ◌∙◌, List, [], ◌∷◌, ◌++◌, ◌&&◌, Bool,
  true, false, ◌==◌, leb, ltb, if◌then◌else◌, take, drop, get_or, length, arith, Bool-cases, inl,
  inr,
}
use julea.Distribution.Piece.{Piece, Place, Holds, Cover, done, more}
use julea.DistributedObject.{Store, write_piece, write_pieces, read_bytes, read_pieces}

-- The byte at position `q` lies in the range of `n` bytes from `p` on.
abbrev pub within : ℕ → ℕ → ℕ → Bool
within p n q = leb p q && ltb q (p + n)

-- `write` on a flat array of bytes.
abbrev pub flat_write : (ℕ → ℕ) → ℕ → List ℕ → ℕ → ℕ
flat_write f p bytes q = if within p (length bytes) q then get_or bytes (q - p) 0 else f q

-- `read` on a flat array of bytes.
unfoldable pub flat_read : (ℕ → ℕ) → ℕ → ℕ → List ℕ
flat_read f p zero = []
flat_read f p (suc n) = f p ∷ flat_read f (p + 1) n

get_or-take : (bs : List ℕ) (n i : ℕ) → i < n → get_or (take n bs) i 0 ≡ get_or bs i 0
get_or-take [] zero i h = refl
get_or-take [] (suc n) i h = refl
get_or-take (b ∷ bs) zero i h = absurd (omega arith)
get_or-take (b ∷ bs) (suc n) zero h = refl
get_or-take (b ∷ bs) (suc n) (suc i) h = get_or-take bs n i (omega arith)

get_or-drop : (bs : List ℕ) (n i : ℕ) → get_or (drop n bs) i 0 ≡ get_or bs (n + i) 0
get_or-drop bs zero i = let e : 0 + i ≡ i = omega arith in rw e
get_or-drop [] (suc n) i = refl
get_or-drop (b ∷ bs) (suc n) i =
    let e : suc n + i ≡ suc (n + i) = omega arith in rw e (get_or-drop bs n i)

length-drop : (bs : List ℕ) (n : ℕ) → length (drop n bs) ≡ length bs - n
length-drop bs zero = omega arith
length-drop [] (suc n) = omega arith
length-drop (b ∷ bs) (suc n) = omega (arith, length-drop bs n)

Cover-le : {at : ℕ → Place} {b e p : ℕ} {cs : List Piece} → Cover at b e p cs → p ≤ e
Cover-le done = omega arith
Cover-le (more h rest) = omega (arith, Cover-le rest)

-- A piece written at the front, and the rest behind it, are one write.
flat_join :
    (p n q : ℕ) (bytes : List ℕ) (old new : ℕ)
    → n ≤ length bytes
    → new ≡ (if within p n q then get_or (take n bytes) (q - p) 0 else old)
    → (if within (p + n) (length (drop n bytes)) q
        then get_or (drop n bytes) (q - (p + n)) 0
        else new)
      ≡ (if within p (length bytes) q then get_or bytes (q - p) 0 else old)
flat_join p n q bytes old new le e = elim (Bool-cases (within p n q)) [
  | inl w ↦
      let front : within (p + n) (length bytes - n) q ≡ false = ground arith in
      let whole : within p (length bytes) q ≡ true = ground arith in
      rw (length-drop bytes n, front, whole, e, w) (get_or-take bytes n (q - p) (ground arith))
  | inr w ↦ elim (Bool-cases (within p (length bytes) q)) [
    | inl whole ↦
        let back : within (p + n) (length bytes - n) q ≡ true = ground arith in
        rw (length-drop bytes n, back, whole)
          (get_or-drop bytes n (q - (p + n)) ∙ ap (λ (x : ℕ). get_or bytes x 0) (ground arith))
    | inr none_hit ↦
        let back : within (p + n) (length bytes - n) q ≡ false = ground arith in
        rw (length-drop bytes n, back, none_hit, e, w)
  ]
]

-- The backend's test on places.
abbrev touches : Piece → Place → Bool
touches c r =
    (r.server == c.index)
    && leb c.new_offset r.position
    && ltb r.position (c.new_offset + c.new_length)

module _ (at : ℕ → Place) (inj : (x y : ℕ) → at x ≡ at y → x ≡ y) (b : ℕ) where
  inside-place :
      (p : ℕ) (c : Piece) (q : ℕ)
      → Holds at b p c
      → within p c.new_length q ≡ true
      → at q ≡ record { server = c.index; position = c.new_offset + (q - p) }
  inside-place p c q h w =
      let e : p + (q - p) ≡ q = ground arith in sym (ap at e) ∙ h.place (q - p) (ground arith)

  touches-inside :
      (p : ℕ) (c : Piece) (q : ℕ)
      → Holds at b p c
      → touches c (at q) ≡ true
      → within p c.new_length q ≡ true
  touches-inside p c q h t =
      let k = (at q).position - c.new_offset in
      let e : (c.index ≡ (at q).server)
          × (c.new_offset + k ≡ (at q).position)
          × (k < c.new_length) =
        ground arith in
      let same : p + k ≡ q =
        inj (p + k) q (h.place k e.2 ∙ λ i. record { server = e.0 i; position = e.1 i }) in
      ground arith

  -- The backend's test on places is the range test on positions.
  hits : (p : ℕ) (c : Piece) (q : ℕ) → Holds at b p c → touches c (at q) ≡ within p c.new_length q
  hits p c q h = elim (Bool-cases (within p c.new_length q)) [
    | inl w ↦ rw (inside-place p c q h w) (ground arith)
    | inr w ↦ elim (Bool-cases (touches c (at q))) [
      | inl t ↦ cc (touches-inside p c q h t)
      | inr t ↦ t ∙ sym w
    ]
  ]

  write_piece-at :
      (s : Store) (p : ℕ) (c : Piece) (bytes : List ℕ) (q : ℕ)
      → Holds at b p c
      → write_piece s c bytes (at q)
        ≡ (if within p c.new_length q then get_or bytes (q - p) 0 else s (at q))
  unfolding write_piece
  write_piece-at s p c bytes q h = elim (Bool-cases (within p c.new_length q)) [
    | inl w ↦
        rw (hits p c q h, w)
          (ap (λ (x : ℕ). get_or bytes x 0)
            (ap (λ (r : Place). r.position - c.new_offset) (inside-place p c q h w) ∙ omega arith))
    | inr w ↦ rw (hits p c q h, w)
  ]

  pub write_pieces-at :
      (s : Store) (p e : ℕ) (cs : List Piece) (bytes : List ℕ) (q : ℕ)
      → Cover at b e p cs
      → p + length bytes ≡ e
      → write_pieces s cs bytes (at q) ≡ flat_write (λ x. s (at x)) p bytes q
  unfolding write_pieces
  write_pieces-at s p e [] bytes q done l = ground arith
  write_pieces-at s p e (c ∷ cs) bytes q (more h rest) l =
      let n = c.new_length in
      let le : p + n ≤ e = Cover-le rest in
      let fits : n ≤ length bytes = omega arith in
      write_pieces-at (write_piece s c (take n bytes)) (p + n) e cs (drop n bytes) q rest
        (omega (arith, length-drop bytes n))
      ∙ flat_join p n q bytes (s (at q)) (write_piece s c (take n bytes) (at q)) fits
          (write_piece-at s p c (take n bytes) q h)

read_bytes-flat :
    (s : Store) (at : ℕ → Place) (server position p n : ℕ)
    → ((k : ℕ) → k < n → at (p + k) ≡ record { server = server; position = position + k })
    → read_bytes s server position n ≡ flat_read (λ x. s (at x)) p n
unfolding read_bytes flat_read
read_bytes-flat s at server position p zero h = refl
read_bytes-flat s at server position p (suc n) h =
    let e : p + 0 ≡ p = omega arith in
    let e' : position + 0 ≡ position = omega arith in
    let head : at p ≡ record { server = server; position = position } =
      rw (e, e') at (h 0 (omega arith)) in
    ap₂ ◌∷◌ (ap s (sym head)) (
      read_bytes-flat s at server (position + 1) (p + 1) n λ k lt.
        let a : p + 1 + k ≡ p + suc k = omega arith in
        let b : position + 1 + k ≡ position + suc k = omega arith in
        rw (a, b) (h (suc k) (omega arith)))

flat_read-append :
    (f : ℕ → ℕ) (p n m : ℕ) → flat_read f p n ++ flat_read f (p + n) m ≡ flat_read f p (n + m)
unfolding flat_read
flat_read-append f p zero m =
    let e : p + 0 ≡ p = omega arith in let e' : 0 + m ≡ m = omega arith in rw (e, e')
flat_read-append f p (suc n) m =
    let e : p + suc n ≡ p + 1 + n = omega arith in
    let e' : suc n + m ≡ suc (n + m) = omega arith in
    rw (e, e') (ap (◌∷◌ (f p)) (flat_read-append f (p + 1) n m))

-- Reading the pieces of a range is reading the range.
pub read_pieces-at :
    (s : Store) (at : ℕ → Place) (b p e : ℕ) (cs : List Piece)
    → Cover at b e p cs
    → read_pieces s cs ≡ flat_read (λ x. s (at x)) p (e - p)
unfolding read_pieces flat_read
read_pieces-at s at b p e [] done = let z : p - p ≡ 0 = omega arith in rw (z, flat_read)
read_pieces-at s at b p e (c ∷ cs) (more h rest) =
    let le : p + c.new_length ≤ e = Cover-le rest in
    let split : e - p ≡ c.new_length + (e - (p + c.new_length)) = omega arith in
    rw
      (
        read_bytes-flat s at c.index c.new_offset p c.new_length h.place,
        read_pieces-at s at b (p + c.new_length) e cs rest,
        split,
      )
      (flat_read-append (λ x. s (at x)) p c.new_length (e - (p + c.new_length)))
