-- ===== src/DistributedObject/Flat.antt =====
-- A distributed object is one flat array of bytes, whatever distribution spreads it.
use julea.Common.{
  ℕ, suc, true, ◌+◌, ◌-◌, ◌<◌, ◌≡◌, refl, ap₂, ◌∙◌, subst, some, List, [], ◌∷◌, length, get_or,
  arith,
}
use julea.Distribution.Piece.{Piece, Cover}
use julea.Distribution.Scheme.{split-Splits, Cover-transfer}
use julea.Distribution.Dispatch.{Distribution}
use julea.Distribution.Loop.{
  scheme, IsValid, InRange, place_of, place_of-inj, block_size_of, reset-Resets,
}
use julea.DistributedObject.{Store, pieces_of, write, read, write_pieces}
use julea.DistributedObject.Pieces.{within, flat_write, flat_read, write_pieces-at, read_pieces-at}

-- The object's bytes as the servers hold them.
abbrev pub contents : Distribution → Store → ℕ → ℕ
contents d s q = s (place_of d.impl q)

-- The loop over `j_distribution_distribute` after `j_distribution_reset` ends after at most
-- `n + 1` rounds, and its pieces are exactly the bytes `[offset, offset + n)`, in order,
-- each piece inside one block and contiguous on its server.
pub pieces_of-Cover :
    (d : Distribution) (n offset : ℕ)
    → IsValid d
    → InRange d.impl n offset
    → (cs : List Piece) × (d' : Distribution) × (pieces_of d n offset ≡ some (cs, d'))
      × Cover (place_of d.impl) (block_size_of d.impl) (offset + n) offset cs
unfolding pieces_of scheme
pieces_of-Cover d n offset v r =
    let (d1, (done, v1, l1, o1, at, blocks)) = reset-Resets d n offset v r in
    let (cs, d2, run, cover, _) = split-Splits scheme (n + 1) d1 v1 (omega arith) in
    (cs, d2, rw (done, run) refl, Cover-transfer at blocks (omega arith) o1 cover)

module _ (d : Distribution) (s : Store) where
  -- Writing to the servers is writing to the flat array of the object's bytes.
  pub write-flat_write :
      (bytes : List ℕ) (offset : ℕ)
      → IsValid d
      → InRange d.impl (length bytes) offset
      → (s' : Store) × (d' : Distribution) × (write d s bytes offset ≡ some (s', d'))
        × ((q : ℕ) → contents d s' q ≡ flat_write (contents d s) offset bytes q)
  unfolding write
  write-flat_write bytes offset v r =
      let (cs, d', run, cover) = pieces_of-Cover d (length bytes) offset v r in
      (
        write_pieces s cs bytes,
        d',
        rw run refl,
        λ q.
            write_pieces-at (place_of d.impl) (λ x y. place_of-inj d.impl x y v.sound)
              (block_size_of d.impl) s offset (offset + length bytes) cs bytes q cover refl,
      )

  -- Reading from the servers is reading the flat array of the object's bytes.
  pub read-flat_read :
      (n offset : ℕ)
      → IsValid d
      → InRange d.impl n offset
      → (d' : Distribution) × (read d s n offset ≡ some (flat_read (contents d s) offset n, d'))
  unfolding read
  read-flat_read n offset v r =
      let (cs, d', run, cover) = pieces_of-Cover d n offset v r in
      let bytes =
        read_pieces-at s (place_of d.impl) (block_size_of d.impl) offset (offset + n) cs cover in
      let e : offset + n - offset ≡ n = omega arith in (d', rw (run, bytes, e) refl)

flat_read-eq :
    (f : ℕ → ℕ) (p : ℕ) (bytes : List ℕ)
    → ((k : ℕ) → k < length bytes → f (p + k) ≡ get_or bytes k 0)
    → flat_read f p (length bytes) ≡ bytes
unfolding flat_read
flat_read-eq f p [] h = refl
flat_read-eq f p (b ∷ bs) h =
    let e : p + 0 ≡ p = omega arith in
    ap₂ ◌∷◌ (rw e at (h 0 (omega arith))) (
      flat_read-eq f (p + 1) bs
        λ k lt. let a : p + 1 + k ≡ p + suc k = omega arith in rw a (h (suc k) (omega arith)))

-- What was written is read back, from servers in any state.
pub read-write :
    (d : Distribution) (s : Store) (bytes : List ℕ) (offset : ℕ)
    → IsValid d
    → InRange d.impl (length bytes) offset
    → (s' : Store) × (d' d'' : Distribution) × (write d s bytes offset ≡ some (s', d'))
      × (read d s' (length bytes) offset ≡ some (bytes, d''))
read-write d s bytes offset v r =
    let (s', d', written, at) = write-flat_write d s bytes offset v r in
    let (d'', got) = read-flat_read d s' (length bytes) offset v r in
    (
      s',
      d',
      d'',
      written,
      subst (λ xs. read d s' (length bytes) offset ≡ some (xs, d''))
          (flat_read-eq (contents d s') offset bytes λ k lt. at (offset + k) ∙ written_at k lt) got,
    )
  where
    written_at :
        (k : ℕ)
        → k < length bytes
        → flat_write (contents d s) offset bytes (offset + k) ≡ get_or bytes k 0
    written_at k lt =
        let e : offset + k - offset ≡ k = omega arith in
        let inside : within offset (length bytes) (offset + k) ≡ true = ground arith in
        rw (inside, e)
