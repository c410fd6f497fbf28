-- ===== src/Cache/Laws.antt =====
-- The bytes in use are those of the buffers handed out, and never more than the cache's size.
use julea.Common.{
  ℕ, zero, suc, ◌≢◌, ◌+◌, ◌-◌, ◌<◌, ◌≤◌, ◌≡◌, refl, ◌∙◌, ◌==◌, ltb, true, false, Option, none, some,
  List, [], ◌∷◌, u64, u64_mod, sub64, ◌>>=◌, arith, Bool-cases, inl, inr, sum_by,
}
use julea.Cache.{Cache, lookup, remove, insert, get, release}

-- The bytes of all buffers.
abbrev pub total : List (ℕ × ℕ) → ℕ
total = sum_by (λ (k, v). v)

total-remove : (bs : List (ℕ × ℕ)) (key : ℕ) → total (remove bs key) + lookup bs key ≡ total bs
total-remove [] key = refl
total-remove ((k, v) ∷ bs) key = elim (Bool-cases (k == key)) [
  | inl here ↦ rw here (omega arith)
  | inr there ↦ rw there (omega (arith, total-remove bs key))
]

pub record IsValid (c : Cache) : Type 0 where
  pub counted : c.used ≡ total c.buffers
  pub bounded : c.used ≤ c.size
  pub small : c.size < u64_mod
  pub free : c.locked ≡ false

pub data Call : Type 0 where
  gets : (address length : ℕ) → Call
  releases : ℕ → Call

unfoldable pub perform : List Call → Cache → Option Cache
perform [] c = some c
perform (gets address length ∷ cs) c = get address c length >>= λ (c', p). perform cs c'
perform (releases address ∷ cs) c = release c address >>= perform cs

-- What the caller sees to: the length does not make the 64-bit sum wrap, and a released address
-- is that of a buffer; and what `g_malloc` sees to: the address is not in use.
abbrev pub Allowed : Cache → Call → Type 0
Allowed c (gets address length) = (c.used + length < u64_mod) × (lookup c.buffers address ≡ 0)
Allowed c (releases address) = 0 < lookup c.buffers address

-- Each call is allowed in the state in which it is made.
abbrev pub AllAllowed : List Call → Cache → Type 0
AllAllowed [] c = Unit
AllAllowed (call ∷ cs) c =
    Allowed c call × ((c' : Cache) → perform (call ∷ []) c ≡ some c' → AllAllowed cs c')

one_call :
    (call : Call) (c : Cache)
    → IsValid c
    → Allowed c call
    → (c' : Cache) × (perform (call ∷ []) c ≡ some c')
      × IsValid c'
      × (c'.size ≡ c.size)
      × ((cs : List Call) → perform (call ∷ cs) c ≡ perform cs c')
unfolding perform get release
one_call (gets address length) c v (fits, unused) =
    let e : u64 (c.used + length) ≡ c.used + length = omega arith in
    let f = v.free in
    elim (Bool-cases (ltb c.size (c.used + length))) [
      | inl full ↦ (c, rw (f, e, full) refl, v, refl, λ cs. rw (f, e, full) refl)
      | inr room ↦
          let le : c.used + length ≤ c.size = ground arith in
          (
            record c { used = c.used + length; buffers = insert c.buffers address length },
            rw (f, e, room) refl,
            record {
              counted = omega (arith, v.counted, total-remove c.buffers address, unused);
              bounded = le;
              small = v.small;
              free = f;
            },
            refl,
            λ cs. rw (f, e, room) refl,
          )
    ]
one_call (releases zero) c v known = (c, refl, v, refl, λ cs. refl)
one_call (releases (suc p)) c v known =
    let f = v.free in
    let address = suc p in
    let given : (suc p == 0) ≡ false = ground arith in
    let nonzero : (lookup c.buffers address == 0) ≡ false = ground arith in
    let sum = total-remove c.buffers address in
    let e : sub64 c.used (lookup c.buffers address) ≡ c.used - lookup c.buffers address =
      omega (arith, v.counted, v.bounded, v.small, sum) in
    (
      record c { buffers = remove c.buffers address; used = c.used - lookup c.buffers address },
      rw (given, f, nonzero, e) refl,
      record {
        counted = omega (arith, v.counted, sum);
        bounded = omega (arith, v.bounded);
        small = v.small;
        free = f;
      },
      refl,
      λ cs. rw (given, f, nonzero, e) refl,
    )

-- Whatever buffers are taken and given back: no call waits for ever, and the bytes counted as used
-- are those of the buffers handed out, never more than the size. The lengths do not make the sum
-- wrap, and only buffers that were handed out are given back.
pub perform-IsValid :
    (cs : List Call) (c : Cache)
    → IsValid c
    → AllAllowed cs c
    → (c' : Cache) × (perform cs c ≡ some c') × IsValid c' × (c'.size ≡ c.size)
unfolding perform
perform-IsValid [] c v a = (c, refl, v, refl)
perform-IsValid (call ∷ cs) c v a =
    let (c', e, v', same, next) = one_call call c v a.0 in
    let (c'', e', v'', same') = perform-IsValid cs c' v' (a.1 c' e) in
    (c'', rw (next cs) e', v'', same' ∙ same)

-- In a cache that is not locked, giving back an address that is not NULL and not that of a buffer
-- leaves the mutex locked: from then on every call of the cache waits for ever, but for a release of NULL, which is refused
-- before the mutex is locked.
pub release-unknown :
    (c : Cache) (unknown : ℕ)
    → c.locked ≡ false
    → unknown ≢ 0
    → lookup c.buffers unknown ≡ 0
    → (c' : Cache) × (release c unknown ≡ some c')
      × ((address length : ℕ) → get address c' length ≡ none)
      × ((address : ℕ) → address ≢ 0 → release c' address ≡ none)
      × (release c' 0 ≡ some c')
unfolding get release
release-unknown c unknown f given missing =
    let nonzero : (unknown == 0) ≡ false = ground (arith, given) in
    (
      record c { locked = true },
      rw (nonzero, f, missing) refl,
      (λ address length. refl),
      (λ address h. let e : (address == 0) ≡ false = ground (arith, h) in rw e refl),
      refl,
    )
