-- ===== src/Cache.antt =====
-- lib/core/jcache.c: a cache that hands out buffers up to a size. The hash table is an association
-- list from a buffer's address to its length, and `address` is what `g_malloc` returns. `none`: the
-- call waits for the mutex for ever.
pub mod Laws
pub mod Tests
use julea.Common.{
  ℕ, ◌+◌, ◌-◌, ◌==◌, ltb, Bool, true, false, Option, none, some, List, [], ◌∷◌, if◌then◌else◌, u64,
  sub64, ◌>>=◌,
}

pub record Cache : Type 0 where
  pub size : ℕ
  pub buffers : List (ℕ × ℕ)
  pub used : ℕ
  pub locked : Bool

-- A missing key has the value NULL.
abbrev pub lookup : List (ℕ × ℕ) → ℕ → ℕ
lookup [] key = 0
lookup ((k, v) ∷ bs) key = let rest = lookup bs key in if k == key then v else rest

abbrev pub remove : List (ℕ × ℕ) → ℕ → List (ℕ × ℕ)
remove [] key = []
remove ((k, v) ∷ bs) key = let rest = remove bs key in if k == key then bs else (k, v) ∷ rest

-- An old value of the key is replaced.
abbrev pub insert : List (ℕ × ℕ) → ℕ → ℕ → List (ℕ × ℕ)
insert bs key value = (key, value) ∷ remove bs key

unfoldable pub new : ℕ → Cache
new size = record { size = size; buffers = []; used = 0; locked = false }

-- The address is 0 if the cache is full.
unfoldable pub get : (address : ℕ) → Cache → ℕ → Option (Cache × ℕ)
get address c length =
    if c.locked
    then none
    else if ltb c.size (u64 (c.used + length))
    then some (c, 0)
    else some (
      record c { used = u64 (c.used + length); buffers = insert c.buffers address length },
      address,
    )

-- NULL is refused before the mutex is locked. For another address that is not known the call
-- returns without unlocking it.
unfoldable pub release : Cache → ℕ → Option Cache
release c address =
    if address == 0
    then some c
    else if c.locked
    then none
    else if lookup c.buffers address == 0
    then some (record c { locked = true })
    else some (record c {
      buffers = remove c.buffers address;
      used = sub64 c.used (lookup c.buffers address);
    })
