-- ===== src/ConnectionPool/Tests.antt =====
-- Two threads and a pool for one connection.
use julea.Common.{ℕ, refl, true, List, [], ◌∷◌, arith}
use julea.ConnectionPool.{
  Thread, outside, trying, reading, adding, connecting, undoing, holding, Pool, System, advance,
  init, moves, Reaches, stays, goes,
}
use julea.ConnectionPool.Bound.{Counted, Reaches-Counted}
use julea.ConnectionPool.Ownership.{Owned, Reaches-Owned}

-- Both threads read `count` before either adds to it: the first connects, and the second takes its
-- addition back.
abbrev pool_at : List ℕ → ℕ → ℕ → Pool
pool_at queue count established = record {
  queue = queue;
  count = count;
  max_count = 1;
  established = established;
  failed = 0;
}

abbrev at : List ℕ → ℕ → ℕ → Thread → Thread → System
at queue count established a b = record {
  pool = pool_at queue count established;
  threads = a ∷ b ∷ [];
}

both_read : Reaches (init 1 2) (at [] 0 0 adding adding)
unfolding init advance
both_read =
    goes
      (goes
        (goes
          (goes
            (goes (goes stays (moves 0 outside trying _ true refl refl))
              (moves 0 trying reading _ true refl refl))
            (moves 0 reading adding _ true refl refl))
          (moves 1 outside trying _ true refl refl))
        (moves 1 trying reading _ true refl refl))
      (moves 1 reading adding _ true refl refl)

raced : Reaches (init 1 2) (at [] 2 1 (holding 0) undoing)
unfolding advance
raced =
    goes
      (goes (goes both_read (moves 0 adding connecting _ true refl refl))
        (moves 1 adding undoing _ true refl refl))
      (moves 0 connecting (holding 0) _ true refl refl)

Reaches-Counted_example : Counted 1 (pool_at [] 2 1) (holding 0 ∷ undoing ∷ [])
Reaches-Counted_example = Reaches-Counted 1 2 (at [] 2 1 (holding 0) undoing) (omega arith) raced

Reaches-Owned_example : Owned 0 (pool_at [] 2 1) (holding 0 ∷ undoing ∷ [])
Reaches-Owned_example = Reaches-Owned 0 1 2 (at [] 2 1 (holding 0) undoing) raced
