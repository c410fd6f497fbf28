-- ===== src/ConnectionPool.antt =====
-- lib/core/jconnection-pool.c: the pool of connections to one server, which threads share.
-- Each atomic access (the queue's, the counter's) is one step of one thread, in any interleaving.
-- A connection is numbered in the order in which it was established.
pub mod Ownership
pub mod Bound
pub mod Tests
use julea.Common.{
  ℕ, zero, suc, ◌+◌, ◌-◌, ◌≡◌, ◌==◌, Bool, true, false, Option, none, some, List, [], ◌∷◌, ◌++◌,
  length, ltb, if◌then◌else◌, get_elem?, set, u32, sub32, replicate, ◌>>=◌,
}

-- Where a thread is: outside the pool, in `j_connection_pool_pop_internal` (before the first
-- `try_pop`, before the read of `count`, before the addition, before the connect, before the
-- subtraction, before the blocking pop), with a connection, and before the push.
pub data Thread : Type 0 where
  outside trying reading adding connecting undoing waiting : Thread
  holding : ℕ → Thread

pub record Pool : Type 0 where
  pub queue : List ℕ
  pub count : ℕ
  pub max_count : ℕ
  pub established : ℕ
  pub failed : ℕ

-- One step of a thread on the pool; `succeeds` is what the connect does, if it is one. `none`: the
-- thread blocks.
unfoldable pub advance : Thread → Pool → Bool → Option (Thread × Pool)
advance outside p succeeds = some (trying, p)
advance trying p succeeds = elim p.queue [
  | [] ↦ some (reading, p)
  | c ∷ cs ↦ some (holding c, record p { queue = cs })
]
advance reading p succeeds = if ltb p.count p.max_count then some (adding, p) else some (waiting, p)
advance adding p succeeds =
    let p' = record p { count = u32 (p.count + 1) } in
    if ltb p.count p.max_count then some (connecting, p') else some (undoing, p')
advance connecting p succeeds =
    if succeeds
    then some (holding p.established, record p { established = p.established + 1 })
    else some (waiting, record p { failed = p.failed + 1 })
advance undoing p succeeds = some (waiting, record p { count = sub32 p.count 1 })
advance waiting p succeeds = elim p.queue [
  | [] ↦ none
  | c ∷ cs ↦ some (holding c, record p { queue = cs })
]
advance (holding c) p succeeds = some (outside, record p { queue = p.queue ++ c ∷ [] })

pub record System : Type 0 where
  pub pool : Pool
  pub threads : List Thread

-- The pool after `j_connection_pool_init`, with `n` threads that have not called it.
unfoldable pub init : (max_count n : ℕ) → System
init max_count n = record {
  pool = record { queue = []; count = 0; max_count = max_count; established = 0; failed = 0 };
  threads = replicate n outside;
}

-- Some thread `i` makes a step.
pub data Step (s : System) : System → Type 0 where
  moves :
      (i : ℕ) (t t' : Thread) (p : Pool) (succeeds : Bool)
      → get_elem? s.threads i ≡ some t
      → advance t s.pool succeeds ≡ some (t', p)
      → Step s (record { pool = p; threads = set s.threads i t' })

pub data Reaches (s : System) : System → Type 0 where
  stays : Reaches s s
  goes : {u v : System} → Reaches s u → Step u v → Reaches s v
