-- ===== src/Statistics/Laws.antt =====
-- A sequence of additions leaves in each counter the sum of what was added to it, modulo 2^64.
use julea.Common.{ℕ, ◌+◌, ◌<◌, ◌≡◌, List, [], ◌∷◌, arith, u64, u64_mod, Bool, if◌then◌else◌, ◌==◌}
use julea.Statistics.{
  Counter, files_created, files_deleted, files_stated, sync, bytes_read, bytes_written,
  bytes_received, bytes_sent, Statistics, get, add,
}

abbrev code : Counter → ℕ
code files_created = 0
code files_deleted = 1
code files_stated = 2
code sync = 3
code bytes_read = 4
code bytes_written = 5
code bytes_received = 6
code bytes_sent = 7

abbrev same : Counter → Counter → Bool
same c d = code c == code d

unfoldable pub add_all : Statistics → List (Counter × ℕ) → Statistics
add_all s [] = s
add_all s ((c, n) ∷ adds) = add_all (add s c n) adds

-- What a sequence adds to the counter.
abbrev pub added : Counter → List (Counter × ℕ) → ℕ
added c [] = 0
added c ((d, n) ∷ adds) = (if same c d then n else 0) + added c adds

get-add :
    (s : Statistics) (c d : Counter) (n : ℕ)
    → get s c < u64_mod
    → get (add s d n) c ≡ u64 (get s c + (if same c d then n else 0))
unfolding get add
get-add s files_created files_created n h = omega arith
get-add s files_deleted files_created n h = omega arith
get-add s files_stated files_created n h = omega arith
get-add s sync files_created n h = omega arith
get-add s bytes_read files_created n h = omega arith
get-add s bytes_written files_created n h = omega arith
get-add s bytes_received files_created n h = omega arith
get-add s bytes_sent files_created n h = omega arith
get-add s _ _ n h = omega arith

get-lt : (s : Statistics) (c d : Counter) (n : ℕ) → get s c < u64_mod → get (add s d n) c < u64_mod
get-lt s c d n h = omega (arith, get-add s c d n h)

-- After any sequence of additions a counter is the sum of what was added to it, and to no other,
-- modulo 2^64.
pub get-add_all :
    (s : Statistics) (c : Counter) (adds : List (Counter × ℕ))
    → get s c < u64_mod
    → get (add_all s adds) c ≡ u64 (get s c + added c adds)
unfolding add_all
get-add_all s c [] h = omega arith
get-add_all s c ((d, n) ∷ adds) h =
    omega (arith, get-add_all (add s d n) c adds (get-lt s c d n h), get-add s c d n h)
