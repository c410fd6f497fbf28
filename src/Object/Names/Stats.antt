-- ===== src/Object/Names/Stats.antt =====
-- The numbers in the reply to a status.
use julea.Common.{ℕ, ◌<◌, ◌≡◌, refl, ap, Option, List, [], ◌∷◌, length, map, All, arith, ◌^◌}
use julea.Message.{Message, add_operation, append_8}
use julea.Message.Bytes.{Field, Holds}
use julea.Message.Operations.{all_operations, operation, pieces, append_each}
use julea.Message.Reserve.{total}
use julea.Message.Pairs.{pair_fields, total-pair, get_8_twice-Holds}
use julea.Server.ObjectStatus.{sent_stat, answer_stat}
use julea.Object.{Object}
use julea.Object.Names.{read_stats}

abbrev pub stat_fields : Option (ℕ × ℕ) → List Field
stat_fields stat = pair_fields (sent_stat stat).0 (sent_stat stat).1

-- The numbers are 64-bit words.
abbrev pub StatFits : Option (ℕ × ℕ) → Type 0
StatFits stat = ((sent_stat stat).0 < 2 ^ 64) × ((sent_stat stat).1 < 2 ^ 64)

pub answer_stat-operation :
    (magnitude : ℕ → ℕ) (r : Message) (stat : Option (ℕ × ℕ))
    → answer_stat magnitude r (sent_stat stat) ≡ operation magnitude r (stat_fields stat)
unfolding answer_stat operation append_8 append_each total
answer_stat-operation magnitude r stat =
    let fs = stat_fields stat in
    ap (λ (n : ℕ). append_each (add_operation magnitude r n) (pieces fs))
      (total-pair (sent_stat stat).0 (sent_stat stat).1)

pub read_stats-Holds :
    (os : List Object) (stats : List (Option (ℕ × ℕ))) (reply : Message)
    → length stats ≡ length os
    → All StatFits stats
    → Holds reply (all_operations (map stat_fields stats))
    → read_stats os reply ≡ map sent_stat stats
unfolding read_stats all_operations
read_stats-Holds [] [] reply len fits h = refl
read_stats-Holds [] (stat ∷ stats) reply len fits h = absurd (omega arith)
read_stats-Holds (o ∷ os) [] reply len fits h = absurd (omega arith)
read_stats-Holds (o ∷ os) (stat ∷ stats) reply len fits h =
    let rest = all_operations (map stat_fields stats) in
    let (e1, e2, t2) =
      get_8_twice-Holds reply (sent_stat stat).0 (sent_stat stat).1 rest fits.0.0 fits.0.1 h in
    rw (e1, e2, read_stats-Holds os stats _ (omega arith) fits.1 t2) refl
