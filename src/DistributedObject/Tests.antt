-- ===== src/DistributedObject/Tests.antt =====
-- A range over three servers with blocks of four bytes, for two distributions.
use julea.Common.{ℕ, ◌≡◌, refl, Option, none, some, List, [], ◌∷◌, map, arith}
use julea.Distribution.Piece.{Piece, Cover}
use julea.Distribution.RoundRobin
use julea.Distribution.Weighted
use julea.Distribution.RoundRobin.{RoundRobin}
use julea.Distribution.Weighted.{Weighted}
use julea.Distribution.Weighted.Search.{total}
use julea.Distribution.Dispatch.{Distribution, round_robin, weighted, distribute, reset, view}
use julea.Distribution.Loop.{IsValid, place_of}
use julea.Distribution.Scheme.{split}
use julea.DistributedObject.{Store, pieces_of, write, read}
use julea.DistributedObject.Flat.{
  contents, pieces_of-Cover, write-flat_write, read-flat_read, read-write,
}
use julea.DistributedObject.Pieces.{flat_write, flat_read}

abbrev three_servers : Distribution
three_servers = record {
  type = 0;
  impl =
      round_robin
        (record { server_count = 3; length = 0; offset = 0; block_size = 4; start_index = 2 });
  ref_count = 1;
}

abbrev weighted_servers : Distribution
weighted_servers = record {
  type = 2;
  impl = weighted (record {
    server_count = 3;
    length = 0;
    offset = 0;
    block_size = 4;
    weights = 1 ∷ 0 ∷ 2 ∷ [];
    sum = 3;
  });
  ref_count = 1;
}

three_servers-IsValid : IsValid three_servers
three_servers-IsValid = record {
  typed = refl;
  sound = record { servers = omega arith; blocks = omega arith; fits = omega arith };
}

weighted_servers-IsValid : IsValid weighted_servers
unfolding total
weighted_servers-IsValid = record {
  typed = refl;
  sound = record {
    blocks = omega arith;
    weighted = omega arith;
    table = record { table = refl; sum = refl; weights = omega arith; small = omega arith };
    fits = omega arith;
  };
}

-- Server, length and offset of each piece.
abbrev sizes : Option (List Piece × Distribution) → List (ℕ × ℕ × ℕ)
sizes none = []
sizes (some (cs, _)) = map (λ (c : Piece). (c.index, c.new_length, c.new_offset)) cs

pieces_three :
    sizes (pieces_of three_servers 10 3) ≡ (2, 1, 3) ∷ (0, 4, 0) ∷ (1, 4, 0) ∷ (2, 1, 4) ∷ []
unfolding pieces_of split distribute reset view RoundRobin.distribute RoundRobin.reset
pieces_three = refl

pieces_weighted :
    sizes (pieces_of weighted_servers 10 3) ≡ (0, 1, 3) ∷ (2, 4, 0) ∷ (2, 4, 4) ∷ (0, 1, 4) ∷ []
unfolding pieces_of split distribute reset view Weighted.distribute Weighted.reset
    Weighted.find_server
pieces_weighted = refl

abbrev empty_store : Store
empty_store _ = 0

abbrev hello : List ℕ
hello = 104 ∷ 101 ∷ 108 ∷ 108 ∷ 111 ∷ []

pieces_of-Cover_example :
    (cs : List Piece) × (d' : Distribution) × (pieces_of three_servers 10 3 ≡ some (cs, d'))
    × Cover (place_of three_servers.impl) 4 13 3 cs
pieces_of-Cover_example = pieces_of-Cover three_servers 10 3 three_servers-IsValid (omega arith)

write-flat_write_example :
    (s' : Store) × (d' : Distribution) × (write three_servers empty_store hello 6 ≡ some (s', d'))
    × ((q : ℕ)
        → contents three_servers s' q ≡ flat_write (contents three_servers empty_store) 6 hello q)
write-flat_write_example =
    write-flat_write three_servers empty_store hello 6 three_servers-IsValid (omega arith)

read-flat_read_example :
    (d' : Distribution) × (read weighted_servers empty_store 9 2
      ≡ some (flat_read (contents weighted_servers empty_store) 2 9, d'))
read-flat_read_example =
    read-flat_read weighted_servers empty_store 9 2 weighted_servers-IsValid (omega arith)

read-write_example :
    (s' : Store) × (d' d'' : Distribution) × (write weighted_servers empty_store hello 2
      ≡ some (s', d'))
    × (read weighted_servers s' 5 2 ≡ some (hello, d''))
read-write_example =
    read-write weighted_servers empty_store hello 2 weighted_servers-IsValid (omega arith)
