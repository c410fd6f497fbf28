-- ===== src/Message/Wire.antt =====
-- `j_message_set_semantics` and `j_message_get_semantics`: the settings as bits of the header.
use Prim.Native.Nat.{bit_and, bit_or}
use julea.Common.{ℕ, ◌≡◌, refl, ap, ◌∙◌, false, ◌==◌, if◌then◌else◌}
use julea.Semantics.{
  Semantics, Setting, Atomicity, Consistency, Persistency, Security, default, batch, operation,
  unprotected, immediate, session, eventual, storage, network, volatile, strict, open_access, new,
  set,
}
use julea.Message.{Message}

abbrev pub atomicity_bit : Atomicity → ℕ
atomicity_bit batch = 0x1
atomicity_bit operation = 0x2
atomicity_bit unprotected = 0x4

abbrev pub consistency_bit : Consistency → ℕ
consistency_bit immediate = 0x8
consistency_bit session = 0x10
consistency_bit eventual = 0x20

abbrev pub persistency_bit : Persistency → ℕ
persistency_bit storage = 0x40
persistency_bit network = 0x80
persistency_bit volatile = 0x100

abbrev pub security_bit : Security → ℕ
security_bit strict = 0x200
security_bit open_access = 0x400

-- Of the eleven tests of the source one for each key succeeds.
unfoldable pub serialized : Semantics → ℕ
serialized s =
    bit_or
      (bit_or (bit_or (bit_or 0 (atomicity_bit s.atomicity)) (consistency_bit s.consistency))
        (persistency_bit s.persistency))
      (security_bit s.security)

unfoldable pub set_semantics : Message → Semantics → Message
unfolding serialized
set_semantics m s = record m { header = record (m.header) { semantics = serialized s } }

-- `DESERIALIZE_SEMANTICS`
when_bit : ℕ → ℕ → Setting → Semantics → Semantics
when_bit bits bit v s = if bit_and bits bit == 0 then s else set s v

deserialized : ℕ → Semantics
unfolding when_bit
deserialized bits =
    let s0 = new default in
    let s1 = when_bit bits (atomicity_bit batch) (Setting.atomicity batch) s0 in
    let s2 = when_bit bits (atomicity_bit operation) (Setting.atomicity operation) s1 in
    let s3 = when_bit bits (atomicity_bit unprotected) (Setting.atomicity unprotected) s2 in
    let s4 = when_bit bits (consistency_bit immediate) (Setting.consistency immediate) s3 in
    let s5 = when_bit bits (consistency_bit session) (Setting.consistency session) s4 in
    let s6 = when_bit bits (consistency_bit eventual) (Setting.consistency eventual) s5 in
    let s7 = when_bit bits (persistency_bit storage) (Setting.persistency storage) s6 in
    let s8 = when_bit bits (persistency_bit network) (Setting.persistency network) s7 in
    let s9 = when_bit bits (persistency_bit volatile) (Setting.persistency volatile) s8 in
    let s10 = when_bit bits (security_bit strict) (Setting.security strict) s9 in
    when_bit bits (security_bit open_access) (Setting.security open_access) s10

pub get_semantics : Message → Semantics
unfolding deserialized
get_semantics m = deserialized m.header.semantics

abbrev fresh : Atomicity → Consistency → Persistency → Security → Semantics
fresh a c p s = record {
  atomicity = a;
  consistency = c;
  persistency = p;
  security = s;
  immutable = false;
  ref_count = 1;
}

deserialized-serialized :
    (a : Atomicity) (c : Consistency) (p : Persistency) (s : Security)
    → deserialized (serialized (fresh a c p s)) ≡ fresh a c p s
unfolding deserialized serialized new set
deserialized-serialized batch immediate storage strict = refl
deserialized-serialized batch immediate network strict = refl
deserialized-serialized batch immediate volatile strict = refl
deserialized-serialized batch session storage strict = refl
deserialized-serialized batch session network strict = refl
deserialized-serialized batch session volatile strict = refl
deserialized-serialized batch eventual storage strict = refl
deserialized-serialized batch eventual network strict = refl
deserialized-serialized batch eventual volatile strict = refl
deserialized-serialized operation immediate storage strict = refl
deserialized-serialized operation immediate network strict = refl
deserialized-serialized operation immediate volatile strict = refl
deserialized-serialized operation session storage strict = refl
deserialized-serialized operation session network strict = refl
deserialized-serialized operation session volatile strict = refl
deserialized-serialized operation eventual storage strict = refl
deserialized-serialized operation eventual network strict = refl
deserialized-serialized operation eventual volatile strict = refl
deserialized-serialized unprotected immediate storage strict = refl
deserialized-serialized unprotected immediate network strict = refl
deserialized-serialized unprotected immediate volatile strict = refl
deserialized-serialized unprotected session storage strict = refl
deserialized-serialized unprotected session network strict = refl
deserialized-serialized unprotected session volatile strict = refl
deserialized-serialized unprotected eventual storage strict = refl
deserialized-serialized unprotected eventual network strict = refl
deserialized-serialized unprotected eventual volatile strict = refl
deserialized-serialized _ _ _ _ = refl

-- The receiver of a message gets the sender's settings, all four of them, in a fresh object.
pub get_semantics-set_semantics :
    (m : Message) (s : Semantics)
    → get_semantics (set_semantics m s) ≡ record s { immutable = false; ref_count = 1 }
unfolding get_semantics set_semantics
get_semantics-set_semantics m s =
    deserialized-serialized s.atomicity s.consistency s.persistency s.security

-- The settings depend on nothing but the header's word.
pub get_semantics_of_word :
    (m : Message) (s : Semantics)
    → m.header.semantics ≡ serialized s
    → get_semantics m ≡ record s { immutable = false; ref_count = 1 }
unfolding get_semantics serialized
get_semantics_of_word m s e =
    ap deserialized e ∙ deserialized-serialized s.atomicity s.consistency s.persistency s.security

-- The settings as the receiver has them.
abbrev pub on_wire : Semantics → Semantics
on_wire s = record s { immutable = false; ref_count = 1 }

-- A message without semantics has the default ones.
pub get_semantics-unset : (m : Message) → m.header.semantics ≡ 0 → get_semantics m ≡ new default
unfolding get_semantics deserialized when_bit new
get_semantics-unset m e = rw e refl
