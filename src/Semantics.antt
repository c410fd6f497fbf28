-- ===== src/Semantics.antt =====
-- lib/core/jsemantics.c
pub mod Parse
pub mod Laws
pub mod Tests
use julea.Common.{ℕ, ◌+◌, ◌-◌, Bool, true, false, Option, none, some, ◌==◌, if◌then◌else◌, u32}

pub data Atomicity : Type 0 where
  batch operation unprotected : Atomicity

pub data Consistency : Type 0 where
  immediate session eventual : Consistency

pub data Persistency : Type 0 where
  storage network volatile : Persistency

pub data Security : Type 0 where
  strict open_access : Security

pub data Template : Type 0 where
  default posix temporary_local : Template

pub record Semantics : Type 0 where
  pub atomicity : Atomicity
  pub consistency : Consistency
  pub persistency : Persistency
  pub security : Security
  pub immutable : Bool
  pub ref_count : ℕ

-- A key of `j_semantics_set` with a value of its enumeration.
pub data Setting : Type 0 where
  atomicity : Atomicity → Setting
  consistency : Consistency → Setting
  persistency : Persistency → Setting
  security : Security → Setting

pub data Key : Type 0 where
  atomicity consistency persistency security : Key

unfoldable pub base : Semantics
base = record {
  atomicity = unprotected;
  consistency = immediate;
  persistency = network;
  security = open_access;
  immutable = false;
  ref_count = 1;
}

unfoldable pub new : Template → Semantics
unfolding base
new default = base
new posix = record base { atomicity = operation; security = strict }
new temporary_local = record base { consistency = eventual }

-- Taking a reference makes the object immutable.
unfoldable pub ref : Semantics → Semantics
ref s = record s { ref_count = s.ref_count + 1; immutable = true }

-- `none` when the last reference is dropped and the memory is freed.
unfoldable pub unref : Semantics → Option Semantics
unref s = if s.ref_count == 1 then none else some (record s { ref_count = s.ref_count - 1 })

unfoldable pub assign : Semantics → Setting → Semantics
assign s (Setting.atomicity v) = record s { atomicity = v }
assign s (Setting.consistency v) = record s { consistency = v }
assign s (Setting.persistency v) = record s { persistency = v }
assign s (Setting.security v) = record s { security = v }

-- An immutable object is left as it is.
unfoldable pub set : Semantics → Setting → Semantics
unfolding assign
set s v = if s.immutable then s else assign s v

unfoldable pub get : Semantics → Key → Setting
get s Key.atomicity = Setting.atomicity s.atomicity
get s Key.consistency = Setting.consistency s.consistency
get s Key.persistency = Setting.persistency s.persistency
get s Key.security = Setting.security s.security

abbrev pub key_of : Setting → Key
key_of (Setting.atomicity v) = Key.atomicity
key_of (Setting.consistency v) = Key.consistency
key_of (Setting.persistency v) = Key.persistency
key_of (Setting.security v) = Key.security
