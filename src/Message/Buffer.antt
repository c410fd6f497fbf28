-- ===== src/Message/Buffer.antt =====
-- A message under construction is the list of the bytes appended so far.
use julea.Common.{
  ℕ, ◌+◌, ◌<◌, ◌≤◌, ◌≡◌, refl, ap₂, true, false, Bool, List, ◌++◌, length, arith, leb, Bool-cases,
  inl, inr, u32, u32_mod, if◌then◌else◌,
}
use julea.Common.Slices.{slice, copy_to, slice-add, slice-copy_to, slice-copy_to_before}
use julea.Message.{Message, append_n, appended, can_append}

abbrev pub contents : Message → List ℕ
contents m = slice m.bytes 0 m.header.length

-- Appending goes on behind what was appended, inside the buffer.
pub record IsBuilt (m : Message) : Type 0 where
  pub at_end : m.current ≡ m.header.length
  pub within : m.header.length ≤ m.size

pub IsBuilt-appended :
    (m : Message) (bs : List ℕ)
    → IsBuilt m
    → m.header.length + length bs ≤ m.size
    → m.size < u32_mod
    → IsBuilt (appended m bs)
unfolding appended
IsBuilt-appended m bs v fits small = record { at_end = omega arith; within = omega arith }

pub contents-appended :
    (m : Message) (bs : List ℕ)
    → IsBuilt m
    → m.header.length + length bs ≤ m.size
    → m.size < u32_mod
    → contents (appended m bs) ≡ contents m ++ bs
unfolding appended
contents-appended m bs v fits small =
    let n = m.header.length in
    let e : u32 (n + length bs) ≡ n + length bs = omega arith in
    let at : m.current ≡ n = v.at_end in
    let z : 0 + n ≡ n = omega arith in
    rw (e, at, slice-add (copy_to m.bytes n bs) 0 n (length bs), z)
      (ap₂ ◌++◌ (slice-copy_to_before m.bytes 0 n n bs (omega arith)) (slice-copy_to m.bytes n bs))

pub append_n-fits :
    (m : Message) (bs : List ℕ)
    → IsBuilt m
    → leb (m.header.length + length bs) m.size ≡ true
    → append_n m bs ≡ (appended m bs, true)
unfolding append_n can_append
append_n-fits m bs v h = rw (v.at_end, h)

append_n-full :
    (m : Message) (bs : List ℕ)
    → IsBuilt m
    → leb (m.header.length + length bs) m.size ≡ false
    → append_n m bs ≡ (m, false)
unfolding append_n can_append
append_n-full m bs v h = rw (v.at_end, h)

-- What an append is to make of the message.
abbrev Appends : Message → List ℕ → Message × Bool → Type 0
Appends m bs (m', done) =
    let fits = leb (m.header.length + length bs) m.size in
    (done ≡ fits)
    × (contents m' ≡ (if fits then contents m ++ bs else contents m))
    × IsBuilt m'
    × (m'.size ≡ m.size)

-- Appending succeeds exactly if the bytes fit into the buffer; then they stand behind the contents,
-- and otherwise the contents stay. In both cases the message can be built further.
append_n-Appends :
    (m : Message) (bs : List ℕ) → IsBuilt m → m.size < u32_mod → Appends m bs (append_n m bs)
append_n-Appends m bs v small = elim (Bool-cases (leb (m.header.length + length bs) m.size)) [
  | inl fits ↦
      let le : m.header.length + length bs ≤ m.size = ground arith in
      rw (append_n-fits m bs v fits, fits)
        (
          refl,
          contents-appended m bs v le small,
          IsBuilt-appended m bs v le small,
          unfold appended in refl,
        )
  | inr full ↦ rw (append_n-full m bs v full, full) (refl, refl, v, refl)
]
