-- ===== src/List.antt =====
-- lib/core/jlist.c and jlist-iterator.c: the linked list and its iterator. Elements stand at
-- addresses; 0 is NULL, and so is data or a function that is 0. `none` is a fault: an access through a pointer
-- that is NULL or to no element.
pub mod Chain
pub mod Laws
pub mod Delete
pub mod Actions
pub mod Tests
use julea.Common.{
  ℕ, zero, suc, ◌+◌, ◌-◌, Bool, true, false, not, Option, none, some, List, [], ◌∷◌, ◌==◌,
  if◌then◌else◌, u32, ◌>>=◌,
}

pub record Element : Type 0 where
  pub next : ℕ
  pub data_of : ℕ

-- `fresh` is the address that the next allocation returns.
pub record Heap : Type 0 where
  pub cells : ℕ → Option Element
  pub fresh : ℕ

pub record JList : Type 0 where
  pub head : ℕ
  pub tail : ℕ
  pub length : ℕ
  pub free_func : ℕ
  pub ref_count : ℕ

pub record Iterator : Type 0 where
  pub list : JList
  pub current : ℕ
  pub first : Bool

unfoldable pub write : ℕ → Option Element → Heap → Heap
write p e h = record h { cells = λ q. if q == p then e else h.cells q }

unfoldable pub allocate : Element → Heap → Heap × ℕ
unfolding write
allocate e h = (record (write h.fresh (some e) h) { fresh = suc h.fresh }, h.fresh)

unfoldable pub load : ℕ → Heap → Option Element
load p h = if p == 0 then none else h.cells p

-- `p->next = q`
unfoldable pub set_next : (p q : ℕ) → Heap → Option Heap
unfolding load write
set_next p q h = load p h >>= λ e. some (write p (some (record e { next = q })) h)

unfoldable pub new : (free_func : ℕ) → JList
new free_func = record { head = 0; tail = 0; length = 0; free_func = free_func; ref_count = 1 }

unfoldable pub ref : JList → JList
ref l = record l { ref_count = l.ref_count + 1 }

-- The last element, if there is one, is linked to the new one.
unfoldable pub link_last : (tail element : ℕ) → Heap → Option Heap
unfolding set_next
link_last tail element h = if tail == 0 then some h else set_next tail element h

unfoldable pub append : JList → ℕ → Heap → Option (Heap × JList)
unfolding allocate link_last
append l x h =
    if x == 0
    then some (h, l)
    else let (h1, element) = allocate (record { next = 0; data_of = x }) h in
      link_last l.tail element h1 >>= λ h2. some (
        h2,
        record l {
          length = u32 (l.length + 1);
          tail = element;
          head = if l.head == 0 then element else l.head;
        },
      )

unfoldable pub prepend : JList → ℕ → Heap → Heap × JList
unfolding allocate
prepend l x h =
    if x == 0
    then (h, l)
    else let (h1, element) = allocate (record { next = l.head; data_of = x }) h in
      (
        h1,
        record l {
          length = u32 (l.length + 1);
          head = element;
          tail = if l.tail == 0 then element else l.tail;
        },
      )

-- The data at a pointer, if neither end is NULL. 0 is NULL.
unfoldable pub get_first : JList → Heap → Option ℕ
unfolding load
get_first l h =
    if l.head == 0
    then some 0
    else if l.tail == 0
    then some 0
    else (load l.head h >>= λ e. some e.data_of)

unfoldable pub get_last : JList → Heap → Option ℕ
unfolding load
get_last l h =
    if l.head == 0
    then some 0
    else if l.tail == 0
    then some 0
    else (load l.tail h >>= λ e. some e.data_of)

-- The loop of `j_list_delete_all`, on a number of rounds; `none` also if they are not enough. The
-- data that `free_func` is called with, if it is not NULL, is returned.
unfoldable pub delete_from : ℕ → (free_func : ℕ) → (element : ℕ) → Heap → Option (Heap × List ℕ)
unfolding load write
delete_from zero free_func p h = if p == 0 then some (h, []) else none
delete_from (suc n) free_func p h =
    if p == 0
    then some (h, [])
    else (load p h >>= λ e. delete_from n free_func e.next (write p none h) >>= λ (h', freed).
        some (h', (if free_func == 0 then freed else e.data_of ∷ freed)))

unfoldable pub delete_all : ℕ → JList → Heap → Option (Heap × JList × List ℕ)
unfolding delete_from
delete_all rounds l h = delete_from rounds l.free_func l.head h >>= λ (h', freed).
    some (h', record l { head = 0; tail = 0; length = 0 }, freed)

-- The last reference deletes all; a list that is freed is `none`.
unfoldable pub unref : ℕ → JList → Heap → Option (Heap × Option JList × List ℕ)
unfolding delete_all
unref rounds l h =
    if l.ref_count == 1
    then (delete_all rounds l h >>= λ (h', l', freed). some (h', none, freed))
    else some (h, some (record l { ref_count = l.ref_count - 1 }), [])

unfoldable pub iterator_new : JList → Iterator
unfolding ref
iterator_new l = record { list = ref l; current = l.head; first = true }

unfoldable pub iterator_free : ℕ → Iterator → Heap → Option (Heap × Option JList × List ℕ)
unfolding unref
iterator_free rounds i h = unref rounds i.list h

unfoldable pub iterator_next : Iterator → Heap → Option (Iterator × Bool)
unfolding load
iterator_next i h =
    if i.first
    then some (record i { first = false }, not (i.current == 0))
    else (load i.current h >>= λ e. some (record i { current = e.next }, not (e.next == 0)))

unfoldable pub iterator_get : Iterator → Heap → Option ℕ
unfolding load
iterator_get i h = if i.current == 0 then some 0 else (load i.current h >>= λ e. some e.data_of)

-- `while (j_list_iterator_next(it)) ... j_list_iterator_get(it)`, on a number of rounds.
unfoldable pub visit : ℕ → Iterator → Heap → Option (List ℕ)
unfolding iterator_next iterator_get
visit zero i h = none
visit (suc n) i h = iterator_next i h >>= λ (i', more).
    if more then (iterator_get i' h >>= λ x. visit n i' h >>= λ xs. some (x ∷ xs)) else some []
