-- ===== src/Kv/Stored.antt =====
-- Puts, deletes and gets through the server, with a backend that stores what it is given.
pub mod Served
pub mod Tests
use julea.Common.{
  ℕ, ◌<◌, ◌≡◌, refl, sym, ap, ap₂, subst, ◌∙◌, Bool, true, false, ◌&&◌, Option, none, some, List,
  [], ◌∷◌, length, map, All, u32_mod, if◌then◌else◌, ◌>>=◌,
}
use julea.Semantics.{Semantics}
use julea.Semantics.Parse.{same}
use julea.Message.{Message, new_reply}
use julea.Message.Buffer.{contents}
use julea.Message.Operations.{AllSmall}
use julea.Message.Stream.Arrival.{Arrived}
use julea.Message.Wire.{on_wire}
use julea.KvBackend.{KvBackend}
use julea.Server.Kv.{handle_put, handle_delete, handle_get}
use julea.Kv.{
  Kv, Got, got_of, found, put_each, put_local, delete_each, delete_local, get_each, get_local,
  put_request, delete_request, get_request, read_values, kv_put, kv_delete, kv_get,
}
use julea.Kv.Requests.{put_fields, key_fields}
use julea.Kv.Remote.{PutFits, KeyFits, Sendable, handle_put-put_local, handle_delete-delete_local}
use julea.Kv.Get.{values, ValueFits, value_fields, found_values, get_reply, read_values-handle_get}

-- What a backend stores under the keys of a namespace.
abbrev pub Stored : Type 0
Stored = (key : List ℕ) → Option (List ℕ)

-- A backend that stores: a batch changes what is stored when it is executed, and may show its own
-- changes before or not.
pub record IsStore (b : KvBackend) : Type 0 where
  pub stored : b.State → (namespace : List ℕ) → Stored
  pub namespace_of : b.Batch → List ℕ
  -- What the batch will leave behind, and what a get in it sees.
  pub pending : b.State → b.Batch → Stored
  pub seen : b.State → b.Batch → Stored
  pub start-namespace :
      (s : b.State) (ns : List ℕ) (sem : Semantics) → namespace_of (b.batch_start s ns sem).1 ≡ ns
  pub start-pending :
      (s : b.State) (ns : List ℕ) (sem : Semantics)
      → let (s', batch, started) = b.batch_start s ns sem in pending s' batch ≡ stored s ns
  pub start-seen :
      (s : b.State) (ns : List ℕ) (sem : Semantics)
      → let (s', batch, started) = b.batch_start s ns sem in seen s' batch ≡ stored s ns
  pub put-pending :
      (s : b.State) (batch : b.Batch) (key value k : List ℕ)
      → pending (b.put s batch key value).0 batch k
        ≡ (if same key k then some value else pending s batch k)
  pub delete-pending :
      (s : b.State) (batch : b.Batch) (key k : List ℕ)
      → pending (b.delete s batch key).0 batch k ≡ (if same key k then none else pending s batch k)
  pub get-value :
      (s : b.State) (batch : b.Batch) (key : List ℕ) → (b.get s batch key).1 ≡ seen s batch key
  pub get-seen :
      (s : b.State) (batch : b.Batch) (key : List ℕ)
      → seen (b.get s batch key).0 batch ≡ seen s batch
  pub execute-stored :
      (s : b.State) (batch : b.Batch)
      → stored (b.batch_execute s batch).0 (namespace_of batch) ≡ pending s batch

-- A call that changes a namespace.
pub data Change : Type 0 where
  puts : Kv × List ℕ → List (Kv × List ℕ) → Change
  deletes : Kv → List Kv → Change

abbrev pub put_all : List (Kv × List ℕ) → Stored → Stored
put_all [] f k = f k
put_all ((kv, value) ∷ ops) f k =
    put_all ops (λ key. if same kv.key key then some value else f key) k

abbrev pub delete_all : List Kv → Stored → Stored
delete_all [] f k = f k
delete_all (kv ∷ kvs) f k = delete_all kvs (λ key. if same kv.key key then none else f key) k

abbrev pub change_all : List Change → Stored → Stored
change_all [] f k = f k
change_all (puts op ops ∷ cs) f k = change_all cs (put_all (op ∷ ops) f) k
change_all (deletes kv kvs ∷ cs) f k = change_all cs (delete_all (kv ∷ kvs) f) k

abbrev pub all_found : List (Option (List ℕ)) → Bool
all_found [] = true
all_found (v ∷ vs) = found v && all_found vs

and_swap : (x y z : Bool) → (y && (x && z)) ≡ ((x && y) && z)
and_swap true y z = refl
and_swap false true z = refl
and_swap false false z = refl

module _ (b : KvBackend) (store : IsStore b) where
  put_each-pending :
      (batch : b.Batch) (s : b.State) (ops : List (Kv × List ℕ)) (ret : Bool)
      → store.pending (put_each b batch s ops ret).0 batch ≡ put_all ops (store.pending s batch)
  unfolding put_each
  put_each-pending batch s [] ret = refl
  put_each-pending batch s ((kv, value) ∷ ops) ret =
      let (s', done) = b.put s batch kv.key value in
      let e : store.pending s' batch
          ≡ (λ k. if same kv.key k then some value else store.pending s batch k) =
        λ i k. store.put-pending s batch kv.key value k i in
      put_each-pending batch s' ops (done && ret) ∙ ap (put_all ops) e

  delete_each-pending :
      (batch : b.Batch) (s : b.State) (kvs : List Kv) (ret : Bool)
      → store.pending (delete_each b batch s kvs ret).0 batch
        ≡ delete_all kvs (store.pending s batch)
  unfolding delete_each
  delete_each-pending batch s [] ret = refl
  delete_each-pending batch s (kv ∷ kvs) ret =
      let (s', done) = b.delete s batch kv.key in
      let e : store.pending s' batch
          ≡ (λ k. if same kv.key k then none else store.pending s batch k) =
        λ i k. store.delete-pending s batch kv.key k i in
      delete_each-pending batch s' kvs (done && ret) ∙ ap (delete_all kvs) e

  -- What a batch leaves behind that was started in `st` and is now in `s`.
  executed-stored :
      (st s : b.State) (ns : List ℕ) (sem : Semantics)
      → let batch = (b.batch_start st ns sem).1 in
        store.stored (b.batch_execute s batch).0 ns ≡ store.pending s batch
  executed-stored st s ns sem =
      let batch = (b.batch_start st ns sem).1 in
      ap (store.stored (b.batch_execute s batch).0) (sym (store.start-namespace st ns sem))
      ∙ store.execute-stored s batch

  pub put_local-stored :
      (op : Kv × List ℕ) (ops : List (Kv × List ℕ)) (sem : Semantics) (st : b.State)
      → store.stored (put_local b op ops sem st).0 op.0.namespace
        ≡ put_all (op ∷ ops) (store.stored st op.0.namespace)
  unfolding put_local
  put_local-stored op ops sem st =
      let ns = op.0.namespace in
      let (s1, batch, started) = b.batch_start st ns sem in
      executed-stored st (put_each b batch s1 (op ∷ ops) started).0 ns sem
      ∙ put_each-pending batch s1 (op ∷ ops) started
      ∙ ap (put_all (op ∷ ops)) (store.start-pending st ns sem)

  pub delete_local-stored :
      (kv : Kv) (kvs : List Kv) (sem : Semantics) (st : b.State)
      → store.stored (delete_local b kv kvs sem st).0 kv.namespace
        ≡ delete_all (kv ∷ kvs) (store.stored st kv.namespace)
  unfolding delete_local
  delete_local-stored kv kvs sem st =
      let ns = kv.namespace in
      let (s1, batch, started) = b.batch_start st ns sem in
      executed-stored st (delete_each b batch s1 (kv ∷ kvs) started).0 ns sem
      ∙ delete_each-pending batch s1 (kv ∷ kvs) started
      ∙ ap (delete_all (kv ∷ kvs)) (store.start-pending st ns sem)

  pub get_each-seen :
      (batch : b.Batch) (s : b.State) (f : Stored) (kvs : List Kv) (ret : Bool)
      → store.seen s batch ≡ f
      → let vs = map (λ kv. f kv.key) kvs in
        ((get_each b batch s kvs ret).1 ≡ map got_of vs)
        × ((get_each b batch s kvs ret).2 ≡ (all_found vs && ret))
  unfolding get_each
  get_each-seen batch s f [] ret e = (refl, refl)
  get_each-seen batch s f (kv ∷ kvs) ret e =
      let (s', value) = b.get s batch kv.key in
      let v = store.get-value s batch kv.key ∙ ap (λ (g : Stored). g kv.key) e in
      let (gots, all) =
        get_each-seen batch s' f kvs (found value && ret) (store.get-seen s batch kv.key ∙ e) in
      (
        ap₂ ◌∷◌ (ap got_of v) gots,
        all
            ∙ and_swap (found value) (all_found (map (λ kv. f kv.key) kvs)) ret
            ∙ ap (λ (x : Bool). (x && all_found (map (λ kv. f kv.key) kvs)) && ret) (ap found v),
      )

  pub values-seen :
      (memory magnitude : ℕ → ℕ) (batch : b.Batch) (s : b.State) (f : Stored) (kvs : List Kv)
      → store.seen s batch ≡ f
      → values memory magnitude b batch s kvs ≡ map (λ kv. f kv.key) kvs
  unfolding values
  values-seen memory magnitude batch s f [] e = refl
  values-seen memory magnitude batch s f (kv ∷ kvs) e =
      let (s', value) = b.get s batch kv.key in
      ap₂ ◌∷◌ (store.get-value s batch kv.key ∙ ap (λ (g : Stored). g kv.key) e)
        (values-seen memory magnitude batch s' f kvs (store.get-seen s batch kv.key ∙ e))
