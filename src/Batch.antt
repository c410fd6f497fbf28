-- ===== src/Batch.antt =====
-- lib/core/jbatch.c: batches of operations. `W` is what the operations act on (the servers), and
-- `exec f` the `JOperationExecFunc` at the address `f`, which takes the data of several operations.
-- The field `data` is `operand` here, and is not NULL, as no operation of the repository's has it
-- NULL (`j_list_append` would refuse it). An address that may be NULL is an option. The operation
-- cache is a section parameter: what `j_operation_cache_add` and `j_operation_cache_flush` do to `W`.
pub mod Runs
pub mod OneByOne
pub mod Session
pub mod Tests
use julea.Common.{
  ℕ, ◌+◌, ◌-◌, ◌==◌, Bool, true, false, not, ◌&&◌, ◌||◌, Option, none, some, List, [], ◌∷◌, ◌++◌,
  length, if◌then◌else◌, map,
}
use julea.Semantics.{Semantics, Template, Consistency, immediate, session, eventual}
use julea.Semantics

pub record Operation (D : Type 0) : Type 0 where
  pub exec_func : Option ℕ
  pub key : ℕ
  pub operand : D

pub record Batch (D : Type 0) : Type 0 where
  pub list : List (Operation D)
  pub semantics : Semantics
  pub in_background : Bool
  pub ref_count : ℕ

-- `exec_func != last_exec_func`, negated
abbrev pub same_func : Option ℕ → Option ℕ → Bool
same_func none none = true
same_func (some f) (some g) = f == g
same_func _ _ = false

abbrev pub is_some : Option ℕ → Bool
is_some none = false
is_some (some f) = true

-- The variables of the loop of `j_batch_execute_internal`.
pub record Loop (D W : Type 0) : Type 0 where
  pub last_exec_func : Option ℕ
  pub last_key : ℕ
  pub same_list : List D
  pub ret : Bool
  pub world : W

module _ {D : Type 0} where
  unfoldable pub new : Semantics → Batch D
  unfolding Semantics.ref
  new semantics = record {
    list = [];
    semantics = Semantics.ref semantics;
    in_background = false;
    ref_count = 1;
  }

  unfoldable pub new_for_template : Template → Batch D
  unfolding new Semantics.new
  new_for_template template = new (Semantics.new template)

  unfoldable pub ref : Batch D → Batch D
  ref b = record b { ref_count = b.ref_count + 1 }

  unfoldable pub add : Batch D → Operation D → Batch D
  add b o = record b { list = b.list ++ o ∷ [] }

  -- The new batch takes the operations of the old one.
  unfoldable pub new_from_batch : Batch D → Batch D × Batch D
  unfolding Semantics.ref
  new_from_batch b = (
    record {
      list = b.list;
      semantics = Semantics.ref b.semantics;
      in_background = false;
      ref_count = 1;
    },
    record b { list = [] },
  )

module _ {D W : Type 0} (exec : ℕ → List D → W → W × Bool) where
  unfoldable pub execute_same : Option ℕ → List D → W → W × Bool
  execute_same exec_func [] w = (w, false)
  execute_same none (d ∷ ds) w = (w, false)
  execute_same (some f) (d ∷ ds) w = exec f (d ∷ ds) w

  -- The group is executed and emptied.
  unfoldable pub finish : Loop D W → Loop D W
  unfolding execute_same
  finish l =
      let (w, done) = execute_same l.last_exec_func l.same_list l.world in
      record l { same_list = []; ret = done && l.ret; world = w }

  unfoldable pub step : Loop D W → Operation D → Loop D W
  unfolding finish
  step l o =
      let l' =
        if (not (same_func o.exec_func l.last_exec_func) || not (o.key == l.last_key))
          && is_some l.last_exec_func
        then finish l
        else l in
      record l' {
        last_exec_func = o.exec_func;
        last_key = o.key;
        same_list = l'.same_list ++ o.operand ∷ [];
      }

  unfoldable pub combine : Loop D W → List (Operation D) → Loop D W
  unfolding step
  combine l [] = l
  combine l (o ∷ os) = combine (step l o) os

  unfoldable pub execute_internal : List (Operation D) → W → W × Bool
  unfolding combine finish
  execute_internal os w =
      let l = finish (
        combine
          (record { last_exec_func = none; last_key = 0; same_list = []; ret = true; world = w })
          os) in
      (l.world, l.ret)

  -- `cache_add` says whether the cache took the batch, which leaves it no operations then.
  module _ (cache_add : Batch D → W → W × Bool) (cache_flush : W → W) where
    unfoldable pub execute_with : Consistency → Batch D → W → Batch D × W × Bool
    unfolding execute_internal
    execute_with eventual b w =
        let (cached, taken) = cache_add b w in
        let (w', done) = execute_internal b.list cached in
        if taken then (record b { list = [] }, cached, true) else (record b { list = [] }, w', done)
    execute_with session b w = (b, w, true)
    execute_with immediate b w =
        let (w', done) = execute_internal b.list (cache_flush w) in
        (record b { list = [] }, w', done)

    unfoldable pub execute : Batch D → W → Batch D × W × Bool
    unfolding execute_with
    execute b w =
        if length b.list == 0 then (b, w, false) else execute_with b.semantics.consistency b w

  -- The last reference ends the session; `none` is the freed batch.
  abbrev pub is_session : Consistency → Bool
  is_session session = true
  is_session _ = false

  unfoldable pub unref : Batch D → W → Option (Batch D) × W
  unfolding execute_internal
  unref b w =
      let (w', done) = execute_internal b.list w in
      if b.ref_count == 1
      then (none, (if is_session b.semantics.consistency then w' else w))
      else (some (record b { ref_count = b.ref_count - 1 }), w)
