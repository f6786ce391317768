-- ===== src/Fsm/Conflict.antt =====
-- `removeConflictingTransitions` of src/fsm.rs.
pub mod Free
pub mod Preempted
use ru_fsm.Common.{
  ℕ, zero, suc, ◌+◌, ◌-◌, ◌<◌, ◌≤◌, Bool, true, false, not, ◌&&◌, ◌||◌, List, [], ◌∷◌, ◌++◌, Run,
  ok, panic, stuck, ◌>>=◌, if◌then◌else◌, PartialEq, nat_eq, ◌==◌, ◌≡◌, ◌≢◌, ◌⊎◌, ◌↔◌, inl, inr,
  refl, sym, ◌∙◌, ap, subst, arith, Bool-cases, >>=-eq-ok, nat_beq_iff, Option, none, some,
  Option-cases, length, get_elem?, All, append-nil, append_assoc, map, ltb, leb, unwrap, take, drop,
  length-append, ◌*◌, ◌/◌, ◌%◌, ◌^◌, min, ltb→lt, lt→ltb,
}
use ru_fsm.Fsm.Collections.OrderedSet.{OrderedSet, add, delete, has_intersection}
use ru_fsm.Fsm.Model.{Id32, Transition, Fsm, get_transition_by_id}
use ru_fsm.Fsm.Tree.{is_descendant}
use ru_fsm.Fsm.Domain.{HistoryTable, compute_exit_set}

-- `for t3 in transitionsToRemove { filteredTransitions.delete(t3) }`
unfoldable pub delete_all : OrderedSet Id32 → List Id32 → OrderedSet Id32
delete_all set [] = set
delete_all set (t3 ∷ ts) = delete_all (delete set t3) ts

module _ (n : ℕ) (f : Fsm) (configuration : OrderedSet Id32) (history : HistoryTable) where
  -- Do the exit sets of the two transitions intersect?
  unfoldable pub conflicts : Id32 → Id32 → Run Bool
  conflicts tid1 tid2 = do
    exit1 ← compute_exit_set n f configuration history (tid1 ∷ [])
    exit2 ← compute_exit_set n f configuration history (tid2 ∷ [])
    ok (has_intersection exit1 exit2)

  -- The inner loop: `none` if t1 is preempted, else `transitionsToRemove`.
  unfoldable pub scan_filtered :
      Id32 → Transition → List Id32 → OrderedSet Id32 → Run (Option (OrderedSet Id32))
  scan_filtered tid1 t1 [] removed = ok (some removed)
  scan_filtered tid1 t1 (tid2 ∷ tids) removed = do
    clash ← conflicts tid1 tid2
    let decided : Run (Option (OrderedSet Id32)) = do
      t2 ← get_transition_by_id f tid2
      below ← is_descendant n f t1.source t2.source
      elim below [ true ↦ scan_filtered tid1 t1 tids (add removed tid2) | false ↦ ok none ]
    let rest : Run (Option (OrderedSet Id32)) = scan_filtered tid1 t1 tids removed
    if clash then decided else rest

  -- One round of the outer loop.
  unfoldable pub filter_step : OrderedSet Id32 → Id32 → Run (OrderedSet Id32)
  unfolding delete_all
  filter_step filtered tid1 = do
    t1 ← get_transition_by_id f tid1
    verdict ← scan_filtered tid1 t1 filtered []
    ok (elim verdict [ none ↦ filtered | some removed ↦ add (delete_all filtered removed) tid1 ])

  unfoldable pub filter_loop : OrderedSet Id32 → List Id32 → Run (OrderedSet Id32)
  filter_loop filtered [] = ok filtered
  filter_loop filtered (tid1 ∷ tids) =
      filter_step filtered tid1 >>= λ filtered'. filter_loop filtered' tids

  unfoldable pub remove_conflicting_transitions : OrderedSet Id32 → Run (OrderedSet Id32)
  remove_conflicting_transitions enabled = filter_loop [] enabled
