-- ===== src/Fsm/Domain.antt =====
-- `getEffectiveTargetStates`, `getTransitionDomain` and `computeExitSet` of src/fsm.rs. Of the global data
-- they read the configuration and the history values. `n` bounds the loops, as in `Tree`.
pub mod ExitSet
pub mod Covers
use ru_fsm.Common.{
  ℕ, zero, suc, ◌+◌, ◌-◌, ◌<◌, ◌≤◌, Bool, true, false, not, ◌&&◌, ◌||◌, List, [], ◌∷◌, ◌++◌, Run,
  ok, panic, stuck, ◌>>=◌, if◌then◌else◌, PartialEq, nat_eq, ◌==◌, ◌≡◌, ◌≢◌, ◌⊎◌, ◌↔◌, inl, inr,
  refl, sym, ◌∙◌, ap, subst, arith, Bool-cases, >>=-eq-ok, nat_beq_iff, Option, none, some,
  Option-cases, length, get_elem?, All, append-nil, append_assoc, map, ltb, leb, unwrap, take, drop,
  length-append, ◌*◌, ◌/◌, ◌%◌, ◌^◌, min, ltb→lt, lt→ltb,
}
use ru_fsm.Fsm.Collections.Sequence.{head, append, every_run, filter_run}
use ru_fsm.Fsm.Collections.OrderedSet.{OrderedSet, add, union, add_all, is_empty}
use ru_fsm.Fsm.Collections.HashTable.{HashTable, lookup}
use ru_fsm.Fsm.Model.{
  Id32, State, Transition, TransitionType, Fsm, get_state_by_id, get_transition_by_id,
}
use ru_fsm.Fsm.Tree.{is_descendant, is_compound_state, is_history_state, find_lcca}

-- `historyValue`
abbrev pub HistoryTable : Type 0
HistoryTable = HashTable Id32 (OrderedSet Id32)

-- The loop of `getEffectiveTargetStates` over `transition.target`; `rec` is the call of the function itself
-- for the default transition of a history state without a value.
unfoldable pub effective_loop :
    (Transition → Run (OrderedSet Id32))
    → Fsm
    → HistoryTable
    → List Id32
    → OrderedSet Id32
    → Run (OrderedSet Id32)
unfolding head
effective_loop rec f history [] targets = ok targets
effective_loop rec f history (sid ∷ sids) targets = do
  is_history ← is_history_state f sid
  let recorded : Run (OrderedSet Id32) = elim (lookup history sid) [
    | some value ↦ ok (union targets value)
    | none ↦ do
      s ← get_state_by_id f sid
      tid ← head s.transitions
      t ← get_transition_by_id f tid
      value ← rec t
      ok (union targets value)
  ]
  targets' ← if is_history then recorded else ok (add targets sid)
  effective_loop rec f history sids targets'

unfoldable pub get_effective_target_states :
    ℕ → Fsm → HistoryTable → Transition → Run (OrderedSet Id32)
get_effective_target_states zero f history t = stuck
get_effective_target_states (suc n) f history t =
    effective_loop (get_effective_target_states n f history) f history t.target []

abbrev is_internal : TransitionType → Bool
is_internal TransitionType.internal = true
is_internal TransitionType.external = false

-- The test of the branch that makes the source itself the domain, with its short cuts.
unfoldable pub stays_inside : ℕ → Fsm → Transition → OrderedSet Id32 → Run Bool
stays_inside n f t tstates =
    let rest : Run Bool = do
      compound ← is_compound_state f t.source
      let all : Run Bool = every_run (λ s. is_descendant n f s t.source) tstates
      if compound then all else ok false
    in if is_internal t.transition_type then rest else ok false

-- The domain 0 stands for "none".
unfoldable pub get_transition_domain : ℕ → Fsm → HistoryTable → Transition → Run Id32
get_transition_domain n f history t = do
  tstates ← get_effective_target_states n f history t
  let found : Run Id32 = do
    inside ← stays_inside n f t tstates
    let lcca : Run Id32 = find_lcca n f (append (t.source ∷ []) tstates)
    if inside then ok t.source else lcca
  if is_empty tstates then ok 0 else found

-- One round of the loop of `computeExitSet`: the active states below the domain of the transition.
unfoldable pub exit_of : ℕ → Fsm → OrderedSet Id32 → HistoryTable → Id32 → Run (List Id32)
exit_of n f configuration history tid = do
  t ← get_transition_by_id f tid
  let below : Run (List Id32) = do
    domain ← get_transition_domain n f history t
    filter_run (λ s. is_descendant n f s domain) configuration
  if is_empty t.target then ok [] else below

unfoldable pub exit_loop :
    ℕ → Fsm → OrderedSet Id32 → HistoryTable → List Id32 → OrderedSet Id32 → Run (OrderedSet Id32)
exit_loop n f configuration history [] set = ok set
exit_loop n f configuration history (tid ∷ tids) set =
    exit_of n f configuration history tid >>= λ states.
    exit_loop n f configuration history tids (add_all set states)

unfoldable pub compute_exit_set :
    ℕ → Fsm → OrderedSet Id32 → HistoryTable → List Id32 → Run (OrderedSet Id32)
unfolding exit_loop
compute_exit_set n f configuration history transitions =
    exit_loop n f configuration history transitions []
