-- ===== src/Fsm/Tree.antt =====
-- The questions on the state tree of src/fsm.rs: descendants, ancestors, children, kinds of states.
-- A loop up the parents takes `n` rounds at most, and is `stuck` after that; `IsTree` of `Ancestry`
-- says for which `n` that never happens.
pub mod Ancestry
pub mod Chain
pub mod ProperAncestors
pub mod Lcca
use ru_fsm.Common.{
  ℕ, zero, suc, Bool, true, false, not, ◌&&◌, ◌||◌, List, [], ◌∷◌, Run, ok, panic, stuck, ◌>>=◌,
  if◌then◌else◌, nat_eq, ◌==◌,
}
use ru_fsm.Fsm.Collections.Sequence.{head, tail, filter_run, every_run}
use ru_fsm.Fsm.Collections.OrderedSet.{OrderedSet, add}
use ru_fsm.Fsm.Model.{Id32, State, Fsm, HistoryType, get_state_by_id}

-- `while currState != 0 && currState != state2 { currState = parent }`
unfoldable pub climb : ℕ → Fsm → Id32 → Id32 → Run Id32
climb zero f curr state2 = if not (curr == 0) && not (curr == state2) then stuck else ok curr
climb (suc n) f curr state2 =
    let rest : Run Id32 = get_state_by_id f curr >>= λ s. climb n f s.parent state2 in
    if not (curr == 0) && not (curr == state2) then rest else ok curr

unfoldable pub is_descendant : ℕ → Fsm → Id32 → Id32 → Run Bool
unfolding climb
is_descendant n f state1 state2 =
    let walk : Run Bool = do
      s ← get_state_by_id f state1
      curr ← climb n f s.parent state2
      ok (curr == state2)
    in if state1 == 0 || state2 == 0 || state1 == state2 then ok false else walk

-- The same loop, which also adds each state that it passes.
unfoldable pub collect : ℕ → Fsm → Id32 → Id32 → OrderedSet Id32 → Run (OrderedSet Id32)
unfolding add
collect zero f curr state2 set = if not (curr == 0) && not (curr == state2) then stuck else ok set
collect (suc n) f curr state2 set =
    let rest : Run (OrderedSet Id32) =
      get_state_by_id f curr >>= λ s. collect n f s.parent state2 (add set curr) in
    if not (curr == 0) && not (curr == state2) then rest else ok set

unfoldable pub get_proper_ancestors : ℕ → Fsm → Id32 → Id32 → Run (OrderedSet Id32)
unfolding is_descendant collect
get_proper_ancestors n f state1 state2 = do
  below ← is_descendant n f state2 state1
  let walk : Run (OrderedSet Id32) =
      get_state_by_id f state1 >>= λ s. collect n f s.parent state2 []
  if not below then walk else ok []

-- `state > 0 && self.get_state_by_id(state).is_parallel`
unfoldable pub is_parallel_state : Fsm → Id32 → Run Bool
is_parallel_state f state =
    let flag : Run Bool = get_state_by_id f state >>= λ s. ok s.is_parallel in
    if state == 0 then ok false else flag

unfoldable pub is_scxml_element : Fsm → Id32 → Bool
is_scxml_element f state = state == f.pseudo_root

unfoldable pub is_final_state : State → Bool
is_final_state s = s.is_final

unfoldable pub is_final_state_id : Fsm → Id32 → Run Bool
unfolding is_final_state
is_final_state_id f sid = get_state_by_id f sid >>= λ s. ok (is_final_state s)

unfoldable pub list_is_empty : List Id32 → Bool
list_is_empty [] = true
list_is_empty (c ∷ cs) = false

unfoldable pub is_atomic_state : State → Bool
unfolding list_is_empty
is_atomic_state s = list_is_empty s.states

unfoldable pub is_atomic_state_id : Fsm → Id32 → Run Bool
unfolding is_atomic_state
is_atomic_state_id f sid = get_state_by_id f sid >>= λ s. ok (is_atomic_state s)

unfoldable pub is_compound_state : Fsm → Id32 → Run Bool
unfolding list_is_empty
is_compound_state f state =
    let flag : Run Bool = get_state_by_id f state >>= λ s.
    ok (not (s.is_final || s.is_parallel || list_is_empty s.states)) in
    if state == 0 then ok false else flag

unfoldable pub is_compound_state_or_scxml_element : Fsm → Id32 → Run Bool
unfolding is_compound_state
is_compound_state_or_scxml_element f sid =
    let rest : Run Bool = is_compound_state f sid in if sid == f.pseudo_root then ok true else rest

abbrev is_history : HistoryType → Bool
is_history HistoryType.none = false
is_history _ = true

unfoldable pub is_history_state : Fsm → Id32 → Run Bool
is_history_state f state = get_state_by_id f state >>= λ s. ok (is_history s.history_type)

unfoldable pub get_child_states : Fsm → Id32 → Run (List Id32)
get_child_states f state1 = get_state_by_id f state1 >>= λ s. ok s.states

-- The loop of `findLCCA`; its result is 0 where no state passes the test.
unfoldable pub first_common : ℕ → Fsm → List Id32 → List Id32 → Run Id32
first_common n f others [] = ok 0
first_common n f others (anc ∷ ancs) = every_run (λ s. is_descendant n f s anc) others >>= λ b.
    elim b [ true ↦ ok anc | false ↦ first_common n f others ancs ]

unfoldable pub find_lcca : ℕ → Fsm → List Id32 → Run Id32
unfolding head tail
find_lcca n f state_list = do
  first ← head state_list
  ancs ← get_proper_ancestors n f first 0
  compounds ← filter_run (is_compound_state_or_scxml_element f) ancs
  others ← tail state_list
  first_common n f others compounds
