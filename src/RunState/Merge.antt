-- ===== src/RunState/Merge.antt =====
-- Laws of `merge_run_states` of crates/agents-core/src/run.rs.
use openai_agents_rust.Prelude.{◌+◌, ◌-◌, ◌<◌, ◌≤◌, ◌≡◌, arith}
use openai_agents_rust.RunState.{Carried, RunState, usize_mod, remaining_turns}
use openai_agents_rust.RunState.Merging.{merge_run_states}

module _ {C : Carried} where
  -- When a state that has used turns, but not all, is joined with the state of the run that resumed
  -- it, whose limit was the turns left and which kept to it, the merged state reports fewer
  -- remaining turns than the first limit less the turns of both runs: the earlier turns count twice.
  pub remaining-merge :
      (previous next : RunState C)
      → previous.max_turns < usize_mod
      → next.max_turns ≡ remaining_turns previous
      → next.current_turn ≤ next.max_turns
      → 0 < previous.current_turn
      → previous.current_turn + next.current_turn < previous.max_turns
      → remaining_turns (merge_run_states previous next)
        < previous.max_turns - (previous.current_turn + next.current_turn)
  unfolding remaining_turns merge_run_states
  remaining-merge previous next w h k p q = omega arith
