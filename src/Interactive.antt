-- ===== src/Interactive.antt =====
-- src/interpreter/interactive/interactive.cpp: one execution, whose choices the user makes. The
-- loop takes the number of its rounds, since a program may run for ever. The way to choose an
-- eps-transition is `choose`, one of the functions of Answers; what is printed is left out.
pub mod Answers
pub mod Turns
pub mod Runs
pub mod Choices
pub mod Locations
mod Sessions
mod Examples
use weak_memory_models_simul.Prelude.{
  ℕ, zero, suc, String, Bool, true, false, ◌&&◌, List, [], Option, none, some, if◌then◌else◌,
  is_some, nat_eq, not,
}
use weak_memory_models_simul.Prelude.Result.{ok, err, ◌>>=◌}
use weak_memory_models_simul.Prelude.Int.{ℤ}
use weak_memory_models_simul.Prelude.Map.{lookup, nat_less}
use weak_memory_models_simul.Exceptions.{Checked}
use weak_memory_models_simul.Storage.Interface.{StorageSubsystem}
use weak_memory_models_simul.State.{
  ProgramState, has_active_threads, is_interleaving_possible, has_eps_transitions,
  get_interleaving_state,
}
use weak_memory_models_simul.Interpreter.{Interpreter, visit_statement, get_transition_state}
use weak_memory_models_simul.Interpreter.ModelChecking.{initial_state, flush_state}
use weak_memory_models_simul.Interactive.Answers.{
  Input, should_change_thread, should_perform_eps_transition, get_new_thread_id,
}

module _ {S : Type 0} (m : StorageSubsystem S) (i : Interpreter) (isspace : ℕ → Bool)
    (stoi : String → Checked ℤ)
    (choose : ProgramState S → Input → Checked (ProgramState S × Input)) where
  -- whether the thread is to change: it must where the current one has ended, and else the user
  -- decides
  unfoldable pub is_changing : ProgramState S → Input → Checked (Bool × Input)
  unfolding should_change_thread
  is_changing s input =
      if is_interleaving_possible s
      then (if is_some (lookup s.current_thread_id s.threads)
          then should_change_thread isspace i s input
          else ok (true, input))
      else ok (false, input)

  -- the first part of a round
  unfoldable pub change_thread : ProgramState S → Input → Checked (ProgramState S × Input)
  unfolding is_changing get_new_thread_id
  change_thread s input = do
    answer ← is_changing s input
    let chosen = get_new_thread_id isspace stoi s answer.1
    if answer.0
        then (do s' ← get_interleaving_state chosen.0 s; ok (s', chosen.1))
        else ok (s, answer.1)

  -- the second part; the user is asked only where there are eps-transitions
  unfoldable pub perform_transition : ProgramState S → Input → Checked (ProgramState S × Input)
  unfolding should_perform_eps_transition
  perform_transition s input =
      let answer =
        if has_eps_transitions m s
        then should_perform_eps_transition isspace input
        else (false, input) in
      if answer.0
      then choose s answer.1
      else (do s' ← get_transition_state m i (visit_statement m i) s; ok (s', answer.1))

  unfoldable pub take_turn : ProgramState S → Input → Checked (ProgramState S × Input)
  unfolding change_thread perform_transition
  take_turn s input = do behind ← change_thread s input; perform_transition behind.0 behind.1

  -- the loop; `none`: the rounds ran out
  unfoldable pub interact : ℕ → ProgramState S → Input → Option (Checked (ProgramState S × Input))
  interact zero s input =
      if has_active_threads s then none else some (do f ← flush_state m i s; ok (f, input))
  interact (suc rounds) s input = elim (has_active_threads s) [
    | false ↦ some (do f ← flush_state m i s; ok (f, input))
    | true ↦ elim (take_turn s input) [
      | err e ↦ some (err e)
      | ok (u, rest) ↦ interact rounds u rest
    ]
  ]

  -- the result and what it leaves of the input
  unfoldable pub run : ℕ → Input → Option (Checked (ProgramState S × Input))
  unfolding interact
  run rounds input = interact rounds (initial_state m i) input
