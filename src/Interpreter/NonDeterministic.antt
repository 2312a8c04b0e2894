-- ===== src/Interpreter/NonDeterministic.antt =====
-- src/interpreter/non-deterministic: one random execution. The random numbers, which the program
-- takes from the library, are an argument: a list, one entry per round, each number reduced to the
-- range asked for.
pub mod Runs
use weak_memory_models_simul.Prelude.{
  ℕ, ◌%◌, true, false, ◌&&◌, List, [], ◌∷◌, Option, none, some, if◌then◌else◌, ◌==◌, nat_eq,
  get_elem?, length,
}
use weak_memory_models_simul.Prelude.Result.{ok, err, ◌>>=◌}
use weak_memory_models_simul.Exceptions.{Checked, undefined_behaviour}
use weak_memory_models_simul.Storage.Interface.{StorageSubsystem}
use weak_memory_models_simul.State.{
  ProgramState, has_active_threads, is_interleaving_possible, has_eps_transitions,
  get_active_threads_ids, get_interleaving_state, get_eps_transition_states,
}
use weak_memory_models_simul.Interpreter.{Interpreter, visit_statement, get_transition_state}
use weak_memory_models_simul.Interpreter.ModelChecking.{initial_state, flush_state}

-- The random numbers of one round: for the thread, for the kind of transition, for the choice of an
-- eps-transition.
pub record Draw : Type 0 where
  pub thread : ℕ
  pub kind : ℕ
  pub choice : ℕ

-- get_random_in_range(0, n - 1), of a sequence of n elements; with none of them it is undefined
unfoldable pub pick {ℓ} : {A : Type ℓ} → ℕ → List A → Checked A
pick random xs = elim (get_elem? xs (random % length xs)) [
  | none ↦ err undefined_behaviour
  | some x ↦ ok x
]

module _ {S : Type 0} (m : StorageSubsystem S) (i : Interpreter) where
  -- the first part of a round: another thread, perhaps
  unfoldable pub interleave : Draw → ProgramState S → Checked (ProgramState S)
  unfolding pick
  interleave d s =
      if is_interleaving_possible s
      then (do
        t ← pick d.thread (get_active_threads_ids s)
        if t == s.current_thread_id then ok s else get_interleaving_state t s)
      else ok s

  -- the second part: an eps-transition or an instruction
  unfoldable pub proceed : Draw → ProgramState S → Checked (ProgramState S)
  unfolding pick
  proceed d s =
      if has_eps_transitions m s && d.kind % 2 == 0
      then (do states ← get_eps_transition_states m s; pick d.choice states)
      else get_transition_state m i (visit_statement m i) s

  -- one round of the loop
  unfoldable pub round : Draw → ProgramState S → Checked (ProgramState S)
  unfolding interleave proceed
  round d s = do s' ← interleave d s; proceed d s'

  -- the loop; `none`: the draws ran out
  unfoldable pub execute : List Draw → ProgramState S → Option (Checked (ProgramState S))
  execute [] s = if has_active_threads s then none else some (flush_state m i s)
  execute (d ∷ ds) s = elim (has_active_threads s) [
    | false ↦ some (flush_state m i s)
    | true ↦ elim (round d s) [ err e ↦ some (err e) | ok s' ↦ execute ds s' ]
  ]

  unfoldable pub run : List Draw → Option (Checked (ProgramState S))
  unfolding execute
  run draws = execute draws (initial_state m i)
