-- ===== src/Tracing.antt =====
-- src/interpreter/tracing: a random execution that prints what it does. The output of a run that
-- returns is a list of events, each with the data that it prints; the random numbers are those of
-- the random execution.
pub mod Runs
mod Examples
use weak_memory_models_simul.Prelude.{
  ℕ, ◌%◌, String, true, false, ◌&&◌, List, [], ◌∷◌, ◌++◌, Option, none, some, if◌then◌else◌, ◌==◌,
  nat_eq, get_elem?,
}
use weak_memory_models_simul.Prelude.Result.{ok, err, ◌>>=◌}
use weak_memory_models_simul.Prelude.Int.{ℤ}
use weak_memory_models_simul.Prelude.Map.{lookup, nat_less}
use weak_memory_models_simul.Exceptions.{Checked}
use weak_memory_models_simul.Storage.Interface.{StorageSubsystem}
use weak_memory_models_simul.Threads.{ThreadSubsystem}
use weak_memory_models_simul.State.{
  ProgramState, has_active_threads, is_interleaving_possible, has_eps_transitions,
  get_active_threads_ids, get_interleaving_state, get_eps_transition_states,
}
use weak_memory_models_simul.Stringifier.{stringify}
use weak_memory_models_simul.Interpreter.{Interpreter, visit_statement, get_transition_state}
use weak_memory_models_simul.Interpreter.ModelChecking.{initial_state, flush_state}
use weak_memory_models_simul.Interpreter.NonDeterministic.{Draw, pick}

-- An output; the first id of a thread is that of get_log_prefix.
pub data Event (S : Type 0) : Type 0 where
  interleave : ℕ → ℕ → Event S
  eps_transition : ℕ → Event S
  regular_transition : ℕ → Event S
  statement : ℕ → String → Event S
  storage : S → Event S
  registers : ThreadSubsystem → Event S
  flush_memory : Event S
  program_finished : Event S
  state : ProgramState S → Event S

-- a state, and what is printed on the way to it
abbrev pub Traced : Type 0 → Type 0
Traced S = ProgramState S × List (Event S)

module _ {S : Type 0} (m : StorageSubsystem S) (i : Interpreter) (to_string : ℤ → String) where
  -- the first part of a round
  unfoldable pub trace_interleave : Draw → ProgramState S → Checked (Traced S)
  unfolding pick
  trace_interleave d s =
      if is_interleaving_possible s
      then (do
        t ← pick d.thread (get_active_threads_ids s)
        if t == s.current_thread_id then ok (s, []) else (do
          s' ← get_interleaving_state t s
          ok (s', interleave s.current_thread_id t ∷ [])))
      else ok (s, [])

  -- what TracingInterpreter::visit prints of the instruction that the current thread runs
  unfoldable pub trace_statement : ProgramState S → List (Event S)
  trace_statement s = elim (lookup s.current_thread_id s.threads) [
    | none ↦ []
    | some thread ↦ elim (get_elem? i.root.statements thread.instruction_index) [
      | none ↦ []
      | some n ↦ statement s.current_thread_id (stringify to_string n) ∷ []
    ]
  ]

  -- the second part
  unfoldable pub trace_transition : Draw → ProgramState S → Checked (Traced S)
  unfolding pick trace_statement
  trace_transition d s =
      if has_eps_transitions m s && d.kind % 2 == 0
      then (do
        states ← get_eps_transition_states m s
        s' ← pick d.choice states
        ok (s', eps_transition s.current_thread_id ∷ []))
      else (do
        s' ← get_transition_state m i (visit_statement m i) s
        ok (s', regular_transition s.current_thread_id ∷ trace_statement s))

  -- the end of a round
  unfoldable pub trace_state : ProgramState S → List (Event S)
  trace_state s = elim (lookup s.current_thread_id s.threads) [
    | none ↦ storage s.storage ∷ []
    | some thread ↦ storage s.storage ∷ registers thread.thread_subsystem ∷ []
  ]

  unfoldable pub trace_round : Draw → ProgramState S → Checked (Traced S)
  unfolding trace_interleave trace_transition trace_state
  trace_round d s = do
    first ← trace_interleave d s
    second ← trace_transition d first.0
    ok (second.0, first.1 ++ second.1 ++ trace_state second.0)

  -- behind the loop
  unfoldable pub trace_end : ProgramState S → Checked (Traced S)
  trace_end s = do f ← flush_state m i s; ok (f, flush_memory ∷ program_finished ∷ state f ∷ [])

  -- the loop; `none`: the draws ran out
  unfoldable pub trace : List Draw → ProgramState S → Option (Checked (Traced S))
  unfolding trace_end
  trace [] s = if has_active_threads s then none else some (trace_end s)
  trace (d ∷ ds) s = elim (has_active_threads s) [
    | false ↦ some (trace_end s)
    | true ↦ elim (trace_round d s) [
      | err e ↦ some (err e)
      | ok (u, events) ↦ elim (trace ds u) [
        | none ↦ none
        | some (err e) ↦ some (err e)
        | some (ok (r, others)) ↦ some (ok (r, events ++ others))
      ]
    ]
  ]

  unfoldable pub run : List Draw → Option (Checked (Traced S))
  unfolding trace
  run draws = trace draws (initial_state m i)
