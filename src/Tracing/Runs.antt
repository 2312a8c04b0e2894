-- ===== src/Tracing/Runs.antt =====
-- The loop of tracing.cpp against the one of non-deterministic.cpp.
use weak_memory_models_simul.Prelude.{
  ◌%◌, String, ◌&&◌, List, [], ◌∷◌, ◌++◌, Option, none, some, ◌==◌, ◌≡◌, refl, ap, sym, ◌∙◌, nat_eq,
  Bool-cases, inl, inr,
}
use weak_memory_models_simul.Prelude.Result.{ok, err, Result-cases}
use weak_memory_models_simul.Prelude.Int.{ℤ}
use weak_memory_models_simul.Exceptions.{Checked}
use weak_memory_models_simul.Storage.Interface.{StorageSubsystem}
use weak_memory_models_simul.State.{
  ProgramState, has_active_threads, is_interleaving_possible, has_eps_transitions,
  get_active_threads_ids, get_interleaving_state, get_eps_transition_states,
}
use weak_memory_models_simul.Interpreter.{Interpreter, visit_statement, get_transition_state}
use weak_memory_models_simul.Interpreter.ModelChecking.{initial_state, flush_state}
use weak_memory_models_simul.Interpreter.NonDeterministic
use weak_memory_models_simul.Interpreter.NonDeterministic.{Draw, pick}
use weak_memory_models_simul.Tracing.{
  Event, Traced, trace_interleave, trace_transition, trace_round, trace_end, trace, run,
}

module _ {S : Type 0} where
  -- without the output
  abbrev pub untraced : Checked (Traced S) → Checked (ProgramState S)
  untraced (err e) = err e
  untraced (ok (s, events)) = ok s

  abbrev pub silent : Option (Checked (Traced S)) → Option (Checked (ProgramState S))
  silent none = none
  silent (some r) = some (untraced r)

  -- Output before the rest of a run does not change what the run returns.
  spoken :
      (events : List (Event S)) (rest : Option (Checked (Traced S)))
      → silent (elim rest as (λ _. Option (Checked (Traced S))) [
        | none ↦ none
        | some (err e) ↦ some (err e)
        | some (ok (r, others)) ↦ some (ok (r, events ++ others))
      ])
        ≡ silent rest
  spoken events none = refl
  spoken events (some (err e)) = refl
  spoken events (some (ok (r, others))) = refl

  module _ (m : StorageSubsystem S) (i : Interpreter) (to_string : ℤ → String) where
    untraced-interleave :
        (d : Draw) (s : ProgramState S)
        → untraced (trace_interleave m i to_string d s) ≡ NonDeterministic.interleave m i d s
    unfolding trace_interleave NonDeterministic.interleave
    untraced-interleave d s = elim (Bool-cases (is_interleaving_possible s)) [
      | inl possible ↦ elim (Result-cases (pick d.thread (get_active_threads_ids s))) [
        | inl (t, picks) ↦ elim (Bool-cases (t == s.current_thread_id)) [
          | inl e ↦ rw (possible, picks, e)
          | inr e ↦ elim (Result-cases (get_interleaving_state t s)) [
            | inl (u, gets) ↦ rw (possible, picks, e, gets)
            | inr (x, gets) ↦ rw (possible, picks, e, gets)
          ]
        ]
        | inr (x, picks) ↦ rw (possible, picks)
      ]
      | inr apart ↦ rw apart
    ]

    untraced-transition :
        (d : Draw) (s : ProgramState S)
        → untraced (trace_transition m i to_string d s) ≡ NonDeterministic.proceed m i d s
    unfolding trace_transition NonDeterministic.proceed
    untraced-transition d s = elim (Bool-cases (has_eps_transitions m s && d.kind % 2 == 0)) [
      | inl e ↦ elim (Result-cases (get_eps_transition_states m s)) [
        | inl (states, all) ↦ elim (Result-cases (pick d.choice states)) [
          | inl (u, picks) ↦ rw (e, all, picks)
          | inr (x, picks) ↦ rw (e, all, picks)
        ]
        | inr (x, all) ↦ rw (e, all)
      ]
      | inr e ↦ elim (Result-cases (get_transition_state m i (visit_statement m i) s)) [
        | inl (u, steps) ↦ rw (e, steps)
        | inr (x, steps) ↦ rw (e, steps)
      ]
    ]

    untraced-end : (s : ProgramState S) → untraced (trace_end m i to_string s) ≡ flush_state m i s
    unfolding trace_end
    untraced-end s = elim (Result-cases (flush_state m i s)) [
      | inl (f, flushes) ↦ rw flushes
      | inr (x, flushes) ↦ rw flushes
    ]

    untraced-round :
        (d : Draw) (s : ProgramState S)
        → untraced (trace_round m i to_string d s) ≡ NonDeterministic.round m i d s
    unfolding trace_round NonDeterministic.round
    untraced-round d s = elim (Result-cases (trace_interleave m i to_string d s)) [
      | inl ((t, events), first) ↦
          let quiet = sym (untraced-interleave d s) ∙ ap untraced first in
          elim (Result-cases (trace_transition m i to_string d t)) [
            | inl ((u, others), second) ↦
                let silent₂ = sym (untraced-transition d t) ∙ ap untraced second in
                rw (first, second, quiet, silent₂)
            | inr (x, second) ↦
                let silent₂ = sym (untraced-transition d t) ∙ ap untraced second in
                rw (first, second, quiet, silent₂)
          ]
      | inr (x, first) ↦
          let quiet = sym (untraced-interleave d s) ∙ ap untraced first in rw (first, quiet)
    ]

    silent-trace :
        (draws : List Draw) (s : ProgramState S)
        → silent (trace m i to_string draws s) ≡ NonDeterministic.execute m i draws s
    unfolding trace NonDeterministic.execute
    silent-trace [] s = elim (Bool-cases (has_active_threads s)) [
      | inl active ↦ rw active
      | inr idle ↦ rw (idle, untraced-end s)
    ]
    silent-trace (d ∷ ds) s = elim (Bool-cases (has_active_threads s)) [
      | inl active ↦ elim (Result-cases (trace_round m i to_string d s)) [
        | inl ((u, events), e) ↦
            let quiet = sym (untraced-round d s) ∙ ap untraced e in
            rw (trace, NonDeterministic.execute, active, e, quiet, sym (silent-trace ds u))
              (spoken events (trace m i to_string ds u))
        | inr (x, e) ↦
            let quiet = sym (untraced-round d s) ∙ ap untraced e in
            rw (trace, NonDeterministic.execute, active, e, quiet)
      ]
      | inr idle ↦ rw (trace, NonDeterministic.execute, idle, untraced-end s)
    ]

    -- Without its output, the tracing run is the random execution with the same random numbers: it
    -- returns the same state, throws the same, and takes as many rounds.
    pub tracing_lem :
        (draws : List Draw) → silent (run m i to_string draws) ≡ NonDeterministic.run m i draws
    unfolding run NonDeterministic.run
    tracing_lem draws = silent-trace draws (initial_state m i)
