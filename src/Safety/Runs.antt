-- ===== src/Safety/Runs.antt =====
-- What makes a run fail (non-deterministic.cpp).
use mathlib.Core.Path.{subst}
use native.Mathlib.Nat.{mod-lt}
use weak_memory_models_simul.Prelude.{
  ℕ, ◌<◌, ◌%◌, true, false, ◌&&◌, List, [], ◌∷◌, some, ◌≡◌, sym, ap, ◌∙◌, arith, string_eq,
  Bool-cases, inl, inr, ◌==◌, nat_eq, get_elem?, length, is_some, ltb,
}
use weak_memory_models_simul.Prelude.Result.{ok, err, Result-cases, >>=-eq-ok, ok_injective}
use weak_memory_models_simul.Prelude.Map.{Map, keys, lookup, nat_less, lookup-Mem}
use weak_memory_models_simul.Exceptions.{Error}
use weak_memory_models_simul.Ast.{StatementNode}
use weak_memory_models_simul.Storage.Interface.{StorageSubsystem}
use weak_memory_models_simul.State.{
  ProgramState, ThreadState, has_active_threads, is_interleaving_possible, has_eps_transitions,
  get_active_threads_ids, get_eps_transition_states, with_storages,
}
use weak_memory_models_simul.Interpreter.{Interpreter, visit_statement}
use weak_memory_models_simul.Interpreter.ModelChecking.{initial_state, flush_state}
use weak_memory_models_simul.Interpreter.ModelChecking.Executions.{gets}
use weak_memory_models_simul.Interpreter.NonDeterministic.{
  Draw, pick, interleave, proceed, round, execute, run,
}
use weak_memory_models_simul.Interpreter.NonDeterministic.Runs.{Switch, switched, moved, Mem-pick}
use weak_memory_models_simul.Safety.Lawful.{Lawful}
use weak_memory_models_simul.Safety.Formed.{IsClosed}
use weak_memory_models_simul.Safety.Causes.{Cause, visit_statement-fails}
use weak_memory_models_simul.Safety.States.{
  get_elem?-some, Reached, start, switch, move, carried, Reached-IsRunning,
}

pick-some {ℓ} :
    {A : Type ℓ} (random : ℕ) (xs : List A) → 0 < length xs → (x : A) × (pick random xs ≡ ok x)
unfolding pick
pick-some random xs some_left =
    let (x, e) =
      get_elem?-some xs (random % length xs) (mod-lt random (omega (arith, some_left))) in
    (x, rw (pick, e))

listed_some :
    (threads : Map ℕ ThreadState) → ltb 0 (length threads) ≡ true → 0 < length (keys threads)
listed_some [] active = absurd (cc)
listed_some (t ∷ threads) active = omega arith

module _ {S : Type 0} (m : StorageSubsystem S) (i : Interpreter) where
  -- An instruction of the program that fails in such a state, and why.
  pub record Failure (x : Error) : Type 0 where
    pub state : ProgramState S
    pub reached : Reached m i state
    pub thread : ThreadState
    pub statement : StatementNode
    pub active : lookup state.current_thread_id state.threads ≡ some thread
    pub stands : get_elem? i.root.statements thread.instruction_index ≡ some statement
    pub fails : visit_statement m i statement state ≡ err x
    pub cause : Cause m i state statement.statement x

  module _ (Valid : S → Type 0) (lawful : Lawful m Valid) (closed : IsClosed i) where
    -- The thread that is chosen to run is active.
    switch-active :
        {s t : ProgramState S}
        → Switch m i s t
        → has_active_threads s ≡ true
        → s.is_allowed_interleaving ≡ true
        → is_some (lookup t.current_thread_id t.threads) ≡ true
    unfolding is_interleaving_possible has_active_threads get_active_threads_ids
    switch-active {s} (Switch.stay apart) active allowed =
        elim (Bool-cases (is_some (lookup s.current_thread_id s.threads))) [
          | inl lives ↦ lives
          | inr ended ↦ absurd (ground (arith, apart, allowed, ended, active))
        ]
    switch-active {s} (Switch.same _ listed) active allowed =
        lookup-Mem s.current_thread_id s.threads listed
    switch-active {s} (Switch.other t possible listed differs e) active allowed =
        let taken = gets m i s t (ground (arith, differs, nat_eq.test_iff)) listed in
        subst (λ (u : ProgramState S). is_some (lookup u.current_thread_id u.threads) ≡ true)
          (ok_injective (sym taken ∙ e)) (lookup-Mem t s.threads listed)

    -- The choice of a thread does not fail.
    interleave-some :
        (d : Draw) (s : ProgramState S)
        → has_active_threads s ≡ true
        → (t : ProgramState S) × (interleave m i d s ≡ ok t)
    unfolding interleave has_active_threads get_active_threads_ids
    interleave-some d s active = elim (Bool-cases (is_interleaving_possible s)) [
      | inl possible ↦
          let (t, picks) =
            pick-some d.thread (get_active_threads_ids s) (listed_some s.threads active) in
          elim (Bool-cases (t == s.current_thread_id)) [
            | inl e ↦ (s, rw (interleave, possible, picks, e))
            | inr e ↦
                let taken =
                  gets m i s t (ground (arith, e, nat_eq.test_iff))
                    (Mem-pick d.thread (get_active_threads_ids s) t picks) in
                (record s { current_thread_id = t }, rw (interleave, possible, picks, e, taken))
          ]
      | inr apart ↦ (s, rw (interleave, apart))
    ]

    -- The choice of an eps-transition does not fail.
    proceed-fails :
        (d : Draw) (s : ProgramState S) (x : Error)
        → Reached m i s
        → is_some (lookup s.current_thread_id s.threads) ≡ true
        → proceed m i d s ≡ err x
        → Failure x
    unfolding proceed has_eps_transitions get_eps_transition_states with_storages
    proceed-fails d s x reached active h =
        let r = Reached-IsRunning m i Valid lawful closed reached in
        elim (Bool-cases (has_eps_transitions m s && d.kind % 2 == 0)) [
          | inl e ↦
              let (w, ws, gives, valid) =
                lawful.steps s.current_thread_id s.storage r.formed.valid (ground (arith, e)) in
              let (u, picks) = pick-some d.choice (with_storages s (w ∷ ws)) (omega arith) in
              absurd (cc (picks, rw (proceed, e, gives) at h))
          | inr e ↦
              let c = carried m i Valid lawful closed s active r in
              let fails = c.visits ∙ (rw (proceed, e) at h) in
              record {
                state = s;
                reached = reached;
                thread = c.thread;
                statement = c.statement;
                active = c.active;
                stands = c.stands;
                fails = fails;
                cause = visit_statement-fails m i s Valid lawful r.formed.valid c.statement x fails;
              }
        ]

    round-fails :
        (d : Draw) (s : ProgramState S) (x : Error)
        → Reached m i s
        → has_active_threads s ≡ true
        → round m i d s ≡ err x
        → Failure x
    unfolding round
    round-fails d s x reached active h =
        let (t, e) = interleave-some d s active in
        let step = switched m i d s t e in
        let r = Reached-IsRunning m i Valid lawful closed reached in
        proceed-fails d t x (switch reached step) (switch-active step active r.allowed)
          (rw (round, e) at h)

    flushes-some :
        (s : ProgramState S) → Reached m i s → (f : ProgramState S) × (flush_state m i s ≡ ok f)
    unfolding flush_state
    flushes-some s reached =
        let r = Reached-IsRunning m i Valid lawful closed reached in
        let (z, e) = lawful.flushes s.storage r.formed.valid in
        (record s { storage = z }, rw (flush_state, e))

    idle-execute :
        (draws : List Draw) (s f : ProgramState S)
        → has_active_threads s ≡ false
        → flush_state m i s ≡ ok f
        → execute m i draws s ≡ some (ok f)
    unfolding execute
    idle-execute [] s f idle e = rw (execute, idle, e)
    idle-execute (d ∷ ds) s f idle e = rw (execute, idle, e)

    execute-fails :
        (draws : List Draw) (s : ProgramState S) (x : Error)
        → Reached m i s
        → execute m i draws s ≡ some (err x)
        → Failure x
    unfolding execute round
    execute-fails [] s x reached h = elim (Bool-cases (has_active_threads s)) [
      | inl active ↦ absurd (cc (rw (execute, active) at h))
      | inr idle ↦
          let (f, e) = flushes-some s reached in absurd (cc (idle-execute [] s f idle e, h))
    ]
    execute-fails (d ∷ ds) s x reached h = elim (Bool-cases (has_active_threads s)) [
      | inl active ↦ elim (Result-cases (round m i d s)) [
        | inl (u, e) ↦
            let (t, e₁, e₂) = >>=-eq-ok (interleave m i d s) _ e in
            execute-fails ds u x
              (move (switch reached (switched m i d s t e₁)) (moved m i d t u e₂))
              (rw (execute, active, e) at h)
        | inr (y, e) ↦
            let same : y ≡ x = cc (rw (execute, active, e) at h) in
            round-fails d s x reached active (e ∙ ap err same)
      ]
      | inr idle ↦
          let (f, e) = flushes-some s reached in absurd (cc (idle-execute (d ∷ ds) s f idle e, h))
    ]

    -- A random execution of a closed program that throws, over a memory model that keeps its
    -- invariant, throws what an instruction of the program throws, for its cause, in a state of the
    -- run: neither the choice of a thread or a step, nor the memory's own steps, nor the flush at the
    -- end fail, and no statement is looked up out of the program.
    pub run-fails : (draws : List Draw) (x : Error) → run m i draws ≡ some (err x) → Failure x
    unfolding run
    run-fails draws x h = execute-fails draws (initial_state m i) x start h
