-- ===== src/Interactive/Runs.antt =====
-- The loop of interactive.cpp against the transitions of the random execution.
use mathlib.Core.List.{Memᴰ}
use mathlib.Core.Path.{subst}
use weak_memory_models_simul.Prelude.{
  ℕ, zero, suc, String, Bool, true, false, List, [], ◌∷◌, some, ◌≡◌, ◌≢◌, Bool-cases, inl, inr, ◌⊎◌,
  nat_eq,
}
use weak_memory_models_simul.Prelude.Result.{ok, ◌>>=◌, Result-cases, >>=-eq-ok}
use weak_memory_models_simul.Prelude.Int.{ℤ}
use weak_memory_models_simul.Prelude.Map.{nat_less}
use weak_memory_models_simul.Exceptions.{Checked}
use weak_memory_models_simul.Storage.Interface.{StorageSubsystem}
use weak_memory_models_simul.State.{
  ProgramState, has_active_threads, has_eps_transitions, get_eps_transition_states,
}
use weak_memory_models_simul.Interpreter.{Interpreter, visit_statement, get_transition_state}
use weak_memory_models_simul.Interpreter.ModelChecking.{flush_state, initial_state}
use weak_memory_models_simul.Interpreter.NonDeterministic.Runs.{Switch, Move, Execution, Outcome}
use weak_memory_models_simul.Interactive.{
  change_thread, perform_transition, take_turn, interact, run,
}
use weak_memory_models_simul.Interactive.Answers.{
  Input, should_perform_eps_transition, get_new_eps_transition_state,
}
use weak_memory_models_simul.Interactive.Turns.{changed}
use weak_memory_models_simul.Safety.States.{Reached, start, switch, move}

module _ {S : Type 0} (m : StorageSubsystem S) (i : Interpreter) where
  -- The choices of the user, up to the end of the input: `Ended` holds of what is left of it there.
  module _ (isspace : ℕ → Bool) (stoi : String → Checked ℤ)
      (choose : ProgramState S → Input → Checked (ProgramState S × Input)) (Ended : Input → Type 0)
      (chooses : (s u : ProgramState S) (input rest : Input)
        → Reached m i s
        → has_eps_transitions m s ≡ true
        → choose s input ≡ ok (u, rest)
        → Move m i s u ⊎ Ended rest)
      (stays : (s u : ProgramState S) (input rest : Input)
        → Ended input
        → take_turn m i isspace stoi choose s input ≡ ok (u, rest)
        → Ended rest) where
    -- the thread's next instruction
    instructed :
        (s u : ProgramState S) (input rest : Input)
        → ◌>>=◌ {B = ProgramState S × Input}
            (get_transition_state m i (visit_statement m i) s)
            (λ t. ok (t, input))
          ≡ ok (u, rest)
        → Move m i s u ⊎ Ended rest
    instructed s u input rest h =
        let (t, steps, h₁) = >>=-eq-ok (get_transition_state m i (visit_statement m i) s) _ h in
        inl (Move.instruction (cc (steps, h₁)))

    performed :
        (s u : ProgramState S) (input rest : Input)
        → Reached m i s
        → perform_transition m i isspace stoi choose s input ≡ ok (u, rest)
        → Move m i s u ⊎ Ended rest
    unfolding perform_transition
    performed s u input rest reached h = elim (Bool-cases (has_eps_transitions m s)) [
      | inl eps ↦ elim (Bool-cases (should_perform_eps_transition isspace input).0) [
        | inl wants ↦
            chooses s u (should_perform_eps_transition isspace input).1 rest reached eps
              (rw (eps, wants) at h)
        | inr wants ↦ instructed s u _ rest (rw (eps, wants) at h)
      ]
      | inr settled ↦ instructed s u _ rest (rw settled at h)
    ]

    record Turned (s u : ProgramState S) : Type 0 where
      middle : ProgramState S
      switches : Switch m i s middle
      moves : Move m i middle u

    turned :
        (s u : ProgramState S) (input rest : Input)
        → Reached m i s
        → take_turn m i isspace stoi choose s input ≡ ok (u, rest)
        → Turned s u ⊎ Ended rest
    unfolding take_turn
    turned s u input rest reached h =
        let ((t, behind), changes, h₁) =
          >>=-eq-ok (change_thread m i isspace stoi choose s input) _ h in
        let switches = changed m i isspace stoi choose s t input behind changes in
        elim (performed t u behind rest (switch reached switches) h₁) [
          | inl moves ↦ inl (record { middle = t; switches = switches; moves = moves })
          | inr ended ↦ inr ended
        ]

    finished :
        (s r : ProgramState S) (input rest : Input)
        → has_active_threads s ≡ false
        → ◌>>=◌ {B = ProgramState S × Input} (flush_state m i s) (λ f. ok (f, input)) ≡ ok (r, rest)
        → Outcome m i s r × (input ≡ rest)
    finished s r input rest idle h =
        let (f, flushes, h₁) = >>=-eq-ok (flush_state m i s) _ h in
        (record { final = s; execution = Execution.stop idle; flushed = cc (flushes, h₁) }, cc h₁)

    ended-interact :
        (rounds : ℕ) (s r : ProgramState S) (input rest : Input)
        → Ended input
        → interact m i isspace stoi choose rounds s input ≡ some (ok (r, rest))
        → Ended rest
    unfolding interact
    ended-interact zero s r input rest ended h = elim (Bool-cases (has_active_threads s)) [
      | inl active ↦ absurd (cc (rw active at h))
      | inr idle ↦ subst Ended (finished s r input rest idle (cc (rw idle at h))).1 ended
    ]
    ended-interact (suc rounds) s r input rest ended h = elim (Bool-cases (has_active_threads s)) [
      | inl active ↦ elim (Result-cases (take_turn m i isspace stoi choose s input)) [
        | inl ((u, behind), e) ↦
            ended-interact rounds u r behind rest (stays s u input behind ended e)
              (rw (active, e, interact) at h)
        | inr (x, e) ↦ absurd (cc (rw (active, e, interact) at h))
      ]
      | inr idle ↦
          subst Ended (finished s r input rest idle (cc (rw (idle, interact) at h))).1 ended
    ]

    pub interacted :
        (rounds : ℕ) (s r : ProgramState S) (input rest : Input)
        → Reached m i s
        → interact m i isspace stoi choose rounds s input ≡ some (ok (r, rest))
        → Outcome m i s r ⊎ Ended rest
    unfolding interact
    interacted zero s r input rest reached h = elim (Bool-cases (has_active_threads s)) [
      | inl active ↦ absurd (cc (rw active at h))
      | inr idle ↦ inl (finished s r input rest idle (cc (rw idle at h))).0
    ]
    interacted (suc rounds) s r input rest reached h = elim (Bool-cases (has_active_threads s)) [
      | inl active ↦ elim (Result-cases (take_turn m i isspace stoi choose s input)) [
        | inl ((u, behind), e) ↦
            let left = rw (active, e, interact) at h in
            elim (turned s u input behind reached e) [
              | inr ended ↦ inr (ended-interact rounds u r behind rest ended left)
              | inl t ↦
                  elim (interacted rounds u r behind rest (move (switch reached t.switches) t.moves)
                    left) [
                      | inr ended ↦ inr ended
                      | inl o ↦ inl (record {
                        final = o.final;
                        execution = Execution.turn active t.switches t.moves o.execution;
                        flushed = o.flushed;
                      })
                    ]
            ]
        | inr (x, e) ↦ absurd (cc (rw (active, e, interact) at h))
      ]
      | inr idle ↦ inl (finished s r input rest idle (cc (rw (idle, interact) at h))).0
    ]

  first_chosen :
      ((s : ProgramState S)
        → has_eps_transitions m s ≡ true
        → get_eps_transition_states m s ≢ ok [])
      → (s u : ProgramState S) (input rest : Input) → has_eps_transitions m s ≡ true
      → get_new_eps_transition_state m s input ≡ ok (u, rest)
      → Move m i s u
  unfolding get_new_eps_transition_state
  first_chosen announced s u input rest eps h =
      let (states, all, h₁) = >>=-eq-ok (get_eps_transition_states m s) _ h in
      first_of states all h₁
    where
      first_of :
          (states : List (ProgramState S))
          → get_eps_transition_states m s ≡ ok states
          → (elim states as (λ _. Checked (ProgramState S × Input)) [
            | [] ↦ ok (s, input)
            | v ∷ vs ↦ ok (v, input)
          ])
            ≡ ok (u, rest)
          → Move m i s u
      first_of [] all h₁ = absurd (announced s eps all)
      first_of (v ∷ vs) all h₁ = Move.memory (v ∷ vs) eps all (Memᴰ.head (cc h₁))

  -- With a memory model that has an eps-transition wherever it announces some, a state that an
  -- interactive run returns, on any input, is the flushed form of the final state of an execution:
  -- from the initial state, each turn lets an active thread run and takes a step of the memory or
  -- the thread's next instruction, until no thread is active.
  pub interactive_runs :
      ((s : ProgramState S)
        → has_eps_transitions m s ≡ true
        → get_eps_transition_states m s ≢ ok [])
      → (isspace : ℕ → Bool) (stoi : String → Checked ℤ) (rounds : ℕ) (r : ProgramState S)
        (input rest : Input)
      → run m i isspace stoi (get_new_eps_transition_state m) rounds input ≡ some (ok (r, rest))
      → Outcome m i (initial_state m i) r
  unfolding run
  interactive_runs announced isspace stoi rounds r input rest returns =
      elim (interacted isspace stoi (get_new_eps_transition_state m) (λ left. ⊥)
        (λ s u input rest reached eps h. inl (first_chosen announced s u input rest eps h))
        (λ s u input rest ended h. ended) rounds (initial_state m i) r input rest start returns) [
          | inl o ↦ o
          | inr never ↦ absurd never
        ]
