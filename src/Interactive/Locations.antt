-- ===== src/Interactive/Locations.antt =====
-- Interactive runs under the models whose eps-transitions the user chooses by a location
-- (interactive-cli.cpp): partial store order and strong release acquire.
use mathlib.Core.Path.{subst}
use weak_memory_models_simul.Prelude.{
  ℕ, String, Bool, true, false, [], ◌∷◌, some, ◌≡◌, Bool-cases, Option-cases, inl, inr, ◌⊎◌,
  get_elem?, nat_eq, string_eq, if◌then◌else◌,
}
use weak_memory_models_simul.Prelude.Result.{ok, ◌>>=◌, >>=-eq-ok}
use weak_memory_models_simul.Prelude.Int.{ℤ}
use weak_memory_models_simul.Prelude.Map.{lookup, nat_less, HashOrder}
use weak_memory_models_simul.Exceptions.{Checked}
use weak_memory_models_simul.Storage.Interface.{StorageSubsystem}
use weak_memory_models_simul.Storage.Pso.{Pso, pso}
use weak_memory_models_simul.Storage.Pso.Views.{IsValid}
use weak_memory_models_simul.Storage.Sra.{Sra, sra}
use weak_memory_models_simul.State.{
  ProgramState, is_interleaving_possible, has_eps_transitions, get_interleaving_state,
  get_eps_transition_states, with_storages,
}
use weak_memory_models_simul.Interpreter.{Interpreter, visit_statement, get_transition_state}
use weak_memory_models_simul.Interpreter.ModelChecking.{initial_state}
use weak_memory_models_simul.Interpreter.NonDeterministic.Runs.{Move, Outcome}
use weak_memory_models_simul.Interactive.{
  is_changing, change_thread, perform_transition, take_turn, run,
}
use weak_memory_models_simul.Interactive.Answers.{
  Input, get_yes_no, ask_thread, should_change_thread, should_perform_eps_transition,
  get_new_thread_id, get_new_propagation_state, get_new_increase_state,
}
use weak_memory_models_simul.Interactive.Choices.{increase_chosen, propagation_chosen}
use weak_memory_models_simul.Interactive.Runs.{interacted}
use weak_memory_models_simul.Safety.Formed.{IsClosed}
use weak_memory_models_simul.Safety.States.{start, Reached-IsRunning}
use weak_memory_models_simul.Safety.Models.{pso-Lawful}

module _ {S : Type 0} (m : StorageSubsystem S) (i : Interpreter) (isspace : ℕ → Bool)
    (stoi : String → Checked ℤ)
    (choose : ProgramState S → Input → Checked (ProgramState S × Input)) where
  -- No question gets an answer behind the end of the input.
  asked_at_end :
      (s : ProgramState S) (answer : Bool) (rest : Input)
      → is_changing m i isspace stoi choose s [] ≡ ok (answer, rest)
      → rest ≡ []
  unfolding is_changing should_change_thread get_yes_no
  asked_at_end s answer rest h = elim (Bool-cases (is_interleaving_possible s)) [
    | inr e ↦ cc (rw e at h)
    | inl possible ↦ elim (Option-cases (lookup s.current_thread_id s.threads)) [
      | inl e ↦ cc (rw (is_changing, possible, e) at h)
      | inr (thread, e) ↦
          elim (Option-cases (get_elem? i.root.statements thread.instruction_index)) [
            | inl missing ↦
                absurd (cc (rw (is_changing, should_change_thread, possible, e, missing) at h))
            | inr (n, stands) ↦
                cc (rw (is_changing, should_change_thread, possible, e, stands) at h)
          ]
    ]
  ]

  changed_at_end :
      (answer : Bool) (s u : ProgramState S) (rest : Input)
      → (let chosen = get_new_thread_id isspace stoi s [] in
          if answer
          then (◌>>=◌ {B = ProgramState S × Input}
              (get_interleaving_state chosen.0 s)
              (λ s'. ok (s', chosen.1)))
          else ok (s, []))
        ≡ ok (u, rest)
      → rest ≡ []
  unfolding get_new_thread_id ask_thread
  changed_at_end true s u rest h =
      let (t, _, h₁) = >>=-eq-ok (get_interleaving_state 0 s) _ h in cc h₁
  changed_at_end false s u rest h = cc h

  performed_at_end :
      (s u : ProgramState S) (rest : Input)
      → perform_transition m i isspace stoi choose s [] ≡ ok (u, rest)
      → rest ≡ []
  unfolding perform_transition should_perform_eps_transition get_yes_no
  performed_at_end s u rest h = elim (Bool-cases (has_eps_transitions m s)) [
    | inl e ↦ instructed (rw (perform_transition, e) at h)
    | inr e ↦ instructed (rw (perform_transition, e) at h)
  ]
    where
      instructed :
          ◌>>=◌ {B = ProgramState S × Input}
              (get_transition_state m i (visit_statement m i) s)
              (λ t. ok (t, []))
            ≡ ok (u, rest)
          → rest ≡ []
      instructed h₁ =
          let (t, _, h₂) = >>=-eq-ok (get_transition_state m i (visit_statement m i) s) _ h₁ in
          cc h₂

  turn_at_end :
      (s u : ProgramState S) (input rest : Input)
      → input ≡ []
      → take_turn m i isspace stoi choose s input ≡ ok (u, rest)
      → rest ≡ []
  unfolding take_turn change_thread
  turn_at_end s u input rest ended h =
      let ((t, behind), changes, h₁) =
        >>=-eq-ok (change_thread m i isspace stoi choose s []) _
          (subst (λ lines. take_turn m i isspace stoi choose s lines ≡ ok (u, rest)) ended h) in
      let ((answer, left), asks, h₂) =
        >>=-eq-ok (is_changing m i isspace stoi choose s []) _ changes in
      let none_left : left ≡ [] = asked_at_end s answer left asks in
      let gone : behind ≡ [] = changed_at_end answer s t behind (rw none_left at h₂) in
      performed_at_end t u rest (rw gone at h₁)

module _ (isspace : ℕ → Bool) (stoi : String → Checked ℤ) (left : String → String) where
  -- An interactive run under strong release acquire that returns a state has reached the end of its
  -- input, or the state is the flushed form of the final state of an execution from the initial
  -- state, whose turns let an active thread run and take a step of the memory or the thread's next
  -- instruction.
  pub interactive_increases :
      (i : Interpreter) (rounds : ℕ) (r : ProgramState Sra) (input rest : Input)
      → run sra i isspace stoi (get_new_increase_state isspace left) rounds input
        ≡ some (ok (r, rest))
      → Outcome sra i (initial_state sra i) r ⊎ (rest ≡ [])
  unfolding run
  interactive_increases i rounds r input rest returns =
      interacted sra i isspace stoi (get_new_increase_state isspace left) (λ lines. lines ≡ [])
        (λ s u input rest reached eps h. elim (increase_chosen isspace left s u input rest eps h) [
          | inl (states, all, there) ↦ inl (Move.memory states eps all there)
          | inr ended ↦ inr ended
        ])
        (turn_at_end sra i isspace stoi (get_new_increase_state isspace left)) rounds
        (initial_state sra i) r input rest start returns

  -- An interactive run of a closed program under partial store order that returns a state has
  -- reached the end of its input, or the state is the flushed form of the final state of an
  -- execution from the initial state, whose turns let an active thread run and take a step of the
  -- memory or the thread's next instruction.
  pub interactive_propagations :
      (ids : HashOrder ℕ) (names : HashOrder String) (i : Interpreter)
      → IsClosed i
      → (rounds : ℕ) (r : ProgramState Pso) (input rest : Input)
      → run
          (pso ids names)
          i
          isspace
          stoi
          (get_new_propagation_state isspace names left)
          rounds
          input
        ≡ some (ok (r, rest))
      → Outcome (pso ids names) i (initial_state (pso ids names) i) r ⊎ (rest ≡ [])
  unfolding run has_eps_transitions get_eps_transition_states
  interactive_propagations ids names i closed rounds r input rest returns =
      interacted (pso ids names) i isspace stoi (get_new_propagation_state isspace names left)
        (λ lines. lines ≡ [])
        (λ s u input rest reached eps h.
          let running =
            Reached-IsRunning (pso ids names) i IsValid (pso-Lawful ids names) closed reached in
          let (w, ws, gives, _) =
            (pso-Lawful ids names).steps s.current_thread_id s.storage running.formed.valid eps in
          let all : get_eps_transition_states (pso ids names) s ≡ ok (with_storages s (w ∷ ws)) =
            rw gives in
          elim (propagation_chosen ids names isspace left s u (with_storages s (w ∷ ws)) input rest
            eps all h) [
              | inl there ↦ inl (Move.memory (with_storages s (w ∷ ws)) eps all there)
              | inr ended ↦ inr ended
            ])
        (turn_at_end (pso ids names) i isspace stoi (get_new_propagation_state isspace names left))
        rounds (initial_state (pso ids names) i) r input rest start returns
