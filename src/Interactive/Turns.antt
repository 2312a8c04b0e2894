-- ===== src/Interactive/Turns.antt =====
-- A change of the thread in interactive.cpp against the one of the random execution.
use mathlib.Core.Path.{subst}
use weak_memory_models_simul.Prelude.{
  ℕ, String, Bool, true, false, ◌||◌, not, ◌≡◌, arith, Bool-cases, inl, inr, ◌==◌, nat_eq, is_some,
  if◌then◌else◌,
}
use weak_memory_models_simul.Prelude.Result.{ok, ◌>>=◌, >>=-eq-ok}
use weak_memory_models_simul.Prelude.Int.{ℤ}
use weak_memory_models_simul.Prelude.Map.{lookup, nat_less, Mem-keys}
use weak_memory_models_simul.Exceptions.{Checked}
use weak_memory_models_simul.Storage.Interface.{StorageSubsystem}
use weak_memory_models_simul.State.{
  ProgramState, is_interleaving_possible, get_active_threads_ids, get_interleaving_state,
}
use weak_memory_models_simul.Interpreter.{Interpreter}
use weak_memory_models_simul.Interpreter.NonDeterministic.Runs.{Switch}
use weak_memory_models_simul.Interactive.{is_changing, change_thread}
use weak_memory_models_simul.Interactive.Answers.{Input, get_new_thread_id}

module _ {S : Type 0} (m : StorageSubsystem S) (i : Interpreter) where
  -- A change of the thread that succeeds is a switch to an active thread.
  interleaved :
      (t : ℕ) (s u : ProgramState S)
      → is_interleaving_possible s ≡ true
      → get_interleaving_state t s ≡ ok u
      → Switch m i s u
  unfolding get_interleaving_state get_active_threads_ids
  interleaved t s u possible h =
      elim (Bool-cases ((s.current_thread_id == t) || not (is_some (lookup t s.threads)))) [
        | inl e ↦ absurd (cc (rw e at h))
        | inr e ↦
            Switch.other t possible (Mem-keys t s.threads (ground arith))
              (ground (arith, nat_eq.test_iff)) h
      ]

  module _ (isspace : ℕ → Bool) (stoi : String → Checked ℤ)
      (choose : ProgramState S → Input → Checked (ProgramState S × Input)) where
    asked :
        (s : ProgramState S) (input rest : Input)
        → is_changing m i isspace stoi choose s input ≡ ok (true, rest)
        → is_interleaving_possible s ≡ true
    unfolding is_changing
    asked s input rest h = elim (Bool-cases (is_interleaving_possible s)) [
      | inl e ↦ e
      | inr e ↦ absurd (cc (rw e at h))
    ]

    -- Where the user is not asked, or declines, the thread stays the same.
    declined :
        (s : ProgramState S) (input rest : Input)
        → is_changing m i isspace stoi choose s input ≡ ok (false, rest)
        → Switch m i s s
    unfolding is_changing get_active_threads_ids
    declined s input rest h = elim (Bool-cases (is_interleaving_possible s)) [
      | inl possible ↦ elim (Bool-cases (is_some (lookup s.current_thread_id s.threads))) [
        | inl active ↦ Switch.same possible (Mem-keys s.current_thread_id s.threads active)
        | inr ended ↦ absurd (cc (rw (possible, ended) at h))
      ]
      | inr apart ↦ Switch.stay apart
    ]

    answered :
        (answer : Bool) (s u : ProgramState S) (input behind rest : Input)
        → is_changing m i isspace stoi choose s input ≡ ok (answer, behind)
        → (let chosen = get_new_thread_id isspace stoi s behind in
            if answer
            then (◌>>=◌ {B = ProgramState S × Input}
                (get_interleaving_state chosen.0 s)
                (λ s'. ok (s', chosen.1)))
            else ok (s, behind))
          ≡ ok (u, rest)
        → Switch m i s u
    answered true s u input behind rest asks h =
        let chosen = get_new_thread_id isspace stoi s behind in
        let (t, gets, h₁) = >>=-eq-ok (get_interleaving_state chosen.0 s) _ h in
        interleaved chosen.0 s u (asked s input behind asks) (cc (gets, h₁))
    answered false s u input behind rest asks h =
        subst (Switch m i s) (cc h) (declined s input behind asks)

    pub changed :
        (s u : ProgramState S) (input rest : Input)
        → change_thread m i isspace stoi choose s input ≡ ok (u, rest)
        → Switch m i s u
    unfolding change_thread
    changed s u input rest h =
        let ((answer, behind), asks, h₁) =
          >>=-eq-ok (is_changing m i isspace stoi choose s input) _ h in
        answered answer s u input behind rest asks h₁
