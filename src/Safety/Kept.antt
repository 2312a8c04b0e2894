-- ===== src/Safety/Kept.antt =====
-- What the parts of an instruction (interpreter.cpp, program-state.cpp) keep of the state of a run.
use mathlib.Core.Path.{subst}
use weak_memory_models_simul.Prelude.{
  ℕ, suc, ◌<◌, String, [], none, some, ◌≡◌, ap, ◌∙◌, arith, string_eq, Option-cases, inl, inr,
  nat_eq, length,
}
use weak_memory_models_simul.Prelude.Result.{ok, ok_injective}
use weak_memory_models_simul.Prelude.Int.{ℤ, int_eq}
use weak_memory_models_simul.Prelude.Map.{Map, lookup, put, erase, nat_less, lookup-erase}
use weak_memory_models_simul.Exceptions.{Checked}
use weak_memory_models_simul.Storage.Interface.{StorageSubsystem}
use weak_memory_models_simul.State.{
  ProgramState, ThreadState, update_current_thread_instruction, current_thread, set_register,
  add_thread,
}
use weak_memory_models_simul.State
use weak_memory_models_simul.Threads
use weak_memory_models_simul.Interpreter.{
  Interpreter, register, apply, find_label, visit, visit_statement,
}
use weak_memory_models_simul.Interpreter
use weak_memory_models_simul.Safety.Lawful.{Lawful}
use weak_memory_models_simul.Safety.Formed.{IsClosed, IsFormed, Inside, put-cases}

erase-kept :
    (t u : ℕ) (found : ThreadState) (threads : Map ℕ ThreadState)
    → lookup u (erase t threads) ≡ some found
    → lookup u threads ≡ some found
erase-kept t u found threads h = ground (arith, h, lookup-erase t u threads)

module _ {S : Type 0} (Valid : S → Type 0) (i : Interpreter) where
  pub carry :
      {s s' : ProgramState S}
      → (let r : Checked (ProgramState S) = ok s in r) ≡ ok s'
      → Inside Valid i s
      → Inside Valid i s'
  carry e inside = subst (Inside Valid i) (ok_injective e) inside

  pub restored :
      (s : ProgramState S) (z : S)
      → Valid z
      → Inside Valid i s
      → Inside Valid i (record s { storage = z })
  restored s z v (f, a) = (
    record {
      in_range = f.in_range;
      given_out = f.given_out;
      current_given_out = f.current_given_out;
      target = f.target;
      valid = v;
    },
    a,
  )

  -- an update of the current thread
  pub updated-Formed :
      (thread : ThreadState) (s : ProgramState S)
      → thread.instruction_index < length i.root.statements
      → IsFormed Valid i s
      → IsFormed Valid i (record s { threads = put s.current_thread_id thread s.threads })
  updated-Formed thread s lt f = record {
    in_range = λ t found h. elim (put-cases s.current_thread_id t thread found s.threads h) [
      | inl (_, same) ↦ rw same lt
      | inr old ↦ f.in_range t found old
    ];
    given_out = λ t found h. elim (put-cases s.current_thread_id t thread found s.threads h) [
      | inl (same, _) ↦ rw same f.current_given_out
      | inr old ↦ f.given_out t found old
    ];
    current_given_out = f.current_given_out;
    target = f.target;
    valid = f.valid;
  }

  updated :
      (thread : ThreadState) (s : ProgramState S)
      → suc thread.instruction_index < length i.root.statements
      → Inside Valid i s
      → Inside Valid i (record s { threads = put s.current_thread_id thread s.threads })
  updated thread s lt (f, a) = (
    updated-Formed thread s (omega (arith, lt)) f,
    record {
      room = a.room;
      ahead = λ found h.
          elim (put-cases s.current_thread_id s.current_thread_id thread found s.threads h) [
            | inl (_, same) ↦ rw same lt
            | inr old ↦ a.ahead found old
          ];
    },
  )

  pub arrived-Formed :
      (s : ProgramState S)
      → IsFormed Valid i s
      → IsFormed Valid i (record s { goto_instruction = none })
  arrived-Formed s f = record {
    in_range = f.in_range;
    given_out = f.given_out;
    current_given_out = f.current_given_out;
    target = λ k e. absurd (cc);
    valid = f.valid;
  }

  pub current-ahead :
      (s : ProgramState S)
      → Inside Valid i s
      → suc (current_thread s).instruction_index < length i.root.statements
  current-ahead s (f, a) = elim (Option-cases (lookup s.current_thread_id s.threads)) [
    | inl e ↦ rw e a.room
    | inr (thread, e) ↦ rw e (a.ahead thread e)
  ]

  pub set_register-Inside :
      (r : String) (v : ℤ) (s : ProgramState S)
      → Inside Valid i s
      → Inside Valid i (set_register r v s)
  unfolding set_register
  set_register-Inside r v s h =
      updated
        (record (current_thread s) {
          thread_subsystem = Threads.set r v (current_thread s).thread_subsystem;
        })
        s (current-ahead s h) h

  pub update_register-Inside :
      (r : String) (s : ProgramState S)
      → Inside Valid i s
      → Inside Valid i (State.update_current_thread_register r s)
  unfolding State.update_current_thread_register
  update_register-Inside r s inside = set_register-Inside r s.last_evaluated_value s inside

  pub add_thread-Inside :
      (m : StorageSubsystem S) (k : ℕ) (s : ProgramState S)
      → Lawful m Valid
      → k < length i.root.statements
      → Inside Valid i s
      → Inside Valid i (add_thread m k s)
  unfolding add_thread
  add_thread-Inside m k s lawful lt (f, a) =
      let new : ThreadState = record { instruction_index = k; thread_subsystem = [] } in
      (
        record {
          in_range = λ t found h. elim (put-cases s.next_thread_id t new found s.threads h) [
            | inl (_, same) ↦ rw same lt
            | inr old ↦ f.in_range t found old
          ];
          given_out = λ t found h. elim (put-cases s.next_thread_id t new found s.threads h) [
            | inl (same, _) ↦ omega (arith, same)
            | inr old ↦ omega (arith, f.given_out t found old)
          ];
          current_given_out = omega (arith, f.current_given_out);
          target = f.target;
          valid = lawful.prepares s.next_thread_id s.storage f.valid;
        },
        record {
          room = a.room;
          ahead = λ found h.
              elim (put-cases s.next_thread_id s.current_thread_id new found s.threads h) [
                | inl (same, _) ↦ absurd (omega (arith, same, f.current_given_out))
                | inr old ↦ a.ahead found old
              ];
        },
      )

  pub ended-Formed :
      (m : StorageSubsystem S) (s s' : ProgramState S)
      → Interpreter.visit_end m i s ≡ ok s'
      → IsFormed Valid i s
      → IsFormed Valid i s' × (lookup s'.current_thread_id s'.threads ≡ none)
  unfolding Interpreter.visit_end
  ended-Formed m s s' h f =
      subst
        (λ (u : ProgramState S). IsFormed Valid i u × (lookup u.current_thread_id u.threads ≡ none))
        (ok_injective h)
        (
          record {
            in_range = λ t found e.
                f.in_range t found (erase-kept s.current_thread_id t found s.threads e);
            given_out = λ t found e.
                f.given_out t found (erase-kept s.current_thread_id t found s.threads e);
            current_given_out = f.current_given_out;
            target = f.target;
            valid = f.valid;
          },
          ground (arith, lookup-erase s.current_thread_id s.current_thread_id s.threads),
        )

  pub targeted :
      (s : ProgramState S) (k : ℕ)
      → k < length i.root.statements
      → Inside Valid i s
      → Inside Valid i (record s { goto_instruction = some k })
  targeted s k lt (f, a) = (
    record {
      in_range = f.in_range;
      given_out = f.given_out;
      current_given_out = f.current_given_out;
      target = λ j e. let same : k ≡ j = cc e in omega (arith, lt, same);
      valid = f.valid;
    },
    a,
  )

  pub label_found :
      (label : String) (k : ℕ)
      → IsClosed i
      → find_label i label ≡ ok k
      → k < length i.root.statements
  unfolding find_label
  label_found label k closed h = elim (Option-cases (lookup label i.labeled_instructions)) [
    | inl e ↦ absurd (cc (rw (find_label, e) at h))
    | inr (j, e) ↦
        let same : j ≡ k = cc (rw (find_label, e) at h) in
        closed.labelled label k (e ∙ ap some same)
  ]
