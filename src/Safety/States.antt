-- ===== src/Safety/States.antt =====
-- The states of a run (program-state.h, non-deterministic.cpp), and what holds of them.
use mathlib.Core.List.{Memᴰ}
use mathlib.Core.List.Memᴰ
use mathlib.Core.Path.{subst}
use weak_memory_models_simul.Prelude.{
  ℕ, zero, suc, ◌<◌, true, List, [], ◌∷◌, some, ◌≡◌, refl, sym, ap, ◌∙◌, arith, string_eq,
  Option-cases, inl, inr, nat_eq, get_elem?, length, is_some, All,
}
use weak_memory_models_simul.Prelude.Result.{ok, ok_injective}
use weak_memory_models_simul.Prelude.Map.{lookup, nat_less, lookup-Mem}
use weak_memory_models_simul.Exceptions.{Checked}
use weak_memory_models_simul.Ast.{StatementNode}
use weak_memory_models_simul.Storage.Interface.{StorageSubsystem}
use weak_memory_models_simul.State.{
  ProgramState, ThreadState, has_active_threads, is_interleaving_possible, has_eps_transitions,
  get_active_threads_ids, get_interleaving_state, get_eps_transition_states, with_storages,
}
use weak_memory_models_simul.State
use weak_memory_models_simul.Interpreter.{Interpreter, visit_statement, get_transition_state}
use weak_memory_models_simul.Interpreter.ModelChecking.{initial_state}
use weak_memory_models_simul.Interpreter.ModelChecking.Flag.{
  flagged, flagged_result, visit_statement-flagged,
}
use weak_memory_models_simul.Interpreter.ModelChecking.Executions.{gets}
use weak_memory_models_simul.Interpreter.NonDeterministic.Runs.{Switch, Move}
use weak_memory_models_simul.Safety.Lawful.{Lawful}
use weak_memory_models_simul.Safety.Instructions.{visit_statement-Formed}
use weak_memory_models_simul.Safety.Formed.{IsClosed, IsFormed, put-cases}

pub get_elem?-some {ℓ} :
    {A : Type ℓ} (xs : List A) (k : ℕ) → k < length xs → (x : A) × (get_elem? xs k ≡ some x)
get_elem?-some [] k lt = absurd (omega (arith, lt))
get_elem?-some (x ∷ xs) zero lt = (x, refl)
get_elem?-some (x ∷ xs) (suc k) lt = get_elem?-some xs k (omega (arith, lt))

-- What holds of every state of a run: the invariant of Formed, and the flag, which only the model
-- checker changes.
pub record IsRunning {S : Type 0} (i : Interpreter) (Valid : S → Type 0) (s : ProgramState S)
    : Type 0 where
  pub formed : IsFormed Valid i s
  pub allowed : s.is_allowed_interleaving ≡ true

module _ {S : Type 0} (m : StorageSubsystem S) (i : Interpreter) where
  -- The states that the turns of a run lead through.
  pub data Reached : ProgramState S → Type 0 where
    start : Reached (initial_state m i)
    switch : {s t : ProgramState S} → Reached s → Switch m i s t → Reached t
    move : {s t : ProgramState S} → Reached s → Move m i s t → Reached t

  module _ (Valid : S → Type 0) (lawful : Lawful m Valid) (closed : IsClosed i) where
    initial-IsRunning : IsRunning i Valid (initial_state m i)
    unfolding State.add_thread lookup
    initial-IsRunning =
        let first : ThreadState = record { instruction_index = 0; thread_subsystem = [] } in
        record {
          formed = record {
            in_range = λ t found h. elim (put-cases 0 t first found [] h) [
              | inl (_, same) ↦ rw same closed.starts
              | inr old ↦ absurd (cc)
            ];
            given_out = λ t found h. elim (put-cases 0 t first found [] h) [
              | inl (same, _) ↦ omega (arith, same)
              | inr old ↦ absurd (cc)
            ];
            current_given_out = omega arith;
            target = λ k h. absurd (cc);
            valid = lawful.prepares 0 m.create lawful.created;
          };
          allowed = refl;
        }

    -- another thread with an id given out before
    renamed-IsRunning :
        (s : ProgramState S) (t : ℕ)
        → Memᴰ t (get_active_threads_ids s)
        → IsRunning i Valid s
        → IsRunning i Valid (record s { current_thread_id = t })
    unfolding get_active_threads_ids
    renamed-IsRunning s t listed r =
        let there = lookup-Mem t s.threads listed in
        record {
          formed = record {
            in_range = r.formed.in_range;
            given_out = r.formed.given_out;
            current_given_out = elim (Option-cases (lookup t s.threads)) [
              | inl e ↦ absurd (cc (rw e at there))
              | inr (thread, e) ↦ r.formed.given_out t thread e
            ];
            target = r.formed.target;
            valid = r.formed.valid;
          };
          allowed = r.allowed;
        }

    Switch-IsRunning :
        {s t : ProgramState S} → Switch m i s t → IsRunning i Valid s → IsRunning i Valid t
    Switch-IsRunning (Switch.stay _) r = r
    Switch-IsRunning (Switch.same _ _) r = r
    Switch-IsRunning {s} {t = u} (Switch.other t possible listed differs e) r =
        let taken = gets m i s t (ground (arith, differs, nat_eq.test_iff)) listed in
        subst (IsRunning i Valid) (ok_injective (sym taken ∙ e)) (renamed-IsRunning s t listed r)

    eps-IsRunning :
        (s u : ProgramState S) (ws : List S)
        → All Valid ws
        → Memᴰ u (with_storages s ws)
        → IsRunning i Valid s
        → IsRunning i Valid u
    unfolding with_storages
    eps-IsRunning s u [] valid there r = absurd (Memᴰ.not-nil there)
    eps-IsRunning s u (w ∷ ws) valid there r = elim (Memᴰ.cases_cons there) [
      | inl same ↦ subst (IsRunning i Valid) (sym same) (record {
        formed = record {
          in_range = r.formed.in_range;
          given_out = r.formed.given_out;
          current_given_out = r.formed.current_given_out;
          target = r.formed.target;
          valid = valid.0;
        };
        allowed = r.allowed;
      })
      | inr behind ↦ eps-IsRunning s u ws valid.1 behind r
    ]

    instruction-allowed :
        (s t : ProgramState S) (n : StatementNode)
        → visit_statement m i n s ≡ ok t
        → s.is_allowed_interleaving ≡ true
        → t.is_allowed_interleaving ≡ true
    instruction-allowed s t n h allowed =
        let same : flagged true s ≡ s = ap (λ b. flagged b s) (sym allowed) in
        let kept : ok t ≡ flagged_result true (ok t) =
          sym h
          ∙ ap (visit_statement m i n) (sym same)
          ∙ visit_statement-flagged m i true n s
          ∙ ap (flagged_result true) h in
        ap (λ (u : ProgramState S). u.is_allowed_interleaving) (ok_injective kept)

    -- An instruction that is carried out is one of the program.
    pub record Carried (s : ProgramState S) (r : Checked (ProgramState S)) : Type 0 where
      pub thread : ThreadState
      pub statement : StatementNode
      pub active : lookup s.current_thread_id s.threads ≡ some thread
      pub stands : get_elem? i.root.statements thread.instruction_index ≡ some statement
      pub visits : visit_statement m i statement s ≡ r

    pub carried :
        (s : ProgramState S)
        → is_some (lookup s.current_thread_id s.threads) ≡ true
        → IsRunning i Valid s
        → Carried s (get_transition_state m i (visit_statement m i) s)
    unfolding get_transition_state
    carried s active r = elim (Option-cases (lookup s.current_thread_id s.threads)) [
      | inl e ↦ absurd (cc (rw e at active))
      | inr (thread, e) ↦
          let (n, stands) =
            get_elem?-some i.root.statements thread.instruction_index
              (r.formed.in_range s.current_thread_id thread e) in
          record {
            thread = thread;
            statement = n;
            active = e;
            stands = stands;
            visits = rw (get_transition_state, e, stands);
          }
    ]

    instruction-active :
        (s t : ProgramState S)
        → get_transition_state m i (visit_statement m i) s ≡ ok t
        → is_some (lookup s.current_thread_id s.threads) ≡ true
    unfolding get_transition_state
    instruction-active s t h = elim (Option-cases (lookup s.current_thread_id s.threads)) [
      | inl e ↦ absurd (cc (rw (get_transition_state, e) at h))
      | inr (thread, e) ↦ rw e
    ]

    Move-IsRunning :
        {s t : ProgramState S} → Move m i s t → IsRunning i Valid s → IsRunning i Valid t
    unfolding get_eps_transition_states has_eps_transitions
    Move-IsRunning {s} {t} (Move.memory states eps all there) r =
        let (w, ws, gives, valid) = lawful.steps s.current_thread_id s.storage r.formed.valid eps in
        let listed : ok states ≡ ok (with_storages s (w ∷ ws)) = sym all ∙ (rw gives) in
        eps-IsRunning s t (w ∷ ws) valid (subst (Memᴰ t) (ok_injective listed) there) r
    Move-IsRunning {s} {t} (Move.instruction e) r =
        let c = carried s (instruction-active s t e) r in
        record {
          formed =
              visit_statement-Formed Valid i m lawful closed s t c.thread c.statement c.active
                c.stands (c.visits ∙ e) r.formed;
          allowed = instruction-allowed s t c.statement (c.visits ∙ e) r.allowed;
        }

    -- Every state that a run leads through keeps the invariant.
    pub Reached-IsRunning : {s : ProgramState S} → Reached s → IsRunning i Valid s
    Reached-IsRunning start = initial-IsRunning
    Reached-IsRunning (switch before step) = Switch-IsRunning step (Reached-IsRunning before)
    Reached-IsRunning (move before step) = Move-IsRunning step (Reached-IsRunning before)
