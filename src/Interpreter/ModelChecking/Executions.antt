-- ===== src/Interpreter/ModelChecking/Executions.antt =====
-- The search of model-checking.cpp against the executions of non-deterministic.cpp.
use mathlib.Core.List.{Memᴰ}
use mathlib.Core.List.Memᴰ
use mathlib.Core.Path.{subst}
use weak_memory_models_simul.Prelude.{
  ℕ, true, false, List, [], ◌∷◌, ◌++◌, some, ◌≡◌, refl, sym, ap, ◌∙◌, arith, Bool-cases, inl, inr,
  All, All-of_mem, ◌==◌, nat_eq, is_some,
}
use weak_memory_models_simul.Prelude.Result.{ok, Result-cases, >>=-eq-ok}
use weak_memory_models_simul.Prelude.Int.{int_eq}
use weak_memory_models_simul.Prelude.Map.{lookup, nat_less, Mem-keys, lookup-Mem}
use weak_memory_models_simul.Storage.Interface.{StorageSubsystem}
use weak_memory_models_simul.State.{
  ProgramState, has_active_threads, is_interleaving_possible, has_eps_transitions,
  get_active_threads_ids, get_interleaving_state, get_eps_transition_states, with_storages,
  update_current_thread_instruction,
}
use weak_memory_models_simul.State
use weak_memory_models_simul.Interpreter.{Interpreter, get_transition_state}
use weak_memory_models_simul.Interpreter.ModelChecking.{
  interleavings, allow_all, visit_allowing, interleaved, eps_states, expand, flush_state,
  initial_state, run,
}
use weak_memory_models_simul.Interpreter.ModelChecking.Reachable.{Reach, here, next, explored}
use weak_memory_models_simul.Interpreter.NonDeterministic
use weak_memory_models_simul.Interpreter.NonDeterministic.{Draw}
use weak_memory_models_simul.Interpreter.NonDeterministic.Runs.{
  Switch, Move, Execution, random_runs,
}
use weak_memory_models_simul.Interpreter.ModelChecking.Flag.{
  flagged, flagged_result, transition-flagged,
}

module _ {S : Type 0} where
  module _ (m : StorageSubsystem S) (i : Interpreter) where
    Mem-flagged :
        (s t : ProgramState S) (zs : List S)
        → Memᴰ t (allow_all (with_storages s zs))
        → Memᴰ (flagged true t) (with_storages (flagged true s) zs)
    unfolding allow_all with_storages
    Mem-flagged s t [] there = absurd (Memᴰ.not-nil there)
    Mem-flagged s t (z ∷ zs) there = elim (Memᴰ.cases_cons there) [
      | inl same ↦ Memᴰ.head (ap (flagged true) same)
      | inr behind ↦ Memᴰ.tail (Mem-flagged s t zs behind)
    ]

    eps-flagged :
        (s t : ProgramState S) (ts : List (ProgramState S))
        → eps_states m i s ≡ ok ts
        → Memᴰ t ts
        → Move m i (flagged true s) (flagged true t)
    unfolding eps_states get_eps_transition_states has_eps_transitions
    eps-flagged s t ts h there = elim (Bool-cases (has_eps_transitions m s)) [
      | inl eps ↦
          let (ss, gets, h₁) =
            >>=-eq-ok (get_eps_transition_states m s) _ (rw (eps_states, eps) at h) in
          let (zs, all, h₂) =
            >>=-eq-ok (m.get_eps_transitions s.current_thread_id s.storage) _ gets in
          Move.memory (with_storages (flagged true s) zs) eps (rw all)
            (Mem-flagged s t zs (subst (Memᴰ t) (cc (h₁, h₂)) there))
      | inr settled ↦
          absurd (Memᴰ.not-nil (subst (Memᴰ t) (cc (rw (eps_states, settled) at h)) there))
    ]

    -- Where the current thread is active it may go on.
    goes_on :
        (s : ProgramState S)
        → is_some (lookup s.current_thread_id s.threads) ≡ true
        → Switch m i s s
    unfolding get_active_threads_ids
    goes_on s active = elim (Bool-cases (is_interleaving_possible s)) [
      | inl possible ↦ Switch.same possible (Mem-keys s.current_thread_id s.threads active)
      | inr apart ↦ Switch.stay apart
    ]

    interleavings-cases :
        (ids : List ℕ) (s t : ProgramState S)
        → Memᴰ t (interleavings ids s)
        → (k : ℕ) × Memᴰ k ids
          × ((s.current_thread_id == k) ≡ false)
          × (t ≡ record s { is_allowed_interleaving = false; current_thread_id = k })
    unfolding interleavings
    interleavings-cases [] s t there = absurd (Memᴰ.not-nil there)
    interleavings-cases (k ∷ ids) s t there = elim (Bool-cases (s.current_thread_id == k)) [
      | inl e ↦
          let (j, listed, differs, same) = interleavings-cases ids s t (rw e at there) in
          (j, Memᴰ.tail listed, differs, same)
      | inr e ↦ elim (Memᴰ.cases_cons (rw e at there)) [
        | inl same ↦ (k, Memᴰ.head refl, e, same)
        | inr behind ↦
            let (j, listed, differs, same) = interleavings-cases ids s t behind in
            (j, Memᴰ.tail listed, differs, same)
      ]
    ]

    pub gets :
        (s : ProgramState S) (k : ℕ)
        → (s.current_thread_id == k) ≡ false
        → Memᴰ k (get_active_threads_ids s)
        → get_interleaving_state k s ≡ ok (record s { current_thread_id = k })
    unfolding get_interleaving_state get_active_threads_ids
    gets s k differs listed = rw (differs, lookup-Mem k s.threads listed)

    -- What the random execution has done where the model checker has reached `s`: it is there, or it
    -- is in the middle of a turn, with the thread chosen.
    data Arrived (s : ProgramState S) : ProgramState S → Type 0 where
      between : Arrived s (flagged true s)
      chosen :
          {r : ProgramState S}
          → Switch m i r (flagged true s)
          → has_active_threads r ≡ true
          → has_active_threads s ≡ true
          → s.is_allowed_interleaving ≡ false
          → Arrived s r

    switched :
        (s t r : ProgramState S)
        → has_active_threads s ≡ true
        → Memᴰ t (interleaved m i s)
        → Arrived s r
        → Arrived t r
    unfolding interleaved is_interleaving_possible get_interleaving_state get_active_threads_ids
        has_active_threads
    switched s t r active there (chosen _ _ _ barred) =
        absurd (Memᴰ.not-nil (rw (interleaved, is_interleaving_possible, barred) at there))
    switched s t _ active there between = elim (Bool-cases (is_interleaving_possible s)) [
      | inl possible ↦
          let (k, listed, differs, same) =
            interleavings-cases (get_active_threads_ids s) s t
              (rw (interleaved, possible) at there) in
          subst (λ x. Arrived x (flagged true s)) (sym same)
            (chosen
              (Switch.other k (ground (arith, possible)) listed
                (ground (arith, differs, nat_eq.test_iff)) (gets (flagged true s) k differs listed))
              active active refl)
      | inr apart ↦ absurd (Memᴰ.not-nil (rw (interleaved, apart) at there))
    ]

    turn_from :
        {s t v r : ProgramState S}
        → Arrived s r
        → has_active_threads s ≡ true
        → is_some (lookup s.current_thread_id s.threads) ≡ true
        → Move m i (flagged true s) t
        → Execution m i v t
        → Execution m i v r
    unfolding has_active_threads
    turn_from between active lives move rest = Execution.turn active (goes_on _ lives) move rest
    turn_from (chosen switch active _ _) _ lives move rest = Execution.turn active switch move rest

    -- The random execution takes the steps of the search: a change of the thread and what follows it
    -- are one turn.
    simulated :
        {s u : ProgramState S}
        → Reach m i s u
        → has_active_threads u ≡ false
        → (r : ProgramState S) → Arrived s r
        → Execution m i (flagged true u) r
    unfolding expand has_active_threads
    simulated (here {s = s}) idle _ between = Execution.stop idle
    simulated here idle r (chosen _ _ active _) = absurd (cc)
    simulated (next {s = s} {t = t} {u = u} {ts = ts} active e there path) idle r a =
        elim (Bool-cases (is_some (lookup s.current_thread_id s.threads))) [
          | inl lives ↦
              let (eps, e₁, h₁) = >>=-eq-ok (eps_states m i s) _ (rw (expand, lives) at e) in
              let (n, e₂, h₂) = >>=-eq-ok (get_transition_state m i (visit_allowing m i) s) _ h₁ in
              let listed : Memᴰ t (interleaved m i s ++ (eps ++ n ∷ [])) =
                subst (Memᴰ t) (cc h₂) there in
              elim (Memᴰ.append_cases (interleaved m i s) listed) [
                | inl switching ↦ simulated path idle r (switched s t r active switching a)
                | inr moving ↦ elim (Memᴰ.append_cases eps moving) [
                  | inl eps_state ↦
                      turn_from a active lives (eps-flagged s t eps e₁ eps_state)
                        (simulated path idle (flagged true t) between)
                  | inr last ↦
                      turn_from a active lives
                        (Move.instruction (
                          transition-flagged m i s t
                            (e₂ ∙ ap ok (sym (Memᴰ.eq_of_singleton last)))))
                        (simulated path idle (flagged true t) between)
                ]
              ]
          | inr ended ↦
              simulated path idle r
                (switched s t r active (subst (Memᴰ t) (cc (rw (expand, ended) at e)) there) a)
        ]

    flush-flagged :
        (u f : ProgramState S)
        → flush_state m i u ≡ ok f
        → flush_state m i (flagged true u) ≡ ok (flagged true f)
    unfolding flush_state
    flush-flagged u f h = elim (Result-cases (m.flush u.storage)) [
      | inl (z, e) ↦ rw (flush_state, e) (ap (flagged_result true) (rw (flush_state, e) at h))
      | inr (x, e) ↦ absurd (cc (rw (flush_state, e) at h))
    ]

    -- Each result of the model checker, whatever the number of its rounds, is the result of a random
    -- execution, for some random numbers; but for the flag that only the model checker uses.
    pub model_checker_results :
        (fuel : ℕ) (results : List (ProgramState S))
        → run m i fuel ≡ some (ok results)
        → All
            (λ f.
              (draws : List Draw) × (NonDeterministic.run m i draws ≡ some (ok (flagged true f))))
            results
    unfolding run State.add_thread
    model_checker_results fuel results h = All-of_mem results (λ f there.
        elim ((explored m i fuel (initial_state m i ∷ []) [] results h).sound f there) [
          | inl old ↦ absurd (Memᴰ.not-nil old)
          | inr o ↦ (random_runs m i (flagged true f)).1 (record {
            final = flagged true o.final;
            execution =
                simulated (subst (λ z. Reach m i z o.final) (Memᴰ.eq_of_singleton o.queued) o.path)
                  o.finished (initial_state m i) between;
            flushed = flush-flagged o.final f o.flushed;
          })
        ])
