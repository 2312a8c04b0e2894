-- ===== src/Interpreter/NonDeterministic/Runs.antt =====
-- The loop of non-deterministic.cpp against the transitions that it chooses from.
use mathlib.Core.List.{Memᴰ}
use mathlib.Core.List.Memᴰ
use mathlib.Core.Path.{subst}
use native.Mathlib.Nat.{mod-eq_of_lt}
use weak_memory_models_simul.Prelude.{
  ℕ, zero, suc, ◌%◌, ◌<◌, true, false, ◌&&◌, List, [], ◌∷◌, some, ◌≡◌, refl, arith, Bool-cases,
  Option-cases, inl, inr, ◌↔◌, ◌==◌, nat_eq, get_elem?, length,
}
use weak_memory_models_simul.Prelude.Result.{ok, Result-cases, >>=-eq-ok}
use weak_memory_models_simul.Storage.Interface.{StorageSubsystem}
use weak_memory_models_simul.State.{
  ProgramState, has_active_threads, is_interleaving_possible, has_eps_transitions,
  get_active_threads_ids, get_interleaving_state, get_eps_transition_states,
}
use weak_memory_models_simul.Interpreter.{Interpreter, visit_statement, get_transition_state}
use weak_memory_models_simul.Interpreter.ModelChecking.{flush_state, initial_state}
use weak_memory_models_simul.Interpreter.NonDeterministic.{
  Draw, pick, interleave, proceed, round, execute, run,
}

module _ {ℓ} {A : Type ℓ} where
  Mem-get_elem : (xs : List A) (k : ℕ) (x : A) → get_elem? xs k ≡ some x → Memᴰ x xs
  Mem-get_elem [] k x h = absurd (cc)
  Mem-get_elem (y ∷ xs) zero x h = Memᴰ.head (cc)
  Mem-get_elem (y ∷ xs) (suc k) x h = Memᴰ.tail (Mem-get_elem xs k x h)

  index_of :
      (xs : List A) (x : A) → Memᴰ x xs → (k : ℕ) × (k < length xs) × (get_elem? xs k ≡ some x)
  index_of [] x there = absurd (Memᴰ.not-nil there)
  index_of (y ∷ xs) x there = elim (Memᴰ.cases_cons there) [
    | inl same ↦ (0, omega arith, cc)
    | inr behind ↦
        let (k, bound, found) = index_of xs x behind in (suc k, omega (arith, bound), found)
  ]

  -- A number picks a member of the sequence, and each member is picked by some number.
  pub Mem-pick : (random : ℕ) (xs : List A) (x : A) → pick random xs ≡ ok x → Memᴰ x xs
  unfolding pick
  Mem-pick random xs x h = elim (Option-cases (get_elem? xs (random % length xs))) [
    | inl e ↦ absurd (cc (rw (e, pick) at h))
    | inr (y, e) ↦ Mem-get_elem xs (random % length xs) x (cc (rw (e, pick) at h))
  ]

  pick_of : (xs : List A) (x : A) → Memᴰ x xs → (random : ℕ) × (pick random xs ≡ ok x)
  unfolding pick
  pick_of xs x there =
      let (k, bound, found) = index_of xs x there in (k, rw (pick, mod-eq_of_lt bound, found))

module _ {S : Type 0} (m : StorageSubsystem S) (i : Interpreter) where
  -- The thread that runs next: any active one, where interleaving is possible.
  pub data Switch (s : ProgramState S) : ProgramState S → Type 0 where
    stay : is_interleaving_possible s ≡ false → Switch s s
    same :
        is_interleaving_possible s ≡ true
        → Memᴰ s.current_thread_id (get_active_threads_ids s)
        → Switch s s
    other :
        {u : ProgramState S} (t : ℕ)
        → is_interleaving_possible s ≡ true
        → Memᴰ t (get_active_threads_ids s)
        → (t == s.current_thread_id) ≡ false
        → get_interleaving_state t s ≡ ok u
        → Switch s u

  -- What it does: any step of the memory, or its next instruction.
  pub data Move (s : ProgramState S) : ProgramState S → Type 0 where
    memory :
        {u : ProgramState S} (states : List (ProgramState S))
        → has_eps_transitions m s ≡ true
        → get_eps_transition_states m s ≡ ok states
        → Memᴰ u states
        → Move s u
    instruction :
        {u : ProgramState S} → get_transition_state m i (visit_statement m i) s ≡ ok u → Move s u

  -- The runs of a program: while threads are active, one of them moves.
  pub data Execution (v : ProgramState S) : ProgramState S → Type 0 where
    stop : has_active_threads v ≡ false → Execution v v
    turn :
        {s t u : ProgramState S}
        → has_active_threads s ≡ true
        → Switch s t
        → Move t u
        → Execution v u
        → Execution v s

  pub switched : (d : Draw) (s t : ProgramState S) → interleave m i d s ≡ ok t → Switch s t
  unfolding interleave
  switched d s t h = elim (Bool-cases (is_interleaving_possible s)) [
    | inl possible ↦
        let (k, picks, h₁) =
          >>=-eq-ok (pick d.thread (get_active_threads_ids s)) _ (rw possible at h) in
        let there = Mem-pick d.thread (get_active_threads_ids s) k picks in
        elim (Bool-cases (k == s.current_thread_id)) [
          | inl e ↦ subst (Switch s) (cc (rw e at h₁)) (
              same possible (
                subst (λ j. Memᴰ j (get_active_threads_ids s))
                  ((nat_eq.test_iff k s.current_thread_id).0 e) there))
          | inr e ↦ other k possible there e (rw e at h₁)
        ]
    | inr apart ↦ subst (Switch s) (cc (rw apart at h)) (stay apart)
  ]

  pub moved : (d : Draw) (s u : ProgramState S) → proceed m i d s ≡ ok u → Move s u
  unfolding proceed
  moved d s u h = elim (Bool-cases (has_eps_transitions m s && d.kind % 2 == 0)) [
    | inl e ↦
        let (states, all, h₁) = >>=-eq-ok (get_eps_transition_states m s) _ (rw e at h) in
        memory states (ground arith) all (Mem-pick d.choice states u h₁)
    | inr e ↦ instruction (rw e at h)
  ]

  turned :
      (d : Draw) (s u : ProgramState S)
      → round m i d s ≡ ok u
      → (t : ProgramState S) × Switch s t × Move t u
  unfolding round
  turned d s u h =
      let (t, switches, moves) = >>=-eq-ok (interleave m i d s) _ h in
      (t, switched d s t switches, moved d t u moves)

  -- A result and the final state it is the flushed form of.
  pub record Outcome (s r : ProgramState S) : Type 0 where
    pub final : ProgramState S
    pub execution : Execution final s
    pub flushed : flush_state m i final ≡ ok r

  executed :
      (draws : List Draw) (s r : ProgramState S) → execute m i draws s ≡ some (ok r) → Outcome s r
  unfolding execute
  executed [] s r h = elim (Bool-cases (has_active_threads s)) [
    | inl active ↦ absurd (cc (rw active at h))
    | inr idle ↦ record { final = s; execution = stop idle; flushed = cc (rw idle at h) }
  ]
  executed (d ∷ ds) s r h = elim (Bool-cases (has_active_threads s)) [
    | inl active ↦ elim (Result-cases (round m i d s)) [
      | inl (u, e) ↦
          let (t, switch, move) = turned d s u e in
          let rest = executed ds u r (rw (active, e, execute) at h) in
          record {
            final = rest.final;
            execution = turn active switch move rest.execution;
            flushed = rest.flushed;
          }
      | inr (x, e) ↦ absurd (cc (rw (active, e, execute) at h))
    ]
    | inr idle ↦ record { final = s; execution = stop idle; flushed = cc (rw (idle, execute) at h) }
  ]

  thread_drawn :
      (s t : ProgramState S)
      → Switch s t
      → (thread : ℕ) × ((kind choice : ℕ)
          → interleave m i (record { thread = thread; kind = kind; choice = choice }) s ≡ ok t)
  unfolding interleave
  thread_drawn s _ (stay apart) = (0, λ kind choice. rw apart)
  thread_drawn s _ (same possible there) =
      let (n, picks) = pick_of (get_active_threads_ids s) s.current_thread_id there in
      (
        n,
        λ kind choice.
            rw (possible, picks, (nat_eq.test_iff s.current_thread_id s.current_thread_id).1 refl),
      )
  thread_drawn s t (other k possible there differs gets) =
      let (n, picks) = pick_of (get_active_threads_ids s) k there in
      (n, λ kind choice. rw (possible, picks, differs, gets))

  step_drawn :
      (s u : ProgramState S)
      → Move s u
      → (kind : ℕ) × (choice : ℕ) × ((thread : ℕ)
          → proceed m i (record { thread = thread; kind = kind; choice = choice }) s ≡ ok u)
  unfolding proceed
  step_drawn s u (memory states eps all there) =
      let (n, picks) = pick_of states u there in (0, n, λ thread. rw (eps, all, picks))
  step_drawn s u (instruction steps) = (
    1,
    0,
    λ thread. elim (Bool-cases (has_eps_transitions m s)) [
      | inl eps ↦ rw (eps, steps)
      | inr none_left ↦ rw (none_left, steps)
    ],
  )

  draws_of :
      (u s r : ProgramState S)
      → Execution u s
      → flush_state m i u ≡ ok r
      → (draws : List Draw) × (execute m i draws s ≡ some (ok r))
  unfolding execute round
  draws_of u _ r (stop idle) flushed = ([], rw (idle, flushed))
  draws_of u s r (turn active switch move execution) flushed =
      let (ds, executes) = draws_of u _ r execution flushed in
      let (thread, switches) = thread_drawn s _ switch in
      let (kind, choice, moves) = step_drawn _ _ move in
      (
        record { thread = thread; kind = kind; choice = choice } ∷ ds,
        rw (execute, active, round, switches kind choice, moves thread, executes),
      )

  -- The random execution returns a state, for some random numbers, exactly when the state is the
  -- flushed form of the final state of an execution: from the initial state, each turn lets any of
  -- the active threads run, where interleaving is possible, and takes any step of the memory or the
  -- thread's next instruction, until no thread is active.
  pub random_runs :
      (r : ProgramState S)
      → ((draws : List Draw) × (run m i draws ≡ some (ok r))) ↔ Outcome (initial_state m i) r
  unfolding run
  random_runs r = (
    λ (draws, returns). executed draws (initial_state m i) r returns,
    λ o. draws_of o.final (initial_state m i) r o.execution o.flushed,
  )
