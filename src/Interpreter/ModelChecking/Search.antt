-- ===== src/Interpreter/ModelChecking/Search.antt =====
-- The search of model-checking.cpp: it ends where it is finite, and its results are those of the
-- transitions.
use mathlib.Core.List.{Memᴰ}
use mathlib.Core.List.Memᴰ
use mathlib.Core.Path.{subst}
use weak_memory_models_simul.Prelude.{
  ℕ, zero, suc, ◌+◌, ◌≤◌, true, false, List, [], ◌∷◌, ◌++◌, some, ◌≡◌, refl, arith, inl, inr, All,
  All-of_mem,
}
use weak_memory_models_simul.Prelude.Result.{ok}
use weak_memory_models_simul.Storage.Interface.{StorageSubsystem}
use weak_memory_models_simul.State.{ProgramState, has_active_threads}
use weak_memory_models_simul.Interpreter.{Interpreter}
use weak_memory_models_simul.Interpreter.ModelChecking.{
  expand, flush_state, explore, initial_state, run,
}
use weak_memory_models_simul.Interpreter.ModelChecking.Same.{Distinct, added}
use weak_memory_models_simul.Interpreter.ModelChecking.Reachable.{
  Reach, Represented, Origin, explored, explored-Distinct,
}

module _ {S : Type 0} (m : StorageSubsystem S) (i : Interpreter) where
  -- The size of a finite search: how many states it takes from the queue.
  mutual
    pub data Size : ProgramState S → ℕ → Type 0 where
      final :
          {s f : ProgramState S}
          → has_active_threads s ≡ false
          → flush_state m i s ≡ ok f
          → Size s 1
      round :
          {s : ProgramState S} {ts : List (ProgramState S)} {n : ℕ}
          → has_active_threads s ≡ true
          → expand m i s ≡ ok ts
          → Sizes ts n
          → Size s (suc n)

    pub data Sizes : List (ProgramState S) → ℕ → Type 0 where
      none_left : Sizes [] 0
      one_more :
          {s : ProgramState S} {ss : List (ProgramState S)} {n k l : ℕ}
          → Size s n
          → Sizes ss k
          → l ≡ n + k
          → Sizes (s ∷ ss) l

  Sizes-append :
      {xs ys : List (ProgramState S)} {n k : ℕ} → Sizes xs n → Sizes ys k → Sizes (xs ++ ys) (n + k)
  Sizes-append {k = k} none_left h = subst (Sizes _) (omega arith) h
  Sizes-append {k = k} (one_more {n = a} {k = b} p ps e) h =
      one_more p (Sizes-append ps h) (omega arith)

  explore_ends :
      (fuel : ℕ) (queue finals : List (ProgramState S)) (n : ℕ)
      → Sizes queue n
      → n ≤ fuel
      → (results : List (ProgramState S)) × (explore m i fuel queue finals ≡ some (ok results))
  unfolding explore
  explore_ends fuel [] finals n sizes le = (finals, refl)
  explore_ends zero (s ∷ states) finals n (one_more (final _ _) _ e) le = absurd (omega arith)
  explore_ends zero (s ∷ states) finals n (one_more (round _ _ _) _ e) le = absurd (omega arith)
  explore_ends (suc fuel) (s ∷ states) finals n (one_more {k = k} (final {f = f} idle e') ps e) le =
      let (results, ends) = explore_ends fuel states (added f finals) k ps (omega arith) in
      (results, rw (idle, e', explore) ends)
  explore_ends (suc fuel) (s ∷ states) finals n
        (one_more {k = k} (round {ts = ts} {n = c} active e' qs) ps e) le =
      let (results, ends) =
        explore_ends fuel (states ++ ts) finals (k + c) (Sizes-append ps qs) (omega arith) in
      (results, rw (active, e', explore) ends)

  -- A state without active threads that the transitions reach from the initial state.
  pub record FinalState : Type 0 where
    pub final : ProgramState S
    pub path : Reach m i (initial_state m i) final
    pub finished : has_active_threads final ≡ false

  -- If the search from the initial state is finite, of `n` states, the model checker returns within
  -- `n` rounds, without an exception. Each of its results is a final state that the transitions
  -- reach, with its storage flushed. For each final state that they reach, the results have that
  -- state, flushed, or one that covers it: every thread that has finished in the final state has
  -- finished there with the same registers and values, but that state may have further threads, so an
  -- outcome with fewer threads can be missing. No result is covered by one before it.
  pub run_correct :
      (fuel n : ℕ)
      → Size (initial_state m i) n
      → n ≤ fuel
      → (results : List (ProgramState S)) × (run m i fuel ≡ some (ok results))
        × All (λ f. Origin m i f (initial_state m i ∷ [])) results
        × ((u : FinalState) → Represented m i u.final results)
        × Distinct results
  unfolding run
  run_correct fuel n size le =
      let (results, ends) =
        explore_ends fuel (initial_state m i ∷ []) [] n (one_more size none_left (omega arith))
          le in
      let all = explored m i fuel (initial_state m i ∷ []) [] results ends in
      (
        results,
        ends,
        All-of_mem results (λ f there. elim (all.sound f there) [
          | inl old ↦ absurd (Memᴰ.not-nil old)
          | inr origin ↦ origin
        ]),
        λ u. all.covers (initial_state m i) u.final (Memᴰ.head refl) u.path u.finished,
        explored-Distinct m i fuel (initial_state m i ∷ []) [] results ends tt,
      )
