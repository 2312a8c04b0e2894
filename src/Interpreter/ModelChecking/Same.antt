-- ===== src/Interpreter/ModelChecking/Same.antt =====
-- The comparison of final states in model-checking.cpp, by the entries of their maps.
use mathlib.Core.List.{Memᴰ}
use mathlib.Core.List.Memᴰ
use mathlib.Core.Path.{subst}
use weak_memory_models_simul.Prelude.{
  ℕ, true, false, List, [], ◌∷◌, ◌++◌, some, ◌≡◌, refl, arith, Bool-cases, Option-cases, inl, inr,
  ◌&&◌, if◌then◌else◌, nat_eq, All,
}
use weak_memory_models_simul.Prelude.Map.{Map, lookup, nat_less}
use weak_memory_models_simul.Threads.{ThreadSubsystem, equals}
use weak_memory_models_simul.Threads.Entries.{Agree, equals-Agree, Agree-equals}
use weak_memory_models_simul.State.{ProgramState}
use weak_memory_models_simul.Interpreter.ModelChecking.{same_results, is_found}

-- Every thread of the one is in the other, with the same registers; that may have further threads.
abbrev IsWithin : Map ℕ ThreadSubsystem → Map ℕ ThreadSubsystem → Type 0
IsWithin state curr =
    (t : ℕ) (registers : ThreadSubsystem)
    → Memᴰ (t, registers) state
    → (others : ThreadSubsystem) × (lookup t curr ≡ some others) × Agree others registers

same_results-IsWithin :
    (state curr : Map ℕ ThreadSubsystem) → same_results state curr ≡ true → IsWithin state curr
unfolding same_results
same_results-IsWithin [] curr h t registers there = absurd (Memᴰ.not-nil there)
same_results-IsWithin ((k, first) ∷ state) curr h t registers there =
    elim (Option-cases (lookup k curr)) [
      | inl e ↦ absurd (cc (rw (same_results, e) at h))
      | inr (others, e) ↦
          let both : (equals others first && same_results state curr) ≡ true =
            rw (same_results, e) at h in
          elim (Memᴰ.cases_cons there) [
            | inl same ↦ (
              others,
              cc (e, same),
              subst (Agree others) (cc same) (equals-Agree others first (ground (arith, both))),
            )
            | inr behind ↦
                same_results-IsWithin state curr (ground (arith, both)) t registers behind
          ]
    ]

IsWithin-same_results :
    (state curr : Map ℕ ThreadSubsystem) → IsWithin state curr → same_results state curr ≡ true
unfolding same_results
IsWithin-same_results [] curr h = refl
IsWithin-same_results ((t, registers) ∷ state) curr h =
    let (others, found, agree) = h t registers (Memᴰ.head refl) in
    let first : equals others registers ≡ true = Agree-equals others registers agree in
    let rest : same_results state curr ≡ true =
      IsWithin-same_results state curr (λ u rs there. h u rs (Memᴰ.tail there)) in
    ground (arith, found, first, rest)

module _ {S : Type 0} where
  -- Every thread that has finished in the one has finished in the other, with the same registers.
  pub record Covers (v u : ProgramState S) : Type 0 where
    pub within : IsWithin u.finished_thread_states v.finished_thread_states

  -- No state is covered by one before it.
  abbrev pub Distinct : List (ProgramState S) → Type 0
  Distinct [] = Unit
  Distinct (f ∷ fs) = All (λ g. ¬ Covers f g) fs × Distinct fs

  pub found-Covers :
      (f : ProgramState S) (fs : List (ProgramState S))
      → is_found f fs ≡ true
      → (g : ProgramState S) × Memᴰ g fs × Covers g f
  unfolding is_found
  found-Covers f [] h = absurd (cc)
  found-Covers f (g ∷ fs) h =
      elim (Bool-cases (same_results f.finished_thread_states g.finished_thread_states)) [
        | inl same ↦ (g, Memᴰ.head refl, record { within = same_results-IsWithin _ _ same })
        | inr other ↦
            let (k, there, covers) = found-Covers f fs (rw other at h) in
            (k, Memᴰ.tail there, covers)
      ]

  -- the results behind a final state
  abbrev pub added : ProgramState S → List (ProgramState S) → List (ProgramState S)
  added f finals = if is_found f finals then finals else finals ++ f ∷ []

  appended-Distinct :
      (f : ProgramState S) (fs : List (ProgramState S))
      → is_found f fs ≡ false
      → Distinct fs
      → Distinct (fs ++ f ∷ [])
  unfolding is_found
  appended-Distinct f [] h distinct = (tt, tt)
  appended-Distinct f (g ∷ fs) h distinct =
      elim (Bool-cases (same_results f.finished_thread_states g.finished_thread_states)) [
        | inl same ↦ absurd (cc (rw same at h))
        | inr other ↦ (
          all_apart fs distinct.0 (λ covers. cc (other, IsWithin-same_results _ _ covers.within)),
          appended-Distinct f fs (rw other at h) distinct.1,
        )
      ]
    where
      all_apart :
          (gs : List (ProgramState S))
          → All (λ k. ¬ Covers g k) gs
          → ¬ Covers g f
          → All (λ k. ¬ Covers g k) (gs ++ f ∷ [])
      all_apart [] all apart = (apart, tt)
      all_apart (k ∷ gs) all apart = (all.0, all_apart gs all.1 apart)

  pub added-Distinct :
      (f : ProgramState S) (finals : List (ProgramState S))
      → Distinct finals
      → Distinct (added f finals)
  added-Distinct f finals distinct = elim (Bool-cases (is_found f finals)) [
    | inl found ↦ rw found distinct
    | inr absent ↦ rw absent (appended-Distinct f finals absent distinct)
  ]
