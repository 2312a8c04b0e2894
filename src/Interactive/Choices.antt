-- ===== src/Interactive/Choices.antt =====
-- The answers of interactive-cli.cpp against the choices that the state offers.
use mathlib.Core.List.{Memᴰ}
use mathlib.Core.List.Memᴰ
use mathlib.Core.Path.{subst}
use weak_memory_models_simul.Prelude.{
  ℕ, String, Bool, true, List, [], ◌∷◌, some, ◌≡◌, ◌≢◌, refl, ap, arith, Bool-cases, Option-cases,
  inl, inr, ◌⊎◌, ◌==◌, nat_eq, string_eq, sym,
}
use weak_memory_models_simul.Prelude.Result.{ok, Result-cases, >>=-eq-ok}
use weak_memory_models_simul.Prelude.Int.{ℤ, pos, negsuc}
use weak_memory_models_simul.Prelude.Map.{nat_less, HashOrder}
use weak_memory_models_simul.Exceptions.{Checked}
use weak_memory_models_simul.Storage.Tso
use weak_memory_models_simul.Storage.Tso.{Tso, tso}
use weak_memory_models_simul.Storage.Sra
use weak_memory_models_simul.Storage.Sra.{Sra, sra}
use weak_memory_models_simul.Storage.Pso
use weak_memory_models_simul.Storage.Pso.{Pso, pso}
use weak_memory_models_simul.State.{
  ProgramState, has_eps_transitions, with_storages, get_eps_transition_states,
}
use weak_memory_models_simul.Utils.{trim}
use weak_memory_models_simul.Interactive.Answers.{
  Input, find_id, find_location, ask_thread, ask_location, get_new_propagation_state,
  get_new_increase_state,
}

pub tso_announced :
    (h : HashOrder ℕ) (s : ProgramState Tso)
    → has_eps_transitions (tso h) s ≡ true
    → get_eps_transition_states (tso h) s ≢ ok []
unfolding has_eps_transitions get_eps_transition_states with_storages Tso.get_eps_transitions
tso_announced h s eps all = elim (Result-cases (Tso.propagate s.current_thread_id s.storage)) [
  | inl (z, e) ↦ cc (rw (eps, e) at all)
  | inr (x, e) ↦ cc (rw (eps, e) at all)
]

find_id-Mem : (n : ℤ) (ids : List ℕ) (t : ℕ) → find_id n ids ≡ some t → Memᴰ t ids
unfolding find_id
find_id-Mem n [] t h = absurd (cc)
find_id-Mem (negsuc k) (u ∷ ids) t h = absurd (cc)
find_id-Mem (pos k) (u ∷ ids) t h = elim (Bool-cases (u == k)) [
  | inl e ↦ Memᴰ.head (cc (rw e at h))
  | inr e ↦ Memᴰ.tail (find_id-Mem (pos k) ids t (rw e at h))
]

find_location-Mem : (x : String) (xs : List String) → find_location x xs ≡ true → Memᴰ x xs
unfolding find_location
find_location-Mem x [] h = absurd (cc)
find_location-Mem x (y ∷ ys) h = elim (Bool-cases (y == x)) [
  | inl e ↦ Memᴰ.head (sym ((string_eq.test_iff y x).0 e))
  | inr e ↦ Memᴰ.tail (find_location-Mem x ys (rw e at h))
]

module _ (isspace : ℕ → Bool) where
  ask_thread-Mem :
      (stoi : String → Checked ℤ) (ids : List ℕ) (input rest : Input) (t : ℕ)
      → ask_thread isspace stoi ids input ≡ (t, rest)
      → Memᴰ t ids ⊎ ((t ≡ 0) × (rest ≡ []))
  unfolding ask_thread
  ask_thread-Mem stoi ids [] rest t h = inr (cc, cc)
  ask_thread-Mem stoi ids (line ∷ input) rest t h = elim (Result-cases (stoi (trim isspace line))) [
    | inl (n, e) ↦ elim (Option-cases (find_id n ids)) [
      | inl miss ↦ ask_thread-Mem stoi ids input rest t (rw (ask_thread, e, miss) at h)
      | inr (u, hit) ↦ inl (find_id-Mem n ids t (cc (hit, rw (ask_thread, e, hit) at h)))
    ]
    | inr (x, e) ↦ ask_thread-Mem stoi ids input rest t (rw (ask_thread, e) at h)
  ]

  ask_location-Mem :
      (left : String → String) (xs : List String) (chosen : String) (input rest : Input)
      (x : String)
      → ask_location isspace left xs chosen input ≡ (x, rest)
      → Memᴰ x xs ⊎ (rest ≡ [])
  unfolding ask_location
  ask_location-Mem left xs chosen [] rest x h = inr (cc)
  ask_location-Mem left xs chosen (line ∷ input) rest x h =
      elim (Bool-cases (find_location (trim isspace line) xs)) [
        | inl hit ↦ inl (
            subst (λ y. Memᴰ y xs) (cc (rw (ask_location, hit) at h))
              (find_location-Mem (trim isspace line) xs hit))
        | inr miss ↦
            ask_location-Mem left xs (trim isspace line) input rest x (rw (ask_location, miss) at h)
      ]

Mem-with_storages :
    {S : Type 0} (s : ProgramState S) (z : S) (zs : List S)
    → Memᴰ z zs
    → Memᴰ (record s { storage = z }) (with_storages s zs)
unfolding with_storages
Mem-with_storages s z [] there = absurd (Memᴰ.not-nil there)
Mem-with_storages s z (y ∷ ys) there = elim (Memᴰ.cases_cons there) [
  | inl same ↦ Memᴰ.head (ap (λ w. record s { storage = w }) same)
  | inr behind ↦ Memᴰ.tail (Mem-with_storages s z ys behind)
]

Mem-increase_each :
    (t : ℕ) (x : String) (xs : List String) (z : Sra)
    → Memᴰ x xs
    → Memᴰ (Sra.increase_location_local_timestamp t x z) (Sra.increase_each t xs z)
unfolding Sra.increase_each
Mem-increase_each t x [] z there = absurd (Memᴰ.not-nil there)
Mem-increase_each t x (y ∷ ys) z there = elim (Memᴰ.cases_cons there) [
  | inl same ↦ Memᴰ.head (ap (λ w. Sra.increase_location_local_timestamp t w z) same)
  | inr behind ↦ Memᴰ.tail (Mem-increase_each t x ys z behind)
]

Mem-propagate_each :
    (t : ℕ) (x : String) (xs : List String) (z w : Pso) (all : List Pso)
    → Memᴰ x xs
    → Pso.propagate_each t xs z ≡ ok all
    → Pso.propagate t x z ≡ ok w
    → Memᴰ w all
unfolding Pso.propagate_each
Mem-propagate_each t x [] z w all there h e = absurd (Memᴰ.not-nil there)
Mem-propagate_each t x (y ∷ ys) z w all there h e =
    let (v, first, h₁) = >>=-eq-ok (Pso.propagate t y z) _ h in
    let (vs, others, h₂) = >>=-eq-ok (Pso.propagate_each t ys z) _ h₁ in
    let known : v ∷ vs ≡ all = cc h₂ in
    elim (Memᴰ.cases_cons there) [
      | inl same ↦ subst (Memᴰ w) known (Memᴰ.head {x = v} {xs = vs} (cc (same, e, first)))
      | inr behind ↦
          subst (Memᴰ w) known (Memᴰ.tail (Mem-propagate_each t x ys z w vs behind others e))
    ]

-- A user who is asked for a location under strong release acquire, where eps-transitions are
-- announced, gets one of the eps-transition states, or the input has ended.
pub increase_chosen :
    (isspace : ℕ → Bool) (left : String → String) (s u : ProgramState Sra) (input rest : Input)
    → has_eps_transitions sra s ≡ true
    → get_new_increase_state isspace left s input ≡ ok (u, rest)
    → ((states : List (ProgramState Sra)) × (get_eps_transition_states sra s ≡ ok states)
        × Memᴰ u states)
      ⊎ (rest ≡ [])
unfolding get_new_increase_state get_eps_transition_states Sra.get_eps_transitions
    has_eps_transitions
increase_chosen isspace left s u input rest eps h =
    let t = s.current_thread_id in
    let (xs, listed, h₁) = >>=-eq-ok (Sra.get_increase_locations t s.storage) _ h in
    elim (ask_location-Mem isspace left xs "" input _ _ refl) [
      | inl there ↦ inl (
        with_storages s (Sra.increase_each t xs s.storage),
        ground (arith, eps, listed),
        subst (λ v. Memᴰ v (with_storages s (Sra.increase_each t xs s.storage))) (cc h₁)
            (Mem-with_storages s _ _ (Mem-increase_each t _ xs s.storage there)),
      )
      | inr ended ↦ inr (cc (h₁, ended))
    ]

-- A user who is asked for a location under partial store order, where eps-transitions are announced
-- and computed, gets one of the eps-transition states, or the input has ended.
pub propagation_chosen :
    (ids : HashOrder ℕ) (names : HashOrder String) (isspace : ℕ → Bool) (left : String → String)
    (s u : ProgramState Pso) (states : List (ProgramState Pso)) (input rest : Input)
    → has_eps_transitions (pso ids names) s ≡ true
    → get_eps_transition_states (pso ids names) s ≡ ok states
    → get_new_propagation_state isspace names left s input ≡ ok (u, rest)
    → Memᴰ u states ⊎ (rest ≡ [])
unfolding get_new_propagation_state get_eps_transition_states Pso.get_eps_transitions
    has_eps_transitions
propagation_chosen ids names isspace left s u states input rest eps all h =
    let t = s.current_thread_id in
    let xs = Pso.get_propagate_locations names t s.storage in
    let (zs, each, all₁) = >>=-eq-ok (Pso.propagate_each t xs s.storage) _ (rw eps at all) in
    let (z, moves, h₁) =
      >>=-eq-ok (Pso.propagate t (ask_location isspace left xs "" input).0 s.storage) _ h in
    elim (ask_location-Mem isspace left xs "" input _ _ refl) [
      | inl there ↦ inl (
          subst (λ v. Memᴰ v states) (cc h₁)
            (subst (Memᴰ (record s { storage = z })) (cc all₁) (
              Mem-with_storages s z zs
                (Mem-propagate_each t _ xs s.storage z zs there each moves))))
      | inr ended ↦ inr (cc (h₁, ended))
    ]
