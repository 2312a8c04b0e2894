-- ===== src/Threads/Equality.antt =====
-- operator== of thread-subsystem.cpp decides whether two threads have the same registers.
use weak_memory_models_simul.Prelude.{
  ◌≤◌, String, true, [], ◌∷◌, some, string_eq, ◌≡◌, ◌↔◌, refl, sym, ◌∙◌, arith, eq_iff,
  Option-cases, inl, inr, count,
}
use weak_memory_models_simul.Prelude.Int.{ℤ, int_eq, int_beq_iff}
use weak_memory_models_simul.Prelude.Map.{lookup, keys, count-keys}
use weak_memory_models_simul.Threads.{ThreadSubsystem, cmp, equals}

-- Every register of the first has the same value in the second.
cmp-lookup :
    (from to : ThreadSubsystem) (r : String) (v : ℤ)
    → cmp from to ≡ true
    → lookup r from ≡ some v
    → lookup r to ≡ some v
unfolding cmp lookup
cmp-lookup [] to r v h e = cc
cmp-lookup ((q, w) ∷ from) to r v h e = elim (Option-cases (lookup q to)) [
  | inl z ↦ ground (arith, z)
  | inr (u, z) ↦ ground (arith, eq_iff q r, int_beq_iff u w, z, cmp-lookup from to r v)
]

-- Each register is listed once, as in every std::map.
pub record HasUniqueKeys (m : ThreadSubsystem) : Type 0 where
  pub once : (r : String) → count r (keys m) ≤ 1

HasUniqueKeys-tail :
    (r : String) (v : ℤ) (m : ThreadSubsystem) → HasUniqueKeys ((r, v) ∷ m) → HasUniqueKeys m
unfolding count
HasUniqueKeys-tail r v m h = record { once = λ q. ground (arith, h.once q) }

lookup-cmp :
    (from to : ThreadSubsystem)
    → HasUniqueKeys from
    → ((r : String) (v : ℤ) → lookup r from ≡ some v → lookup r to ≡ some v)
    → cmp from to ≡ true
unfolding cmp lookup count
lookup-cmp [] to unique h = refl
lookup-cmp ((q, w) ∷ from) to unique h =
    let first : lookup q to ≡ some w = h q w (ground (arith, eq_iff q q)) in
    let rest : cmp from to ≡ true = lookup-cmp from to (HasUniqueKeys-tail q w from unique) later in
    ground (arith, first, rest, int_beq_iff w w)
  where
    later : (r : String) (v : ℤ) → lookup r from ≡ some v → lookup r to ≡ some v
    later r v e = h r v (ground (arith, e, eq_iff q r, unique.once r, count-keys r v from e))

-- The comparison of two threads' registers answers true exactly when every register has the same
-- value, or none, in both.
pub equals_iff :
    (a b : ThreadSubsystem)
    → HasUniqueKeys a
    → HasUniqueKeys b
    → (equals a b ≡ true) ↔ ((r : String) → lookup r a ≡ lookup r b)
unfolding equals
equals_iff a b ua ub = (same, answers)
  where
    same : equals a b ≡ true → (r : String) → lookup r a ≡ lookup r b
    same h r =
        let there : cmp a b ≡ true = ground (arith, h) in
        let back : cmp b a ≡ true = ground (arith, h) in
        elim (Option-cases (lookup r a)) [
          | inr (v, e) ↦ e ∙ sym (cmp-lookup a b r v there e)
          | inl none_there ↦ elim (Option-cases (lookup r b)) [
            | inl e ↦ none_there ∙ sym e
            | inr (v, e) ↦ cmp-lookup b a r v back e ∙ sym e
          ]
        ]

    answers : ((r : String) → lookup r a ≡ lookup r b) → equals a b ≡ true
    answers h =
        let there : cmp a b ≡ true = lookup-cmp a b ua (λ r v e. sym (h r) ∙ e) in
        let back : cmp b a ≡ true = lookup-cmp b a ub (λ r v e. h r ∙ e) in
        ground (arith, there, back)
