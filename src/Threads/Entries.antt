-- ===== src/Threads/Entries.antt =====
-- operator== of thread-subsystem.cpp by the entries of the maps.
use mathlib.Core.List.{Memᴰ}
use mathlib.Core.List.Memᴰ
use weak_memory_models_simul.Prelude.{
  String, true, ◌&&◌, [], ◌∷◌, some, string_eq, ◌≡◌, refl, arith, Option-cases, inl, inr, ◌==◌,
}
use weak_memory_models_simul.Prelude.Int.{ℤ, int_eq, int_beq_iff}
use weak_memory_models_simul.Prelude.Map.{lookup}
use weak_memory_models_simul.Threads.{ThreadSubsystem, cmp, equals}

-- Every register of the one has its value in the other.
abbrev IsIn : ThreadSubsystem → ThreadSubsystem → Type 0
IsIn a b = (r : String) (v : ℤ) → Memᴰ (r, v) a → lookup r b ≡ some v

-- The same registers, with the same values.
abbrev pub Agree : ThreadSubsystem → ThreadSubsystem → Type 0
Agree a b = IsIn a b × IsIn b a

cmp-IsIn : (from to : ThreadSubsystem) → cmp from to ≡ true → IsIn from to
unfolding cmp
cmp-IsIn [] to h r v there = absurd (Memᴰ.not-nil there)
cmp-IsIn ((q, w) ∷ from) to h r v there = elim (Option-cases (lookup q to)) [
  | inl e ↦ absurd (cc (rw (cmp, e) at h))
  | inr (u, e) ↦
      let both : ((u == w) && cmp from to) ≡ true = rw (cmp, e) at h in
      elim (Memᴰ.cases_cons there) [
        | inl same ↦
            let value : u ≡ w = (int_beq_iff u w).0 (ground (arith, both)) in cc (e, value, same)
        | inr behind ↦ cmp-IsIn from to (ground (arith, both)) r v behind
      ]
]

IsIn-cmp : (from to : ThreadSubsystem) → IsIn from to → cmp from to ≡ true
unfolding cmp
IsIn-cmp [] to h = refl
IsIn-cmp ((q, w) ∷ from) to h =
    let first : lookup q to ≡ some w = h q w (Memᴰ.head refl) in
    let rest : cmp from to ≡ true = IsIn-cmp from to (λ r v there. h r v (Memᴰ.tail there)) in
    ground (arith, first, rest, int_beq_iff w w)

pub equals-Agree : (a b : ThreadSubsystem) → equals a b ≡ true → Agree a b
unfolding equals
equals-Agree a b h = (cmp-IsIn a b (ground (arith, h)), cmp-IsIn b a (ground (arith, h)))

pub Agree-equals : (a b : ThreadSubsystem) → Agree a b → equals a b ≡ true
unfolding equals
Agree-equals a b (there, back) = ground (arith, IsIn-cmp a b there, IsIn-cmp b a back)
