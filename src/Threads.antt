-- ===== src/Threads.antt =====
-- src/thread-subsystem: the registers of a thread.
pub mod Equality
pub mod Entries
use weak_memory_models_simul.Prelude.{
  String, Bool, true, false, ◌&&◌, [], ◌∷◌, none, some, ◌==◌, string_eq,
}
use weak_memory_models_simul.Prelude.Result.{ok, err}
use weak_memory_models_simul.Prelude.Int.{ℤ, int_eq}
use weak_memory_models_simul.Prelude.Map.{Map, lookup, put, string_less}
use weak_memory_models_simul.Exceptions.{Checked, out_of_range}

abbrev pub ThreadSubsystem : Type 0
ThreadSubsystem = Map String ℤ

unfoldable pub set : String → ℤ → ThreadSubsystem → ThreadSubsystem
set r v m = put r v m

-- `at` throws for a register never set
unfoldable pub get : String → ThreadSubsystem → Checked ℤ
get r m = elim (lookup r m) [ none ↦ err out_of_range | some v ↦ ok v ]

-- the λ `cmp` of operator==, whose loop ends at the first register that differs
unfoldable pub cmp : ThreadSubsystem → ThreadSubsystem → Bool
cmp [] to = true
cmp ((r, v) ∷ from) to =
    let rest = cmp from to in elim (lookup r to) [ none ↦ false | some w ↦ (w == v) && rest ]

unfoldable pub equals : ThreadSubsystem → ThreadSubsystem → Bool
unfolding cmp
equals t₁ t₂ = cmp t₁ t₂ && cmp t₂ t₁
