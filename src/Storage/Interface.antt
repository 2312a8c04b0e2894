-- ===== src/Storage/Interface.antt =====
-- src/storage-subsystem/storage-subsystem.h: the class of the memory models. A method that changes
-- its object returns the new state; one that can throw, abort or be undefined returns a result.
use weak_memory_models_simul.Prelude.{ℕ, String, Bool, List, get_or_default}
use weak_memory_models_simul.Prelude.Int.{ℤ, pos}
use weak_memory_models_simul.Prelude.Map.{Map, lookup}
use weak_memory_models_simul.Prelude.{string_eq}
use weak_memory_models_simul.Exceptions.{Checked}
use weak_memory_models_simul.Lang.{MemoryOrder}

-- `flush` is the one without an argument, `flush_thread` the one of a thread.
pub record StorageSubsystem (S : Type 0) : Type 0 where
  pub create : S
  pub read : ℕ → String → MemoryOrder → S → ℤ × S
  pub write : ℕ → String → ℤ → MemoryOrder → S → Checked S
  pub fence : ℕ → MemoryOrder → S → Checked S
  pub flush : S → Checked S
  pub flush_thread : ℕ → S → Checked S
  pub get_eps_transitions : ℕ → S → Checked (List S)
  pub has_eps_transitions : ℕ → S → Bool
  pub prepare_thread : ℕ → S → S

-- The shared memory: a value for each location written to.
abbrev pub Memory : Type 0
Memory = Map String ℤ

-- what a read of the memory alone returns: 0 for a location never written to
abbrev pub value_at : String → Memory → ℤ
value_at x m = get_or_default (lookup x m) (pos 0)
