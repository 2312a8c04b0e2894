-- ===== src/Storage/Sc.antt =====
-- src/storage-subsystem/sc: sequential consistency, one memory that all threads see.
use weak_memory_models_simul.Prelude.{ℕ, String, false, []}
use weak_memory_models_simul.Prelude.{string_eq}
use weak_memory_models_simul.Prelude.Result.{ok}
use weak_memory_models_simul.Prelude.Int.{ℤ}
use weak_memory_models_simul.Prelude.Map.{put, string_less}
use weak_memory_models_simul.Exceptions.{Checked}
use weak_memory_models_simul.Lang.{MemoryOrder}
use weak_memory_models_simul.Storage.Interface.{StorageSubsystem, Memory, value_at}

pub record Sc : Type 0 where
  pub memory : Memory

unfoldable pub read : ℕ → String → MemoryOrder → Sc → ℤ × Sc
read t x o s = (value_at x s.memory, s)

unfoldable pub write : ℕ → String → ℤ → MemoryOrder → Sc → Checked Sc
write t x v o s = ok (record { memory = put x v s.memory })

unfoldable pub fence : ℕ → MemoryOrder → Sc → Checked Sc
fence t o s = ok s

-- The other methods are those of the base class: they change nothing.
abbrev pub sc : StorageSubsystem Sc
sc = record {
  create = record { memory = [] };
  read = read;
  write = write;
  fence = fence;
  flush = λ s. ok s;
  flush_thread = λ t s. ok s;
  get_eps_transitions = λ t s. ok [];
  has_eps_transitions = λ t s. false;
  prepare_thread = λ t s. s;
}
