-- ===== src/Storage/Access.antt =====
-- Sequences of calls of a memory model (storage-subsystem.h), by any threads in any order.
use weak_memory_models_simul.Prelude.{ℕ, String, List, [], ◌∷◌, true, ◌≡◌}
use weak_memory_models_simul.Prelude.Result.{ok, ◌>>=◌}
use weak_memory_models_simul.Prelude.Int.{ℤ}
use weak_memory_models_simul.Exceptions.{Checked}
use weak_memory_models_simul.Lang.{MemoryOrder, is_seq_cst}
use weak_memory_models_simul.Storage.Interface.{StorageSubsystem}

pub data Access : Type 0 where
  reads : ℕ → String → MemoryOrder → Access
  writes : ℕ → String → ℤ → MemoryOrder → Access
  fences : ℕ → MemoryOrder → Access

abbrev pub order_of : Access → MemoryOrder
order_of (reads t x o) = o
order_of (writes t x v o) = o
order_of (fences t o) = o

-- The values read, in order, and the last state.
unfoldable pub perform : {S : Type 0} → StorageSubsystem S → List Access → S → Checked (List ℤ × S)
perform m [] s = ok ([], s)
perform m (reads t x o ∷ accesses) s =
    let (v, s') = m.read t x o s in do (vs, z) ← perform m accesses s'; ok (v ∷ vs, z)
perform m (writes t x v o ∷ accesses) s = do s' ← m.write t x v o s; perform m accesses s'
perform m (fences t o ∷ accesses) s = do s' ← m.fence t o s; perform m accesses s'

-- every access is sequentially consistent
abbrev pub AllSeqCst : List Access → Type 0
AllSeqCst [] = Unit
AllSeqCst (a ∷ accesses) = (is_seq_cst (order_of a) ≡ true) × AllSeqCst accesses
