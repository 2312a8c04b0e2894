-- ===== src/Lang.antt =====
-- src/lang/memory-order.h: the access modes.
use weak_memory_models_simul.Prelude.{Bool, true, false}

pub data MemoryOrder : Type 0 where
  sequentially_consistent release acquire release_acquire relaxed : MemoryOrder

-- memory_order == MemoryOrder::SEQUENTIALLY_CONSISTENT
abbrev pub is_seq_cst : MemoryOrder → Bool
is_seq_cst sequentially_consistent = true
is_seq_cst release = false
is_seq_cst acquire = false
is_seq_cst release_acquire = false
is_seq_cst relaxed = false

-- memory_order == ACQUIRE || memory_order == RELEASE_ACQUIRE
abbrev pub is_acquire : MemoryOrder → Bool
is_acquire sequentially_consistent = false
is_acquire release = false
is_acquire acquire = true
is_acquire release_acquire = true
is_acquire relaxed = false

-- memory_order == RELEASE || memory_order == RELEASE_ACQUIRE
abbrev pub is_release : MemoryOrder → Bool
is_release sequentially_consistent = false
is_release release = true
is_release acquire = false
is_release release_acquire = true
is_release relaxed = false
