-- ===== src/Storage/Tso/Reads.antt =====
-- What reads return after the operations of total store order (tso-storage-subsystem.cpp).
use weak_memory_models_simul.Prelude.{
  ℕ, String, false, if◌then◌else◌, ◌==◌, nat_eq, string_eq, ◌≡◌, ◌≢◌, refl, arith,
}
use weak_memory_models_simul.Prelude.Result.{ok}
use weak_memory_models_simul.Prelude.Int.{ℤ}
use weak_memory_models_simul.Prelude.Map.{nat_less, string_less}
use weak_memory_models_simul.Lang.{MemoryOrder, is_seq_cst}
use weak_memory_models_simul.Storage.Interface.{value_at}
use weak_memory_models_simul.Storage.Tso.{Tso, read, flush_buffer, push_back, write}
use weak_memory_models_simul.Storage.Tso.Views.{
  seen, buffers-flush_buffer, memory-flush_buffer, seen-push_back,
}

-- Store forwarding: a read returns what the memory would hold at the location if the thread's
-- buffer had been flushed, and does not change the state.
pub read_forwards :
    (t : ℕ) (x : String) (o : MemoryOrder) (s : Tso)
    → read t x o s ≡ (value_at x (flush_buffer t s).memory, s)
unfolding read
read_forwards t x o s = rw (memory-flush_buffer t s x) refl

pub seen-flush_buffer_self :
    (t : ℕ) (s : Tso) (x : String) → seen t (flush_buffer t s) x ≡ seen t s x
seen-flush_buffer_self t s x = ground (arith, buffers-flush_buffer t t s, memory-flush_buffer t s x)

-- A write is seen by its own thread at once, in every access mode, and leaves what that thread
-- reads at the other locations.
pub read-write_self :
    (t : ℕ) (x y : String) (v : ℤ) (o p : MemoryOrder) (s s' : Tso)
    → write t x v o s ≡ ok s'
    → (read t y p s').0 ≡ (if x == y then v else (read t y p s).0)
unfolding write read
read-write_self t x y v o p s s' h =
    ground (arith, seen-push_back t t x y v s, seen-flush_buffer_self t (push_back t x v s) y)

-- A write that is not sequentially consistent stays in the buffer: the memory is unchanged, and no
-- other thread reads anything new, at any location.
pub read-write_other :
    (t u : ℕ) (x y : String) (v : ℤ) (o p : MemoryOrder) (s s' : Tso)
    → is_seq_cst o ≡ false
    → t ≢ u
    → write t x v o s ≡ ok s'
    → (s'.memory ≡ s.memory) × ((read u y p s').0 ≡ (read u y p s).0)
unfolding write read push_back
read-write_other t u x y v o p s s' weak apart h = ground (arith, seen-push_back t u x y v s)
