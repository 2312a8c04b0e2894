-- ===== src/Storage/Pso/Reads.antt =====
-- What reads return after the operations of partial store order (pso-storage-subsystem.cpp).
use weak_memory_models_simul.Prelude.{
  ℕ, String, false, List, [], ◌∷◌, ◌++◌, Option, none, some, if◌then◌else◌, get_or_default, ◌==◌,
  nat_eq, string_eq, ◌≡◌, ◌≢◌, refl, arith, Bool-cases, inl, inr,
}
use weak_memory_models_simul.Prelude.Result.{ok}
use weak_memory_models_simul.Prelude.Int.{ℤ}
use weak_memory_models_simul.Prelude.Map.{lookup, nat_less, string_less, HashOrder}
use weak_memory_models_simul.Lang.{MemoryOrder, is_seq_cst}
use weak_memory_models_simul.Storage.Interface.{value_at}
use weak_memory_models_simul.Storage.Pso.{Pso, Buffer, read, flush_buffer, push_back, write}
use weak_memory_models_simul.Prelude.Map.{put-ne-nil}
use weak_memory_models_simul.Storage.Pso.Views.{
  seen, IsValid, flushed, flush_buffer-eq-flushed, buffers-flushed, memory-flushed, flushed-IsValid,
  buffers-push_back, lookup-pushed, seen-push_back,
}

-- Store forwarding: in a valid state the flush of the thread's buffer succeeds, and a read returns
-- what the memory holds at the location after it; the read itself changes nothing.
pub read_forwards_queues :
    (names : HashOrder String) (t : ℕ) (x : String) (o : MemoryOrder) (s : Pso)
    → IsValid s
    → (s' : Pso) × (flush_buffer names t s ≡ ok s') × (read t x o s ≡ (value_at x s'.memory, s))
unfolding read
read_forwards_queues names t x o s h =
    (flushed names t s, flush_buffer-eq-flushed names t s h, rw (memory-flushed names t s x) refl)

pub push_back-IsValid :
    (t : ℕ) (x : String) (v : ℤ) {s : Pso} → IsValid s → IsValid (push_back t x v s)
push_back-IsValid t x v {s} h = record {
  nonempty = λ u e.
      ground (arith, h.nonempty u, buffers-push_back t u x v s, put-ne-nil x (q ++ v ∷ []) b);
  queues = λ u c e. elim (Bool-cases (t == u)) [
    | inl same ↦ record {
      values = λ y z. ground (
        arith,
        lookup-pushed t x y v s,
        append-ne-nil q,
        inner y,
        buffers-push_back t u x v s,
        e,
        same,
      );
    }
    | inr other ↦ h.queues u c (ground (arith, buffers-push_back t u x v s))
  ];
}
  where
    b : Buffer
    b = get_or_default (lookup t s.store_buffers) []

    q : List ℤ
    q = get_or_default (lookup x b) []

    append-ne-nil : (q : List ℤ) → some (q ++ v ∷ []) ≢ some []
    append-ne-nil [] e = cc
    append-ne-nil (w ∷ q) e = cc

    inner : (y : String) → lookup y b ≢ some []
    inner y = go (lookup t s.store_buffers) refl
      where
        go :
            (o : Option Buffer)
            → lookup t s.store_buffers ≡ o
            → lookup y (get_or_default o []) ≢ some []
        go none e z = unfold lookup in cc
        go (some c) e z = (h.queues t c e).values y z

-- In a valid state a write succeeds in every access mode and leaves a valid state.
pub write-IsValid :
    (names : HashOrder String) (t : ℕ) (x : String) (v : ℤ) (o : MemoryOrder) (s : Pso)
    → IsValid s
    → (s' : Pso) × (write names t x v o s ≡ ok s')
      × IsValid s'
      × (s' ≡ (if is_seq_cst o then flushed names t (push_back t x v s) else push_back t x v s))
unfolding write
write-IsValid names t x v o s h =
    let p = push_back-IsValid t x v h in
    elim (Bool-cases (is_seq_cst o)) [
      | inl strong ↦ (
        flushed names t (push_back t x v s),
        rw strong (flush_buffer-eq-flushed names t (push_back t x v s) p),
        flushed-IsValid names t p,
        rw strong,
      )
      | inr weak ↦ (push_back t x v s, rw weak, p, rw weak)
    ]

pub seen-flushed_self :
    (names : HashOrder String) (t : ℕ) (s : Pso) (x : String)
    → seen t (flushed names t s) x ≡ seen t s x
seen-flushed_self names t s x =
    ground (arith, buffers-flushed names t t s, memory-flushed names t s x)

-- In a valid state a write succeeds, and its own thread then reads the value at the location and
-- at the other locations what it read before, in every access mode.
pub read-write_own :
    (names : HashOrder String) (t : ℕ) (x y : String) (v : ℤ) (o p : MemoryOrder) (s : Pso)
    → IsValid s
    → (s' : Pso) × (write names t x v o s ≡ ok s')
      × ((read t y p s').0 ≡ (if x == y then v else (read t y p s).0))
unfolding read
read-write_own names t x y v o p s h =
    let (s', runs, _, e) = write-IsValid names t x v o s h in
    (
      s',
      runs,
      ground (arith, seen-push_back t t x y v s, seen-flushed_self names t (push_back t x v s) y),
    )

-- A write that is not sequentially consistent stays in the thread's queues: it succeeds, the memory
-- is unchanged, and no other thread reads anything new, at any location.
pub read-write_elsewhere :
    (names : HashOrder String) (t u : ℕ) (x y : String) (v : ℤ) (o p : MemoryOrder) (s : Pso)
    → is_seq_cst o ≡ false
    → t ≢ u
    → (s' : Pso) × (write names t x v o s ≡ ok s')
      × (s'.memory ≡ s.memory)
      × ((read u y p s').0 ≡ (read u y p s).0)
unfolding write read
read-write_elsewhere names t u x y v o p s weak apart = (
  push_back t x v s,
  rw weak,
  unfold push_back in refl,
  ground (arith, seen-push_back t u x y v s),
)
