-- ===== src/Storage/Pso/Consistent.antt =====
-- Flushes and sequential consistency under partial store order (pso-storage-subsystem.cpp).
use weak_memory_models_simul.Prelude.{
  ℕ, String, false, List, [], ◌∷◌, none, ◌==◌, nat_eq, string_eq, ◌≡◌, ◌≢◌, refl, sym, ◌∙◌, arith,
  Bool-cases, Option-cases, count, inl, inr,
}
use weak_memory_models_simul.Prelude.Result.{ok, err, ◌>>=◌}
use weak_memory_models_simul.Prelude.Int.{ℤ}
use weak_memory_models_simul.Prelude.Map.{
  keys, lookup, put, nat_less, string_less, lookup-put, HashOrder, count-keys,
}
use weak_memory_models_simul.Exceptions.{Checked}
use weak_memory_models_simul.Lang.{MemoryOrder}
use weak_memory_models_simul.Storage.Interface.{value_at}
use weak_memory_models_simul.Storage.Pso.{
  Pso, read, push_back, write, fence, flush_all, flush, has_eps_transitions, pso,
}
use weak_memory_models_simul.Storage.Pso.Views.{
  IsValid, flushed, flush_buffer-eq-flushed, buffers-flushed, memory-flushed, flushed-IsValid,
  buffers-push_back, seen-push_back,
}
use weak_memory_models_simul.Storage.Pso.Reads.{push_back-IsValid}
use weak_memory_models_simul.Storage.Access.{Access, reads, writes, fences, perform, AllSeqCst}
use weak_memory_models_simul.Storage.Sc
use weak_memory_models_simul.Storage.Sc.{Sc, sc}

flushed_all : HashOrder String → List ℕ → Pso → Pso
flushed_all names [] s = s
flushed_all names (t ∷ ts) s = flushed_all names ts (flushed names t s)

flush_all-eq-flushed_all :
    (names : HashOrder String) (ts : List ℕ) (s : Pso)
    → IsValid s
    → flush_all names ts s ≡ ok (flushed_all names ts s)
unfolding flush_all flushed_all
flush_all-eq-flushed_all names [] s h = refl
flush_all-eq-flushed_all names (t ∷ ts) s h =
    rw (flush_buffer-eq-flushed names t s h)
      (flush_all-eq-flushed_all names ts (flushed names t s) (flushed-IsValid names t h))

flushed_all-none :
    (names : HashOrder String) (ts : List ℕ) (u : ℕ) (s : Pso)
    → lookup u s.store_buffers ≡ none
    → lookup u (flushed_all names ts s).store_buffers ≡ none
unfolding flushed_all
flushed_all-none names [] u s h = h
flushed_all-none names (t ∷ ts) u s h =
    flushed_all-none names ts u (flushed names t s) (ground (arith, buffers-flushed names t u s))

flushed_all-member :
    (names : HashOrder String) (ts : List ℕ) (u : ℕ) (s : Pso)
    → count u ts ≢ 0
    → lookup u (flushed_all names ts s).store_buffers ≡ none
unfolding flushed_all count
flushed_all-member names [] u s h = absurd (h refl)
flushed_all-member names (t ∷ ts) u s h = elim (Bool-cases (t == u)) [
  | inl same ↦
      flushed_all-none names ts u (flushed names t s) (ground (arith, buffers-flushed names t u s))
  | inr other ↦ flushed_all-member names ts u (flushed names t s) (ground arith)
]

-- From a valid state the flush of the whole storage succeeds and, in whatever order the hash tables
-- are iterated, leaves no buffer: every thread then reads the memory, and none has an
-- eps-transition.
pub flush_drains :
    (ids : HashOrder ℕ) (names : HashOrder String) (s : Pso)
    → IsValid s
    → (s' : Pso) × (flush ids names s ≡ ok s')
      × ((t : ℕ) → lookup t s'.store_buffers ≡ none)
      × ((t : ℕ) (x : String) (o : MemoryOrder) → (read t x o s').0 ≡ value_at x s'.memory)
      × ((t : ℕ) → has_eps_transitions t s' ≡ false)
unfolding flush read has_eps_transitions
flush_drains ids names s h = (
  flushed_all names ts s,
  flush_all-eq-flushed_all names ts s h,
  none_left,
  λ t x o. rw (none_left t),
  λ t. rw (none_left t),
)
  where
    ts : List ℕ
    ts = ids.order (keys s.store_buffers)

    none_left : (t : ℕ) → lookup t (flushed_all names ts s).store_buffers ≡ none
    none_left t = elim (Option-cases (lookup t s.store_buffers)) [
      | inl e ↦ flushed_all-none names ts t s e
      | inr (b, e) ↦ flushed_all-member names ts t s (λ z.
          count-keys t b s.store_buffers e (sym (ids.order_count t (keys s.store_buffers)) ∙ z))
    ]

-- No buffer, and the memory of the sequentially consistent machine.
pub record Simulates (s : Pso) (c : Sc) : Type 0 where
  pub drained : (t : ℕ) → lookup t s.store_buffers ≡ none
  pub memory : (x : String) → lookup x s.memory ≡ lookup x c.memory

Simulates-IsValid : {s : Pso} {c : Sc} → Simulates s c → IsValid s
Simulates-IsValid {s} {c} h = record {
  nonempty = λ t e. cc (h.drained t);
  queues = λ t b e. absurd (cc (h.drained t));
}

write-Simulates :
    (names : HashOrder String) (t : ℕ) (x : String) (v : ℤ) (s : Pso) (c : Sc)
    → Simulates s c
    → Simulates (flushed names t (push_back t x v s)) (record { memory = put x v c.memory })
write-Simulates names t x v s c h =
    let s' = push_back t x v s in
    record {
      drained = λ u.
          ground (arith, buffers-flushed names t u s', buffers-push_back t u x v s, h.drained u);
      memory = λ y. ground (
        arith,
        memory-flushed names t s' y,
        seen-push_back t t x y v s,
        h.drained t,
        h.memory y,
        lookup-put x y v c.memory,
      );
    }

fence-Simulates :
    (names : HashOrder String) (t : ℕ) (s : Pso) (c : Sc)
    → Simulates s c
    → Simulates (flushed names t s) c
fence-Simulates names t s c h = record {
  drained = λ u. ground (arith, buffers-flushed names t u s, h.drained u);
  memory = λ y. ground (arith, memory-flushed names t s y, h.drained t, h.memory y);
}

read-Simulates :
    (t : ℕ) (x : String) (o : MemoryOrder) (s : Pso) (c : Sc)
    → Simulates s c
    → (read t x o s).0 ≡ (Sc.read t x o c).0
unfolding read Sc.read
read-Simulates t x o s c h = rw (h.drained t, h.memory x)

-- the same values read, and related states behind them; neither has failed
abbrev pub Agree : Checked (List ℤ × Pso) → Checked (List ℤ × Sc) → Type 0
Agree (ok (vs, s)) (ok (ws, c)) = (vs ≡ ws) × Simulates s c
Agree (ok p) (err e) = ⊥
Agree (err d) r = ⊥

Agree-cons :
    (v w : ℤ) (r : Checked (List ℤ × Pso)) (r' : Checked (List ℤ × Sc))
    → v ≡ w
    → Agree r r'
    → Agree (r >>= λ p. ok (v ∷ p.0, p.1)) (r' >>= λ p. ok (w ∷ p.0, p.1))
Agree-cons v w (ok (vs, s)) (ok (ws, c)) e a = (cc (a.0), a.1)
Agree-cons v w (ok p) (err d) e a = a
Agree-cons v w (err d) r' e a = absurd a

-- Sequentially consistent accesses, by any threads in any order, read under partial store order what
-- they read under sequential consistency; no access fails, and every buffer is empty behind them.
pub perform_consistent :
    (ids : HashOrder ℕ) (names : HashOrder String) (accesses : List Access) (s : Pso) (c : Sc)
    → AllSeqCst accesses
    → Simulates s c
    → Agree (perform (pso ids names) accesses s) (perform sc accesses c)
unfolding perform read write fence Sc.read Sc.write Sc.fence
perform_consistent ids names [] s c all sim = (refl, sim)
perform_consistent ids names (reads t x o ∷ accesses) s c all sim =
    Agree-cons _ _ (perform (pso ids names) accesses s) (perform sc accesses c)
      (read-Simulates t x o s c sim) (perform_consistent ids names accesses s c all.1 sim)
perform_consistent ids names (writes t x v o ∷ accesses) s c all sim =
    rw
      (
        all.0,
        flush_buffer-eq-flushed names t (push_back t x v s)
            (push_back-IsValid t x v (Simulates-IsValid sim)),
      )
      (perform_consistent ids names accesses (flushed names t (push_back t x v s))
        (record { memory = put x v c.memory }) all.1 (write-Simulates names t x v s c sim))
perform_consistent ids names (fences t o ∷ accesses) s c all sim =
    rw (all.0, flush_buffer-eq-flushed names t s (Simulates-IsValid sim))
      (perform_consistent ids names accesses (flushed names t s) c all.1
        (fence-Simulates names t s c sim))
