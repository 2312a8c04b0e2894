-- ===== src/Storage/Tso/Consistent.antt =====
-- Flushes and sequential consistency under total store order (tso-storage-subsystem.cpp).
use weak_memory_models_simul.Prelude.{
  ℕ, String, false, List, [], ◌∷◌, ◌++◌, none, if◌then◌else◌, get_or_default, ◌==◌, nat_eq,
  string_eq, ◌≡◌, ◌≢◌, refl, sym, ◌∙◌, arith, Bool-cases, Option-cases, inl, inr,
}
use weak_memory_models_simul.Prelude.Result.{ok, err, ◌>>=◌}
use weak_memory_models_simul.Prelude.Int.{ℤ}
use weak_memory_models_simul.Prelude.Map.{
  keys, lookup, put, nat_less, string_less, lookup-put, HashOrder,
}
use weak_memory_models_simul.Exceptions.{Checked}
use weak_memory_models_simul.Lang.{MemoryOrder}
use weak_memory_models_simul.Storage.Interface.{value_at}
use weak_memory_models_simul.Storage.Tso.{
  Tso, read, flush_buffer, push_back, write, fence, flush_all, flush, has_eps_transitions,
}
use weak_memory_models_simul.Storage.Tso.Views.{
  buffers-flush_buffer, memory-flush_buffer, seen-push_back,
}
use weak_memory_models_simul.Prelude.{count}
use weak_memory_models_simul.Prelude.Map.{count-keys}
use weak_memory_models_simul.Storage.Access.{Access, reads, writes, fences, perform, AllSeqCst}
use weak_memory_models_simul.Storage.Sc
use weak_memory_models_simul.Storage.Sc.{Sc, sc}
use weak_memory_models_simul.Storage.Tso.{tso}

pub record IsDrained (s : Tso) : Type 0 where
  pub no_buffer : (t : ℕ) → lookup t s.store_buffers ≡ none

flush_all-none :
    (ts : List ℕ) (u : ℕ) (s : Tso)
    → lookup u s.store_buffers ≡ none
    → lookup u (flush_all ts s).store_buffers ≡ none
unfolding flush_all
flush_all-none [] u s h = h
flush_all-none (t ∷ ts) u s h =
    flush_all-none ts u (flush_buffer t s) (ground (arith, buffers-flush_buffer t u s))

flush_all-member :
    (ts : List ℕ) (u : ℕ) (s : Tso)
    → count u ts ≢ 0
    → lookup u (flush_all ts s).store_buffers ≡ none
unfolding flush_all count
flush_all-member [] u s h = absurd (h refl)
flush_all-member (t ∷ ts) u s h = elim (Bool-cases (t == u)) [
  | inl same ↦ flush_all-none ts u (flush_buffer t s) (ground (arith, buffers-flush_buffer t u s))
  | inr other ↦ flush_all-member ts u (flush_buffer t s) (ground arith)
]

-- The flush of the whole storage always succeeds and, in whatever order the hash table is iterated,
-- leaves no buffer: after it every thread reads the memory, and no thread has an eps-transition.
pub flush-IsDrained :
    (h : HashOrder ℕ) (s : Tso)
    → (s' : Tso) × (flush h s ≡ ok s')
      × IsDrained s'
      × ((t : ℕ) (x : String) (o : MemoryOrder) → (read t x o s').0 ≡ value_at x s'.memory)
      × ((t : ℕ) → has_eps_transitions t s' ≡ false)
unfolding flush read has_eps_transitions
flush-IsDrained h s = (
  flush_all (h.order (keys s.store_buffers)) s,
  refl,
  record { no_buffer = none_left },
  λ t x o. rw (none_left t),
  λ t. rw (none_left t),
)
  where
    none_left :
        (t : ℕ) → lookup t (flush_all (h.order (keys s.store_buffers)) s).store_buffers ≡ none
    none_left t = elim (Option-cases (lookup t s.store_buffers)) [
      | inl e ↦ flush_all-none (h.order (keys s.store_buffers)) t s e
      | inr (q, e) ↦
          flush_all-member (h.order (keys s.store_buffers)) t s (λ z.
            count-keys t q s.store_buffers e (sym (h.order_count t (keys s.store_buffers)) ∙ z))
    ]

-- No buffer, and the memory of the sequentially consistent machine.
pub record Simulates (s : Tso) (c : Sc) : Type 0 where
  pub drained : (t : ℕ) → lookup t s.store_buffers ≡ none
  pub memory : (x : String) → lookup x s.memory ≡ lookup x c.memory

write-Simulates :
    (t : ℕ) (x : String) (v : ℤ) (s : Tso) (c : Sc)
    → Simulates s c
    → Simulates (flush_buffer t (push_back t x v s)) (record { memory = put x v c.memory })
write-Simulates t x v s c h =
    let s' = push_back t x v s in
    record {
      drained = λ u. ground (arith, buffers-flush_buffer t u s', others u, h.drained u);
      memory = λ y. ground (
        arith,
        memory-flush_buffer t s' y,
        seen-push_back t t x y v s,
        h.drained t,
        h.memory y,
        lookup-put x y v c.memory,
      );
    }
  where
    others :
        (u : ℕ)
        → lookup u (push_back t x v s).store_buffers ≡ (
            if t == u then lookup t (push_back t x v s).store_buffers else lookup u s.store_buffers)
    others u =
        unfold push_back in
        ground (
          arith,
          lookup-put t u (get_or_default (lookup t s.store_buffers) [] ++ (x, v) ∷ [])
              s.store_buffers,
          lookup-put t t (get_or_default (lookup t s.store_buffers) [] ++ (x, v) ∷ [])
              s.store_buffers,
        )

fence-Simulates : (t : ℕ) (s : Tso) (c : Sc) → Simulates s c → Simulates (flush_buffer t s) c
fence-Simulates t s c h = record {
  drained = λ u. ground (arith, buffers-flush_buffer t u s, h.drained u);
  memory = λ y. ground (arith, memory-flush_buffer t s y, h.drained t, h.memory y);
}

read-Simulates :
    (t : ℕ) (x : String) (o : MemoryOrder) (s : Tso) (c : Sc)
    → Simulates s c
    → (read t x o s).0 ≡ (Sc.read t x o c).0
unfolding read Sc.read
read-Simulates t x o s c h = rw (h.drained t, h.memory x)

-- the results, and related states behind them
abbrev pub Agree : Checked (List ℤ × Tso) → Checked (List ℤ × Sc) → Type 0
Agree (ok (vs, s)) (ok (ws, c)) = (vs ≡ ws) × Simulates s c
Agree (ok p) (err e) = ⊥
Agree (err d) r = ⊥

Agree-cons :
    (v w : ℤ) (r : Checked (List ℤ × Tso)) (r' : Checked (List ℤ × Sc))
    → v ≡ w
    → Agree r r'
    → Agree (r >>= λ p. ok (v ∷ p.0, p.1)) (r' >>= λ p. ok (w ∷ p.0, p.1))
Agree-cons v w (ok (vs, s)) (ok (ws, c)) e a = (cc (a.0), a.1)
Agree-cons v w (ok p) (err d) e a = a
Agree-cons v w (err d) r' e a = absurd a

-- Sequentially consistent accesses, by any threads in any order, read under total store order what
-- they read under sequential consistency; no access fails, and every buffer is empty behind them.
pub perform-Simulates :
    (h : HashOrder ℕ) (accesses : List Access) (s : Tso) (c : Sc)
    → AllSeqCst accesses
    → Simulates s c
    → Agree (perform (tso h) accesses s) (perform sc accesses c)
unfolding perform read write fence Sc.read Sc.write Sc.fence
perform-Simulates h [] s c all sim = (refl, sim)
perform-Simulates h (reads t x o ∷ accesses) s c all sim =
    Agree-cons _ _ (perform (tso h) accesses s) (perform sc accesses c)
      (read-Simulates t x o s c sim) (perform-Simulates h accesses s c all.1 sim)
perform-Simulates h (writes t x v o ∷ accesses) s c all sim = rw (all.0) (
    perform-Simulates h accesses (flush_buffer t (push_back t x v s))
      (record { memory = put x v c.memory }) all.1 (write-Simulates t x v s c sim))
perform-Simulates h (fences t o ∷ accesses) s c all sim =
    rw (all.0) (perform-Simulates h accesses (flush_buffer t s) c all.1 (fence-Simulates t s c sim))
