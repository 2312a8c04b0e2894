-- ===== src/Storage/Pso/Propagation.antt =====
-- The propagation of one buffered write under partial store order (pso-storage-subsystem.cpp).
use weak_memory_models_simul.Prelude.{
  ℕ, String, Bool, true, false, List, [], ◌∷◌, Option, none, some, if◌then◌else◌, or_else, ◌==◌,
  nat_eq, string_eq, ◌≡◌, ◌≢◌, refl, arith, eq_iff, Bool-cases, get_last?, inl, inr,
}
use weak_memory_models_simul.Prelude.Result.{ok}
use weak_memory_models_simul.Prelude.Int.{ℤ}
use weak_memory_models_simul.Prelude.Map.{
  Map, lookup, put, nat_less, string_less, lookup-put, lookup-erase,
}
use weak_memory_models_simul.Storage.Pso.{Pso, Buffer, buffered, propagate, pop_front, set_buffer}
use weak_memory_models_simul.Storage.Pso.Views.{seen, get_last?-some, IsValid}

-- the queue of thread `t` at location `x`
abbrev pub queue : ℕ → String → Pso → Option (List ℤ)
queue t x s = elim (lookup t s.store_buffers) [ none ↦ none | some b ↦ lookup x b ]

abbrev pub entry : List ℤ → Option (List ℤ)
entry [] = none
entry (w ∷ q) = some (w ∷ q)

lookup-pop_front :
    (x y : String) (q : List ℤ) (b : Buffer)
    → lookup y (pop_front x q b) ≡ (if x == y then entry q else lookup y b)
unfolding pop_front
lookup-pop_front x y [] b = lookup-erase x y b
lookup-pop_front x y (w ∷ q) b = lookup-put x y (w ∷ q) b

abbrev entry_buffer : Buffer → Option Buffer
entry_buffer [] = none
entry_buffer (e ∷ b) = some (e ∷ b)

lookup-set_buffer :
    (t u : ℕ) (b : Buffer) (m : Map ℕ Buffer)
    → lookup u (set_buffer t b m) ≡ (if t == u then entry_buffer b else lookup u m)
unfolding set_buffer
lookup-set_buffer t u [] m = lookup-erase t u m
lookup-set_buffer t u (e ∷ b) m = lookup-put t u (e ∷ b) m

lookup-entry_buffer :
    (y : String) (b : Buffer)
    → (elim (entry_buffer b) as (λ _. Option (List ℤ)) [ none ↦ none | some c ↦ lookup y c ])
      ≡ lookup y b
lookup-entry_buffer y [] = unfold lookup in refl
lookup-entry_buffer y (e ∷ b) = refl

abbrev last : Option (List ℤ) → Option ℤ
last none = none
last (some q) = get_last? q

buffered-queue :
    (t : ℕ) (y : String) (s : Pso) → buffered (lookup t s.store_buffers) y ≡ last (queue t y s)
buffered-queue t y s = go (lookup t s.store_buffers)
  where
    inner :
        (o : Option (List ℤ))
        → (elim o as (λ _. Option ℤ) [ none ↦ none | some q ↦ get_last? q ]) ≡ last o
    inner none = refl
    inner (some q) = refl

    go :
        (o : Option Buffer)
        → buffered o y
          ≡ last (elim o as (λ _. Option (List ℤ)) [ none ↦ none | some b ↦ lookup y b ])
    go none = refl
    go (some b) = inner (lookup y b)

-- the view behind a propagation, where `c` tells whether the location is the one that moved
view_kept :
    (c : Bool) (o : Option (List ℤ)) (m : Option ℤ) (v : ℤ) (q : List ℤ)
    → (c ≡ true → o ≡ some (v ∷ q))
    → or_else (last (if c then entry q else o)) (if c then some v else m) ≡ or_else (last o) m
view_kept false o m v q h = refl
view_kept true o m v [] h = rw (h refl)
view_kept true o m v (w ∷ q) h = let (z, e) = get_last?-some (w ∷ q) (λ e. cc) in rw (h refl, e)

-- What one propagation of the value `v`, with `q` behind it, makes of `s`.
pub record Propagated (t : ℕ) (x : String) (v : ℤ) (q : List ℤ) (s s' : Pso) : Type 0 where
  pub memory : s'.memory ≡ put x v s.memory
  pub own : (y : String) → queue t y s' ≡ (if x == y then entry q else queue t y s)
  pub others : (u : ℕ) → t ≢ u → lookup u s'.store_buffers ≡ lookup u s.store_buffers
  pub same_view : (y : String) → seen t s' y ≡ seen t s y
  pub valid : IsValid s'

-- From a valid state, the propagation of a location that the thread has buffered succeeds. It moves
-- the oldest value of that queue to the memory, keeps the thread's other queues, the other threads'
-- buffers and every view of that thread, and leaves a valid state. So the writes of one thread to
-- different locations can reach the memory in any order, and those to one location only in turn.
pub propagate_location :
    (t : ℕ) (x : String) (v : ℤ) (q : List ℤ) (s : Pso)
    → IsValid s
    → queue t x s ≡ some (v ∷ q)
    → (s' : Pso) × (propagate t x s ≡ ok s') × Propagated t x v q s s'
unfolding propagate
propagate_location t x v q s h e = go (lookup t s.store_buffers) refl
  where
    next : Buffer → Pso
    next b = record {
      memory = put x v s.memory;
      store_buffers = set_buffer t (pop_front x q b) s.store_buffers;
    }

    entry-ne-nil : (q : List ℤ) → entry q ≢ some []
    entry-ne-nil [] z = cc
    entry-ne-nil (w ∷ q) z = cc

    entry_buffer-ne-nil : (b : Buffer) → entry_buffer b ≢ some []
    entry_buffer-ne-nil [] z = cc
    entry_buffer-ne-nil (w ∷ b) z = cc

    entry_buffer-eq : (b c : Buffer) → entry_buffer b ≡ some c → b ≡ c
    entry_buffer-eq [] c z = cc
    entry_buffer-eq (w ∷ b) c z = cc

    own_queue :
        (b : Buffer) (y : String)
        → lookup t s.store_buffers ≡ some b
        → queue t y (next b) ≡ (if x == y then entry q else lookup y b)
    own_queue b y eb = ground (
      arith,
      lookup-set_buffer t t (pop_front x q b) s.store_buffers,
      lookup-entry_buffer y (pop_front x q b),
      lookup-pop_front x y q b,
    )

    view :
        (b : Buffer) (y : String)
        → lookup t s.store_buffers ≡ some b
        → lookup x b ≡ some (v ∷ q)
        → seen t (next b) y ≡ seen t s y
    view b y eb eq =
        rw
          (
            buffered-queue t y (next b),
            buffered-queue t y s,
            own_queue b y eb,
            lookup-put x y v s.memory,
            eb,
            queue,
          )
          (view_kept (x == y) (lookup y b) (lookup y s.memory) v q
            (λ same. ground (arith, eq_iff x y, eq)))

    still_valid : (b : Buffer) → lookup t s.store_buffers ≡ some b → IsValid (next b)
    still_valid b eb = record {
      nonempty = λ u z. ground (
        arith,
        h.nonempty u,
        lookup-set_buffer t u (pop_front x q b) s.store_buffers,
        entry_buffer-ne-nil (pop_front x q b),
      );
      queues = λ u c z. elim (Bool-cases (t == u)) [
        | inl same ↦ record {
          values = λ y w. ground (
            arith,
            lookup-set_buffer t u (pop_front x q b) s.store_buffers,
            z,
            same,
            entry_buffer-eq (pop_front x q b) c,
            lookup-pop_front x y q b,
            entry-ne-nil q,
            (h.queues t b eb).values y,
            w,
          );
        }
        | inr other ↦
            h.queues u c
              (ground (arith, lookup-set_buffer t u (pop_front x q b) s.store_buffers, z, other))
      ];
    }

    go :
        (o : Option Buffer)
        → lookup t s.store_buffers ≡ o
        → (s' : Pso) × (propagate t x s ≡ ok s') × Propagated t x v q s s'
    go none eb = cc (rw (eb, queue) at e)
    go (some b) eb =
        let eq : lookup x b ≡ some (v ∷ q) = rw (eb, queue) at e in
        (
          next b,
          rw (eb, eq, propagate),
          record {
            memory = refl;
            own = λ y. ground (arith, own_queue b y eb, eb);
            others =
                λ u apart. ground (arith, lookup-set_buffer t u (pop_front x q b) s.store_buffers);
            same_view = λ y. view b y eb eq;
            valid = still_valid b eb;
          },
        )
