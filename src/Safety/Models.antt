-- ===== src/Safety/Models.antt =====
-- The memory models as ones that keep their invariants (sc, tso, pso and sra-storage-subsystem.cpp).
use weak_memory_models_simul.Prelude.{
  ℕ, String, true, List, [], ◌∷◌, Option, none, some, ◌≡◌, ◌≢◌, refl, sym, ap, ◌∙◌, arith,
  string_eq, nat_eq, Bool-cases, Option-cases, inl, inr, All, count,
}
use weak_memory_models_simul.Prelude.Result.{ok}
use weak_memory_models_simul.Prelude.Int.{ℤ}
use weak_memory_models_simul.Prelude.Map.{
  keys, lookup, nat_less, string_less, HashOrder, count-keys,
}
use mathlib.Core.Path.{subst}
use weak_memory_models_simul.Storage.Sc.{sc}
use weak_memory_models_simul.Storage.Sc
use weak_memory_models_simul.Storage.Tso.{Tso, tso}
use weak_memory_models_simul.Storage.Tso
use weak_memory_models_simul.Storage.Tso.Buffers as Buffers
use weak_memory_models_simul.Storage.Pso.{Pso, pso}
use weak_memory_models_simul.Storage.Pso
use weak_memory_models_simul.Storage.Pso.Views as Views
use weak_memory_models_simul.Storage.Pso.Reads as Reads
use weak_memory_models_simul.Storage.Pso.Propagation as Propagation
use weak_memory_models_simul.Storage.Pso.Consistent as PsoConsistent
use weak_memory_models_simul.Storage.Sra.{Sra, sra}
use weak_memory_models_simul.Storage.Sra
use weak_memory_models_simul.Storage.Sra.Invariant as Invariant
use weak_memory_models_simul.Storage.Sra.Visibility as Visibility
use weak_memory_models_simul.Storage.Sra.Transitions as Transitions
use weak_memory_models_simul.Lang.{MemoryOrder, is_seq_cst}
use weak_memory_models_simul.Safety.Lawful.{Lawful}

pub sc-Lawful : Lawful sc (λ z. Unit)
unfolding Sc.write Sc.fence
sc-Lawful = record {
  created = tt;
  reads = λ t x o z v. tt;
  writes = λ t x v o z h. (_, refl, tt);
  fences = λ t o z h. inl (_, refl, tt);
  flushes_thread = λ t z h. (_, refl, tt);
  prepares = λ t z h. tt;
  steps = λ t z h eps. absurd (cc);
  flushes = λ z h. (z, refl);
}

-- A fence of total store order does at most a flush.
tso_fence-IsValid :
    (t : ℕ) (o : MemoryOrder) (z : Tso)
    → Buffers.IsValid z
    → (w : Tso) × (Tso.fence t o z ≡ ok w) × Buffers.IsValid w
unfolding Tso.fence
tso_fence-IsValid t o z h = elim (Bool-cases (is_seq_cst o)) [
  | inl strong ↦ (_, rw (Tso.fence, strong), Buffers.flush_buffer-IsValid t h)
  | inr weak ↦ (z, rw (Tso.fence, weak), h)
]

pub tso-Lawful : (ids : HashOrder ℕ) → Lawful (tso ids) Buffers.IsValid
unfolding Tso.read Tso.write Tso.flush Tso.get_eps_transitions Tso.has_eps_transitions
tso-Lawful ids = record {
  created = record { nonempty = λ t e. unfold lookup in cc (e) };
  reads = λ t x o z h. h;
  writes = λ t x v o z h. (_, refl, Buffers.write-IsValid t x v o z _ h refl);
  fences = λ t o z h. inl (tso_fence-IsValid t o z h);
  flushes_thread = λ t z h. (_, refl, Buffers.flush_buffer-IsValid t h);
  prepares = λ t z h. h;
  steps = λ t z h eps.
      let (w, moves, valid, _) = Buffers.propagate_oldest t z h in
      (w, [], rw (eps, moves), (valid, tt));
  flushes = λ z h. (_, refl);
}

-- In a valid state of partial store order no propagation fails, whatever the location.
propagate-IsValid :
    (t : ℕ) (x : String) (z : Pso)
    → Views.IsValid z
    → (w : Pso) × (Pso.propagate t x z ≡ ok w) × Views.IsValid w
unfolding Pso.propagate
propagate-IsValid t x z h = elim (Option-cases (lookup t z.store_buffers)) [
  | inl e ↦ (z, rw (Pso.propagate, e), h)
  | inr (b, e) ↦ buffered b e (lookup x b) refl
]
  where
    buffered :
        (b : Pso.Buffer)
        → lookup t z.store_buffers ≡ some b
        → (o : Option (List ℤ)) → lookup x b ≡ o
        → (w : Pso) × (Pso.propagate t x z ≡ ok w) × Views.IsValid w
    buffered b e none e' = (z, rw (Pso.propagate, e, e'), h)
    buffered b e (some []) e' = absurd ((h.queues t b e).values x e')
    buffered b e (some (v ∷ q)) e' =
        let (w, moves, p) =
          Propagation.propagate_location t x v q z h (rw (Propagation.queue, e, e')) in
        (w, moves, p.valid)

propagate_each-some :
    (t : ℕ) (xs : List String) (z : Pso)
    → Views.IsValid z
    → (ws : List Pso) × (Pso.propagate_each t xs z ≡ ok ws)
      × All Views.IsValid ws
      × (xs ≢ [] → ws ≢ [])
unfolding Pso.propagate_each
propagate_each-some t [] z h = ([], refl, tt, λ n e. n refl)
propagate_each-some t (x ∷ xs) z h =
    let (w, moves, valid) = propagate-IsValid t x z h in
    let (ws, others, rest, _) = propagate_each-some t xs z h in
    (w ∷ ws, rw (moves, others), (valid, rest), λ n e. cc)

order-ne-nil : (names : HashOrder String) (b : Pso.Buffer) → b ≢ [] → names.order (keys b) ≢ []
unfolding lookup count
order-ne-nil names [] some_left e = absurd (some_left refl)
order-ne-nil names ((x, q) ∷ b) some_left e =
    count-keys x q ((x, q) ∷ b) (rw ((string_eq.test_iff x x).1 refl))
      (sym (names.order_count x (keys ((x, q) ∷ b))) ∙ ap (count x) e)

some_of-ne-nil {ℓ} : {A : Type ℓ} (xs : List A) → xs ≢ [] → (y : A) × (ys : List A) × (xs ≡ y ∷ ys)
some_of-ne-nil [] n = absurd (n refl)
some_of-ne-nil (y ∷ ys) n = (y, ys, refl)

pso_steps :
    (names : HashOrder String) (t : ℕ) (z : Pso)
    → Views.IsValid z
    → Pso.has_eps_transitions t z ≡ true
    → (w : Pso) × (ws : List Pso) × (Pso.get_eps_transitions names t z ≡ ok (w ∷ ws))
      × All Views.IsValid (w ∷ ws)
unfolding Pso.has_eps_transitions Pso.get_eps_transitions Pso.get_propagate_locations
pso_steps names t z h eps = elim (Option-cases (lookup t z.store_buffers)) [
  | inl e ↦ absurd (cc (rw (Pso.has_eps_transitions, e) at eps))
  | inr (b, e) ↦
      let (ws, each, valid, nonempty) = propagate_each-some t (names.order (keys b)) z h in
      let (y, ys, listed) =
        some_of-ne-nil ws (nonempty (order-ne-nil names b (λ n. h.nonempty t (e ∙ ap some n)))) in
      (
        y,
        ys,
        rw (Pso.get_eps_transitions, Pso.has_eps_transitions, Pso.get_propagate_locations, e)
            (each ∙ ap ok listed),
        subst (All Views.IsValid) listed valid,
      )
]

pso_fence-IsValid :
    (names : HashOrder String) (t : ℕ) (o : MemoryOrder) (z : Pso)
    → Views.IsValid z
    → (w : Pso) × (Pso.fence names t o z ≡ ok w) × Views.IsValid w
unfolding Pso.fence
pso_fence-IsValid names t o z h = elim (Bool-cases (is_seq_cst o)) [
  | inl strong ↦ (
    _,
    rw (Pso.fence, strong) (Views.flush_buffer-eq-flushed names t z h),
    Views.flushed-IsValid names t h,
  )
  | inr weak ↦ (z, rw (Pso.fence, weak), h)
]

pub pso-Lawful :
    (ids : HashOrder ℕ) (names : HashOrder String) → Lawful (pso ids names) Views.IsValid
unfolding Pso.read
pso-Lawful ids names = record {
  created = record {
    nonempty = λ t e. unfold lookup in cc (e);
    queues = λ t b e. unfold lookup in absurd (cc (e));
  };
  reads = λ t x o z h. h;
  writes = λ t x v o z h.
      let (w, writes, valid, _) = Reads.write-IsValid names t x v o z h in (w, writes, valid);
  fences = λ t o z h. inl (pso_fence-IsValid names t o z h);
  flushes_thread = λ t z h. (z, refl, h);
  prepares = λ t z h. h;
  steps = λ t z h eps. pso_steps names t z h eps;
  flushes =
      λ z h. let (w, flushes, _, _, _) = PsoConsistent.flush_drains ids names z h in (w, flushes);
}

increase_each-IsValid :
    (t : ℕ) (xs : List String) (z : Sra)
    → Invariant.IsValid z
    → All Invariant.IsValid (Sra.increase_each t xs z)
unfolding Sra.increase_each
increase_each-IsValid t [] z h = tt
increase_each-IsValid t (x ∷ xs) z h =
    (Invariant.increase-IsValid t x z h, increase_each-IsValid t xs z h)

pub sra-Lawful : Lawful sra Invariant.IsValid
unfolding Sra.fence
sra-Lawful = record {
  created = record {
    stamped = tt;
    complete = λ x n positive le. unfold lookup in absurd (omega (arith, positive, le));
    reached = λ t. unfold lookup in tt;
  };
  reads = λ t x o z h. Invariant.read-IsValid t x o z h;
  writes = λ t x v o z h.
      let (w, writes, valid, _) = Visibility.write-IsValid_and_read t x x v o o z h in
      (w, writes, valid);
  fences = λ t o z h. inr refl;
  flushes_thread = λ t z h. (z, refl, h);
  prepares = λ t z h. Invariant.prepare_thread-IsValid t z h;
  steps = λ t z h eps.
      let (x, xs, _, gives) = Transitions.eps_transitions_exist t z eps in
      (
        Sra.increase_location_local_timestamp t x z,
        Sra.increase_each t xs z,
        gives,
        (Invariant.increase-IsValid t x z h, increase_each-IsValid t xs z h),
      );
  flushes = λ z h. (z, refl);
}

-- Each memory model has an invariant of its storage, which holds at the start and is kept by every
-- operation: none under sequential consistency, no empty queue under total and partial store order,
-- and the order of the time stamps under strong release acquire. Under it no operation fails, but
-- for a fence, which may say that fences are not supported, and a thread with announced
-- eps-transitions has one.
pub models-Lawful :
    (ids : HashOrder ℕ) (names : HashOrder String)
    → Lawful sc (λ z. Unit)
      × Lawful (tso ids) Buffers.IsValid
      × Lawful (pso ids names) Views.IsValid
      × Lawful sra Invariant.IsValid
models-Lawful ids names = (sc-Lawful, tso-Lawful ids, pso-Lawful ids names, sra-Lawful)
