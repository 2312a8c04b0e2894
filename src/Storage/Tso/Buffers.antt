-- ===== src/Storage/Tso/Buffers.antt =====
-- The store buffers of total store order (tso-storage-subsystem.cpp): no empty queue is kept, the
-- propagation of one write, and the flush of all buffers.
use weak_memory_models_simul.Prelude.{
  ℕ, String, List, [], ◌∷◌, ◌++◌, Option, none, some, get_or_default, ◌==◌, nat_eq, string_eq, ◌≡◌,
  ◌≢◌, refl, arith, Bool-cases, inl, inr, ◌⊎◌,
}
use weak_memory_models_simul.Prelude.Result.{ok}
use weak_memory_models_simul.Prelude.Int.{ℤ}
use weak_memory_models_simul.Prelude.Map.{
  lookup, put, erase, nat_less, string_less, lookup-put, lookup-erase,
}
use weak_memory_models_simul.Lang.{MemoryOrder, is_seq_cst}
use weak_memory_models_simul.Storage.Tso.{
  Tso, Buffer, newest, flush_buffer, push_back, write, propagate,
}
use weak_memory_models_simul.Storage.Tso.Views.{seen, newest-cons, buffers-flush_buffer}

-- No thread has an empty queue: a thread with nothing buffered has no entry.
pub record IsValid (s : Tso) : Type 0 where
  pub nonempty : (t : ℕ) → lookup t s.store_buffers ≢ some []

append-ne-nil {ℓ} : {A : Type ℓ} (q : List A) (a : A) → some (q ++ a ∷ []) ≢ some []
append-ne-nil [] a h = cc
append-ne-nil (x ∷ q) a h = cc

push_back-IsValid : (t : ℕ) (x : String) (v : ℤ) {s : Tso} → IsValid s → IsValid (push_back t x v s)
unfolding push_back
push_back-IsValid t x v {s} h = record {
  nonempty = λ u e.
      let q = get_or_default (lookup t s.store_buffers) [] in
      ground (
        arith,
        h.nonempty u,
        append-ne-nil q (x, v),
        lookup-put t u (q ++ (x, v) ∷ []) s.store_buffers,
      );
}

pub flush_buffer-IsValid : (t : ℕ) {s : Tso} → IsValid s → IsValid (flush_buffer t s)
flush_buffer-IsValid t {s} h = record {
  nonempty = λ u e. ground (arith, h.nonempty u, buffers-flush_buffer t u s);
}

pub write-IsValid :
    (t : ℕ) (x : String) (v : ℤ) (o : MemoryOrder) (s s' : Tso)
    → IsValid s
    → write t x v o s ≡ ok s'
    → IsValid s'
unfolding write
write-IsValid t x v o s s' h e = elim (Bool-cases (is_seq_cst o)) [
  | inl strong ↦ ground (arith, flush_buffer-IsValid t (push_back-IsValid t x v h))
  | inr weak ↦ ground (arith, push_back-IsValid t x v h)
]

-- the entry of a thread whose queue is `q`
abbrev pub entry : Buffer → Option Buffer
entry [] = none
entry (w ∷ q) = some (w ∷ q)

-- What one propagation of the write `(x, v)`, with `q` behind it, makes of `s`.
pub record Propagated (t : ℕ) (x : String) (v : ℤ) (q : Buffer) (s s' : Tso) : Type 0 where
  pub memory : s'.memory ≡ put x v s.memory
  pub own : lookup t s'.store_buffers ≡ entry q
  pub others : (u : ℕ) → t ≢ u → lookup u s'.store_buffers ≡ lookup u s.store_buffers
  pub same_view : (y : String) → seen t s' y ≡ seen t s y

propagate-Propagated :
    (t : ℕ) (x : String) (v : ℤ) (q : Buffer) (s : Tso)
    → lookup t s.store_buffers ≡ some ((x, v) ∷ q)
    → (s' : Tso) × (propagate t s ≡ ok s') × Propagated t x v q s s'
unfolding propagate
propagate-Propagated t x v [] s e = (
  record { memory = put x v s.memory; store_buffers = erase t s.store_buffers },
  rw (e, propagate),
  record {
    memory = refl;
    own = ground (arith, lookup-erase t t s.store_buffers);
    others = λ u apart. ground (arith, lookup-erase t u s.store_buffers);
    same_view = λ y. ground (
      arith,
      e,
      lookup-erase t t s.store_buffers,
      lookup-put x y v s.memory,
      newest-cons x y v [],
      newest-nil y,
    );
  },
)
  where
    newest-nil : (y : String) → newest y [] ≡ none
    newest-nil y = unfold lookup in refl
propagate-Propagated t x v (w ∷ q) s e = (
  record { memory = put x v s.memory; store_buffers = put t (w ∷ q) s.store_buffers },
  rw (e, propagate),
  record {
    memory = refl;
    own = ground (arith, lookup-put t t (w ∷ q) s.store_buffers);
    others = λ u apart. ground (arith, lookup-put t u (w ∷ q) s.store_buffers);
    same_view = λ y. ground (
      arith,
      e,
      lookup-put t t (w ∷ q) s.store_buffers,
      lookup-put x y v s.memory,
      newest-cons x y v (w ∷ q),
    );
  },
)

-- From a valid state a propagation never fails its assertion. It moves the oldest write of the
-- thread, and only that, from the buffer to the memory, keeps every view of that thread and the
-- buffers of the others, and leaves a valid state; without a buffer it changes nothing.
pub propagate_oldest :
    (t : ℕ) (s : Tso)
    → IsValid s
    → (s' : Tso) × (propagate t s ≡ ok s')
      × IsValid s'
      × ((s' ≡ s) × (lookup t s.store_buffers ≡ none)
          ⊎ ((x : String) × (v : ℤ) × (q : Buffer) × (lookup t s.store_buffers ≡ some ((x, v) ∷ q))
              × Propagated t x v q s s'))
unfolding propagate
propagate_oldest t s h = split (lookup t s.store_buffers) refl
  where
    entry-ne-nil : (q : Buffer) → entry q ≢ some []
    entry-ne-nil [] e = cc
    entry-ne-nil (w ∷ q) e = cc

    keeps : (x : String) (v : ℤ) (q : Buffer) (s' : Tso) → Propagated t x v q s s' → IsValid s'
    keeps x v q s' p = record {
      nonempty = λ u e. elim (Bool-cases (t == u)) [
        | inl same ↦ entry-ne-nil q (ground (arith, p.own))
        | inr other ↦ h.nonempty u (ground (arith, p.others u))
      ];
    }

    split :
        (o : Option Buffer)
        → lookup t s.store_buffers ≡ o
        → (s' : Tso) × (propagate t s ≡ ok s')
          × IsValid s'
          × ((s' ≡ s) × (lookup t s.store_buffers ≡ none)
              ⊎ ((x : String) × (v : ℤ) × (q : Buffer) × (lookup t s.store_buffers
                    ≡ some ((x, v) ∷ q))
                  × Propagated t x v q s s'))
    split none e = (s, rw (e, propagate), h, inl (refl, e))
    split (some []) e = absurd (h.nonempty t e)
    split (some ((x, v) ∷ q)) e =
        let (s', runs, p) = propagate-Propagated t x v q s e in
        (s', runs, keeps x v q s' p, inr (x, v, q, e, p))
