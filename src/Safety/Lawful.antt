-- ===== src/Safety/Lawful.antt =====
-- What the interpreter relies on in a memory model (storage-subsystem.h).
use weak_memory_models_simul.Prelude.{ℕ, String, true, List, ◌∷◌, ◌≡◌, ◌⊎◌, inl, inr, sym, ◌∙◌, All}
use weak_memory_models_simul.Prelude.Result.{ok, err, ok_injective}
use weak_memory_models_simul.Prelude.Int.{ℤ}
use mathlib.Core.Path.{subst}
use weak_memory_models_simul.Exceptions.{Checked, fences_not_supported}
use weak_memory_models_simul.Lang.{MemoryOrder}
use weak_memory_models_simul.Storage.Interface.{StorageSubsystem}

-- An invariant of the storage that every operation keeps, under which no operation fails but a
-- fence, which a memory model may refuse, and no step that it announces is missing.
pub record Lawful {S : Type 0} (m : StorageSubsystem S) (Valid : S → Type 0) : Type 0 where
  pub created : Valid m.create
  pub reads : (t : ℕ) (x : String) (o : MemoryOrder) (z : S) → Valid z → Valid (m.read t x o z).1
  pub writes :
      (t : ℕ) (x : String) (v : ℤ) (o : MemoryOrder) (z : S)
      → Valid z
      → (w : S) × (m.write t x v o z ≡ ok w) × Valid w
  pub fences :
      (t : ℕ) (o : MemoryOrder) (z : S)
      → Valid z
      → ((w : S) × (m.fence t o z ≡ ok w) × Valid w) ⊎ (m.fence t o z ≡ err fences_not_supported)
  pub flushes_thread : (t : ℕ) (z : S) → Valid z → (w : S) × (m.flush_thread t z ≡ ok w) × Valid w
  pub prepares : (t : ℕ) (z : S) → Valid z → Valid (m.prepare_thread t z)
  pub steps :
      (t : ℕ) (z : S)
      → Valid z
      → m.has_eps_transitions t z ≡ true
      → (w : S) × (ws : List S) × (m.get_eps_transitions t z ≡ ok (w ∷ ws)) × All Valid (w ∷ ws)
  pub flushes : (z : S) → Valid z → (w : S) × (m.flush z ≡ ok w)

-- What an operation that succeeds returns is the valid state.
pub returned-Valid :
    {S : Type 0} (Valid : S → Type 0) {r : Checked S} {u : S}
    → ((w : S) × (r ≡ ok w) × Valid w)
    → r ≡ ok u
    → Valid u
returned-Valid Valid (w, returns, valid) e = subst Valid (ok_injective (sym returns ∙ e)) valid

pub unrefused-Valid :
    {S : Type 0} (Valid : S → Type 0) {r : Checked S} {u : S}
    → ((w : S) × (r ≡ ok w) × Valid w) ⊎ (r ≡ err fences_not_supported)
    → r ≡ ok u
    → Valid u
unrefused-Valid Valid (inl returns) e = returned-Valid Valid returns e
unrefused-Valid Valid (inr refuses) e = absurd (cc (refuses, e))
