-- ===== src/Storage/PsoExamples.antt =====
-- The theorems on partial store order at concrete states.
use weak_memory_models_simul.Prelude.{
  ℕ, String, false, [], ◌∷◌, none, some, ◌≡◌, ◌≢◌, refl, arith, nat_eq, string_eq, eq_iff,
}
use weak_memory_models_simul.Prelude.Result.{ok}
use weak_memory_models_simul.Prelude.Int.{pos}
use weak_memory_models_simul.Prelude.Map.{lookup, nat_less, string_less}
use weak_memory_models_simul.Lang.{MemoryOrder, relaxed}
use weak_memory_models_simul.Storage.Interface.{value_at}
use weak_memory_models_simul.Storage.Access.{perform}
use weak_memory_models_simul.Storage.Sc.{sc}
use weak_memory_models_simul.Storage.Pso
use weak_memory_models_simul.Storage.Pso.{Pso, pso}
use weak_memory_models_simul.Storage.Pso.Views
use weak_memory_models_simul.Storage.Pso.Reads as PsoReads
use weak_memory_models_simul.Storage.Pso.Propagation
use weak_memory_models_simul.Storage.Pso.Consistent as PsoConsistent
use weak_memory_models_simul.Storage.TsoExamples.{ids, names, accesses}

-- Thread 1 has two values for x and one for y in its queues.
abbrev queues : Pso
queues = record {
  memory = ("x", pos 7) ∷ [];
  store_buffers = (1, ("x", pos 1 ∷ pos 2 ∷ []) ∷ ("y", pos 3 ∷ []) ∷ []) ∷ [];
}

values :
    (x : String)
    → lookup x (let b : Pso.Buffer = ("x", pos 1 ∷ pos 2 ∷ []) ∷ ("y", pos 3 ∷ []) ∷ [] in b)
      ≢ some []
unfolding lookup
values x e = ground (arith, eq_iff "x" x, eq_iff "y" x)

queues-IsValid : Views.IsValid queues
unfolding lookup
queues-IsValid = record {
  nonempty = λ t e. ground arith;
  queues = λ t b e. record { values = λ x z. ground (arith, values x) };
}

read_forwards_queues_example :
    (s' : Pso) × (Pso.flush_buffer names 1 queues ≡ ok s')
    × (Pso.read 1 "x" relaxed queues ≡ (value_at "x" s'.memory, queues))
read_forwards_queues_example =
    PsoReads.read_forwards_queues names 1 "x" relaxed queues queues-IsValid

read-write_elsewhere_example :
    (s' : Pso) × (Pso.write names 1 "x" (pos 9) relaxed queues ≡ ok s')
    × (s'.memory ≡ queues.memory)
    × ((Pso.read 2 "x" relaxed s').0 ≡ (Pso.read 2 "x" relaxed queues).0)
read-write_elsewhere_example =
    PsoReads.read-write_elsewhere names 1 2 "x" "x" (pos 9) relaxed relaxed queues refl
      (omega arith)

propagate_location_example :
    (s' : Pso) × (Pso.propagate 1 "y" queues ≡ ok s')
    × Propagation.Propagated 1 "y" (pos 3) [] queues s'
propagate_location_example =
    Propagation.propagate_location 1 "y" (pos 3) [] queues queues-IsValid (unfold lookup in refl)

flush_drains_example :
    (s' : Pso) × (Pso.flush ids names queues ≡ ok s')
    × ((t : ℕ) → lookup t s'.store_buffers ≡ none)
    × ((t : ℕ) (x : String) (o : MemoryOrder) → (Pso.read t x o s').0 ≡ value_at x s'.memory)
    × ((t : ℕ) → Pso.has_eps_transitions t s' ≡ false)
flush_drains_example = PsoConsistent.flush_drains ids names queues queues-IsValid

no_queues : PsoConsistent.Simulates (pso ids names).create sc.create
unfolding lookup
no_queues = record { drained = λ t. refl; memory = λ x. refl }

perform_consistent_example :
    PsoConsistent.Agree
      (perform (pso ids names) accesses (pso ids names).create)
      (perform sc accesses sc.create)
perform_consistent_example =
    PsoConsistent.perform_consistent ids names accesses (pso ids names).create sc.create
      (refl, (refl, (refl, (refl, (refl, tt))))) no_queues
