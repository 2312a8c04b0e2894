-- ===== src/Storage/TsoExamples.antt =====
-- The theorems on total store order at concrete states.
use weak_memory_models_simul.Prelude.{
  ℕ, String, false, List, [], ◌∷◌, none, some, ◌≡◌, refl, arith, nat_eq, string_eq, ◌⊎◌,
}
use weak_memory_models_simul.Prelude.Result.{ok}
use weak_memory_models_simul.Prelude.Int.{ℤ, pos}
use weak_memory_models_simul.Prelude.Map.{lookup, HashOrder, nat_less, string_less}
use weak_memory_models_simul.Lang.{MemoryOrder, sequentially_consistent, relaxed}
use weak_memory_models_simul.Storage.Interface.{value_at}
use weak_memory_models_simul.Storage.Access.{Access, reads, writes, fences, perform}
use weak_memory_models_simul.Storage.Sc.{sc}
use weak_memory_models_simul.Storage.Tso
use weak_memory_models_simul.Storage.Tso.{Tso, tso}
use weak_memory_models_simul.Storage.Tso.Reads
use weak_memory_models_simul.Storage.Tso.Buffers
use weak_memory_models_simul.Storage.Tso.Consistent

abbrev pub ids : HashOrder ℕ
ids = record { order = λ ks. ks; order_count = λ k ks. refl }

abbrev pub names : HashOrder String
names = record { order = λ ks. ks; order_count = λ k ks. refl }

-- Thread 1 has two writes to x in its buffer, and thread 2 one to y.
abbrev buffers : Tso
buffers = record {
  memory = ("x", pos 7) ∷ [];
  store_buffers = (1, ("x", pos 1) ∷ ("x", pos 2) ∷ []) ∷ (2, ("y", pos 3) ∷ []) ∷ [];
}

forwarded : Tso.read 1 "x" relaxed buffers ≡ (pos 2, buffers)
unfolding Tso.read lookup
forwarded = refl

read_forwards_example :
    Tso.read 1 "x" relaxed buffers ≡ (value_at "x" (Tso.flush_buffer 1 buffers).memory, buffers)
read_forwards_example = Reads.read_forwards 1 "x" relaxed buffers

read-write_other_example :
    ((Tso.push_back 2 "x" (pos 9) buffers).memory ≡ buffers.memory)
    × ((Tso.read 1 "x" relaxed (Tso.push_back 2 "x" (pos 9) buffers)).0
        ≡ (Tso.read 1 "x" relaxed buffers).0)
read-write_other_example =
    Reads.read-write_other 2 1 "x" "x" (pos 9) relaxed relaxed buffers
      (Tso.push_back 2 "x" (pos 9) buffers) refl (omega arith) (unfold Tso.write in refl)

abbrev one_buffer : Tso
one_buffer = record { memory = []; store_buffers = (1, ("x", pos 1) ∷ ("y", pos 2) ∷ []) ∷ [] }

one_buffer-IsValid : Buffers.IsValid one_buffer
unfolding lookup
one_buffer-IsValid = record { nonempty = λ t e. ground arith }

propagate_oldest_example :
    (s' : Tso) × (Tso.propagate 1 one_buffer ≡ ok s')
    × Buffers.IsValid s'
    × ((s' ≡ one_buffer) × (lookup 1 one_buffer.store_buffers ≡ none)
        ⊎ ((x : String) × (v : ℤ) × (q : Tso.Buffer) × (lookup 1 one_buffer.store_buffers
              ≡ some ((x, v) ∷ q))
            × Buffers.Propagated 1 x v q one_buffer s'))
propagate_oldest_example = Buffers.propagate_oldest 1 one_buffer one_buffer-IsValid

flush-IsDrained_example :
    (s' : Tso) × (Tso.flush ids buffers ≡ ok s')
    × Consistent.IsDrained s'
    × ((t : ℕ) (x : String) (o : MemoryOrder) → (Tso.read t x o s').0 ≡ value_at x s'.memory)
    × ((t : ℕ) → Tso.has_eps_transitions t s' ≡ false)
flush-IsDrained_example = Consistent.flush-IsDrained ids buffers

-- Two threads write and read in turn.
abbrev pub accesses : List Access
accesses =
    writes 1 "x" (pos 1) sequentially_consistent
    ∷ reads 2 "x" sequentially_consistent
    ∷ writes 2 "x" (pos 2) sequentially_consistent
    ∷ fences 2 sequentially_consistent
    ∷ reads 1 "x" sequentially_consistent
    ∷ []

no_buffers : Consistent.Simulates (tso ids).create sc.create
unfolding lookup
no_buffers = record { drained = λ t. refl; memory = λ x. refl }

perform-Simulates_example :
    Consistent.Agree (perform (tso ids) accesses (tso ids).create) (perform sc accesses sc.create)
perform-Simulates_example =
    Consistent.perform-Simulates ids accesses (tso ids).create sc.create
      (refl, (refl, (refl, (refl, (refl, tt))))) no_buffers
