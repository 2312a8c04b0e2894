-- ===== src/Storage/Pso.antt =====
-- src/storage-subsystem/pso: partial store order, a FIFO queue for each thread and location.
pub mod Views
pub mod Reads
pub mod Propagation
pub mod Consistent
use weak_memory_models_simul.Prelude.{
  ℕ, String, Bool, List, [], ◌∷◌, ◌++◌, Option, none, some, if◌then◌else◌, or_else, get_or_default,
  is_some, get_last?, nat_eq, string_eq,
}
use weak_memory_models_simul.Prelude.Result.{ok, err, ◌>>=◌}
use weak_memory_models_simul.Prelude.Int.{ℤ, pos}
use weak_memory_models_simul.Prelude.Map.{
  Map, keys, lookup, put, erase, nat_less, string_less, HashOrder,
}
use weak_memory_models_simul.Exceptions.{Checked, undefined_behaviour}
use weak_memory_models_simul.Lang.{MemoryOrder, is_seq_cst}
use weak_memory_models_simul.Storage.Interface.{StorageSubsystem, Memory}

-- The queues of a thread, each with its oldest value first.
abbrev pub Buffer : Type 0
Buffer = Map String (List ℤ)

pub record Pso : Type 0 where
  pub memory : Memory
  pub store_buffers : Map ℕ Buffer

-- `back` of the queue of a location, if there is one that is not empty
abbrev pub back : Buffer → String → Option ℤ
back b x = elim (lookup x b) [ none ↦ none | some q ↦ get_last? q ]

abbrev pub buffered : Option Buffer → String → Option ℤ
buffered none x = none
buffered (some b) x = back b x

unfoldable pub read : ℕ → String → MemoryOrder → Pso → ℤ × Pso
read t x o s = (
  get_or_default (or_else (buffered (lookup t s.store_buffers) x) (lookup x s.memory)) (pos 0),
  s,
)

-- the loop of `flush_buffer` over the locations; `back` of an empty queue is undefined
unfoldable pub flush_queues : List String → Buffer → Memory → Checked Memory
flush_queues [] b m = ok m
flush_queues (x ∷ xs) b m = elim (lookup x b) [
  | none ↦ flush_queues xs b m
  | some q ↦ elim (get_last? q) [
    | none ↦ err undefined_behaviour
    | some v ↦ flush_queues xs b (put x v m)
  ]
]

unfoldable pub flush_buffer : HashOrder String → ℕ → Pso → Checked Pso
flush_buffer names t s = elim (lookup t s.store_buffers) [
  | none ↦ ok s
  | some b ↦ do
    m ← flush_queues (names.order (keys b)) b s.memory
    ok (record { memory = m; store_buffers = erase t s.store_buffers })
]

-- `m_store_buffers[thread_id][location_name].push_back`, which makes what is missing
unfoldable pub push_back : ℕ → String → ℤ → Pso → Pso
push_back t x v s =
    let b = get_or_default (lookup t s.store_buffers) [] in
    let q = get_or_default (lookup x b) [] in
    record s { store_buffers = put t (put x (q ++ v ∷ []) b) s.store_buffers }

unfoldable pub write : HashOrder String → ℕ → String → ℤ → MemoryOrder → Pso → Checked Pso
unfolding push_back
write names t x v o s =
    if is_seq_cst o then flush_buffer names t (push_back t x v s) else ok (push_back t x v s)

unfoldable pub fence : HashOrder String → ℕ → MemoryOrder → Pso → Checked Pso
fence names t o s = if is_seq_cst o then flush_buffer names t s else ok s

-- the second loop of `flush`, over the thread ids that the first one collected
unfoldable pub flush_all : HashOrder String → List ℕ → Pso → Checked Pso
flush_all names [] s = ok s
flush_all names (t ∷ ts) s = do s' ← flush_buffer names t s; flush_all names ts s'

unfoldable pub flush : HashOrder ℕ → HashOrder String → Pso → Checked Pso
flush ids names s = flush_all names (ids.order (keys s.store_buffers)) s

unfoldable pub has_eps_transitions : ℕ → Pso → Bool
has_eps_transitions t s = is_some (lookup t s.store_buffers)

unfoldable pub get_propagate_locations : HashOrder String → ℕ → Pso → List String
get_propagate_locations names t s = elim (lookup t s.store_buffers) [
  | none ↦ []
  | some b ↦ names.order (keys b)
]

-- `thread_buffer` without the front of the queue, whose rest is `q`
unfoldable pub pop_front : String → List ℤ → Buffer → Buffer
pop_front x [] b = erase x b
pop_front x (w ∷ q) b = put x (w ∷ q) b

-- an empty `thread_buffer` is erased
unfoldable pub set_buffer : ℕ → Buffer → Map ℕ Buffer → Map ℕ Buffer
set_buffer t [] m = erase t m
set_buffer t (e ∷ b) m = put t (e ∷ b) m

-- `front` of an empty queue is undefined.
unfoldable pub propagate : ℕ → String → Pso → Checked Pso
unfolding pop_front set_buffer
propagate t x s = elim (lookup t s.store_buffers) [
  | none ↦ ok s
  | some b ↦ elim (lookup x b) [
    | none ↦ ok s
    | some [] ↦ err undefined_behaviour
    | some (v ∷ q) ↦ ok (record {
      memory = put x v s.memory;
      store_buffers = set_buffer t (pop_front x q b) s.store_buffers;
    })
  ]
]

-- the loop of `get_eps_transitions`: one new storage for each location
unfoldable pub propagate_each : ℕ → List String → Pso → Checked (List Pso)
propagate_each t [] s = ok []
propagate_each t (x ∷ xs) s =
    let rest = propagate_each t xs s in do s' ← propagate t x s; ss ← rest; ok (s' ∷ ss)

unfoldable pub get_eps_transitions : HashOrder String → ℕ → Pso → Checked (List Pso)
unfolding get_propagate_locations propagate_each
get_eps_transitions names t s =
    if has_eps_transitions t s
    then propagate_each t (get_propagate_locations names t s) s
    else ok []

-- `flush(int)` is the one of the base class: it changes nothing.
abbrev pub pso : HashOrder ℕ → HashOrder String → StorageSubsystem Pso
pso ids names = record {
  create = record { memory = []; store_buffers = [] };
  read = read;
  write = write names;
  fence = fence names;
  flush = flush ids names;
  flush_thread = λ t s. ok s;
  get_eps_transitions = get_eps_transitions names;
  has_eps_transitions = has_eps_transitions;
  prepare_thread = λ t s. s;
}
