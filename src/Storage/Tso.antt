-- ===== src/Storage/Tso.antt =====
-- src/storage-subsystem/tso: total store order, a FIFO store buffer for each thread.
pub mod Views
pub mod Reads
pub mod Buffers
pub mod Consistent
use weak_memory_models_simul.Prelude.{
  ℕ, String, Bool, List, [], ◌∷◌, ◌++◌, Option, none, some, reverse, if◌then◌else◌, or_else,
  get_or_default, is_some,
}
use weak_memory_models_simul.Prelude.{nat_eq, string_eq}
use weak_memory_models_simul.Prelude.Result.{ok, err, ◌>>=◌}
use weak_memory_models_simul.Prelude.Int.{ℤ, pos}
use weak_memory_models_simul.Prelude.Map.{
  Map, keys, lookup, put, erase, nat_less, string_less, HashOrder,
}
use weak_memory_models_simul.Exceptions.{Checked, assertion_failed}
use weak_memory_models_simul.Lang.{MemoryOrder, is_seq_cst}
use weak_memory_models_simul.Storage.Interface.{StorageSubsystem, Memory}

-- A store buffer, the oldest write first: a std::deque of a location and a value.
abbrev pub Buffer : Type 0
Buffer = List (String × ℤ)

pub record Tso : Type 0 where
  pub memory : Memory
  pub store_buffers : Map ℕ Buffer

-- the loop of `read` over a buffer, from its back
abbrev pub newest : String → Buffer → Option ℤ
newest x q = lookup x (reverse q)

-- what the thread's own buffer holds for a location
abbrev pub buffered : Option Buffer → String → Option ℤ
buffered none x = none
buffered (some q) x = newest x q

unfoldable pub read : ℕ → String → MemoryOrder → Tso → ℤ × Tso
read t x o s = (
  get_or_default (or_else (buffered (lookup t s.store_buffers) x) (lookup x s.memory)) (pos 0),
  s,
)

-- the loop of `flush_buffer`: the writes enter the memory from the front of the queue
unfoldable pub drain : Buffer → Memory → Memory
drain [] m = m
drain ((x, v) ∷ q) m = drain q (put x v m)

unfoldable pub flush_buffer : ℕ → Tso → Tso
flush_buffer t s = elim (lookup t s.store_buffers) [
  | none ↦ s
  | some q ↦ record { memory = drain q s.memory; store_buffers = erase t s.store_buffers }
]

-- `m_store_buffers[thread_id].push_back`, which makes a buffer for a thread that has none
unfoldable pub push_back : ℕ → String → ℤ → Tso → Tso
push_back t x v s =
    let q = get_or_default (lookup t s.store_buffers) [] in
    record s { store_buffers = put t (q ++ (x, v) ∷ []) s.store_buffers }

unfoldable pub write : ℕ → String → ℤ → MemoryOrder → Tso → Checked Tso
unfolding push_back
write t x v o s =
    ok (if is_seq_cst o then flush_buffer t (push_back t x v s) else push_back t x v s)

unfoldable pub fence : ℕ → MemoryOrder → Tso → Checked Tso
fence t o s = ok (if is_seq_cst o then flush_buffer t s else s)

-- the second loop of `flush`, over the thread ids that the first one collected
unfoldable pub flush_all : List ℕ → Tso → Tso
flush_all [] s = s
flush_all (t ∷ ts) s = flush_all ts (flush_buffer t s)

unfoldable pub flush : HashOrder ℕ → Tso → Checked Tso
flush h s = ok (flush_all (h.order (keys s.store_buffers)) s)

-- The assertion fails on an empty queue.
unfoldable pub propagate : ℕ → Tso → Checked Tso
propagate t s = elim (lookup t s.store_buffers) [
  | none ↦ ok s
  | some [] ↦ err assertion_failed
  | some ((x, v) ∷ []) ↦
      ok (record { memory = put x v s.memory; store_buffers = erase t s.store_buffers })
  | some ((x, v) ∷ w ∷ q) ↦
      ok (record { memory = put x v s.memory; store_buffers = put t (w ∷ q) s.store_buffers })
]

unfoldable pub has_eps_transitions : ℕ → Tso → Bool
has_eps_transitions t s = is_some (lookup t s.store_buffers)

unfoldable pub get_eps_transitions : ℕ → Tso → Checked (List Tso)
get_eps_transitions t s =
    if has_eps_transitions t s then (do s' ← propagate t s; ok (s' ∷ [])) else ok []

abbrev pub tso : HashOrder ℕ → StorageSubsystem Tso
tso h = record {
  create = record { memory = []; store_buffers = [] };
  read = read;
  write = write;
  fence = fence;
  flush = flush h;
  flush_thread = λ t s. ok (flush_buffer t s);
  get_eps_transitions = get_eps_transitions;
  has_eps_transitions = has_eps_transitions;
  prepare_thread = λ t s. s;
}
