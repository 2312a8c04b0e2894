-- ===== src/Storage/Sra.antt =====
-- src/storage-subsystem/sra: strong release acquire. The memory is the list of the messages written,
-- each with a time stamp for its location, and a thread has a view: the time stamp that it has
-- reached at each location.
pub mod Views
pub mod Invariant
pub mod Writes
pub mod Visibility
pub mod Transitions
use Prim.Native.Nat.{max}
use weak_memory_models_simul.Prelude.{
  ℕ, suc, ◌+◌, String, Bool, true, false, ◌&&◌, List, [], ◌∷◌, ◌++◌, Option, none, some,
  if◌then◌else◌, get_or_default, ◌==◌, ltb, nat_eq, string_eq,
}
use weak_memory_models_simul.Prelude.Result.{ok, err, ◌>>=◌}
use weak_memory_models_simul.Prelude.Int.{ℤ, pos}
use weak_memory_models_simul.Prelude.Map.{Map, lookup, put, nat_less, string_less}
use weak_memory_models_simul.Exceptions.{Checked, out_of_range, fences_not_supported}
use weak_memory_models_simul.Lang.{MemoryOrder, is_acquire, is_release}
use weak_memory_models_simul.Storage.Interface.{StorageSubsystem}

-- ThreadView: a time stamp for each location, 0 where there is none.
abbrev pub ThreadView : Type 0
ThreadView = Map String ℕ

unfoldable pub get_timestamp : String → ThreadView → ℕ
get_timestamp x view = get_or_default (lookup x view) 0

unfoldable pub set_timestamp : String → ℕ → ThreadView → ThreadView
set_timestamp x n view = put x n view

pub record Message : Type 0 where
  pub location : String
  pub value : ℤ
  pub memory_order : MemoryOrder
  pub view : ThreadView

pub record Sra : Type 0 where
  pub memory : List Message
  pub thread_views : Map ℕ ThreadView
  pub location_timestamps : Map String ℕ

-- `m_thread_views[thread_id]`
abbrev pub thread_view : ℕ → Sra → ThreadView
thread_view t s = get_or_default (lookup t s.thread_views) []

-- `m_location_timestamps[location_name]`
abbrev pub max_timestamp : String → Sra → ℕ
max_timestamp x s = get_or_default (lookup x s.location_timestamps) 0

-- the loop of `read` over the memory: the first message of the location with the time stamp
unfoldable pub find_message : String → ℕ → List Message → Option Message
unfolding get_timestamp
find_message x n [] = none
find_message x n (m ∷ ms) =
    if m.location == x && get_timestamp m.location m.view == n then some m else find_message x n ms

-- the loop of `read` over the view of the message
unfoldable pub join : ThreadView → ThreadView → ThreadView
unfolding get_timestamp set_timestamp
join [] view = view
join ((x, n) ∷ new) view = join new (set_timestamp x (max (get_timestamp x view) n) view)

-- The call of `operator[]` makes a view for a thread that has none.
unfoldable pub read : ℕ → String → MemoryOrder → Sra → ℤ × Sra
read t x o s =
    let view = thread_view t s in
    elim (find_message x (get_timestamp x view) s.memory) [
      | none ↦ (pos 0, record s { thread_views = put t view s.thread_views })
      | some m ↦ (
        m.value,
        record s {
          thread_views = put t (if is_acquire o then join m.view view else view) s.thread_views;
        },
      )
    ]

unfoldable pub write : ℕ → String → ℤ → MemoryOrder → Sra → Checked Sra
unfolding set_timestamp
write t x v o s =
    let timestamp = suc (max_timestamp x s) in
    let view = set_timestamp x timestamp (thread_view t s) in
    let message : Message = record {
      location = x;
      value = v;
      memory_order = o;
      view = if is_release o then view else (x, timestamp) ∷ [];
    } in
    ok (record {
      memory = s.memory ++ message ∷ [];
      thread_views = put t view s.thread_views;
      location_timestamps = put x timestamp s.location_timestamps;
    })

unfoldable pub fence : ℕ → MemoryOrder → Sra → Checked Sra
fence t o s = err fences_not_supported

-- the loop of `has_eps_transitions`
unfoldable pub any_behind : ThreadView → Map String ℕ → Bool
unfolding get_timestamp
any_behind view [] = false
any_behind view ((x, n) ∷ ts) =
    let rest = any_behind view ts in if ltb (get_timestamp x view) n then true else rest

unfoldable pub has_eps_transitions : ℕ → Sra → Bool
unfolding any_behind
has_eps_transitions t s = elim (lookup t s.thread_views) [
  | none ↦ false
  | some view ↦ any_behind view s.location_timestamps
]

-- the loop of `get_increase_locations`; `at` throws for a thread without a view
unfoldable pub increase_locations : Option ThreadView → Map String ℕ → Checked (List String)
unfolding get_timestamp
increase_locations o [] = ok []
increase_locations none ((x, n) ∷ ts) =
    let rest = increase_locations none ts in
    if ltb 0 n then (do xs ← rest; ok (x ∷ xs)) else err out_of_range
increase_locations (some view) ((x, n) ∷ ts) = do
  xs ← increase_locations (some view) ts
  ok (if ltb (get_timestamp x view) n then x ∷ xs else xs)

unfoldable pub get_increase_locations : ℕ → Sra → Checked (List String)
unfolding increase_locations
get_increase_locations t s = increase_locations (lookup t s.thread_views) s.location_timestamps

-- The calls of `operator[]` make a view and a time stamp where there are none.
unfoldable pub increase_location_local_timestamp : ℕ → String → Sra → Sra
unfolding get_timestamp set_timestamp
increase_location_local_timestamp t x s =
    let view = thread_view t s in
    let prev = get_timestamp x view in
    let stamps = put x (max_timestamp x s) s.location_timestamps in
    if ltb prev (max_timestamp x s)
    then record s {
      thread_views = put t (set_timestamp x (prev + 1) view) s.thread_views;
      location_timestamps = stamps;
    }
    else record s { thread_views = put t view s.thread_views; location_timestamps = stamps }

-- the loop of `get_eps_transitions`: one new storage for each location
unfoldable pub increase_each : ℕ → List String → Sra → List Sra
unfolding increase_location_local_timestamp
increase_each t [] s = []
increase_each t (x ∷ xs) s = increase_location_local_timestamp t x s ∷ increase_each t xs s

unfoldable pub get_eps_transitions : ℕ → Sra → Checked (List Sra)
unfolding get_increase_locations increase_each
get_eps_transitions t s =
    if has_eps_transitions t s
    then (do xs ← get_increase_locations t s; ok (increase_each t xs s))
    else ok []

-- `insert`, which leaves a view that is there
unfoldable pub prepare_thread : ℕ → Sra → Sra
prepare_thread t s = elim (lookup t s.thread_views) [
  | none ↦ record s { thread_views = put t [] s.thread_views }
  | some view ↦ s
]

abbrev pub sra : StorageSubsystem Sra
sra = record {
  create = record { memory = []; thread_views = []; location_timestamps = [] };
  read = read;
  write = write;
  fence = fence;
  flush = λ s. ok s;
  flush_thread = λ t s. ok s;
  get_eps_transitions = get_eps_transitions;
  has_eps_transitions = has_eps_transitions;
  prepare_thread = prepare_thread;
}
