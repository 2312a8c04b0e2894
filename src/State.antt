-- ===== src/State.antt =====
-- src/state: the state of a run. The pointer to the interpreter is an argument of the functions that
-- follow it, and a goto_instruction of -1 is `none`.
use weak_memory_models_simul.Prelude.{
  ℕ, suc, String, Bool, true, not, ◌&&◌, ◌||◌, List, [], Option, none, some, if◌then◌else◌,
  get_or_default, is_some, ltb, length, ◌==◌, nat_eq, map,
}
use weak_memory_models_simul.Prelude.Result.{ok, err, ◌>>=◌}
use weak_memory_models_simul.Prelude.Int.{ℤ, pos}
use weak_memory_models_simul.Prelude.Map.{Map, keys, lookup, put, nat_less}
use weak_memory_models_simul.Exceptions.{Checked, invalid_thread_interleaving}
use weak_memory_models_simul.Storage.Interface.{StorageSubsystem}
use weak_memory_models_simul.Threads
use weak_memory_models_simul.Threads.{ThreadSubsystem}

pub record ThreadState : Type 0 where
  pub instruction_index : ℕ
  pub thread_subsystem : ThreadSubsystem

pub record ProgramState (S : Type 0) : Type 0 where
  pub next_thread_id : ℕ
  pub current_thread_id : ℕ
  pub last_evaluated_value : ℤ
  pub goto_instruction : Option ℕ
  pub is_allowed_interleaving : Bool
  pub storage : S
  pub threads : Map ℕ ThreadState
  pub finished_thread_states : Map ℕ ThreadSubsystem

module _ {S : Type 0} where
  -- the constructor, with the initial values of the fields
  abbrev pub create : S → ProgramState S
  create storage = record {
    next_thread_id = 0;
    current_thread_id = 0;
    last_evaluated_value = pos 0;
    goto_instruction = none;
    is_allowed_interleaving = true;
    storage = storage;
    threads = [];
    finished_thread_states = [];
  }

  -- `threads[current_thread_id]`
  abbrev pub current_thread : ProgramState S → ThreadState
  current_thread s =
      get_or_default (lookup s.current_thread_id s.threads)
        (record { instruction_index = 0; thread_subsystem = [] })

  unfoldable pub update_current_thread_instruction : ProgramState S → ProgramState S
  update_current_thread_instruction s = elim (lookup s.current_thread_id s.threads) [
    | none ↦ s
    | some thread ↦ elim s.goto_instruction [
      | none ↦ record s {
        threads =
            put s.current_thread_id
              (record thread { instruction_index = suc thread.instruction_index }) s.threads;
      }
      | some target ↦ record s {
        threads = put s.current_thread_id (record thread { instruction_index = target }) s.threads;
        goto_instruction = none;
      }
    ]
  ]

  -- `threads[current_thread_id].thread_subsystem.set`
  unfoldable pub set_register : String → ℤ → ProgramState S → ProgramState S
  set_register r v s =
      let thread = current_thread s in
      record s {
        threads =
            put s.current_thread_id
              (record thread { thread_subsystem = Threads.set r v thread.thread_subsystem })
              s.threads;
      }

  unfoldable pub update_current_thread_register : String → ProgramState S → ProgramState S
  unfolding set_register
  update_current_thread_register r s = set_register r s.last_evaluated_value s

  unfoldable pub add_thread : StorageSubsystem S → ℕ → ProgramState S → ProgramState S
  add_thread m instruction_index s = record s {
    threads =
        put s.next_thread_id
          (record { instruction_index = instruction_index; thread_subsystem = [] }) s.threads;
    storage = m.prepare_thread s.next_thread_id s.storage;
    next_thread_id = suc s.next_thread_id;
  }

  unfoldable pub has_active_threads : ProgramState S → Bool
  has_active_threads s = ltb 0 (length s.threads)

  unfoldable pub is_interleaving_possible : ProgramState S → Bool
  is_interleaving_possible s =
      s.is_allowed_interleaving
      && (ltb 1 (length s.threads) || not (is_some (lookup s.current_thread_id s.threads)))

  unfoldable pub has_eps_transitions : StorageSubsystem S → ProgramState S → Bool
  has_eps_transitions m s = m.has_eps_transitions s.current_thread_id s.storage

  unfoldable pub get_active_threads_ids : ProgramState S → List ℕ
  get_active_threads_ids s = keys s.threads

  unfoldable pub get_interleaving_state : ℕ → ProgramState S → Checked (ProgramState S)
  get_interleaving_state t s =
      if (s.current_thread_id == t) || not (is_some (lookup t s.threads))
      then err (invalid_thread_interleaving s.current_thread_id t)
      else ok (record s { current_thread_id = t })

  unfoldable pub with_storages : ProgramState S → List S → List (ProgramState S)
  with_storages s storages = map (λ (z : S). record s { storage = z }) storages

  unfoldable pub get_eps_transition_states :
      StorageSubsystem S → ProgramState S → Checked (List (ProgramState S))
  unfolding with_storages
  get_eps_transition_states m s = do
    storages ← m.get_eps_transitions s.current_thread_id s.storage
    ok (with_storages s storages)
