-- ===== src/Interpreter/ModelChecking.antt =====
-- src/interpreter/model-checking, and src/utils/node-evaluator: the search through all states. The
-- search need not end, so it takes fuel: the number of rounds of its loop.
pub mod Same
pub mod Reachable
pub mod Search
pub mod Flag
pub mod Executions
use weak_memory_models_simul.Prelude.{
  ℕ, zero, suc, Bool, true, false, ◌&&◌, not, List, [], ◌∷◌, ◌++◌, Option, none, some,
  if◌then◌else◌, is_some, ◌==◌, nat_eq,
}
use weak_memory_models_simul.Prelude.Result.{ok, err, ◌>>=◌}
use weak_memory_models_simul.Prelude.Map.{Map, lookup}
use weak_memory_models_simul.Exceptions.{Checked, Error}
use weak_memory_models_simul.Ast.{AstNode, StatementNode}
use weak_memory_models_simul.Storage.Interface.{StorageSubsystem}
use weak_memory_models_simul.Threads
use weak_memory_models_simul.Threads.{ThreadSubsystem}
use weak_memory_models_simul.State.{
  ProgramState, create, add_thread, has_active_threads, is_interleaving_possible,
  has_eps_transitions, get_active_threads_ids, get_eps_transition_states,
}
use weak_memory_models_simul.Interpreter.{Interpreter, visit_statement, get_transition_state}

-- NodeEvaluator: the instructions behind which threads may interleave
unfoldable pub is_allowed_interleaving : AstNode → Bool
is_allowed_interleaving (AstNode.assignment r expr) = is_allowed_interleaving expr
is_allowed_interleaving (AstNode.load n) = true
is_allowed_interleaving (AstNode.store n) = true
is_allowed_interleaving (AstNode.cas n) = true
is_allowed_interleaving (AstNode.fai n) = true
is_allowed_interleaving (AstNode.fence n) = true
is_allowed_interleaving AstNode.end = true
is_allowed_interleaving _ = false

-- the λ of `find_if`, whose loop runs over the registers of the new final state
unfoldable pub same_results : Map ℕ ThreadSubsystem → Map ℕ ThreadSubsystem → Bool
same_results [] curr = true
same_results ((t, registers) ∷ state) curr =
    let rest = same_results state curr in
    elim (lookup t curr) [ none ↦ false | some other ↦ Threads.equals other registers && rest ]

module _ {S : Type 0} where
  -- whether `find_if` finds a final state
  unfoldable pub is_found : ProgramState S → List (ProgramState S) → Bool
  is_found state [] = false
  is_found state (f ∷ fs) =
      let rest = is_found state fs in
      if same_results state.finished_thread_states f.finished_thread_states then true else rest

  -- the loop over the thread ids of a state in which interleaving is possible
  unfoldable pub interleavings : List ℕ → ProgramState S → List (ProgramState S)
  interleavings [] s = []
  interleavings (t ∷ ts) s =
      let rest = interleavings ts s in
      if s.current_thread_id == t
      then rest
      else record s { is_allowed_interleaving = false; current_thread_id = t } ∷ rest

  -- the loop over the eps-transition states
  unfoldable pub allow_all : List (ProgramState S) → List (ProgramState S)
  allow_all [] = []
  allow_all (s ∷ ss) = record s { is_allowed_interleaving = true } ∷ allow_all ss

module _ {S : Type 0} (m : StorageSubsystem S) (i : Interpreter) where
  -- `visit` of a statement, overridden
  unfoldable pub visit_allowing : StatementNode → ProgramState S → Checked (ProgramState S)
  visit_allowing n s =
      visit_statement m i n
        (record s { is_allowed_interleaving = is_allowed_interleaving n.statement })

  unfoldable pub interleaved : ProgramState S → List (ProgramState S)
  unfolding interleavings
  interleaved s =
      if is_interleaving_possible s then interleavings (get_active_threads_ids s) s else []

  unfoldable pub eps_states : ProgramState S → Checked (List (ProgramState S))
  unfolding allow_all
  eps_states s =
      if has_eps_transitions m s
      then (do ss ← get_eps_transition_states m s; ok (allow_all ss))
      else ok []

  -- What one round pushes on the queue, for a state that has active threads.
  unfoldable pub expand : ProgramState S → Checked (List (ProgramState S))
  unfolding interleaved eps_states visit_allowing
  expand s =
      if is_some (lookup s.current_thread_id s.threads)
      then (do
        eps ← eps_states s
        next ← get_transition_state m i visit_allowing s
        ok (interleaved s ++ (eps ++ next ∷ [])))
      else ok (interleaved s)

  -- `flush` of the storage of a final state
  unfoldable pub flush_state : ProgramState S → Checked (ProgramState S)
  flush_state s = do storage ← m.flush s.storage; ok (record s { storage = storage })

  -- the loop over the queue; `none`: the fuel ran out
  unfoldable pub explore :
      ℕ → List (ProgramState S) → List (ProgramState S) → Option (Checked (List (ProgramState S)))
  explore fuel [] finals = some (ok finals)
  explore zero (s ∷ states) finals = none
  explore (suc fuel) (s ∷ states) finals = elim (has_active_threads s) [
    | true ↦ elim (expand s) [
      | err e ↦ some (err e)
      | ok next ↦ explore fuel (states ++ next) finals
    ]
    | false ↦ elim (flush_state s) [
      | err e ↦ some (err e)
      | ok f ↦ explore fuel states (if is_found f finals then finals else finals ++ f ∷ [])
    ]
  ]

  abbrev pub initial_state : ProgramState S
  initial_state = add_thread m 0 (create m.create)

  unfoldable pub run : ℕ → Option (Checked (List (ProgramState S)))
  unfolding explore
  run fuel = explore fuel (initial_state ∷ []) []
