-- ===== src/Safety/Formed.antt =====
-- The invariant of the state of a run (program-state.h), and what the updates of a state do to it.
use weak_memory_models_simul.Prelude.{
  ℕ, suc, ◌<◌, String, Option, some, ◌≡◌, sym, string_eq, Bool-cases, inl, inr, ◌⊎◌, if◌then◌else◌,
  ◌==◌, nat_eq, get_elem?, length,
}
use weak_memory_models_simul.Prelude.Int.{int_eq}
use weak_memory_models_simul.Prelude.Map.{Map, lookup, put, nat_less, lookup-put}
use weak_memory_models_simul.Ast.{AstNode, StatementNode}
use weak_memory_models_simul.State.{ProgramState, ThreadState}
use weak_memory_models_simul.Interpreter.{Interpreter}

-- A program whose last statement is `end` and whose labels lead to statements.
pub record IsClosed (i : Interpreter) : Type 0 where
  pub starts : 0 < length i.root.statements
  pub goes_on :
      (k : ℕ) (n : StatementNode)
      → get_elem? i.root.statements k ≡ some n
      → (n.statement ≡ AstNode.end) ⊎ (suc k < length i.root.statements)
  pub labelled :
      (label : String) (k : ℕ)
      → lookup label i.labeled_instructions ≡ some k
      → k < length i.root.statements

-- The threads, the id of the next one, the current one, the target of a goto, and the storage: each
-- thread is at a statement of a program with `n` of them, and has an id given out before.
pub record Formed {S : Type 0} (Valid : S → Type 0) (n : ℕ) (threads : Map ℕ ThreadState)
    (next current : ℕ) (goto : Option ℕ) (storage : S) : Type 0 where
  pub in_range :
      (t : ℕ) (thread : ThreadState) → lookup t threads ≡ some thread → thread.instruction_index < n
  pub given_out : (t : ℕ) (thread : ThreadState) → lookup t threads ≡ some thread → t < next
  pub current_given_out : current < next
  pub target : (k : ℕ) → goto ≡ some k → k < n
  pub valid : Valid storage

-- The current thread is not at the last statement.
pub record Advances (n : ℕ) (threads : Map ℕ ThreadState) (current : ℕ) : Type 0 where
  pub room : 1 < n
  pub ahead :
      (thread : ThreadState)
      → lookup current threads ≡ some thread
      → suc thread.instruction_index < n

-- A thread behind an update of the threads is the new one, or one of the old.
pub put-cases :
    (t u : ℕ) (thread found : ThreadState) (threads : Map ℕ ThreadState)
    → lookup u (put t thread threads) ≡ some found
    → ((u ≡ t) × (found ≡ thread)) ⊎ (lookup u threads ≡ some found)
put-cases t u thread found threads h =
    let looked : lookup u (put t thread threads)
        ≡ (if t == u then some thread else lookup u threads) =
      lookup-put t u thread threads in
    elim (Bool-cases (t == u)) [
      | inl e ↦ inl (sym ((nat_eq.test_iff t u).0 e), cc (h, rw e at looked))
      | inr e ↦ inr (cc (h, rw e at looked))
    ]

module _ {S : Type 0} (Valid : S → Type 0) (i : Interpreter) where
  abbrev pub IsFormed : ProgramState S → Type 0
  IsFormed s =
      Formed Valid (length i.root.statements) s.threads s.next_thread_id s.current_thread_id
        s.goto_instruction s.storage

  abbrev pub IsAdvancing : ProgramState S → Type 0
  IsAdvancing s = Advances (length i.root.statements) s.threads s.current_thread_id

  -- Both, in the middle of an instruction.
  abbrev pub Inside : ProgramState S → Type 0
  Inside s = IsFormed s × IsAdvancing s
