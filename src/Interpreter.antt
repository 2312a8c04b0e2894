-- ===== src/Interpreter.antt =====
-- src/interpreter/interpreter.cpp: one instruction of one thread.
pub mod ModelChecking
pub mod NonDeterministic
pub mod Instructions
pub mod Swaps
mod Examples
use weak_memory_models_simul.Prelude.{
  ℕ, String, Bool, false, true, List, Option, none, some, if◌then◌else◌, ◌==◌, get_elem?, string_eq,
}
use weak_memory_models_simul.Prelude.Result.{ok, err, ◌>>=◌}
use weak_memory_models_simul.Prelude.Int.{ℤ, pos, int_eq, ◌+ℤ◌, ◌-ℤ◌, ◌*ℤ◌, quot, checked}
use weak_memory_models_simul.Prelude.Map.{Map, lookup, put, erase, nat_less}
use weak_memory_models_simul.Prelude.{nat_eq}
use weak_memory_models_simul.Exceptions.{Checked, unknown_label, out_of_range, undefined_behaviour}
use weak_memory_models_simul.Ast.{
  AstNode, StatementNode, ProgramNode, BinOpType, BinOpNode, NumberNode, ConditionNode, GotoNode,
  ThreadGotoNode, LoadNode, StoreNode, CasNode, FaiNode, FenceNode,
}
use weak_memory_models_simul.Storage.Interface.{StorageSubsystem}
use weak_memory_models_simul.Threads
use weak_memory_models_simul.State.{
  ProgramState, current_thread, set_register, update_current_thread_register, add_thread,
  update_current_thread_instruction,
}

pub record Interpreter : Type 0 where
  pub root : ProgramNode
  pub labeled_instructions : Map String ℕ

-- The instruction at a label, or the exception.
unfoldable pub find_label : Interpreter → String → Checked ℕ
find_label i label = elim (lookup label i.labeled_instructions) [
  | none ↦ err (unknown_label label)
  | some index ↦ ok index
]

-- Signed overflow and division by zero are undefined.
defined : Option ℤ → Checked ℤ
defined none = err undefined_behaviour
defined (some v) = ok v

unfoldable pub apply : BinOpType → ℤ → ℤ → Checked ℤ
unfolding defined
apply BinOpType.plus a b = defined (checked (a +ℤ b))
apply BinOpType.minus a b = defined (checked (a -ℤ b))
apply BinOpType.mult a b = defined (checked (a *ℤ b))
apply BinOpType.div a b =
    if b == pos 0 then err undefined_behaviour else defined (checked (quot a b))

module _ {S : Type 0} (m : StorageSubsystem S) (i : Interpreter) where
  -- `thread_subsystem.get` of the current thread
  unfoldable pub register : String → ProgramState S → Checked ℤ
  register r s = Threads.get r (current_thread s).thread_subsystem

  unfoldable pub visit_goto : GotoNode → ProgramState S → Checked (ProgramState S)
  visit_goto n s = do
    index ← find_label i n.goto_label
    ok (record s { goto_instruction = some index })

  unfoldable pub visit_thread_goto : ThreadGotoNode → ProgramState S → Checked (ProgramState S)
  visit_thread_goto n s = do index ← find_label i n.thread_goto_label; ok (add_thread m index s)

  unfoldable pub visit_number : NumberNode → ProgramState S → Checked (ProgramState S)
  visit_number n s = ok (record s { last_evaluated_value = n.value })

  unfoldable pub visit_binop : BinOpNode → ProgramState S → Checked (ProgramState S)
  visit_binop n s = do
    left ← register n.left_register s
    right ← register n.right_register s
    v ← apply n.operation left right
    ok (record s { last_evaluated_value = v })

  unfoldable pub visit_condition : ConditionNode → ProgramState S → Checked (ProgramState S)
  visit_condition n s = do
    v ← register n.register_name s
    if v == pos 0
        then ok s
        else do index ← find_label i n.goto_label; ok (record s { goto_instruction = some index })

  unfoldable pub visit_load : LoadNode → ProgramState S → Checked (ProgramState S)
  visit_load n s =
      let (v, storage) = m.read s.current_thread_id n.location_name n.memory_order s.storage in
      ok (set_register n.register_name v (record s { storage = storage }))

  unfoldable pub visit_store : StoreNode → ProgramState S → Checked (ProgramState S)
  visit_store n s = do
    v ← register n.register_name s
    storage ← m.write s.current_thread_id n.location_name v n.memory_order s.storage
    ok (record s { storage = storage })

  unfoldable pub visit_fence : FenceNode → ProgramState S → Checked (ProgramState S)
  visit_fence n s = do
    storage ← m.fence s.current_thread_id n.memory_order s.storage
    ok (record s { storage = storage })

  unfoldable pub visit_cas : CasNode → ProgramState S → Checked (ProgramState S)
  visit_cas n s = do
    let t = s.current_thread_id
    expected ← register n.register_expected s
    desired ← register n.register_desired s
    flushed ← m.flush_thread t s.storage
    let actual = (m.read t n.location_name n.memory_order flushed).0
    let behind = (m.read t n.location_name n.memory_order flushed).1
    storage ←
        (if actual == expected
          then m.write t n.location_name desired n.memory_order behind
          else ok behind)
    ok (record s { storage = storage; last_evaluated_value = actual })

  unfoldable pub visit_fai : FaiNode → ProgramState S → Checked (ProgramState S)
  visit_fai n s = do
    let t = s.current_thread_id
    increment ← register n.register_name s
    flushed ← m.flush_thread t s.storage
    let previous = (m.read t n.location_name n.memory_order flushed).0
    let behind = (m.read t n.location_name n.memory_order flushed).1
    sum ← apply BinOpType.plus previous increment
    storage ← m.write t n.location_name sum n.memory_order behind
    ok (record s { storage = storage; last_evaluated_value = previous })

  unfoldable pub visit_end : ProgramState S → Checked (ProgramState S)
  visit_end s = ok (record s {
    finished_thread_states =
        put s.current_thread_id (current_thread s).thread_subsystem s.finished_thread_states;
    threads = erase s.current_thread_id s.threads;
  })

  -- the dispatch of `accept`, and `visit` of an assignment
  unfoldable pub visit : AstNode → ProgramState S → Checked (ProgramState S)
  unfolding visit_goto visit_thread_goto visit_number visit_binop visit_condition visit_load
      visit_store visit_fence visit_cas visit_fai visit_end
  visit (AstNode.number n) s = visit_number n s
  visit (AstNode.binop n) s = visit_binop n s
  visit (AstNode.condition n) s = visit_condition n s
  visit (AstNode.goto n) s = visit_goto n s
  visit (AstNode.thread_goto n) s = visit_thread_goto n s
  visit (AstNode.load n) s = visit_load n s
  visit (AstNode.store n) s = visit_store n s
  visit (AstNode.cas n) s = visit_cas n s
  visit (AstNode.fai n) s = visit_fai n s
  visit (AstNode.fence n) s = visit_fence n s
  visit (AstNode.assignment r expr) s = do
    s' ← visit expr s
    ok (update_current_thread_register r s')
  visit AstNode.end s = visit_end s

  unfoldable pub visit_statement : StatementNode → ProgramState S → Checked (ProgramState S)
  unfolding visit
  visit_statement n s = do s' ← visit n.statement s; ok (update_current_thread_instruction s')

  -- ProgramState::get_transition_state, where `visit'` is the interpreter's own. `at` throws
  -- for a thread that is not active, and an index out of the program is undefined.
  unfoldable pub get_transition_state :
      (StatementNode → ProgramState S → Checked (ProgramState S))
      → ProgramState S
      → Checked (ProgramState S)
  get_transition_state visit' s = elim (lookup s.current_thread_id s.threads) [
    | none ↦ err out_of_range
    | some thread ↦ elim (get_elem? i.root.statements thread.instruction_index) [
      | none ↦ err undefined_behaviour
      | some statement ↦ visit' statement s
    ]
  ]
