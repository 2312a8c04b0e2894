-- ===== src/Safety/Instructions.antt =====
-- The instructions (interpreter.cpp) keep the invariant of the state of a run.
use mathlib.Core.Path.{subst}
use weak_memory_models_simul.Prelude.{
  suc, none, some, ◌≡◌, ap, arith, string_eq, Bool-cases, Option-cases, inl, inr, if◌then◌else◌,
  ◌==◌, nat_eq, get_elem?,
}
use weak_memory_models_simul.Prelude.Result.{ok, >>=-eq-ok, ok_injective}
use weak_memory_models_simul.Prelude.Int.{pos, int_eq}
use weak_memory_models_simul.Prelude.Map.{lookup, nat_less}
use weak_memory_models_simul.Ast.{AstNode, StatementNode, BinOpType}
use weak_memory_models_simul.Ast
use weak_memory_models_simul.Storage.Interface.{StorageSubsystem}
use weak_memory_models_simul.State.{ProgramState, ThreadState, update_current_thread_instruction}
use weak_memory_models_simul.Interpreter.{
  Interpreter, register, apply, find_label, visit, visit_statement,
}
use weak_memory_models_simul.Interpreter
use weak_memory_models_simul.Safety.Lawful.{Lawful, returned-Valid, unrefused-Valid}
use weak_memory_models_simul.Safety.Formed.{IsClosed, IsFormed, Inside}
use weak_memory_models_simul.Safety.Kept.{
  restored, targeted, label_found, updated-Formed, arrived-Formed, ended-Formed,
  set_register-Inside, add_thread-Inside, update_register-Inside, carry,
}

module _ {S : Type 0} (Valid : S → Type 0) (i : Interpreter) where
  module _ (m : StorageSubsystem S) (lawful : Lawful m Valid) (closed : IsClosed i) where
    visit_condition-Inside :
        (n : Ast.ConditionNode) (s s' : ProgramState S)
        → Interpreter.visit_condition m i n s ≡ ok s'
        → Inside Valid i s
        → Inside Valid i s'
    unfolding Interpreter.visit_condition
    visit_condition-Inside n s s' h inside =
        let (v, e, h₁) = >>=-eq-ok (register m i n.register_name s) _ h in
        elim (Bool-cases (v == pos 0)) [
          | inl zero_value ↦ carry Valid i (rw zero_value at h₁) inside
          | inr other ↦
              let (k, found, h₂) = >>=-eq-ok (find_label i n.goto_label) _ (rw other at h₁) in
              carry Valid i h₂
                (targeted Valid i s k (label_found Valid i n.goto_label k closed found) inside)
        ]

    visit_cas-Inside :
        (n : Ast.CasNode) (s s' : ProgramState S)
        → Interpreter.visit_cas m i n s ≡ ok s'
        → Inside Valid i s
        → Inside Valid i s'
    unfolding Interpreter.visit_cas
    visit_cas-Inside n s s' h inside =
        let t = s.current_thread_id in
        let (expected, e₁, h₁) = >>=-eq-ok (register m i n.register_expected s) _ h in
        let (desired, e₂, h₂) = >>=-eq-ok (register m i n.register_desired s) _ h₁ in
        let (flushed, e₃, h₃) = >>=-eq-ok (m.flush_thread t s.storage) _ h₂ in
        let (actual, behind) = m.read t n.location_name n.memory_order flushed in
        let (storage, e₄, h₄) =
          >>=-eq-ok
            (if actual == expected
              then m.write t n.location_name desired n.memory_order behind
              else ok behind)
            _ h₃ in
        let flushed_valid =
          returned-Valid Valid (lawful.flushes_thread t s.storage inside.0.valid) e₃ in
        let behind_valid = lawful.reads t n.location_name n.memory_order flushed flushed_valid in
        let valid : Valid storage = elim (Bool-cases (actual == expected)) [
          | inl same ↦
              returned-Valid Valid
                (lawful.writes t n.location_name desired n.memory_order behind behind_valid)
                (rw same at e₄)
          | inr other ↦ subst Valid (cc (rw other at e₄)) behind_valid
        ] in
        carry Valid i h₄ (restored Valid i s storage valid inside)

    visit_fai-Inside :
        (n : Ast.FaiNode) (s s' : ProgramState S)
        → Interpreter.visit_fai m i n s ≡ ok s'
        → Inside Valid i s
        → Inside Valid i s'
    unfolding Interpreter.visit_fai
    visit_fai-Inside n s s' h inside =
        let t = s.current_thread_id in
        let (increment, e₁, h₁) = >>=-eq-ok (register m i n.register_name s) _ h in
        let (flushed, e₂, h₂) = >>=-eq-ok (m.flush_thread t s.storage) _ h₁ in
        let (previous, behind) = m.read t n.location_name n.memory_order flushed in
        let (sum, e₃, h₃) = >>=-eq-ok (apply BinOpType.plus previous increment) _ h₂ in
        let (storage, e₄, h₄) =
          >>=-eq-ok (m.write t n.location_name sum n.memory_order behind) _ h₃ in
        let flushed_valid =
          returned-Valid Valid (lawful.flushes_thread t s.storage inside.0.valid) e₂ in
        let behind_valid = lawful.reads t n.location_name n.memory_order flushed flushed_valid in
        carry Valid i h₄ (
          restored Valid i s storage
            (returned-Valid Valid
              (lawful.writes t n.location_name sum n.memory_order behind behind_valid) e₄)
            inside)

    -- Every instruction of a thread that is not at the last statement leaves it so.
    visit-Inside :
        (n : AstNode) (s s' : ProgramState S)
        → visit m i n s ≡ ok s'
        → Inside Valid i s
        → Inside Valid i s'
    unfolding visit
    visit-Inside (AstNode.number n) s s' h inside =
        unfold Interpreter.visit_number in
        carry Valid i h (restored Valid i s s.storage inside.0.valid inside)
    visit-Inside (AstNode.binop n) s s' h inside =
        unfold Interpreter.visit_binop in
        let (left, e₁, h₁) = >>=-eq-ok (register m i n.left_register s) _ h in
        let (right, e₂, h₂) = >>=-eq-ok (register m i n.right_register s) _ h₁ in
        let (v, e₃, h₃) = >>=-eq-ok (apply n.operation left right) _ h₂ in carry Valid i h₃ inside
    visit-Inside (AstNode.condition n) s s' h inside = visit_condition-Inside n s s' h inside
    visit-Inside (AstNode.goto n) s s' h inside =
        unfold Interpreter.visit_goto in
        let (k, e, h₁) = >>=-eq-ok (find_label i n.goto_label) _ h in
        carry Valid i h₁ (targeted Valid i s k (label_found Valid i n.goto_label k closed e) inside)
    visit-Inside (AstNode.thread_goto n) s s' h inside =
        unfold Interpreter.visit_thread_goto in
        let (k, e, h₁) = >>=-eq-ok (find_label i n.thread_goto_label) _ h in
        carry Valid i h₁ (
          add_thread-Inside Valid i m k s lawful
            (label_found Valid i n.thread_goto_label k closed e) inside)
    visit-Inside (AstNode.load n) s s' h inside =
        unfold Interpreter.visit_load in
        let (v, storage) = m.read s.current_thread_id n.location_name n.memory_order s.storage in
        carry Valid i h (
          set_register-Inside Valid i n.register_name v (record s { storage = storage })
            (restored Valid i s storage
              (lawful.reads s.current_thread_id n.location_name n.memory_order s.storage
                inside.0.valid)
              inside))
    visit-Inside (AstNode.store n) s s' h inside =
        unfold Interpreter.visit_store in
        let t = s.current_thread_id in
        let (v, e₁, h₁) = >>=-eq-ok (register m i n.register_name s) _ h in
        let (storage, e₂, h₂) =
          >>=-eq-ok (m.write t n.location_name v n.memory_order s.storage) _ h₁ in
        carry Valid i h₂ (
          restored Valid i s storage
            (returned-Valid Valid
              (lawful.writes t n.location_name v n.memory_order s.storage inside.0.valid) e₂)
            inside)
    visit-Inside (AstNode.cas n) s s' h inside = visit_cas-Inside n s s' h inside
    visit-Inside (AstNode.fai n) s s' h inside = visit_fai-Inside n s s' h inside
    visit-Inside (AstNode.fence n) s s' h inside =
        unfold Interpreter.visit_fence in
        let t = s.current_thread_id in
        let (storage, e, h₁) = >>=-eq-ok (m.fence t n.memory_order s.storage) _ h in
        carry Valid i h₁ (
          restored Valid i s storage
            (unrefused-Valid Valid (lawful.fences t n.memory_order s.storage inside.0.valid) e)
            inside)
    visit-Inside (AstNode.assignment r expr) s s' h inside =
        let (u, e, h₁) = >>=-eq-ok (visit m i expr s) _ h in
        carry Valid i h₁ (update_register-Inside Valid i r u (visit-Inside expr s u e inside))
    visit-Inside AstNode.end s s' h inside =
        let (f, gone) = ended-Formed Valid i m s s' h inside.0 in
        (f, record { room = inside.1.room; ahead = λ thread e. absurd (cc (gone, e)) })

    moved_on :
        (s : ProgramState S)
        → Inside Valid i s
        → IsFormed Valid i (update_current_thread_instruction s)
    unfolding update_current_thread_instruction
    moved_on s (f, a) = elim (Option-cases (lookup s.current_thread_id s.threads)) [
      | inl e ↦ rw (update_current_thread_instruction, e) f
      | inr (thread, e) ↦ elim (Option-cases s.goto_instruction) [
        | inl e' ↦
            rw (update_current_thread_instruction, e, e')
              (updated-Formed Valid i
                (record thread { instruction_index = suc thread.instruction_index }) s
                (a.ahead thread e) f)
        | inr (target, e') ↦
            rw (update_current_thread_instruction, e, e')
              (updated-Formed Valid i (record thread { instruction_index = target })
                (record s { goto_instruction = none }) (f.target target e')
                (arrived-Formed Valid i s f))
      ]
    ]

    -- An instruction of the program keeps the invariant.
    pub visit_statement-Formed :
        (s s' : ProgramState S) (thread : ThreadState) (n : StatementNode)
        → lookup s.current_thread_id s.threads ≡ some thread
        → get_elem? i.root.statements thread.instruction_index ≡ some n
        → visit_statement m i n s ≡ ok s'
        → IsFormed Valid i s
        → IsFormed Valid i s'
    unfolding visit_statement visit update_current_thread_instruction
    visit_statement-Formed s s' thread n active stands h f =
        let (u, e, h₁) = >>=-eq-ok (visit m i n.statement s) _ h in
        elim (closed.goes_on thread.instruction_index n stands) [
          | inl ends ↦
              let (g, gone) = ended-Formed Valid i m s u (rw ends at e) f in
              subst (IsFormed Valid i) (ok_injective h₁)
                (rw (update_current_thread_instruction, gone) g)
          | inr lt ↦
              let inside : Inside Valid i s = (
                f,
                record {
                  room = omega (arith, lt);
                  ahead = λ found e'.
                      let same : thread ≡ found = cc (active, e') in
                      omega (arith, lt, ap (λ (x : ThreadState). x.instruction_index) same);
                },
              ) in
              subst (IsFormed Valid i) (ok_injective h₁)
                (moved_on u (visit-Inside n.statement s u e inside))
        ]
