-- ===== src/Interpreter/ModelChecking/Flag.antt =====
-- The flag of a state that the model checker alone changes (model-checking.cpp): no instruction reads
-- it.
use weak_memory_models_simul.Prelude.{
  String, Bool, true, ◌≡◌, refl, sym, ap, ◌∙◌, Bool-cases, Option-cases, inl, inr, if◌then◌else◌,
  ◌==◌, nat_eq, get_elem?,
}
use weak_memory_models_simul.Prelude.Result.{ok, err, ◌>>=◌}
use weak_memory_models_simul.Prelude.Int.{pos, int_eq}
use weak_memory_models_simul.Prelude.Map.{lookup, nat_less}
use weak_memory_models_simul.Exceptions.{Checked}
use weak_memory_models_simul.Ast.{
  AstNode, StatementNode, ConditionNode, CasNode, FaiNode, BinOpType,
}
use weak_memory_models_simul.Storage.Interface.{StorageSubsystem}
use weak_memory_models_simul.State.{
  ProgramState, has_active_threads, is_interleaving_possible, has_eps_transitions,
  get_active_threads_ids, get_interleaving_state, get_eps_transition_states, with_storages,
  update_current_thread_instruction,
}
use weak_memory_models_simul.State
use weak_memory_models_simul.Interpreter.{
  Interpreter, register, apply, find_label, visit, visit_statement, get_transition_state,
}
use weak_memory_models_simul.Interpreter
use weak_memory_models_simul.Interpreter.ModelChecking.{is_allowed_interleaving, visit_allowing}

module _ {S : Type 0} where
  -- a state with another value of the flag, which the model checker alone changes
  abbrev pub flagged : Bool → ProgramState S → ProgramState S
  flagged b s = record s { is_allowed_interleaving = b }

  abbrev pub flagged_result : Bool → Checked (ProgramState S) → Checked (ProgramState S)
  flagged_result b (err e) = err e
  flagged_result b (ok s) = ok (flagged b s)

  module _ (m : StorageSubsystem S) (i : Interpreter) where
    flagged-bind :
        {A : Type 0} (b : Bool) (r : Checked A) (f g : A → Checked (ProgramState S))
        → ((a : A) → f a ≡ flagged_result b (g a))
        → (r >>= f) ≡ flagged_result b (r >>= g)
    flagged-bind b (err e) f g h = refl
    flagged-bind b (ok a) f g h = h a

    visit_condition-flagged :
        (b : Bool) (n : ConditionNode) (s : ProgramState S)
        → Interpreter.visit_condition m i n (flagged b s)
          ≡ flagged_result b (Interpreter.visit_condition m i n s)
    unfolding Interpreter.visit_condition register
    visit_condition-flagged b n s = flagged-bind b (register m i n.register_name s) _ _ (λ v.
        elim (Bool-cases (v == pos 0)) [
          | inl e ↦ rw e
          | inr e ↦ rw e (flagged-bind b (find_label i n.goto_label) _ _ (λ k. refl))
        ])

    visit_cas-flagged :
        (b : Bool) (n : CasNode) (s : ProgramState S)
        → Interpreter.visit_cas m i n (flagged b s)
          ≡ flagged_result b (Interpreter.visit_cas m i n s)
    unfolding Interpreter.visit_cas register
    visit_cas-flagged b n s = flagged-bind b (register m i n.register_expected s) _ _ (λ expected.
        flagged-bind b (register m i n.register_desired s) _ _ (λ desired.
          flagged-bind b (m.flush_thread s.current_thread_id s.storage) _ _ (λ flushed.
            let (actual, behind) =
              m.read s.current_thread_id n.location_name n.memory_order flushed in
            flagged-bind b
              (if actual == expected
                then m.write s.current_thread_id n.location_name desired n.memory_order behind
                else ok behind)
              _ _ (λ storage. refl))))

    visit_fai-flagged :
        (b : Bool) (n : FaiNode) (s : ProgramState S)
        → Interpreter.visit_fai m i n (flagged b s)
          ≡ flagged_result b (Interpreter.visit_fai m i n s)
    unfolding Interpreter.visit_fai register
    visit_fai-flagged b n s = flagged-bind b (register m i n.register_name s) _ _ (λ increment.
        flagged-bind b (m.flush_thread s.current_thread_id s.storage) _ _ (λ flushed.
          let (previous, behind) =
            m.read s.current_thread_id n.location_name n.memory_order flushed in
          flagged-bind b (apply BinOpType.plus previous increment) _ _ (λ sum.
            flagged-bind b (m.write s.current_thread_id n.location_name sum n.memory_order behind) _
              _ (λ storage. refl))))

    assigned-flagged :
        (b : Bool) (r : String) (v : Checked (ProgramState S))
        → (flagged_result b v >>= λ s'. ok (State.update_current_thread_register r s'))
          ≡ flagged_result b (v >>= λ s'. ok (State.update_current_thread_register r s'))
    unfolding State.update_current_thread_register State.set_register
    assigned-flagged b r (err e) = refl
    assigned-flagged b r (ok s') = refl

    -- No instruction reads or changes the flag.
    visit-flagged :
        (b : Bool) (n : AstNode) (s : ProgramState S)
        → visit m i n (flagged b s) ≡ flagged_result b (visit m i n s)
    unfolding visit register
    visit-flagged b (AstNode.number n) s = unfold Interpreter.visit_number in refl
    visit-flagged b (AstNode.binop n) s =
        unfold Interpreter.visit_binop in
        flagged-bind b (register m i n.left_register s) _ _ (λ left.
          flagged-bind b (register m i n.right_register s) _ _
            (λ right. flagged-bind b (apply n.operation left right) _ _ (λ v. refl)))
    visit-flagged b (AstNode.condition n) s = visit_condition-flagged b n s
    visit-flagged b (AstNode.goto n) s =
        unfold Interpreter.visit_goto in flagged-bind b (find_label i n.goto_label) _ _ (λ k. refl)
    visit-flagged b (AstNode.thread_goto n) s =
        unfold Interpreter.visit_thread_goto State.add_thread in
        flagged-bind b (find_label i n.thread_goto_label) _ _ (λ k. refl)
    visit-flagged b (AstNode.load n) s = unfold Interpreter.visit_load State.set_register in refl
    visit-flagged b (AstNode.store n) s =
        unfold Interpreter.visit_store in
        flagged-bind b (register m i n.register_name s) _ _ (λ v.
          flagged-bind b (m.write s.current_thread_id n.location_name v n.memory_order s.storage) _
            _ (λ storage. refl))
    visit-flagged b (AstNode.cas n) s = visit_cas-flagged b n s
    visit-flagged b (AstNode.fai n) s = visit_fai-flagged b n s
    visit-flagged b (AstNode.fence n) s =
        unfold Interpreter.visit_fence in
        flagged-bind b (m.fence s.current_thread_id n.memory_order s.storage) _ _ (λ storage. refl)
    visit-flagged b (AstNode.assignment r expr) s =
        rw (visit, visit-flagged b expr s) (assigned-flagged b r (visit m i expr s))
    visit-flagged b AstNode.end s = unfold Interpreter.visit_end in refl

    instruction-flagged :
        (b : Bool) (u : ProgramState S)
        → update_current_thread_instruction (flagged b u)
          ≡ flagged b (update_current_thread_instruction u)
    unfolding update_current_thread_instruction
    instruction-flagged b u = elim (Option-cases (lookup u.current_thread_id u.threads)) [
      | inl e ↦ rw (update_current_thread_instruction, e)
      | inr (thread, e) ↦ elim (Option-cases u.goto_instruction) [
        | inl e' ↦ rw (update_current_thread_instruction, e, e')
        | inr (target, e') ↦ rw (update_current_thread_instruction, e, e')
      ]
    ]

    updated-flagged :
        (b : Bool) (v : Checked (ProgramState S))
        → (flagged_result b v >>= λ u. ok (update_current_thread_instruction u))
          ≡ flagged_result b (v >>= λ u. ok (update_current_thread_instruction u))
    updated-flagged b (err e) = refl
    updated-flagged b (ok u) = ap ok (instruction-flagged b u)

    pub visit_statement-flagged :
        (b : Bool) (n : StatementNode) (s : ProgramState S)
        → visit_statement m i n (flagged b s) ≡ flagged_result b (visit_statement m i n s)
    unfolding visit_statement
    visit_statement-flagged b n s =
        rw (visit_statement, visit-flagged b n.statement s)
          (updated-flagged b (visit m i n.statement s))

    reflagged :
        (b : Bool) (v : Checked (ProgramState S)) (t : ProgramState S)
        → flagged_result b v ≡ ok t
        → flagged_result true v ≡ ok (flagged true t)
    reflagged b (err e) t h = absurd (cc)
    reflagged b (ok u) t h = ap (flagged_result true) h

    -- The model checker's instruction is the random execution's, but for the flag.
    pub transition-flagged :
        (s t : ProgramState S)
        → get_transition_state m i (visit_allowing m i) s ≡ ok t
        → get_transition_state m i (visit_statement m i) (flagged true s) ≡ ok (flagged true t)
    unfolding get_transition_state visit_allowing
    transition-flagged s t h = elim (Option-cases (lookup s.current_thread_id s.threads)) [
      | inl e ↦ absurd (cc (rw (get_transition_state, e) at h))
      | inr (thread, e) ↦
          elim (Option-cases (get_elem? i.root.statements thread.instruction_index)) [
            | inl e' ↦ absurd (cc (rw (get_transition_state, e, e') at h))
            | inr (n, e') ↦
                let b = is_allowed_interleaving n.statement in
                let visits : visit_statement m i n (flagged b s) ≡ ok t =
                  rw (get_transition_state, e, e', visit_allowing) at h in
                rw (get_transition_state, e, e')
                  (visit_statement-flagged true n s
                    ∙ reflagged b (visit_statement m i n s) t
                        (sym (visit_statement-flagged b n s) ∙ visits))
          ]
    ]
