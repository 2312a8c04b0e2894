-- ===== src/Safety/Causes.antt =====
-- What makes an instruction fail (interpreter.cpp).
use mathlib.Core.List.{Memᴰ}
use mathlib.Core.Path.{subst}
use weak_memory_models_simul.Prelude.{
  String, List, [], ◌∷◌, none, ◌≡◌, ◌≢◌, refl, sym, ap, ◌∙◌, arith, string_eq, Bool-cases,
  Option-cases, inl, inr, ◌==◌, nat_eq,
}
use weak_memory_models_simul.Prelude.Result.{ok, err, >>=-eq-err}
use weak_memory_models_simul.Prelude.Int.{ℤ, pos, int_eq}
use weak_memory_models_simul.Prelude.Map.{lookup, nat_less, string_less}
use weak_memory_models_simul.Exceptions.{
  Error, unknown_label, out_of_range, fences_not_supported, undefined_behaviour,
}
use weak_memory_models_simul.Ast.{AstNode, StatementNode, BinOpType}
use weak_memory_models_simul.Ast
use weak_memory_models_simul.Storage.Interface.{StorageSubsystem}
use weak_memory_models_simul.Threads
use weak_memory_models_simul.State.{ProgramState, current_thread}
use weak_memory_models_simul.Interpreter.{
  Interpreter, register, apply, find_label, visit, visit_statement,
}
use weak_memory_models_simul.Interpreter
use weak_memory_models_simul.Interpreter.Instructions.{apply_undefined}
use weak_memory_models_simul.Safety.Lawful.{Lawful}

-- The registers that an instruction reads.
abbrev pub registers : AstNode → List String
registers (AstNode.binop n) = n.left_register ∷ n.right_register ∷ []
registers (AstNode.condition n) = n.register_name ∷ []
registers (AstNode.store n) = n.register_name ∷ []
registers (AstNode.cas n) = n.register_expected ∷ n.register_desired ∷ []
registers (AstNode.fai n) = n.register_name ∷ []
registers (AstNode.assignment r expr) = registers expr
registers n = []

module _ {S : Type 0} (m : StorageSubsystem S) (i : Interpreter) (s : ProgramState S) where
  -- Why the instruction `n` throws: it jumps, or starts a thread, at a label that the program does
  -- not have; it reads a register that its thread has not set; the result of an operation does not
  -- fit, or the divisor is zero; or the memory model has no fences.
  pub data Cause : AstNode → Error → Type 0 where
    jumps :
        (n : Ast.GotoNode)
        → lookup n.goto_label i.labeled_instructions ≡ none
        → Cause (AstNode.goto n) (unknown_label n.goto_label)
    starts :
        (n : Ast.ThreadGotoNode)
        → lookup n.thread_goto_label i.labeled_instructions ≡ none
        → Cause (AstNode.thread_goto n) (unknown_label n.thread_goto_label)
    branches :
        (n : Ast.ConditionNode) {v : ℤ}
        → register m i n.register_name s ≡ ok v
        → v ≢ pos 0
        → lookup n.goto_label i.labeled_instructions ≡ none
        → Cause (AstNode.condition n) (unknown_label n.goto_label)
    unset :
        {n : AstNode} (r : String)
        → Memᴰ r (registers n)
        → lookup r (current_thread s).thread_subsystem ≡ none
        → Cause n out_of_range
    computes :
        (n : Ast.BinOpNode) {a b : ℤ}
        → register m i n.left_register s ≡ ok a
        → register m i n.right_register s ≡ ok b
        → apply n.operation a b ≡ err undefined_behaviour
        → Cause (AstNode.binop n) undefined_behaviour
    increments :
        (n : Ast.FaiNode) {z : S} {v : ℤ}
        → register m i n.register_name s ≡ ok v
        → m.flush_thread s.current_thread_id s.storage ≡ ok z
        → apply BinOpType.plus (m.read s.current_thread_id n.location_name n.memory_order z).0 v
          ≡ err undefined_behaviour
        → Cause (AstNode.fai n) undefined_behaviour
    fences :
        (n : Ast.FenceNode)
        → m.fence s.current_thread_id n.memory_order s.storage ≡ err fences_not_supported
        → Cause (AstNode.fence n) fences_not_supported
    assigns :
        {r : String} {expr : AstNode} {x : Error}
        → Cause expr x
        → Cause (AstNode.assignment r expr) x

  label_missing :
      (label : String) (x : Error)
      → find_label i label ≡ err x
      → (lookup label i.labeled_instructions ≡ none) × (unknown_label label ≡ x)
  unfolding find_label
  label_missing label x h = elim (Option-cases (lookup label i.labeled_instructions)) [
    | inl e ↦ (e, cc (rw (find_label, e) at h))
    | inr (k, e) ↦ absurd (cc (rw (find_label, e) at h))
  ]

  register_unset :
      {n : AstNode} {x : Error} (r : String)
      → Memᴰ r (registers n)
      → register m i r s ≡ err x
      → Cause n x
  unfolding register Threads.get
  register_unset {n} r there h =
      elim (Option-cases (lookup r (current_thread s).thread_subsystem)) [
        | inl e ↦ subst (Cause n) (cc (rw (Threads.get, e) at h)) (unset r there e)
        | inr (v, e) ↦ absurd (cc (rw (Threads.get, e) at h))
      ]

  unknown_start :
      {n : Ast.ThreadGotoNode} {x : Error}
      → find_label i n.thread_goto_label ≡ err x
      → Cause (AstNode.thread_goto n) x
  unknown_start {n} h =
      let (missing, same) = label_missing n.thread_goto_label _ h in
      subst (Cause (AstNode.thread_goto n)) same (starts n missing)

  visit_condition-fails :
      (n : Ast.ConditionNode) (x : Error)
      → Interpreter.visit_condition m i n s ≡ err x
      → Cause (AstNode.condition n) x
  unfolding Interpreter.visit_condition
  visit_condition-fails n x h = elim (>>=-eq-err (register m i n.register_name s) _ h) [
    | inl e ↦ register_unset n.register_name (Memᴰ.head refl) e
    | inr (v, e, h₁) ↦ elim (Bool-cases (v == pos 0)) [
      | inl zero_value ↦ absurd (cc (rw zero_value at h₁))
      | inr other ↦ elim (>>=-eq-err (find_label i n.goto_label) _ (rw other at h₁)) [
        | inl e' ↦
            let (missing, same) = label_missing n.goto_label x e' in
            subst (Cause (AstNode.condition n)) same
              (branches n e (ground (arith, other, int_eq.test_iff)) missing)
        | inr (k, e', h₂) ↦ absurd (cc h₂)
      ]
    ]
  ]

  module _ (Valid : S → Type 0) (lawful : Lawful m Valid) (valid : Valid s.storage) where
    visit_cas-fails :
        (n : Ast.CasNode) (x : Error)
        → Interpreter.visit_cas m i n s ≡ err x
        → Cause (AstNode.cas n) x
    unfolding Interpreter.visit_cas
    visit_cas-fails n x h =
        let t = s.current_thread_id in
        elim (>>=-eq-err (register m i n.register_expected s) _ h) [
          | inl e ↦ register_unset n.register_expected (Memᴰ.head refl) e
          | inr (expected, _, h₁) ↦ elim (>>=-eq-err (register m i n.register_desired s) _ h₁) [
            | inl e ↦ register_unset n.register_desired (Memᴰ.tail (Memᴰ.head refl)) e
            | inr (desired, _, h₂) ↦
                let (z, flushes, z_valid) = lawful.flushes_thread t s.storage valid in
                let (actual, behind) = m.read t n.location_name n.memory_order z in
                let (w, writes, _) =
                  lawful.writes t n.location_name desired n.memory_order behind
                    (lawful.reads t n.location_name n.memory_order z z_valid) in
                let h₃ = rw flushes at h₂ in
                elim (Bool-cases (actual == expected)) [
                  | inl same ↦ absurd (cc (rw (same, writes) at h₃))
                  | inr other ↦ absurd (cc (rw other at h₃))
                ]
          ]
        ]

    visit_fai-fails :
        (n : Ast.FaiNode) (x : Error)
        → Interpreter.visit_fai m i n s ≡ err x
        → Cause (AstNode.fai n) x
    unfolding Interpreter.visit_fai
    visit_fai-fails n x h =
        let t = s.current_thread_id in
        elim (>>=-eq-err (register m i n.register_name s) _ h) [
          | inl e ↦ register_unset n.register_name (Memᴰ.head refl) e
          | inr (v, given, h₁) ↦
              let (z, flushes, z_valid) = lawful.flushes_thread t s.storage valid in
              let (previous, behind) = m.read t n.location_name n.memory_order z in
              elim (>>=-eq-err (apply BinOpType.plus previous v) _ (rw flushes at h₁)) [
                | inl fails ↦
                    let same = apply_undefined BinOpType.plus previous v x fails in
                    subst (Cause (AstNode.fai n)) (sym same)
                      (increments n given flushes (fails ∙ ap err same))
                | inr (sum, _, h₂) ↦
                    let (w, writes, _) =
                      lawful.writes t n.location_name sum n.memory_order behind
                        (lawful.reads t n.location_name n.memory_order z z_valid) in
                    absurd (cc (rw writes at h₂))
              ]
        ]

    -- An instruction that fails has one of the causes.
    visit-fails : (n : AstNode) (x : Error) → visit m i n s ≡ err x → Cause n x
    unfolding visit
    visit-fails (AstNode.number n) x h = unfold Interpreter.visit_number in absurd (cc h)
    visit-fails (AstNode.binop n) x h =
        unfold Interpreter.visit_binop in
        elim (>>=-eq-err (register m i n.left_register s) _ h) [
          | inl e ↦ register_unset n.left_register (Memᴰ.head refl) e
          | inr (a, e, h₁) ↦ elim (>>=-eq-err (register m i n.right_register s) _ h₁) [
            | inl e' ↦ register_unset n.right_register (Memᴰ.tail (Memᴰ.head refl)) e'
            | inr (b, e', h₂) ↦ elim (>>=-eq-err (apply n.operation a b) _ h₂) [
              | inl fails ↦
                  let same = apply_undefined n.operation a b x fails in
                  subst (Cause (AstNode.binop n)) (sym same) (computes n e e' (fails ∙ ap err same))
              | inr (v, _, h₃) ↦ absurd (cc h₃)
            ]
          ]
        ]
    visit-fails (AstNode.condition n) x h = visit_condition-fails n x h
    visit-fails (AstNode.goto n) x h =
        unfold Interpreter.visit_goto in
        elim (>>=-eq-err (find_label i n.goto_label) _ h) [
          | inl e ↦
              let (missing, same) = label_missing n.goto_label x e in
              subst (Cause (AstNode.goto n)) same (jumps n missing)
          | inr (k, _, h₁) ↦ absurd (cc h₁)
        ]
    visit-fails (AstNode.thread_goto n) x h =
        unfold Interpreter.visit_thread_goto in
        elim (>>=-eq-err (find_label i n.thread_goto_label) _ h) [
          | inl e ↦ unknown_start e
          | inr (k, _, h₁) ↦ absurd (cc h₁)
        ]
    visit-fails (AstNode.load n) x h = unfold Interpreter.visit_load in absurd (cc h)
    visit-fails (AstNode.store n) x h =
        unfold Interpreter.visit_store in
        elim (>>=-eq-err (register m i n.register_name s) _ h) [
          | inl e ↦ register_unset n.register_name (Memᴰ.head refl) e
          | inr (v, _, h₁) ↦
              let (w, writes, _) =
                lawful.writes s.current_thread_id n.location_name v n.memory_order s.storage
                  valid in
              absurd (cc (rw writes at h₁))
        ]
    visit-fails (AstNode.cas n) x h = visit_cas-fails n x h
    visit-fails (AstNode.fai n) x h = visit_fai-fails n x h
    visit-fails (AstNode.fence n) x h =
        unfold Interpreter.visit_fence in
        elim (lawful.fences s.current_thread_id n.memory_order s.storage valid) [
          | inl (w, passes, _) ↦ absurd (cc (rw passes at h))
          | inr refuses ↦ subst (Cause (AstNode.fence n)) (cc (rw refuses at h)) (fences n refuses)
        ]
    visit-fails (AstNode.assignment r expr) x h = elim (>>=-eq-err (visit m i expr s) _ h) [
      | inl e ↦ assigns (visit-fails expr x e)
      | inr (u, _, h₁) ↦ absurd (cc h₁)
    ]
    visit-fails AstNode.end x h = unfold Interpreter.visit_end in absurd (cc h)

    pub visit_statement-fails :
        (n : StatementNode) (x : Error) → visit_statement m i n s ≡ err x → Cause n.statement x
    unfolding visit_statement
    visit_statement-fails n x h = elim (>>=-eq-err (visit m i n.statement s) _ h) [
      | inl e ↦ visit-fails n.statement x e
      | inr (u, _, h₁) ↦ absurd (cc h₁)
    ]
