-- ===== src/Parser/Statements.antt =====
-- The exceptions of each parsing function of parser.cpp, and that a statement consumes a token.
use weak_memory_models_simul.Prelude.{
  ℕ, suc, ◌≤◌, String, Bool, true, false, ◌&&◌, List, [], ◌∷◌, ◌≡◌, ◌≢◌, refl, sym, ◌∙◌, arith,
  Bool-cases, inl, inr, length, ◌==◌, nat_eq,
}
use weak_memory_models_simul.Prelude.Result.{Result-cases}
use weak_memory_models_simul.Prelude.Int.{ℤ}
use weak_memory_models_simul.Lexer.Tokens.{Token, TokenType}
use weak_memory_models_simul.Lang.{MemoryOrder}
use weak_memory_models_simul.Ast.{AstNode}
use weak_memory_models_simul.Exceptions.{Checked}
use weak_memory_models_simul.Parser.Outcomes.{
  Spelled, Program, ending, more, unexpected, from_stoi, Outcome, threw, went, Safe, Eats,
  Eats-Safe, Safe-pure, Safe-bind, Safe-peek, Outcome-bind, Program-tail, Eats-bind, expect-Eats,
  expect_yes, expect_no,
}
use weak_memory_models_simul.Parser.{
  parse_binop, parse_condition, parse_goto, parse_thread_goto, parse_double_argument_call,
  parse_cas_call, parse_fence_call, parse_number, parse_expression, parse_assignment, parse_label,
  fai_node,
}
use weak_memory_models_simul.Parsing.{
  ◌>>=◌, type_index, has_type, peek, advance, expect, expect_memory_order, to_binop_type,
  parse_operation, is_labeled_statement_next,
}

memory_order_only :
    (ty : TokenType)
    → (type_index ty == type_index TokenType.memory_order) ≡ true
    → ty ≡ TokenType.memory_order
memory_order_only TokenType.memory_order h = refl
memory_order_only _ h = absurd (cc h)

and_right : (a b : Bool) → (a && b) ≡ true → b ≡ true
and_right true b h = h
and_right false b h = absurd (cc h)

number_not_end : TokenType.number ≢ TokenType.end
number_not_end e = cc

module _ (stoi : String → Checked ℤ) where
  Spelled-Outcome :
      (n : ℕ) (t : Token) (ts : List Token)
      → t.token_type ≢ TokenType.end
      → Spelled t
      → Program ts
      → length ts ≤ n
      → Outcome stoi n (expect_memory_order (t ∷ ts))
  unfolding expect_memory_order has_type
  Spelled-Outcome n t ts other s p b = elim (Bool-cases (has_type TokenType.memory_order t)) [
    | inl is ↦
        let (o, e) = s (memory_order_only t.token_type is) in
        rw (expect_memory_order, ◌>>=◌, expect_yes TokenType.memory_order t ts is, e) (went p b)
    | inr not ↦
        rw (expect_memory_order, ◌>>=◌, expect_no TokenType.memory_order t ts not)
          (threw (unexpected (not, tt)))
  ]

  memory_order-Outcome :
      (n : ℕ) (ts : List Token)
      → Program ts
      → length ts ≤ suc n
      → Outcome stoi n (expect_memory_order ts)
  unfolding expect_memory_order has_type
  memory_order-Outcome n [] p b = elim p [ ]
  memory_order-Outcome n (t ∷ _) (ending h) b =
      let other : has_type TokenType.memory_order t ≡ false = rw (has_type, h) in
      rw (expect_memory_order, ◌>>=◌, expect_no TokenType.memory_order t [] other)
        (threw (unexpected (other, tt)))
  memory_order-Outcome n (t ∷ ts) (more other s p) b =
      Spelled-Outcome n t ts other s p (omega arith)

  memory_order-Safe : Safe stoi expect_memory_order
  memory_order-Safe = Eats-Safe (record { at = memory_order-Outcome })

  -- a kind of token other than END
  expect-Safe :
      (ty : TokenType) → (type_index TokenType.end == type_index ty) ≡ false → Safe stoi (expect ty)
  expect-Safe ty e = Eats-Safe (expect-Eats ty e)

  identifier-Safe : Safe stoi (expect TokenType.identifier)
  identifier-Safe = expect-Safe TokenType.identifier refl

  location-Safe : Safe stoi (expect TokenType.location)
  location-Safe = expect-Safe TokenType.location refl

  pub goto-Eats : Eats stoi parse_goto
  unfolding parse_goto
  goto-Eats =
      Eats-bind (expect-Eats TokenType.goto refl) λ _. Safe-bind identifier-Safe λ l. Safe-pure _

  pub thread_goto-Eats : Eats stoi parse_thread_goto
  unfolding parse_thread_goto
  thread_goto-Eats =
      Eats-bind (expect-Eats TokenType.thread_goto refl)
        λ _. Safe-bind identifier-Safe λ l. Safe-pure _

  pub condition-Eats : Eats stoi parse_condition
  unfolding parse_condition
  condition-Eats = Eats-bind (expect-Eats TokenType.condition refl) λ _.
      Safe-bind identifier-Safe λ r.
        Safe-bind (expect-Safe TokenType.goto refl) λ _. Safe-bind identifier-Safe λ l. Safe-pure _

  pub fence-Eats : Eats stoi parse_fence_call
  unfolding parse_fence_call
  fence-Eats =
      Eats-bind (expect-Eats TokenType.fence refl) λ _. Safe-bind memory_order-Safe λ o. Safe-pure _

  pub double_argument_call-Eats :
      (make : MemoryOrder → String → String → AstNode) (ty : TokenType)
      → (type_index TokenType.end == type_index ty) ≡ false
      → Eats stoi (parse_double_argument_call make ty)
  unfolding parse_double_argument_call
  double_argument_call-Eats make ty e = Eats-bind (expect-Eats ty e) λ _.
      Safe-bind memory_order-Safe
        λ o. Safe-bind location-Safe λ x. Safe-bind identifier-Safe λ r. Safe-pure _

  pub cas-Eats : Eats stoi parse_cas_call
  unfolding parse_cas_call
  cas-Eats = Eats-bind (expect-Eats TokenType.cas refl) λ _. Safe-bind memory_order-Safe λ o.
      Safe-bind location-Safe
        λ x. Safe-bind identifier-Safe λ e. Safe-bind identifier-Safe λ d. Safe-pure _

  operation-Outcome :
      (n : ℕ) (t : Token) (ts : List Token) (ty : TokenType)
      → t.token_type ≡ ty
      → Program ts
      → length ts ≤ n
      → Outcome stoi n (parse_operation (t ∷ ts))
  unfolding parse_operation peek advance to_binop_type has_type
  operation-Outcome n t ts TokenType.plus h p b = rw (parse_operation, ◌>>=◌, h) (went p b)
  operation-Outcome n t ts TokenType.minus h p b = rw (parse_operation, ◌>>=◌, h) (went p b)
  operation-Outcome n t ts TokenType.mult h p b = rw (parse_operation, ◌>>=◌, h) (went p b)
  operation-Outcome n t ts TokenType.div h p b = rw (parse_operation, ◌>>=◌, h) (went p b)
  operation-Outcome n t ts _ h p b =
      rw (parse_operation, ◌>>=◌, h)
        (threw (unexpected (rw (has_type, h) (refl, (refl, (refl, (refl, tt)))))))

  operation_at :
      (n : ℕ) (ts : List Token)
      → Program ts
      → length ts ≤ suc n
      → Outcome stoi n (parse_operation ts)
  unfolding parse_operation peek to_binop_type has_type
  operation_at n [] p b = elim p [ ]
  operation_at n (t ∷ _) (ending h) b =
      rw (parse_operation, ◌>>=◌, h)
        (threw (unexpected (rw (has_type, h) (refl, (refl, (refl, (refl, tt)))))))
  operation_at n (t ∷ ts) (more other s p) b =
      operation-Outcome n t ts t.token_type refl p (omega (arith, b))

  binop-Eats : Eats stoi parse_binop
  unfolding parse_binop
  binop-Eats = Eats-bind (expect-Eats TokenType.identifier refl) λ l.
      Safe-bind (Eats-Safe (record { at = operation_at }))
        λ o. Safe-bind identifier-Safe λ r. Safe-pure _

  number-Outcome :
      (n : ℕ) (t : Token) (ts : List Token)
      → Program ts
      → length ts ≤ n
      → Outcome stoi n (parse_number stoi (t ∷ ts))
  unfolding parse_number peek advance
  number-Outcome n t ts p b = elim (Result-cases (stoi t.lexeme)) [
    | inl (v, e) ↦ rw (parse_number, ◌>>=◌, e) (went p b)
    | inr (x, e) ↦ rw (parse_number, ◌>>=◌, e) (threw (from_stoi t.lexeme e))
  ]

  -- behind the equals sign of an assignment
  expression-Outcome :
      (n : ℕ) (t : Token) (ts : List Token) (ty : TokenType)
      → t.token_type ≡ ty
      → Program (t ∷ ts)
      → length (t ∷ ts) ≤ n
      → Outcome stoi n (parse_expression stoi t ty (t ∷ ts))
  unfolding parse_expression has_type
  expression-Outcome n t ts TokenType.cas h p b = (Eats-Safe cas-Eats).at n (t ∷ ts) p b
  expression-Outcome n t ts TokenType.fai h p b =
      (Eats-Safe (double_argument_call-Eats fai_node TokenType.fai refl)).at n (t ∷ ts) p b
  expression-Outcome n t ts TokenType.identifier h p b = (Eats-Safe binop-Eats).at n (t ∷ ts) p b
  expression-Outcome n t ts TokenType.number h p b =
      number-Outcome n t ts (Program-tail (λ e. number_not_end (sym h ∙ e)) p) (omega (arith, b))
  expression-Outcome n t ts _ h p b =
      threw (unexpected (rw (has_type, h) (refl, (refl, (refl, (refl, tt))))))

  pub assignment-Eats : Eats stoi (parse_assignment stoi)
  unfolding parse_assignment
  assignment-Eats = Eats-bind (expect-Eats TokenType.identifier refl) λ r.
      Safe-bind (expect-Safe TokenType.eq refl) λ _. Safe-peek _ λ n t ts p b.
        Outcome-bind n _ _ (expression-Outcome n t ts t.token_type refl p b) λ e. Safe-pure _

  labelled-Outcome :
      (n : ℕ) (t u : Token) (ts : List Token)
      → Program (t ∷ u ∷ ts)
      → length ts ≤ n
      → (has_type TokenType.identifier t && has_type TokenType.semicolon u) ≡ true
      → Outcome stoi n (parse_label stoi (t ∷ u ∷ ts))
  unfolding parse_label peek advance is_labeled_statement_next has_type
  labelled-Outcome n t u ts (more _ _ (ending h)) b e =
      absurd (cc (rw (has_type, h) at (and_right (has_type TokenType.identifier t) _ e)))
  labelled-Outcome n t u ts (more _ _ (more _ _ p)) b e =
      rw (parse_label, is_labeled_statement_next, e) (went p b)

  pub label_at :
      (n : ℕ) (ts : List Token) → Program ts → length ts ≤ n → Outcome stoi n (parse_label stoi ts)
  unfolding parse_label is_labeled_statement_next
  label_at n [] p b = elim p [ ]
  label_at n (t ∷ []) p b = went p b
  label_at n (t ∷ u ∷ ts) p b =
      elim (Bool-cases (has_type TokenType.identifier t && has_type TokenType.semicolon u)) [
        | inl e ↦ labelled-Outcome n t u ts p (omega (arith, b)) e
        | inr e ↦ rw (parse_label, is_labeled_statement_next, e) (went p b)
      ]
