-- ===== src/FrontEnd/Reparse.antt =====
-- parser.cpp reads a statement back from its words.
use weak_memory_models_simul.Prelude.{String, [], ◌∷◌, ◌≡◌, refl, ap, nat_eq, string_eq}
use weak_memory_models_simul.Prelude.Result.{ok}
use weak_memory_models_simul.Prelude.Int.{ℤ}
use weak_memory_models_simul.Lang.{
  MemoryOrder, sequentially_consistent, release, acquire, release_acquire, relaxed,
}
use weak_memory_models_simul.Ast.{AstNode, StatementNode, BinOpType, CasNode, NumberNode, BinOpNode}
use weak_memory_models_simul.Utils.{get_binop, get_memory_order}
use weak_memory_models_simul.Lexer.Tokens.{Token, TokenType}
use weak_memory_models_simul.Lexer.Spells.{word}
use weak_memory_models_simul.Exceptions.{Checked}
use weak_memory_models_simul.Parser.Parses.{
  Parses, Parses-first, Parses-pure, Parses-map, Parses-peek, Parses-expect, Parses-order,
  Parses-operation,
}
use weak_memory_models_simul.Parser.{
  parse_binop, parse_condition, parse_goto, parse_thread_goto, parse_double_argument_call,
  parse_cas_call, parse_fence_call, parse_number, parse_expression, parse_assignment, parse_body,
  load_node, store_node, fai_node,
}
use weak_memory_models_simul.Parsing.{◌>>=◌, pure, peek, advance, to_memory_order, to_binop_type}
use weak_memory_models_simul.FrontEnd.Printable.{
  IsNumeral, IsExpression, IsPrintable, number, binop, cas_result, fai_result,
}
use weak_memory_models_simul.FrontEnd.Words.{operator, identifier, order, location, words}

order-inverse : (o : MemoryOrder) → to_memory_order (get_memory_order o) ≡ ok o
unfolding to_memory_order get_memory_order
order-inverse sequentially_consistent = refl
order-inverse release = refl
order-inverse acquire = refl
order-inverse release_acquire = refl
order-inverse relaxed = refl

operator-inverse : (o : BinOpType) (t : Token) → to_binop_type t (operator o) ≡ ok o
unfolding to_binop_type
operator-inverse BinOpType.plus t = refl
operator-inverse BinOpType.minus t = refl
operator-inverse BinOpType.mult t = refl
operator-inverse BinOpType.div t = refl

kind : (t : Token) (ty : TokenType) (x : String) → word t ≡ (ty, x) → t.token_type ≡ ty
kind t ty x h = ap (λ w. w.0) h

Parses-call :
    (make : MemoryOrder → String → String → AstNode) (ty : TokenType) (w : String) (o : MemoryOrder)
    (x l : String)
    → Parses
        (parse_double_argument_call make ty)
        ((ty, w) ∷ order o ∷ location x ∷ identifier l ∷ [])
        (make o x l)
unfolding parse_double_argument_call
Parses-call make ty w o x l = Parses-expect ty _ w _ _ (
    Parses-order o _ _ _ _ (order-inverse o) (
      Parses-expect TokenType.location _ x _ _
        (Parses-expect TokenType.identifier _ l _ _ (Parses-pure _))))

Parses-cas :
    (n : CasNode)
    → Parses parse_cas_call
        ((TokenType.cas, "cas")
          ∷ order n.memory_order
          ∷ location n.location_name
          ∷ identifier n.register_expected
          ∷ identifier n.register_desired
          ∷ [])
        (AstNode.cas n)
unfolding parse_cas_call
Parses-cas n = Parses-expect TokenType.cas _ "cas" _ _ (
    Parses-order n.memory_order _ _ _ _ (order-inverse n.memory_order) (
      Parses-expect TokenType.location _ _ _ _ (
        Parses-expect TokenType.identifier _ _ _ _
          (Parses-expect TokenType.identifier _ _ _ _ (Parses-pure _)))))

Parses-binop :
    (n : BinOpNode)
    → Parses parse_binop
        (identifier n.left_register
          ∷ (operator n.operation, get_binop n.operation)
          ∷ identifier n.right_register
          ∷ [])
        (AstNode.binop n)
unfolding parse_binop
Parses-binop n = Parses-expect TokenType.identifier _ _ _ _ (
    Parses-operation n.operation (operator n.operation) _ _ _ _ (operator-inverse n.operation)
      (Parses-expect TokenType.identifier _ _ _ _ (Parses-pure _)))

abbrev labelled : String → AstNode → StatementNode
labelled label n = record { statement = n; label = label }

module _ (to_string : ℤ → String) (stoi : String → Checked ℤ) where
  Parses-number :
      (n : NumberNode)
      → IsNumeral to_string stoi n.value
      → Parses (parse_number stoi) ((TokenType.number, to_string n.value) ∷ []) (AstNode.number n)
  unfolding parse_number peek advance
  Parses-number n v = Parses-first _ _ _ _ (λ t ts us h e.
      rw (parse_number, ◌>>=◌, ap (λ w. w.1) h, v.inverse)
        ((Parses-pure (AstNode.number n)).at ts us e))

  Parses-expression :
      (e : AstNode) (r : String)
      → IsExpression to_string stoi e
      → Parses
          (peek >>= λ t.
            parse_expression stoi t t.token_type >>= λ x. pure (AstNode.assignment r x))
          (words to_string e)
          (AstNode.assignment r e)
  unfolding parse_expression words
  Parses-expression _ r (number {n = n} v) = Parses-peek _ _ _ _ (λ t h.
      rw (kind t TokenType.number _ h)
        (Parses-map _ _ _ (AstNode.assignment r) (Parses-number n v)))
  Parses-expression _ r (binop {n = n} hl hd) = Parses-peek _ _ _ _ (λ t h.
      rw (kind t TokenType.identifier _ h)
        (Parses-map _ _ _ (AstNode.assignment r) (Parses-binop n)))
  Parses-expression _ r (cas_result {n = n} hx he hd) = Parses-peek _ _ _ _ (λ t h.
      rw (kind t TokenType.cas _ h) (Parses-map _ _ _ (AstNode.assignment r) (Parses-cas n)))
  Parses-expression _ r (fai_result {n = n} hx hl) = Parses-peek _ _ _ _ (λ t h.
      rw (kind t TokenType.fai _ h) (
        Parses-map _ _ _ (AstNode.assignment r) (
          Parses-call fai_node TokenType.fai "fai" n.memory_order n.location_name n.register_name)))

  Parses-assignment :
      (e : AstNode) (r : String)
      → IsExpression to_string stoi e
      → Parses
          (parse_assignment stoi)
          (words to_string (AstNode.assignment r e))
          (AstNode.assignment r e)
  unfolding parse_assignment words
  Parses-assignment e r h =
      Parses-expect TokenType.identifier _ r _ _
        (Parses-expect TokenType.eq _ "=" _ _ (Parses-expression e r h))

  -- the statement, behind its label
  pub Parses-body :
      (n : AstNode) (label : String)
      → IsPrintable to_string stoi n
      → Parses
          (peek >>= λ t. parse_body stoi t t.token_type >>= λ x. pure (labelled label x))
          (words to_string n)
          (labelled label n)
  unfolding parse_body words parse_condition parse_goto parse_thread_goto parse_fence_call
  Parses-body _ label (IsPrintable.condition {n = n} hw hl) = Parses-peek _ _ _ _ (λ t h.
      rw (kind t TokenType.condition _ h) (
        Parses-map _ _ _ (labelled label) (
          Parses-expect TokenType.condition _ "if" _ _ (
            Parses-expect TokenType.identifier _ _ _ _ (
              Parses-expect TokenType.goto _ "goto" _ _ (
                Parses-expect TokenType.identifier _ _ _ _ (Parses-pure (AstNode.condition n))))))))
  Parses-body _ label (IsPrintable.goto {n = n} hl) = Parses-peek _ _ _ _ (λ t h.
      rw (kind t TokenType.goto _ h) (
        Parses-map _ _ _ (labelled label) (
          Parses-expect TokenType.goto _ "goto" _ _
            (Parses-expect TokenType.identifier _ _ _ _ (Parses-pure (AstNode.goto n))))))
  Parses-body _ label (IsPrintable.thread_goto {n = n} hl) = Parses-peek _ _ _ _ (λ t h.
      rw (kind t TokenType.thread_goto _ h) (
        Parses-map _ _ _ (labelled label) (
          Parses-expect TokenType.thread_goto _ "thread_goto" _ _
            (Parses-expect TokenType.identifier _ _ _ _ (Parses-pure (AstNode.thread_goto n))))))
  Parses-body _ label (IsPrintable.load {n = n} hx hl) = Parses-peek _ _ _ _ (λ t h.
      rw (kind t TokenType.load _ h) (
        Parses-map _ _ _ (labelled label) (
          Parses-call load_node TokenType.load "load" n.memory_order n.location_name
            n.register_name)))
  Parses-body _ label (IsPrintable.store {n = n} hx hl) = Parses-peek _ _ _ _ (λ t h.
      rw (kind t TokenType.store _ h) (
        Parses-map _ _ _ (labelled label) (
          Parses-call store_node TokenType.store "store" n.memory_order n.location_name
            n.register_name)))
  Parses-body _ label (IsPrintable.fai {n = n} hx hl) = Parses-peek _ _ _ _ (λ t h.
      rw (kind t TokenType.fai _ h) (
        Parses-map _ _ _ (labelled label) (
          Parses-call fai_node TokenType.fai "fai" n.memory_order n.location_name n.register_name)))
  Parses-body _ label (IsPrintable.cas {n = n} hx he hd) =
      Parses-peek _ _ _ _
        (λ t h. rw (kind t TokenType.cas _ h) (Parses-map _ _ _ (labelled label) (Parses-cas n)))
  Parses-body _ label (IsPrintable.fence {n = n}) = Parses-peek _ _ _ _ (λ t h.
      rw (kind t TokenType.fence _ h) (
        Parses-map _ _ _ (labelled label) (
          Parses-expect TokenType.fence _ "fence" _ _ (
            Parses-order n.memory_order _ _ _ _ (order-inverse n.memory_order)
              (Parses-pure (AstNode.fence n))))))
  Parses-body _ label (IsPrintable.assignment {r = r} {e = e} hw he) = Parses-peek _ _ _ _ (λ t h.
      rw (kind t TokenType.identifier _ h)
        (Parses-map _ _ _ (labelled label) (Parses-assignment e r he)))
