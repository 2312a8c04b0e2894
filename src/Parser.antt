-- ===== src/Parser.antt =====
-- src/parser: from tokens to the syntax tree and the labels; `stoi` is the library's std::stoi.
pub mod Labels
pub mod Outcomes
pub mod Statements
pub mod Programs
pub mod Parses
use weak_memory_models_simul.Prelude.{
  ℕ, zero, suc, String, Bool, true, false, ◌&&◌, ◌||◌, List, [], ◌∷◌, ◌++◌, Option, none, some,
  if◌then◌else◌, is_some, ◌==◌, nat_eq, string_eq, length,
}
use weak_memory_models_simul.Prelude.Result.{Result, ok, err}
use weak_memory_models_simul.Prelude.Int.{ℤ}
use weak_memory_models_simul.Prelude.Map.{Map, lookup, put, string_less}
use weak_memory_models_simul.Lang.{
  MemoryOrder, sequentially_consistent, release, acquire, release_acquire, relaxed,
}
use weak_memory_models_simul.Lexer.Tokens.{Token, TokenType}
use weak_memory_models_simul.Exceptions.{
  Checked, out_of_range, logic_error, unexpected_token, invalid_token,
  multiple_statements_with_same_label,
}
use weak_memory_models_simul.Ast.{
  AstNode, StatementNode, ProgramNode, BinOpType, BinOpNode, NumberNode, ConditionNode, GotoNode,
  ThreadGotoNode, LoadNode, StoreNode, CasNode, FaiNode, FenceNode,
}
use weak_memory_models_simul.Parsing.{
  ◌>>=◌, type_index, has_type, Parsing, ◌>>◌, pure, peek, advance, is_labeled_statement_next,
  to_memory_order, expect, expect_memory_order, to_binop_type, parse_operation,
}

unfoldable pub parse_binop : Parsing AstNode
parse_binop = do
  left ← expect TokenType.identifier
  operation ← parse_operation
  right ← expect TokenType.identifier
  pure (
      AstNode.binop
        (record { left_register = left; operation = operation; right_register = right }))

unfoldable pub parse_condition : Parsing AstNode
parse_condition = do
  expect TokenType.condition
  register ← expect TokenType.identifier
  expect TokenType.goto
  label ← expect TokenType.identifier
  pure (AstNode.condition (record { register_name = register; goto_label = label }))

unfoldable pub parse_goto : Parsing AstNode
parse_goto = do
  expect TokenType.goto
  label ← expect TokenType.identifier
  pure (AstNode.goto (record { goto_label = label }))

unfoldable pub parse_thread_goto : Parsing AstNode
parse_thread_goto = do
  expect TokenType.thread_goto
  label ← expect TokenType.identifier
  pure (AstNode.thread_goto (record { thread_goto_label = label }))

-- The node's constructor and its kind of token are the template's arguments.
unfoldable pub parse_double_argument_call :
    (MemoryOrder → String → String → AstNode) → TokenType → Parsing AstNode
parse_double_argument_call make ty = do
  expect ty
  order ← expect_memory_order
  location ← expect TokenType.location
  register ← expect TokenType.identifier
  pure (make order location register)

unfoldable pub parse_cas_call : Parsing AstNode
parse_cas_call = do
  expect TokenType.cas
  order ← expect_memory_order
  location ← expect TokenType.location
  expected ← expect TokenType.identifier
  desired ← expect TokenType.identifier
  pure (
      AstNode.cas (record {
        memory_order = order;
        location_name = location;
        register_expected = expected;
        register_desired = desired;
      }))

unfoldable pub parse_fence_call : Parsing AstNode
parse_fence_call = do
  expect TokenType.fence
  order ← expect_memory_order
  pure (AstNode.fence (record { memory_order = order }))

abbrev pub load_node : MemoryOrder → String → String → AstNode
load_node o x r = AstNode.load (record { memory_order = o; location_name = x; register_name = r })

abbrev pub store_node : MemoryOrder → String → String → AstNode
store_node o x r = AstNode.store (record { memory_order = o; location_name = x; register_name = r })

abbrev pub fai_node : MemoryOrder → String → String → AstNode
fai_node o x r = AstNode.fai (record { memory_order = o; location_name = x; register_name = r })

module _ (stoi : String → Checked ℤ) where
  unfoldable pub parse_number : Parsing AstNode
  parse_number = do
    t ← peek
    value ← (λ ts. elim (stoi t.lexeme) [ err e ↦ err e | ok v ↦ ok (v, ts) ])
    advance
    pure (AstNode.number (record { value = value }))

  -- the right side of an assignment, by the kind of its first token
  unfoldable pub parse_expression : Token → TokenType → Parsing AstNode
  unfolding parse_cas_call parse_double_argument_call parse_binop parse_number
  parse_expression t TokenType.cas = parse_cas_call
  parse_expression t TokenType.fai = parse_double_argument_call fai_node TokenType.fai
  parse_expression t TokenType.identifier = parse_binop
  parse_expression t TokenType.number = parse_number
  parse_expression t _ = λ ts. err (
      unexpected_token t
        (TokenType.identifier ∷ TokenType.number ∷ TokenType.cas ∷ TokenType.fai ∷ []))

  unfoldable pub parse_assignment : Parsing AstNode
  unfolding parse_expression
  parse_assignment = do
    register ← expect TokenType.identifier
    expect TokenType.eq
    t ← peek
    expr ← parse_expression t t.token_type
    pure (AstNode.assignment register expr)

  -- the optional label in front of a statement: empty where there is none
  unfoldable pub parse_label : Parsing String
  parse_label ts =
      if is_labeled_statement_next ts
      then (do t ← peek; advance; advance; pure t.lexeme) ts
      else ok ("", ts)

  -- the switch of `parse_statement`
  unfoldable pub parse_body : Token → TokenType → Parsing AstNode
  unfolding parse_binop parse_condition parse_goto parse_thread_goto parse_double_argument_call
      parse_cas_call parse_fence_call parse_assignment
  parse_body t TokenType.identifier = parse_assignment
  parse_body t TokenType.condition = parse_condition
  parse_body t TokenType.goto = parse_goto
  parse_body t TokenType.thread_goto = parse_thread_goto
  parse_body t TokenType.load = parse_double_argument_call load_node TokenType.load
  parse_body t TokenType.store = parse_double_argument_call store_node TokenType.store
  parse_body t TokenType.fai = parse_double_argument_call fai_node TokenType.fai
  parse_body t TokenType.cas = parse_cas_call
  parse_body t TokenType.fence = parse_fence_call
  parse_body t TokenType.end = do advance; pure AstNode.end
  parse_body t _ = λ ts. err (
      unexpected_token t (
        TokenType.identifier ∷ TokenType.condition ∷ TokenType.load ∷ TokenType.store
        ∷ TokenType.fai ∷ TokenType.cas ∷ TokenType.fence ∷ TokenType.end ∷ []))

  unfoldable pub parse_statement : Parsing StatementNode
  unfolding parse_label parse_body
  parse_statement = do
    label ← parse_label
    t ← peek
    statement ← parse_body t t.token_type
    pure (record { statement = statement; label = label })

  -- the loop of `parse`; `none`: the fuel ran out
  unfoldable pub parse_statements : ℕ → List Token → Option (Checked (List StatementNode))
  parse_statements fuel [] = some (ok [])
  parse_statements zero (t ∷ ts) = none
  parse_statements (suc fuel) (t ∷ ts) = elim (parse_statement (t ∷ ts)) [
    | err e ↦ some (err e)
    | ok (statement, rest) ↦ elim (parse_statements fuel rest) [
      | none ↦ none
      | some (err e) ↦ some (err e)
      | some (ok statements) ↦ some (ok (statement ∷ statements))
    ]
  ]

-- LabeledInstructionsRetriever, from an index on and behind the labels found so far
unfoldable pub labeled_instructions : ℕ → List StatementNode → Map String ℕ → Checked (Map String ℕ)
labeled_instructions index [] labels = ok labels
labeled_instructions index (statement ∷ statements) labels =
    let label = statement.label in
    let skip = labeled_instructions (suc index) statements labels in
    let add = labeled_instructions (suc index) statements (put label index labels) in
    if label == ""
    then skip
    else if is_some (lookup label labels)
    then err (multiple_statements_with_same_label label)
    else add

-- the first invalid token
unfoldable pub find_invalid : List Token → Option Token
unfolding has_type
find_invalid [] = none
find_invalid (t ∷ ts) =
    let rest = find_invalid ts in if has_type TokenType.invalid t then some t else rest

unfoldable pub parse :
    (String → Checked ℤ) → ℕ → List Token → Option (Checked (ProgramNode × Map String ℕ))
unfolding find_invalid parse_statements labeled_instructions
parse stoi fuel tokens = elim (find_invalid tokens) [
  | some t ↦ some (err (invalid_token t))
  | none ↦ elim (parse_statements stoi fuel tokens) [
    | none ↦ none
    | some (err e) ↦ some (err e)
    | some (ok statements) ↦ elim (labeled_instructions 0 statements []) [
      | err e ↦ some (err e)
      | ok labels ↦ some (ok (record { statements = statements }, labels))
    ]
  ]
]
