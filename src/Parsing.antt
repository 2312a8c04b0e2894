-- ===== src/Parsing.antt =====
-- src/parser/parser.cpp: the parsing functions that the others are made of. The position in the vector
-- of tokens is given by the tokens that are left.
use weak_memory_models_simul.Prelude.{
  ℕ, String, Bool, false, ◌&&◌, List, [], ◌∷◌, if◌then◌else◌, ◌==◌, nat_eq, string_eq,
}
use weak_memory_models_simul.Prelude.Result.{ok, err}
use weak_memory_models_simul.Prelude.Map.{string_less}
use weak_memory_models_simul.Lang.{
  MemoryOrder, sequentially_consistent, release, acquire, release_acquire, relaxed,
}
use weak_memory_models_simul.Lexer.Tokens.{Token, TokenType}
use weak_memory_models_simul.Exceptions.{Checked, out_of_range, logic_error, unexpected_token}
use weak_memory_models_simul.Ast.{BinOpType}

-- the value of the enumeration
abbrev pub type_index : TokenType → ℕ
type_index TokenType.identifier = 0
type_index TokenType.location = 1
type_index TokenType.number = 2
type_index TokenType.eq = 3
type_index TokenType.plus = 4
type_index TokenType.minus = 5
type_index TokenType.mult = 6
type_index TokenType.div = 7
type_index TokenType.semicolon = 8
type_index TokenType.condition = 9
type_index TokenType.goto = 10
type_index TokenType.thread_goto = 11
type_index TokenType.memory_order = 12
type_index TokenType.load = 13
type_index TokenType.store = 14
type_index TokenType.cas = 15
type_index TokenType.fai = 16
type_index TokenType.fence = 17
type_index TokenType.end = 18
type_index TokenType.invalid = 19

-- Token::is
unfoldable pub has_type : TokenType → Token → Bool
has_type ty t = type_index t.token_type == type_index ty

-- A parsing function: its result and the tokens left, or the exception.
abbrev pub Parsing : Type 0 → Type 0
Parsing A = List Token → Checked (A × List Token)

infixl 5 ◌>>=◌ ◌>>◌
abbrev pub ◌>>=◌ : {A B : Type 0} → Parsing A → (A → Parsing B) → Parsing B
◌>>=◌ m f ts = elim (m ts) [ err e ↦ err e | ok (a, rest) ↦ f a rest ]

abbrev pub ◌>>◌ : {A B : Type 0} → Parsing A → Parsing B → Parsing B
m >> k = m >>= λ _. k

abbrev pub pure : {A : Type 0} → A → Parsing A
pure a ts = ok (a, ts)

unfoldable pub peek : Parsing Token
peek [] = err out_of_range
peek (t ∷ ts) = ok (t, t ∷ ts)

unfoldable pub advance : Parsing (Unit {0})
advance [] = ok (tt, [])
advance (t ∷ ts) = ok (tt, ts)

unfoldable pub is_labeled_statement_next : List Token → Bool
is_labeled_statement_next [] = false
is_labeled_statement_next (t ∷ []) = false
is_labeled_statement_next (t ∷ u ∷ ts) =
    has_type TokenType.identifier t && has_type TokenType.semicolon u

unfoldable pub to_memory_order : String → Checked MemoryOrder
to_memory_order lexeme =
    if lexeme == "SEQ_CST"
    then ok sequentially_consistent
    else if lexeme == "REL"
    then ok release
    else if lexeme == "ACQ"
    then ok acquire
    else if lexeme == "REL_ACQ"
    then ok release_acquire
    else if lexeme == "RLX"
    then ok relaxed
    else err logic_error

-- if (!peek().is(type)) throw unexpected_token(peek(), { type }); the lexeme; advance()
unfoldable pub expect : TokenType → Parsing String
expect ty = do
  t ← peek
  (if has_type ty t then (λ ts. ok (tt, ts)) else (λ ts. err (unexpected_token t (ty ∷ []))))
  advance
  pure t.lexeme

-- the step of the memory order, in three of the functions
unfoldable pub expect_memory_order : Parsing MemoryOrder
expect_memory_order = do
  lexeme ← expect TokenType.memory_order
  λ ts. elim (to_memory_order lexeme) [ err e ↦ err e | ok o ↦ ok (o, ts) ]

-- to_binop_type, with the test before it
unfoldable pub to_binop_type : Token → TokenType → Checked BinOpType
to_binop_type t TokenType.plus = ok BinOpType.plus
to_binop_type t TokenType.minus = ok BinOpType.minus
to_binop_type t TokenType.mult = ok BinOpType.mult
to_binop_type t TokenType.div = ok BinOpType.div
to_binop_type t _ =
    err
      (unexpected_token t (TokenType.plus ∷ TokenType.minus ∷ TokenType.mult ∷ TokenType.div ∷ []))

unfoldable pub parse_operation : Parsing BinOpType
unfolding to_binop_type
parse_operation = do
  t ← peek
  operation ← (λ ts. elim (to_binop_type t t.token_type) [ err e ↦ err e | ok o ↦ ok (o, ts) ])
  advance
  pure operation
