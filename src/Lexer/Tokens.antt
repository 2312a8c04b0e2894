-- ===== src/Lexer/Tokens.antt =====
-- src/lexer/token.h: positions, kinds of tokens, tokens.
use weak_memory_models_simul.Prelude.{ℕ, String}

pub record Position : Type 0 where
  pub index : ℕ
  pub column : ℕ
  pub line : ℕ

pub data TokenType : Type 0 where
  identifier location number : TokenType
  eq plus minus mult div semicolon : TokenType
  condition goto thread_goto memory_order : TokenType
  load store cas fai fence : TokenType
  end invalid : TokenType

-- The length of a token is that of its lexeme.
pub record Token : Type 0 where
  pub token_type : TokenType
  pub lexeme : String
  pub start_pos : Position
