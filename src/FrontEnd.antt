-- ===== src/FrontEnd.antt =====
-- The part of src/main.cpp between reading a program's file and running it: the lexer and the parser.
pub mod Spelling
pub mod Printable
pub mod Words
pub mod Printed
pub mod Lines
pub mod Reparse
pub mod RoundTrip
mod Examples
pub mod Errors
use weak_memory_models_simul.Prelude.{ℕ, String, Option, none, some}
use weak_memory_models_simul.Prelude.Int.{ℤ}
use weak_memory_models_simul.Prelude.Map.{Map}
use weak_memory_models_simul.Ast.{ProgramNode}
use weak_memory_models_simul.Exceptions.{Checked}
use weak_memory_models_simul.Lexer.{get_tokens}
use weak_memory_models_simul.Parser.{parse}

-- `none`: the fuel ran out, of the lexer's or the parser's loop
unfoldable pub front_end :
    (String → Checked ℤ) → ℕ → String → Option (Checked (ProgramNode × Map String ℕ))
front_end stoi fuel code = elim (get_tokens fuel code) [
  | none ↦ none
  | some tokens ↦ parse stoi fuel tokens
]
