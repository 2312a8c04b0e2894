-- ===== src/Exceptions.antt =====
-- src/exceptions/exceptions.h, and the other ways in which a run can go wrong: the library's
-- std::out_of_range and std::runtime_error, a failed assertion, and undefined behaviour.
pub mod Messages
use weak_memory_models_simul.Prelude.{ℕ, String, List}
use weak_memory_models_simul.Prelude.Result.{Result}
use weak_memory_models_simul.Lexer.Tokens.{Token, TokenType}

pub data Error : Type 0 where
  invalid_arguments : String → Error
  unable_to_open_file : String → Error
  invalid_token : Token → Error
  unexpected_token : Token → List TokenType → Error
  multiple_statements_with_same_label : String → Error
  unknown_label : String → Error
  invalid_thread_interleaving : ℕ → ℕ → Error
  -- std::out_of_range of `at` and of `std::stoi`
  out_of_range : Error
  -- std::logic_error
  logic_error : Error
  -- std::runtime_error of the fences of strong release acquire
  fences_not_supported : Error
  assertion_failed : Error
  undefined_behaviour : Error

abbrev pub Checked {ℓ} : Type ℓ → Type ℓ
Checked A = Result Error A
