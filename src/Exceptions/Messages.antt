-- ===== src/Exceptions/Messages.antt =====
-- The texts of src/exceptions/exceptions.h, and those of src/lexer/token.h and token.cpp that they
-- hold. `to_string` is the library's.
use weak_memory_models_simul.Prelude.{
  ℕ, suc, ◌+◌, ◌-◌, String, List, [], ◌∷◌, Option, none, some, ◌≡◌, sym, ap, ◌∙◌, arith, true,
  false, length, if◌then◌else◌, ◌==◌, nat_eq,
}
use weak_memory_models_simul.Prelude.Text.{◌<>◌, concat_assoc, concat-nil}
use weak_memory_models_simul.Lexer.Tokens.{TokenType, Position}
use weak_memory_models_simul.Exceptions.{
  Error, invalid_arguments, unable_to_open_file, invalid_token, unexpected_token,
  multiple_statements_with_same_label, unknown_label, invalid_thread_interleaving,
}

abbrev pub to_readable_type : TokenType → String
to_readable_type TokenType.identifier = "IDENTIFIER"
to_readable_type TokenType.location = "LOCATION"
to_readable_type TokenType.number = "NUMBER"
to_readable_type TokenType.eq = "EQ"
to_readable_type TokenType.plus = "PLUS"
to_readable_type TokenType.minus = "MINUS"
to_readable_type TokenType.mult = "MULT"
to_readable_type TokenType.div = "DIV"
to_readable_type TokenType.semicolon = "SEMICOLON"
to_readable_type TokenType.condition = "CONDITION"
to_readable_type TokenType.goto = "GOTO"
to_readable_type TokenType.thread_goto = "THREAD_GOTO"
to_readable_type TokenType.memory_order = "MEMORY_ORDER"
to_readable_type TokenType.load = "LOAD"
to_readable_type TokenType.store = "STORE"
to_readable_type TokenType.cas = "CAS"
to_readable_type TokenType.fai = "FAI"
to_readable_type TokenType.fence = "FENCE"
to_readable_type TokenType.end = "END"
to_readable_type TokenType.invalid = "INVALID"

-- the loop over the expected types, behind `expected_types_msg` and at the index `i` of `size`
unfoldable pub expected_types_from : ℕ → ℕ → String → List TokenType → String
expected_types_from size i expected_types_msg [] = expected_types_msg
expected_types_from size i expected_types_msg (ty ∷ tys) =
    let named = expected_types_msg <> to_readable_type ty in
    expected_types_from size (suc i) (if i == size - 1 then named else named <> ", ") tys

unfoldable pub get_unexpected_token_msg : List TokenType → String
unfolding expected_types_from
get_unexpected_token_msg expected_types =
    expected_types_from (length expected_types) 0 "" expected_types

module _ (to_string : ℕ → String) where
  unfoldable pub as_string : Position → String
  as_string pos =
      "(index: "
      <> to_string pos.index
      <> ", column: "
      <> to_string pos.column
      <> ", line: "
      <> to_string pos.line
      <> ")"

  -- The text of an exception of the program; that of another exception is the library's.
  unfoldable pub what : Error → Option String
  unfolding as_string get_unexpected_token_msg
  what (invalid_arguments msg) = some msg
  what (unable_to_open_file filename) = some ("Unable to open file at '" <> filename <> "'")
  what (invalid_token t) = some ("Invalid token '" <> t.lexeme <> "' at: " <> as_string t.start_pos)
  what (unexpected_token t expected_types) = some (
      "Unexpected token '"
      <> t.lexeme
      <> "', with type "
      <> to_readable_type t.token_type
      <> " at: "
      <> as_string t.start_pos
      <> ". Expected type(s): "
      <> get_unexpected_token_msg expected_types)
  what (multiple_statements_with_same_label label_name) =
      some ("Multiple statements have the same label: '" <> label_name <> "'")
  what (unknown_label label_name) = some ("Unknown label: '" <> label_name <> "'")
  what (invalid_thread_interleaving prev_thread_id next_thread_id) = some (
      "Invalid thread interleaving: from thread "
      <> to_string prev_thread_id
      <> " to thread "
      <> to_string next_thread_id)
  what _ = none

-- The names of types, with a separator between each two.
abbrev pub separated : List TokenType → String
separated [] = ""
separated (ty ∷ []) = to_readable_type ty
separated (ty ∷ u ∷ tys) = to_readable_type ty <> ", " <> separated (u ∷ tys)

types_from-separated :
    (size i : ℕ) (msg : String) (tys : List TokenType)
    → i + length tys ≡ size
    → expected_types_from size i msg tys ≡ msg <> separated tys
unfolding expected_types_from
types_from-separated size i msg [] h = sym (concat-nil msg)
types_from-separated size i msg (ty ∷ []) h =
    let named = msg <> to_readable_type ty in
    let last : (i == size - 1) ≡ true = (nat_eq.test_iff i (size - 1)).1 (omega (arith, h)) in
    ap (λ b. if b then named else named <> ", ") last
types_from-separated size i msg (ty ∷ u ∷ tys) h =
    let named = msg <> to_readable_type ty in
    let followed : (i == size - 1) ≡ false = ground (arith, h, nat_eq.test_iff) in
    ap (λ b. expected_types_from size (suc i) (if b then named else named <> ", ") (u ∷ tys))
      followed
    ∙ types_from-separated size (suc i) (named <> ", ") (u ∷ tys) (omega (arith, h))
    ∙ concat_assoc named ", " (separated (u ∷ tys))
    ∙ concat_assoc msg (to_readable_type ty) (", " <> separated (u ∷ tys))

-- The message of an unexpected token lists the names of the expected types, separated by commas, with
-- none behind the last one.
pub types-separated : (tys : List TokenType) → get_unexpected_token_msg tys ≡ separated tys
unfolding get_unexpected_token_msg
types-separated tys = types_from-separated (length tys) 0 "" tys (omega arith)
