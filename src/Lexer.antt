-- ===== src/Lexer.antt =====
-- src/lexer/lexer.cpp: from the text of a program to its tokens. The pointer into the text is given by
-- the text that is left; it ends where the C string ends, so that `peek` is 0 there.
pub mod Tokens
pub mod Keywords
pub mod Scanned
pub mod Rounds
pub mod Names
pub mod Reading
pub mod Spells
pub mod Symbols
pub mod Located
pub mod Positions
pub mod Completion
use Prim.Native.Char.{code}
use weak_memory_models_simul.Prelude.{
  ℕ, zero, suc, String, Bool, true, false, ◌||◌, List, [], ◌∷◌, Option, none, some, if◌then◌else◌,
  ◌==◌, nat_eq, not,
}
use weak_memory_models_simul.Prelude.Text.{first_code, behind_first, view}
use weak_memory_models_simul.Utils.{is_space, is_newline, is_digit, is_identifier_char}
use weak_memory_models_simul.Lexer.Tokens.{Position, TokenType, Token}
use weak_memory_models_simul.Lexer.Keywords.{keyword_type}

-- m_program_ptr and m_current_position
pub record Lexer : Type 0 where
  pub program : String
  pub current_position : Position

abbrev pub peek : Lexer → ℕ
peek l = first_code l.program

-- the position behind a character
unfoldable pub next_position : ℕ → Position → Position
next_position c p = record {
  index = suc p.index;
  column = if is_newline c then 0 else suc p.column;
  line = if is_newline c then suc p.line else p.line;
}

unfoldable pub advance : Lexer → Lexer
advance l = record {
  program = behind_first l.program;
  current_position = next_position (peek l) l.current_position;
}

-- a loop of `advance` while the character at the pointer passes a test, which fails at the end:
-- the number of its rounds, and the lexer behind it
unfoldable pub scan : (ℕ → Bool) → String → Position → ℕ × Lexer
scan test String.[] p = (0, record { program = String.[]; current_position = p })
scan test (String.◌∷◌ c s) p = elim (test (code c)) [
  | true ↦ let (len, behind) = scan test s (next_position (code c) p) in (suc len, behind)
  | false ↦ (0, record { program = String.◌∷◌ c s; current_position = p })
]

unfoldable pub skip_blank : Lexer → Lexer
unfolding scan
skip_blank l = (scan is_space l.program l.current_position).1

-- Token(type, lexeme_start, len, start_pos), where the scan has the length
unfoldable pub make_token : TokenType → Lexer → ℕ → Token
make_token ty l len = record {
  token_type = ty;
  lexeme = view len l.program;
  start_pos = l.current_position;
}

unfoldable pub get_atom_token : TokenType → Lexer → Token × Lexer
unfolding make_token advance
get_atom_token ty l = (make_token ty l 1, advance l)

unfoldable pub get_number_token : Lexer → Token × Lexer
unfolding make_token scan
get_number_token l =
    let (len, behind) = scan is_digit l.program l.current_position in
    (make_token TokenType.number l len, behind)

unfoldable pub get_keyword_or_identifier_token : Lexer → Token × Lexer
unfolding make_token scan keyword_type
get_keyword_or_identifier_token l =
    let (len, behind) = scan is_identifier_char l.program l.current_position in
    (make_token (keyword_type (view len l.program)) l len, behind)

unfoldable pub get_location_token : Lexer → Token × Lexer
unfolding make_token scan get_atom_token
get_location_token l =
    if not (is_identifier_char (peek l))
    then get_atom_token TokenType.invalid l
    else (let (len, behind) = scan is_identifier_char l.program l.current_position in
        (make_token TokenType.location l len, behind))

-- the kind of the token at a character that is a token of its own
unfoldable pub atom_type : ℕ → TokenType
atom_type c =
    if c == b'='
    then TokenType.eq
    else if c == b'+'
    then TokenType.plus
    else if c == b'-'
    then TokenType.minus
    else if c == b'*'
    then TokenType.mult
    else if c == b'/'
    then TokenType.div
    else if c == b':'
    then TokenType.semicolon
    else TokenType.invalid

-- `get_next_token` behind `skip_blank`
unfoldable pub token_at : Lexer → Token × Lexer
unfolding get_number_token get_keyword_or_identifier_token get_location_token get_atom_token advance
    make_token atom_type
token_at l =
    if peek l == 0
    then (make_token TokenType.end l 0, l)
    else if is_digit (peek l)
    then get_number_token l
    else if is_identifier_char (peek l)
    then get_keyword_or_identifier_token l
    else if peek l == b'#'
    then get_location_token (advance l)
    else get_atom_token (atom_type (peek l)) l

unfoldable pub get_next_token : Lexer → Token × Lexer
unfolding token_at skip_blank
get_next_token l = token_at (skip_blank l)

-- result.back().is_one_of(Token::Type::END, Token::Type::INVALID)
unfoldable pub is_last : Token → Bool
is_last t = elim t.token_type [ TokenType.end ↦ true | TokenType.invalid ↦ true | _ ↦ false ]

-- the loop of `get_tokens`; `none`: the fuel ran out
unfoldable pub tokens_from : ℕ → Lexer → Option (List Token)
tokens_from zero l = none
tokens_from (suc fuel) l = elim (is_last (get_next_token l).0) [
  | true ↦ some ((get_next_token l).0 ∷ [])
  | false ↦ elim (tokens_from fuel (get_next_token l).1) [
    | none ↦ none
    | some tokens ↦ some ((get_next_token l).0 ∷ tokens)
  ]
]

abbrev pub start : Position
start = record { index = 0; column = 0; line = 0 }

unfoldable pub get_tokens : ℕ → String → Option (List Token)
unfolding tokens_from
get_tokens fuel program = tokens_from fuel (record { program = program; current_position = start })
