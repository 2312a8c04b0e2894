-- ===== src/Lexer/Symbols.antt =====
-- The scanning of numbers, locations and single characters (lexer.cpp) in front of a text.
use Prim.Native.Char.{Char, code}
use weak_memory_models_simul.Prelude.{
  ℕ, String, true, false, string_eq, List, ◌∷◌, ◌≡◌, refl, ◌∙◌, arith, ◌==◌, nat_eq,
}
use weak_memory_models_simul.Prelude.Text.{◌<>◌, first_code}
use weak_memory_models_simul.Utils.{is_space, is_digit, is_identifier_char}
use weak_memory_models_simul.Lexer.Tokens.{Position, TokenType}
use weak_memory_models_simul.Lexer.Scanned.{walk}
use weak_memory_models_simul.Lexer.{
  advance, next_position, make_token, get_number_token, get_location_token, get_atom_token,
  token_at, atom_type, get_next_token,
}
use weak_memory_models_simul.Lexer.Names.{AllChars}
use weak_memory_models_simul.Lexer.Reading.{
  lexer, scan_text, view_text, at_token, word_start, digit_start, last_type, is_last-type, first_of,
}
use weak_memory_models_simul.Lexer.Spells.{Spells, Spells-cons}

number_token :
    (w rest : String) (p : Position)
    → is_digit (first_code w) ≡ true
    → AllChars is_digit w
    → is_digit (first_code rest) ≡ false
    → get_next_token (lexer (w <> rest) p)
      ≡ (record { token_type = TokenType.number; lexeme = w; start_pos = p }, lexer rest (walk w p))
unfolding token_at get_number_token make_token
number_token w rest p first all stop =
    let (visible, inside) = digit_start (first_code w) first in
    let same = first_of w rest (λ z. ground arith) in
    at_token (w <> rest) p (rw same visible)
    ∙ rw
        (
          token_at,
          same,
          inside,
          first,
          get_number_token,
          scan_text is_digit w rest p all stop,
          view_text w rest,
        )
        refl

-- A number, with no digit behind it.
pub Spells-number :
    (w rest rest' : String) (ws : List (TokenType × String))
    → is_digit (first_code w) ≡ true
    → AllChars is_digit w
    → is_digit (first_code rest) ≡ false
    → Spells rest ws rest'
    → Spells (w <> rest) ((TokenType.number, w) ∷ ws) rest'
Spells-number w rest rest' ws first all stop =
    Spells-cons (w <> rest) rest rest' (TokenType.number, w) ws
      (λ p. (
        record { token_type = TokenType.number; lexeme = w; start_pos = p },
        walk w p,
        refl,
        is_last-type _ TokenType.number refl,
        number_token w rest p first all stop,
      ))

location_read :
    (w rest : String) (p : Position)
    → is_identifier_char (first_code w) ≡ true
    → AllChars is_identifier_char w
    → is_identifier_char (first_code rest) ≡ false
    → get_location_token (lexer (w <> rest) p) ≡ (
      record { token_type = TokenType.location; lexeme = w; start_pos = p },
      lexer rest (walk w p),
    )
unfolding get_location_token make_token
location_read w rest p first all stop =
    let same = first_of w rest (λ z. ground (arith, (word_start (first_code w) first).1)) in
    rw
      (
        get_location_token,
        same,
        first,
        scan_text is_identifier_char w rest p all stop,
        view_text w rest,
      )
      refl

location_token :
    (w rest : String) (p : Position)
    → is_identifier_char (first_code w) ≡ true
    → AllChars is_identifier_char w
    → is_identifier_char (first_code rest) ≡ false
    → get_next_token (lexer ("#" <> (w <> rest)) p) ≡ (
      record { token_type = TokenType.location; lexeme = w; start_pos = next_position b'#' p },
      lexer rest (walk w (next_position b'#' p)),
    )
unfolding token_at advance is_digit is_identifier_char
location_token w rest p first all stop =
    at_token ("#" <> (w <> rest)) p refl
    ∙ location_read w rest (next_position b'#' p) first all stop

-- A location behind its number sign, with no character of an identifier behind it.
pub Spells-location :
    (w rest rest' : String) (ws : List (TokenType × String))
    → is_identifier_char (first_code w) ≡ true
    → AllChars is_identifier_char w
    → is_identifier_char (first_code rest) ≡ false
    → Spells rest ws rest'
    → Spells ("#" <> (w <> rest)) ((TokenType.location, w) ∷ ws) rest'
Spells-location w rest rest' ws first all stop =
    Spells-cons ("#" <> (w <> rest)) rest rest' (TokenType.location, w) ws
      (λ p. (
        record { token_type = TokenType.location; lexeme = w; start_pos = next_position b'#' p },
        walk w (next_position b'#' p),
        refl,
        is_last-type _ TokenType.location refl,
        location_token w rest p first all stop,
      ))

atom_char :
    (c : ℕ)
    → last_type (atom_type c) ≡ false
    → (is_space c ≡ false)
      × ((c == 0) ≡ false)
      × (is_digit c ≡ false)
      × (is_identifier_char c ≡ false)
      × ((c == b'#') ≡ false)
unfolding atom_type is_digit is_identifier_char
atom_char c h = (ground arith, ground arith, ground arith, ground arith, ground arith)

atom_token :
    (c : Char) (ty : TokenType) (rest : String) (p : Position)
    → atom_type (code c) ≡ ty
    → last_type ty ≡ false
    → get_next_token (lexer (String.◌∷◌ c rest) p) ≡ (
      record { token_type = ty; lexeme = String.◌∷◌ c String.[]; start_pos = p },
      lexer rest (next_position (code c) p),
    )
unfolding token_at get_atom_token make_token advance
atom_token c ty rest p h k =
    let (visible, inside, no_digit, no_name, no_location) = atom_char (code c) (rw h k) in
    at_token (String.◌∷◌ c rest) p visible
    ∙ rw (token_at, inside, no_digit, no_name, no_location, h) refl

-- An operator or punctuation mark.
pub Spells-atom :
    (c : Char) (ty : TokenType) (rest rest' : String) (ws : List (TokenType × String))
    → atom_type (code c) ≡ ty
    → last_type ty ≡ false
    → Spells rest ws rest'
    → Spells (String.◌∷◌ c rest) ((ty, String.◌∷◌ c String.[]) ∷ ws) rest'
Spells-atom c ty rest rest' ws h k =
    Spells-cons (String.◌∷◌ c rest) rest rest' (ty, String.◌∷◌ c String.[]) ws
      (λ p. (
        record { token_type = ty; lexeme = String.◌∷◌ c String.[]; start_pos = p },
        next_position (code c) p,
        refl,
        is_last-type _ ty refl ∙ k,
        atom_token c ty rest p h k,
      ))
