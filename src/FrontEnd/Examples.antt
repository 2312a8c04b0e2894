-- ===== src/FrontEnd/Examples.antt =====
-- The theorems on the lexer and the parser at concrete programs.
use weak_memory_models_simul.Prelude.{
  ℕ, suc, String, List, [], ◌∷◌, ◌++◌, some, ◌≡◌, refl, arith, if◌then◌else◌, ◌==◌, string_eq,
  nat_eq, All,
}
use weak_memory_models_simul.Prelude.Result.{ok, err}
use weak_memory_models_simul.Prelude.Int.{ℤ, pos, int_eq}
use weak_memory_models_simul.Prelude.Map.{Map, lookup, put, string_less}
use weak_memory_models_simul.Prelude.Text.{size}
use weak_memory_models_simul.Lang.{relaxed}
use weak_memory_models_simul.Ast.{AstNode, StatementNode, ProgramNode}
use weak_memory_models_simul.Exceptions.{Checked, out_of_range, unexpected_token}
use weak_memory_models_simul.Exceptions.Messages.{
  what, as_string, get_unexpected_token_msg, expected_types_from,
}
use weak_memory_models_simul.Utils
use weak_memory_models_simul.Lexer.Tokens.{Token, TokenType}
use weak_memory_models_simul.Lexer.{get_tokens, is_last, tokens_from}
use weak_memory_models_simul.Lexer
use weak_memory_models_simul.Lexer.Keywords.{keyword_type}
use weak_memory_models_simul.Lexer.Completion.{Closed, get_tokens-Closed}
use weak_memory_models_simul.Lexer.Positions.{LocatedIn, get_tokens-LocatedIn}
use weak_memory_models_simul.Lexer.Names.{is_name, is_name-IsName, all_chars, all_chars-AllChars}
use weak_memory_models_simul.Parser.Outcomes.{Program, ending, more}
use weak_memory_models_simul.Parser.{labeled_instructions, parse_statements}
use weak_memory_models_simul.Parser.Programs.{Returns, parse_statements-Returns}
use weak_memory_models_simul.FrontEnd.{front_end}
use weak_memory_models_simul.FrontEnd.Errors.{Accepted, front_end_lem}
use weak_memory_models_simul.FrontEnd.Printable.{
  IsRegister, IsLocation, IsNumeral, IsPrintable, number,
}
use weak_memory_models_simul.FrontEnd.RoundTrip.{end_statement, front_end-print}
use weak_memory_models_simul.FrontEnd.Lines.{IsStatement, unlabelled, labelled, print}

abbrev code : String
code = "L1: r = 7\nstore RLX #x r\ngoto L1"

get_tokens-Closed_example :
    (tokens : List Token) × (get_tokens (suc (size code)) code ≡ some tokens) × Closed tokens
get_tokens-Closed_example = get_tokens-Closed code

-- A lexeme of two characters on the second line, and the end.
abbrev short : String
short = "r\n =12"

abbrev short_tokens : List Token
short_tokens =
    record {
      token_type = TokenType.identifier;
      lexeme = "r";
      start_pos = record { index = 0; column = 0; line = 0 };
    }
    ∷ record {
      token_type = TokenType.eq;
      lexeme = "=";
      start_pos = record { index = 3; column = 1; line = 1 };
    }
    ∷ record {
      token_type = TokenType.number;
      lexeme = "12";
      start_pos = record { index = 4; column = 2; line = 1 };
    }
    ∷ record {
      token_type = TokenType.end;
      lexeme = "";
      start_pos = record { index = 6; column = 4; line = 1 };
    }
    ∷ []

short_lexes : get_tokens 4 short ≡ some short_tokens
unfolding get_tokens Lexer.get_next_token is_last Utils.is_digit Utils.is_identifier_char
    Lexer.next_position
short_lexes = refl

get_tokens-LocatedIn_example : All (LocatedIn short) short_tokens
get_tokens-LocatedIn_example = get_tokens-LocatedIn short 4 short_tokens short_lexes

-- The library's functions, on one digit.
abbrev to_string : ℤ → String
to_string v = if v == pos 7 then "7" else "0"

abbrev stoi : String → Checked ℤ
stoi s = if s == "7" then ok (pos 7) else if s == "0" then ok (pos 0) else err out_of_range

front_end_lem_example :
    (r : Checked (ProgramNode × Map String ℕ)) × (front_end stoi (suc (size code)) code ≡ some r)
    × Accepted stoi r
front_end_lem_example = front_end_lem stoi code

-- A program that ends within an assignment.
abbrev unfinished : List Token
unfinished =
    record {
      token_type = TokenType.identifier;
      lexeme = "r";
      start_pos = record { index = 0; column = 0; line = 0 };
    }
    ∷ record {
      token_type = TokenType.end;
      lexeme = "";
      start_pos = record { index = 1; column = 1; line = 0 };
    }
    ∷ []

unfinished-Program : Program unfinished
unfinished-Program = more (λ e. cc e) (λ e. absurd (cc e)) (ending refl)

parse_statements-Returns_example : Returns stoi (parse_statements stoi 2 unfinished)
parse_statements-Returns_example =
    parse_statements-Returns stoi 2 unfinished unfinished-Program (omega arith)

abbrev statements : List StatementNode
statements =
    record {
      statement = AstNode.assignment "r" (AstNode.number (record { value = pos 7 }));
      label = "L1";
    }
    ∷ record {
      statement =
          AstNode.store
            (record { memory_order = relaxed; location_name = "x"; register_name = "r" });
      label = "";
    }
    ∷ record { statement = AstNode.goto (record { goto_label = "L1" }); label = "" }
    ∷ []

IsRegister-r : IsRegister "r"
unfolding is_name Utils.is_identifier_char keyword_type
IsRegister-r = record { name = is_name-IsName "r" refl; plain = refl }

label_L1 : IsRegister "L1"
unfolding is_name Utils.is_identifier_char keyword_type
label_L1 = record { name = is_name-IsName "L1" refl; plain = refl }

IsLocation-x : IsLocation "x"
unfolding all_chars Utils.is_identifier_char
IsLocation-x = record { first = refl; all = all_chars-AllChars Utils.is_identifier_char "x" refl }

IsNumeral-7 : IsNumeral to_string stoi (pos 7)
unfolding all_chars Utils.is_digit
IsNumeral-7 = record {
  first = refl;
  all = all_chars-AllChars Utils.is_digit "7" refl;
  inverse = refl;
}

statements-IsStatement : All (IsStatement to_string stoi) statements
statements-IsStatement = (
  labelled label_L1 (IsPrintable.assignment IsRegister-r (number IsNumeral-7)),
  (
    unlabelled (IsPrintable.store IsLocation-x IsRegister-r),
    (unlabelled (IsPrintable.goto label_L1), tt),
  ),
)

statements-labels :
    labeled_instructions 0 (statements ++ end_statement ∷ []) [] ≡ ok (("L1", 0) ∷ [])
unfolding labeled_instructions lookup put
statements-labels = refl

front_end-print_example :
    front_end stoi (suc (size (print to_string stoi statements))) (print to_string stoi statements)
    ≡ some (ok (record { statements = statements ++ end_statement ∷ [] }, ("L1", 0) ∷ []))
front_end-print_example =
    front_end-print to_string stoi statements (("L1", 0) ∷ []) statements-IsStatement
      statements-labels

-- the message for a plus sign at the start of a line
abbrev show : ℕ → String
show n = if n == 0 then "0" else "1"

plus_message :
    what show (
      unexpected_token
        (record {
          token_type = TokenType.plus;
          lexeme = "+";
          start_pos = record { index = 0; column = 1; line = 1 };
        })
        (TokenType.identifier ∷ TokenType.number ∷ []))
    ≡ some
        "Unexpected token '+', with type PLUS at: (index: 0, column: 1, line: 1). Expected type(s): IDENTIFIER, NUMBER"
unfolding what as_string get_unexpected_token_msg expected_types_from
plus_message = refl
