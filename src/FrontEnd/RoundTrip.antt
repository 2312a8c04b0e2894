-- ===== src/FrontEnd/RoundTrip.antt =====
-- Printing by node-stringifier.cpp and reading by lexer.cpp and parser.cpp are inverse.
use mathlib.Core.List.{append_assoc, concat-ne-nil}
use mathlib.Core.Path.{subst}
use weak_memory_models_simul.Prelude.{
  ℕ, zero, suc, ◌≤◌, ◌<◌, String, false, List, [], ◌∷◌, ◌++◌, map, some, none, ◌≡◌, ◌≢◌, refl, sym,
  ap, ◌∙◌, arith, nat_eq, string_eq, All, length,
}
use weak_memory_models_simul.Prelude.Result.{ok}
use weak_memory_models_simul.Prelude.Int.{ℤ}
use weak_memory_models_simul.Prelude.Map.{Map}
use weak_memory_models_simul.Prelude.Text.{◌<>◌, size, size-concat}
use weak_memory_models_simul.Ast.{AstNode, StatementNode}
use weak_memory_models_simul.Exceptions.{Checked}
use weak_memory_models_simul.Lexer.Tokens.{Token, TokenType, Position}
use weak_memory_models_simul.Lexer.Spells.{word, Collects, closing, Collects-tokens_from}
use weak_memory_models_simul.Lexer.Reading.{lexer}
use weak_memory_models_simul.Lexer.Completion.{Closed, get_tokens-Closed}
use weak_memory_models_simul.Lexer.Completion as Completion
use weak_memory_models_simul.Lexer.{get_next_token, is_last, get_tokens, start}
use weak_memory_models_simul.Stringifier.{stringify}
use weak_memory_models_simul.Parser.{
  parse_label, parse_body, parse_statement, parse_statements, find_invalid, labeled_instructions,
  parse,
}
use weak_memory_models_simul.Parsing.{◌>>=◌, has_type, peek, advance, is_labeled_statement_next}
use weak_memory_models_simul.FrontEnd.{front_end}
use weak_memory_models_simul.FrontEnd.Lines.{IsStatement, print, Blocks, read_back, no_block, block}

-- the statement of the END token
abbrev pub end_statement : StatementNode
end_statement = record { statement = AstNode.end; label = "" }

module _ (to_string : ℤ → String) (stoi : String → Checked ℤ) where
  -- what the lexer collects from a printed program
  record Lexes (ss : List StatementNode) (s : String) (p : Position) : Type 0 where
    tokens : List Token
    last : Token
    ends : last.token_type ≡ TokenType.end
    blocks : Blocks to_string stoi ss tokens
    collects : Collects (lexer s p) (tokens ++ last ∷ [])

  printed-Lexes :
      (ss : List StatementNode) (p : Position)
      → All (IsStatement to_string stoi) ss
      → Lexes ss (print to_string stoi ss) p
  unfolding print get_next_token is_last
  printed-Lexes [] p all = record {
    tokens = [];
    last = (get_next_token (lexer "" p)).0;
    ends = refl;
    blocks = no_block;
    collects = closing {l' = (get_next_token (lexer "" p)).1} refl refl;
  }
  printed-Lexes (s ∷ ss) p (h, all) =
      let (ws, line) = read_back to_string stoi s h in
      let (ts, q, are, collects) = (line.spells (print to_string stoi ss)).at p in
      let rest = printed-Lexes ss q all in
      record {
        tokens = ts ++ rest.tokens;
        last = rest.last;
        ends = rest.ends;
        blocks =
            block (λ us. line.parses.at ts us are) (λ z. line.nonempty (sym are ∙ ap (map word) z))
              rest.blocks;
        collects = rw append_assoc (collects (rest.tokens ++ rest.last ∷ []) rest.collects);
      }

  Blocks-length :
      (ss : List StatementNode)
      → All (IsStatement to_string stoi) ss
      → length ss ≤ size (print to_string stoi ss)
  unfolding print
  Blocks-length [] all = omega arith
  Blocks-length (s ∷ ss) (h, all) = omega (
    arith,
    Blocks-length ss all,
    size-concat (stringify to_string s) ("\n" <> print to_string stoi ss),
  )

  -- the END token
  parse_end :
      (last : Token)
      → last.token_type ≡ TokenType.end
      → parse_statement stoi (last ∷ []) ≡ ok (end_statement, [])
  unfolding parse_statement parse_label peek advance parse_body is_labeled_statement_next
  parse_end last h = rw (parse_statement, ◌>>=◌, h) refl

  -- one round of the parser's loop, on the tokens of a statement
  parse_block :
      (fuel : ℕ) (ts us : List Token) (s : StatementNode) (ss : List StatementNode)
      → ts ≢ []
      → parse_statement stoi (ts ++ us) ≡ ok (s, us)
      → parse_statements stoi fuel us ≡ some (ok ss)
      → parse_statements stoi (suc fuel) (ts ++ us) ≡ some (ok (s ∷ ss))
  unfolding parse_statements
  parse_block fuel [] us s ss n h r = absurd (n refl)
  parse_block fuel (t ∷ ts) us s ss n h r = rw (parse_statements, h, r) refl

  parsed-Blocks :
      (ss : List StatementNode) (us : List Token) (last : Token) (fuel : ℕ)
      → Blocks to_string stoi ss us
      → last.token_type ≡ TokenType.end
      → length ss < fuel
      → parse_statements stoi fuel (us ++ last ∷ []) ≡ some (ok (ss ++ end_statement ∷ []))
  unfolding parse_statements
  parsed-Blocks _ _ last zero b h k = absurd (omega (arith, k))
  parsed-Blocks _ _ last (suc fuel) no_block h k =
      parse_block fuel (last ∷ []) [] end_statement [] (λ e. cc e) (parse_end last h) refl
  parsed-Blocks _ _ last (suc fuel) (block {s = s} {ss = ss} {ts = ts} {us = us} p n b) h k =
      rw append_assoc (
        parse_block fuel ts (us ++ last ∷ []) s (ss ++ end_statement ∷ []) n (p _)
          (parsed-Blocks ss us last fuel b h (omega (arith, k))))

  -- behind a token that is not the last one
  Closed-head :
      (t : Token) (us : List Token) → Closed (t ∷ us) → us ≢ [] → (is_last t ≡ false) × Closed us
  Closed-head t _ (Completion.closing e) n = absurd (n refl)
  Closed-head t us (Completion.more e c) n = (e, c)

  valid_by_type :
      (t : Token) (ty : TokenType)
      → t.token_type ≡ ty
      → is_last t ≡ false
      → has_type TokenType.invalid t ≡ false
  unfolding is_last has_type
  valid_by_type t TokenType.invalid h e = absurd (cc (rw (is_last, h) at e))
  valid_by_type t _ h e = rw (has_type, h) refl

  not_last-valid : (t : Token) → is_last t ≡ false → has_type TokenType.invalid t ≡ false
  not_last-valid t e = valid_by_type t t.token_type refl e

  valid_tokens :
      (us : List Token) (last : Token)
      → last.token_type ≡ TokenType.end
      → Closed (us ++ last ∷ [])
      → find_invalid (us ++ last ∷ []) ≡ none
  unfolding find_invalid has_type is_last
  valid_tokens [] last h c = rw (find_invalid, has_type, h) refl
  valid_tokens (t ∷ us) last h c =
      let (e, d) = Closed-head t (us ++ last ∷ []) c (concat-ne-nil last us) in
      rw (find_invalid, not_last-valid t e) (valid_tokens us last h d)

  -- `parse` behind its loops
  parse_tokens :
      (fuel : ℕ) (ts : List Token) (ss : List StatementNode) (labels : Map String ℕ)
      → find_invalid ts ≡ none
      → parse_statements stoi fuel ts ≡ some (ok ss)
      → labeled_instructions 0 ss [] ≡ ok labels
      → parse stoi fuel ts ≡ some (ok (record { statements = ss }, labels))
  unfolding parse
  parse_tokens fuel ts ss labels valid returns given = rw (parse, valid, returns, given) refl

  -- The text that the stringifier prints for each of a list of statements, on a line of its own, is
  -- read back by the lexer and the parser as these statements, with END behind them and the table of
  -- their labels. The statements are those that have names for registers, labels and locations, and
  -- numbers that the library writes in digits and reads back.
  pub front_end-print :
      (ss : List StatementNode) (labels : Map String ℕ)
      → All (IsStatement to_string stoi) ss
      → labeled_instructions 0 (ss ++ end_statement ∷ []) [] ≡ ok labels
      → front_end stoi (suc (size (print to_string stoi ss))) (print to_string stoi ss)
        ≡ some (ok (record { statements = ss ++ end_statement ∷ [] }, labels))
  unfolding front_end parse get_tokens
  front_end-print ss labels all given =
      let fuel = suc (size (print to_string stoi ss)) in
      let lexed = printed-Lexes ss start all in
      let (tokens, lexes, closed) = get_tokens-Closed (print to_string stoi ss) in
      let same = Collects-tokens_from fuel _ _ tokens lexed.collects lexes in
      let returns =
        parsed-Blocks ss lexed.tokens lexed.last fuel lexed.blocks lexed.ends
          (omega (arith, Blocks-length ss all)) in
      let valid =
        valid_tokens lexed.tokens lexed.last lexed.ends (subst Closed (sym same) closed) in
      rw (front_end, lexes)
        (subst
          (λ ts.
            parse stoi fuel ts
            ≡ some (ok (record { statements = ss ++ end_statement ∷ [] }, labels)))
          same
          (parse_tokens fuel (lexed.tokens ++ lexed.last ∷ []) (ss ++ end_statement ∷ []) labels
            valid returns given))
