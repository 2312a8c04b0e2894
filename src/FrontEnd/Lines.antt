-- ===== src/FrontEnd/Lines.antt =====
-- A printed statement, on its line, is read back.
use mathlib.Core.List.{append-nil}
use weak_memory_models_simul.Prelude.{
  String, false, ◌&&◌, List, [], ◌∷◌, ◌++◌, ◌≡◌, ◌≢◌, refl, ◌==◌, nat_eq, string_eq, Bool-cases,
  inl, inr, eq_iff,
}
use weak_memory_models_simul.Prelude.Result.{ok}
use weak_memory_models_simul.Prelude.Int.{ℤ}
use weak_memory_models_simul.Prelude.Text.{◌<>◌, concat_assoc}
use weak_memory_models_simul.Ast.{AstNode, StatementNode}
use weak_memory_models_simul.Exceptions.{Checked}
use weak_memory_models_simul.Utils.{is_identifier_char}
use weak_memory_models_simul.Lexer.Tokens.{Token, TokenType}
use weak_memory_models_simul.Lexer.Spells.{Spells, Spells-name, Spells-blank, Spells-nil}
use weak_memory_models_simul.Lexer.Symbols.{Spells-atom}
use weak_memory_models_simul.Lexer.{atom_type}
use weak_memory_models_simul.Stringifier.{stringify_node, stringify}
use weak_memory_models_simul.Parser.Parses.{Words, Parses, Parses-labelled, Parses-unlabelled}
use weak_memory_models_simul.Parser.{parse_statement}
use weak_memory_models_simul.Parsing.{type_index}
use weak_memory_models_simul.FrontEnd.Printable.{IsRegister, IsPrintable}
use weak_memory_models_simul.FrontEnd.Words.{identifier, words}
use weak_memory_models_simul.FrontEnd.Printed.{Spells-node}
use weak_memory_models_simul.FrontEnd.Reparse.{Parses-body}

module _ (to_string : ℤ → String) (stoi : String → Checked ℤ) where
  -- a statement with no label, or with one
  pub data IsStatement : StatementNode → Type 0 where
    unlabelled :
        {n : AstNode}
        → IsPrintable to_string stoi n
        → IsStatement (record { statement = n; label = "" })
    labelled :
        {n : AstNode} {x : String}
        → IsRegister x
        → IsPrintable to_string stoi n
        → IsStatement (record { statement = n; label = x })

  -- each statement on a line of its own
  unfoldable pub print : List StatementNode → String
  unfolding stringify
  print [] = ""
  print (s ∷ ss) = stringify to_string s <> ("\n" <> print ss)

  -- the tokens of a list of statements
  pub data Blocks : List StatementNode → List Token → Type 0 where
    no_block : Blocks [] []
    block :
        {s : StatementNode} {ss : List StatementNode} {ts us : List Token}
        → ((rest : List Token) → parse_statement stoi (ts ++ rest) ≡ ok (s, rest))
        → ts ≢ []
        → Blocks ss us
        → Blocks (s ∷ ss) (ts ++ us)

  -- how the words of a statement without a label begin
  pub two_words :
      (n : AstNode)
      → IsPrintable to_string stoi n
      → (w : TokenType × String) × (v : TokenType × String) × (ws : Words) × (words to_string n
          ≡ w ∷ v ∷ ws)
        × ((type_index w.0 == 0 && type_index v.0 == 8) ≡ false)
  unfolding words
  two_words _ (IsPrintable.condition hw hl) = (_, _, _, refl, refl)
  two_words _ (IsPrintable.goto hl) = (_, _, _, refl, refl)
  two_words _ (IsPrintable.thread_goto hl) = (_, _, _, refl, refl)
  two_words _ (IsPrintable.load hx hl) = (_, _, _, refl, refl)
  two_words _ (IsPrintable.store hx hl) = (_, _, _, refl, refl)
  two_words _ (IsPrintable.cas hx he hd) = (_, _, _, refl, refl)
  two_words _ (IsPrintable.fai hx hl) = (_, _, _, refl, refl)
  two_words _ IsPrintable.fence = (_, _, _, refl, refl)
  two_words _ (IsPrintable.assignment hw he) = (_, _, _, refl, refl)

  pub Parses-unlabelled_statement :
      (n : AstNode)
      → IsPrintable to_string stoi n
      → Parses (parse_statement stoi) (words to_string n) (record { statement = n; label = "" })
  unfolding parse_statement
  Parses-unlabelled_statement n h =
      let (w, v, ws, e, k) = two_words n h in
      rw e (Parses-unlabelled stoi _ w v ws _ k (rw e at (Parses-body to_string stoi n "" h)))

  pub Parses-labelled_statement :
      (n : AstNode) (x : String)
      → IsPrintable to_string stoi n
      → Parses
          (parse_statement stoi)
          (identifier x ∷ (TokenType.semicolon, ":") ∷ words to_string n)
          (record { statement = n; label = x })
  unfolding parse_statement
  Parses-labelled_statement n x h =
      Parses-labelled stoi _ x ":" _ _ (Parses-body to_string stoi n x h)

  pub Spells-line :
      (n : AstNode) (rest : String)
      → IsPrintable to_string stoi n
      → Spells (stringify_node to_string n <> ("\n" <> rest)) (words to_string n) rest
  unfolding is_identifier_char
  Spells-line n rest h = rw append-nil at (
      Spells-node to_string stoi n ("\n" <> rest) rest [] h refl
        (Spells-blank _ rest rest [] refl (Spells-nil rest)))

  pub label_given : (x : String) → IsRegister x → (x == "") ≡ false
  unfolding is_identifier_char
  label_given x h = elim (Bool-cases (x == "")) [
    | inl e ↦ absurd (cc (rw ((eq_iff x "").0 e) at h.name.first))
    | inr e ↦ e
  ]

  -- The lexer reads a block for the statement from its line.
  pub record Line (s : StatementNode) (ws : Words) : Type 0 where
    pub spells : (rest : String) → Spells (stringify to_string s <> ("\n" <> rest)) ws rest
    pub parses : Parses (parse_statement stoi) ws s
    pub nonempty : ws ≢ []

  pub read_back : (s : StatementNode) → IsStatement s → (ws : Words) × Line s ws
  unfolding stringify is_identifier_char atom_type
  read_back _ (unlabelled {n = n} h) = (
    words to_string n,
    record {
      spells = λ rest. Spells-line n rest h;
      parses = Parses-unlabelled_statement n h;
      nonempty = λ e. (let (w, v, ws, starts, k) = two_words n h in cc (e, starts));
    },
  )
  read_back _ (labelled {n = n} {x = x} l h) = (
    _,
    record {
      spells = λ rest. rw (label_given x l) (
          simp concat_assoc (
            rw (← l.plain) (
              Spells-name x _ rest _ l.name refl (
                Spells-atom _ TokenType.semicolon _ rest _ refl refl
                  (Spells-blank _ _ rest _ refl (Spells-line n rest h))))));
      parses = Parses-labelled_statement n x h;
      nonempty = λ e. cc e;
    },
  )
