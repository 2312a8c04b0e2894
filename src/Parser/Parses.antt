-- ===== src/Parser/Parses.antt =====
-- The parsing functions of parser.cpp on tokens of known kinds and lexemes.
use weak_memory_models_simul.Prelude.{
  String, true, false, ◌&&◌, List, [], ◌∷◌, ◌++◌, map, ◌≡◌, refl, ap, ◌==◌, nat_eq,
}
use weak_memory_models_simul.Prelude.Result.{ok}
use weak_memory_models_simul.Prelude.Int.{ℤ}
use weak_memory_models_simul.Lexer.Tokens.{Token, TokenType}
use weak_memory_models_simul.Lexer.Spells.{word}
use weak_memory_models_simul.Lang.{MemoryOrder}
use weak_memory_models_simul.Ast.{BinOpType}
use weak_memory_models_simul.Exceptions.{Checked}
use weak_memory_models_simul.Parser.Outcomes.{expect_yes}
use weak_memory_models_simul.Parser.{parse_label}
use weak_memory_models_simul.Parsing.{
  Parsing, ◌>>=◌, pure, type_index, has_type, peek, advance, to_memory_order, expect,
  expect_memory_order, to_binop_type, parse_operation, is_labeled_statement_next,
}

abbrev pub Words : Type 0
Words = List (TokenType × String)

-- The function reads tokens of these kinds and lexemes, and returns the value.
pub record Parses {A : Type 0} (m : Parsing A) (ws : Words) (a : A) : Type 0 where
  pub at : (ts us : List Token) → map word ts ≡ ws → m (ts ++ us) ≡ ok (a, us)

-- by the first token
pub Parses-first :
    {A : Type 0} (m : Parsing A) (w : TokenType × String) (ws : Words) (a : A)
    → ((t : Token) (ts us : List Token)
        → word t ≡ w
        → map word ts ≡ ws
        → m (t ∷ (ts ++ us)) ≡ ok (a, us))
    → Parses m (w ∷ ws) a
Parses-first m w ws a k = record { at = λ ts us h. go m w ws a k ts us h }
  where
    go :
        {A : Type 0} (m : Parsing A) (w : TokenType × String) (ws : Words) (a : A)
        → ((t : Token) (ts us : List Token)
            → word t ≡ w
            → map word ts ≡ ws
            → m (t ∷ (ts ++ us)) ≡ ok (a, us))
        → (ts us : List Token) → map word ts ≡ w ∷ ws
        → m (ts ++ us) ≡ ok (a, us)
    go m w ws a k [] us h = absurd (cc h)
    go m w ws a k (t ∷ ts) us h = k t ts us (cc h) (cc h)

none_left :
    {A : Type 0} (a : A) (ts us : List Token) → map word ts ≡ [] → pure a (ts ++ us) ≡ ok (a, us)
none_left a [] us h = refl
none_left a (t ∷ ts) us h = absurd (cc h)

pub Parses-pure : {A : Type 0} (a : A) → Parses (pure a) [] a
Parses-pure a = record { at = none_left a }

pub Parses-map :
    {A B : Type 0} (m : Parsing A) (ws : Words) (a : A) (g : A → B)
    → Parses m ws a
    → Parses (m >>= λ x. pure (g x)) ws (g a)
Parses-map m ws a g p = record { at = λ ts us h. rw (◌>>=◌, p.at ts us h) refl }

pub Parses-peek :
    {B : Type 0} (f : Token → Parsing B) (w : TokenType × String) (ws : Words) (b : B)
    → ((t : Token) → word t ≡ w → Parses (f t) (w ∷ ws) b)
    → Parses (peek >>= f) (w ∷ ws) b
unfolding peek
Parses-peek f w ws b k = Parses-first _ w ws b (λ t ts us h e. (k t h).at (t ∷ ts) us (cc (h, e)))

word-type : (t : Token) (ty : TokenType) (x : String) → word t ≡ (ty, x) → has_type ty t ≡ true
unfolding has_type
word-type t ty x h =
    (nat_eq.test_iff (type_index t.token_type) (type_index ty)).1 (ap (λ w. type_index w.0) h)

pub Parses-expect :
    {B : Type 0} (ty : TokenType) (f : String → Parsing B) (x : String) (ws : Words) (b : B)
    → Parses (f x) ws b
    → Parses (expect ty >>= f) ((ty, x) ∷ ws) b
Parses-expect ty f x ws b p =
    Parses-first _ (ty, x) ws b
      (λ t ts us h e.
        let lexeme = ap (λ w. w.1) h in
        rw (◌>>=◌, expect_yes ty t (ts ++ us) (word-type t ty x h), lexeme) (p.at ts us e))

pub Parses-order :
    {B : Type 0} (o : MemoryOrder) (f : MemoryOrder → Parsing B) (x : String) (ws : Words) (b : B)
    → to_memory_order x ≡ ok o
    → Parses (f o) ws b
    → Parses (expect_memory_order >>= f) ((TokenType.memory_order, x) ∷ ws) b
unfolding expect_memory_order
Parses-order o f x ws b spelled p =
    Parses-first _ (TokenType.memory_order, x) ws b
      (λ t ts us h e.
        let lexeme = ap (λ w. w.1) h in
        rw
          (
            expect_memory_order,
            ◌>>=◌,
            expect_yes TokenType.memory_order t (ts ++ us) (word-type t _ x h),
            lexeme,
            spelled,
          )
          (p.at ts us e))

pub Parses-operation :
    {B : Type 0} (o : BinOpType) (ty : TokenType) (f : BinOpType → Parsing B) (x : String)
    (ws : Words) (b : B)
    → ((t : Token) → to_binop_type t ty ≡ ok o)
    → Parses (f o) ws b
    → Parses (parse_operation >>= f) ((ty, x) ∷ ws) b
unfolding parse_operation peek advance
Parses-operation o ty f x ws b is p =
    Parses-first _ (ty, x) ws b
      (λ t ts us h e.
        let kind = ap (λ w. w.0) h in rw (parse_operation, ◌>>=◌, kind, is t) (p.at ts us e))

Parses-second :
    {A : Type 0} (m : Parsing A) (w v : TokenType × String) (ws : Words) (a : A) (t : Token)
    (ts us : List Token)
    → ((u : Token) (ts : List Token)
        → word u ≡ v
        → map word ts ≡ ws
        → m (t ∷ u ∷ (ts ++ us)) ≡ ok (a, us))
    → map word ts ≡ v ∷ ws
    → m (t ∷ (ts ++ us)) ≡ ok (a, us)
Parses-second m w v ws a t [] us k h = absurd (cc h)
Parses-second m w v ws a t (u ∷ ts) us k h = k u ts (cc h) (cc h)

-- A label in front of a statement is read as the label.
pub Parses-labelled :
    {B : Type 0} (stoi : String → Checked ℤ) (f : String → Parsing B) (x colon : String)
    (ws : Words) (b : B)
    → Parses (f x) ws b
    → Parses
        (parse_label stoi >>= f)
        ((TokenType.identifier, x) ∷ (TokenType.semicolon, colon) ∷ ws)
        b
unfolding parse_label is_labeled_statement_next peek advance
Parses-labelled stoi f x colon ws b p = Parses-first _ _ _ _ (λ t ts us h e.
    Parses-second (parse_label stoi >>= f) (TokenType.identifier, x) (TokenType.semicolon, colon) ws
      b t ts us
      (λ u vs g d.
        let lexeme = ap (λ w. w.1) h in
        rw
          (
            ◌>>=◌,
            parse_label,
            is_labeled_statement_next,
            word-type t TokenType.identifier x h,
            word-type u TokenType.semicolon colon g,
            lexeme,
          )
          (p.at vs us d))
      e)

-- Words that do not start with a name and a colon have no label.
pub Parses-unlabelled :
    {B : Type 0} (stoi : String → Checked ℤ) (f : String → Parsing B) (w v : TokenType × String)
    (ws : Words) (b : B)
    → (type_index w.0 == 0 && type_index v.0 == 8) ≡ false
    → Parses (f "") (w ∷ v ∷ ws) b
    → Parses (parse_label stoi >>= f) (w ∷ v ∷ ws) b
unfolding parse_label is_labeled_statement_next has_type
Parses-unlabelled stoi f w v ws b k p = Parses-first _ _ _ _ (λ t ts us h e.
    Parses-second (parse_label stoi >>= f) w v ws b t ts us
      (λ u vs g d.
        let no_label : (has_type TokenType.identifier t && has_type TokenType.semicolon u) ≡ false =
          rw (has_type, ap (λ z. z.0) h, ap (λ z. z.0) g) k in
        rw (◌>>=◌, parse_label, is_labeled_statement_next, no_label)
          (p.at (t ∷ u ∷ vs) us (cc (h, g, d))))
      e)
