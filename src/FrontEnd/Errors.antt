-- ===== src/FrontEnd/Errors.antt =====
-- The lexer and the parser together: they return on every text, with a known set of exceptions.
use mathlib.Core.Path.{subst}
use weak_memory_models_simul.Prelude.{
  ℕ, suc, ◌≤◌, String, Bool, true, false, List, [], ◌∷◌, Option, none, some, ◌≡◌, ◌≢◌, refl,
  Bool-cases, Option-cases, inl, inr, ◌==◌, string_eq, is_some, All, length, if◌then◌else◌,
}
use weak_memory_models_simul.Prelude.Result.{ok, err, Result-cases}
use weak_memory_models_simul.Prelude.Int.{ℤ}
use weak_memory_models_simul.Prelude.Map.{Map, lookup, put, string_less}
use weak_memory_models_simul.Prelude.Text.{size}
use weak_memory_models_simul.Ast.{StatementNode, ProgramNode}
use weak_memory_models_simul.Exceptions.{
  Error, Checked, invalid_token, multiple_statements_with_same_label,
}
use weak_memory_models_simul.Lexer.Tokens.{Token, TokenType}
use weak_memory_models_simul.Lexer.{is_last, get_tokens}
use weak_memory_models_simul.Lexer.Completion.{Closed, closing, more, get_tokens-Closed}
use weak_memory_models_simul.Parser.{find_invalid, labeled_instructions, parse, parse_statements}
use weak_memory_models_simul.Parsing.{has_type}
use weak_memory_models_simul.Parser.Outcomes as Outcomes
use weak_memory_models_simul.Parser.Outcomes.{Spelled, Program, Reported}
use weak_memory_models_simul.Parser.Programs.{parse_statements-Returns, Fine}
use weak_memory_models_simul.FrontEnd.{front_end}
use weak_memory_models_simul.FrontEnd.Spelling.{tokens_from-Spelled}

-- What the front end may throw.
pub data Documented (stoi : String → Checked ℤ) : Error → Type 0 where
  invalid : {t : Token} → has_type TokenType.invalid t ≡ true → Documented stoi (invalid_token t)
  reported : {e : Error} → Reported stoi e → Documented stoi e
  repeated : {label : String} → Documented stoi (multiple_statements_with_same_label label)

abbrev pub Accepted : {A : Type 0} → (String → Checked ℤ) → Checked A → Type 0
Accepted stoi (ok a) = Unit
Accepted stoi (err e) = Documented stoi e

find_invalid-type :
    (ts : List Token) (t : Token) → find_invalid ts ≡ some t → has_type TokenType.invalid t ≡ true
unfolding find_invalid
find_invalid-type [] t h = absurd (cc h)
find_invalid-type (u ∷ ts) t h = elim (Bool-cases (has_type TokenType.invalid u)) [
  | inl e ↦
      let same : u ≡ t = cc (rw (find_invalid, e) at h) in
      subst (λ z. has_type TokenType.invalid z ≡ true) same e
  | inr e ↦ find_invalid-type ts t (rw (find_invalid, e) at h)
]

last_by_type :
    (t : Token) (ty : TokenType)
    → t.token_type ≡ ty
    → is_last t ≡ true
    → has_type TokenType.invalid t ≡ false
    → ty ≡ TokenType.end
unfolding is_last has_type
last_by_type t TokenType.end h l n = refl
last_by_type t TokenType.invalid h l n = absurd (cc (rw h at n))
last_by_type t _ h l n = absurd (cc (rw (is_last, h) at l))

not_last-end : (t : Token) → is_last t ≡ false → t.token_type ≢ TokenType.end
unfolding is_last
not_last-end t l h = absurd (cc (rw (is_last, h) at l))

pub Closed-Program :
    (ts : List Token) → Closed ts → find_invalid ts ≡ none → All Spelled ts → Program ts
unfolding find_invalid
Closed-Program [] c h s = elim c [ ]
Closed-Program (t ∷ _) (closing l) h s = elim (Bool-cases (has_type TokenType.invalid t)) [
  | inl e ↦ absurd (cc (rw (find_invalid, e) at h))
  | inr e ↦ Outcomes.ending (last_by_type t t.token_type refl l e)
]
Closed-Program (t ∷ ts) (more l c) h (spelled, all) =
    elim (Bool-cases (has_type TokenType.invalid t)) [
      | inl e ↦ absurd (cc (rw (find_invalid, e) at h))
      | inr e ↦
          Outcomes.more (not_last-end t l) spelled
            (Closed-Program ts c (rw (find_invalid, e) at h) all)
    ]

if-Accepted :
    {A : Type 0} (stoi : String → Checked ℤ) (b : Bool) (r r' : Checked A)
    → Accepted stoi r
    → Accepted stoi r'
    → Accepted stoi (if b then r else r')
if-Accepted stoi true r r' a a' = a
if-Accepted stoi false r r' a a' = a'

labels-Accepted :
    (stoi : String → Checked ℤ) (index : ℕ) (statements : List StatementNode)
    (labels : Map String ℕ)
    → Accepted stoi (labeled_instructions index statements labels)
unfolding labeled_instructions
labels-Accepted stoi index [] labels = tt
labels-Accepted stoi index (s ∷ statements) labels =
    if-Accepted stoi (s.label == "") _ _ (labels-Accepted stoi (suc index) statements labels) (
      if-Accepted stoi (is_some (lookup s.label labels)) _ _ repeated
        (labels-Accepted stoi (suc index) statements (put s.label index labels)))

-- `parse` behind the loop
record Answers {A : Type 0} (stoi : String → Checked ℤ) (o : Option (Checked A)) : Type 0 where
  pub result : Checked A
  pub returns : o ≡ some result
  pub accepted : Accepted stoi result

statements-Answers :
    (stoi : String → Checked ℤ) (fuel : ℕ) (tokens : List Token) (r : Checked (List StatementNode))
    → find_invalid tokens ≡ none
    → parse_statements stoi fuel tokens ≡ some r
    → Fine stoi r
    → Answers stoi (parse stoi fuel tokens)
unfolding parse
statements-Answers stoi fuel tokens (err e) h p f =
    rw (parse, h, p) (record { result = err e; returns = refl; accepted = reported f })
statements-Answers stoi fuel tokens (ok ss) h p f =
    elim (Result-cases (labeled_instructions 0 ss [])) [
      | inl (labels, e) ↦ rw (parse, h, p, e) (record { result = _; returns = refl; accepted = tt })
      | inr (x, e) ↦
          rw (parse, h, p, e)
            (record {
              result = err x;
              returns = refl;
              accepted = rw e at (labels-Accepted stoi 0 ss []);
            })
    ]

parse-Answers :
    (stoi : String → Checked ℤ) (fuel : ℕ) (tokens : List Token)
    → Closed tokens
    → All Spelled tokens
    → length tokens ≤ fuel
    → Answers stoi (parse stoi fuel tokens)
unfolding parse
parse-Answers stoi fuel tokens c s b = elim (Option-cases (find_invalid tokens)) [
  | inr (t, e) ↦
      rw (parse, e)
        (record {
          result = err (invalid_token t);
          returns = refl;
          accepted = invalid (find_invalid-type tokens t e);
        })
  | inl e ↦
      let parsed = parse_statements-Returns stoi fuel tokens (Closed-Program tokens c e s) b in
      statements-Answers stoi fuel tokens parsed.result e parsed.returns parsed.fine
]

-- The lexer and the parser return on every text: one round more than the text has characters is
-- enough for each of their loops. They return a program, or throw one of four things: an INVALID
-- token, an unexpected token, whose kind is none of those that the exception says are expected, a
-- repeated label, or what std::stoi threw on a lexeme. So `peek` never runs past the tokens, and the
-- memory order's logic error is never thrown.
pub front_end_lem :
    (stoi : String → Checked ℤ) (code : String)
    → (r : Checked (ProgramNode × Map String ℕ)) × (front_end stoi (suc (size code)) code ≡ some r)
      × Accepted stoi r
unfolding front_end get_tokens
front_end_lem stoi code =
    let (tokens, lexes, closed) = get_tokens-Closed code in
    let (spelled, bound) = tokens_from-Spelled (suc (size code)) _ tokens lexes in
    let parsed = parse-Answers stoi (suc (size code)) tokens closed spelled bound in
    (parsed.result, rw (front_end, lexes) parsed.returns, parsed.accepted)
