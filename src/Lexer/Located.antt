-- ===== src/Lexer/Located.antt =====
-- Where the tokens of lexer.cpp stand in the text.
use Prim.Native.Char.{nul}
use weak_memory_models_simul.Prelude.{
  ℕ, ◌<◌, String, Bool, true, false, ◌≡◌, ◌≢◌, refl, sym, ap, ◌∙◌, arith, Bool-cases, inl, inr,
  ◌==◌, nat_eq,
}
use weak_memory_models_simul.Prelude.Text.{◌<>◌, size, view, first_code, concat_assoc}
use weak_memory_models_simul.Utils.{is_space, is_digit, is_identifier_char}
use weak_memory_models_simul.Lexer.Tokens.{TokenType, Token}
use weak_memory_models_simul.Lexer.Scanned.{
  Reads, Scanned, scan-Scanned, Reads-trans, Reads-refl, Reads-advance,
}
use weak_memory_models_simul.Lexer.{
  Lexer, peek, advance, scan, skip_blank, make_token, get_atom_token, get_number_token,
  get_location_token, get_keyword_or_identifier_token, atom_type, token_at, get_next_token, is_last,
}

-- the terminator of a C string
abbrev pub terminator : String
terminator = String.◌∷◌ nul String.[]

-- The lexeme stands at the pointer, and is read unless the token is the last one.
record Holds (l : Lexer) (t : Token) (l' : Lexer) : Type 0 where
  starts : t.start_pos ≡ l.current_position
  after : String
  stands : l.program <> terminator ≡ t.lexeme <> after
  consumed : is_last t ≡ false → Reads l l' t.lexeme × (0 < size t.lexeme)

-- The next token stands behind a gap.
pub record Lexed (l : Lexer) (t : Token) (l' : Lexer) : Type 0 where
  pub gap : String
  pub behind_gap : Lexer
  pub skips : Reads l behind_gap gap
  pub starts : t.start_pos ≡ behind_gap.current_position
  pub after : String
  pub stands : behind_gap.program <> terminator ≡ t.lexeme <> after
  pub consumed : is_last t ≡ false → Reads behind_gap l' t.lexeme × (0 < size t.lexeme)

Scanned-pos :
    (test : ℕ → Bool) (from to : Lexer) (len : ℕ) (sc : Scanned test from len to)
    → test (first_code from.program) ≡ true
    → (s : String) → sc.read ≡ s
    → 0 < size s
Scanned-pos test from to len sc h String.[] e =
    absurd (cc (h, sc.stops, ap first_code (sc.reads.splits ∙ ap (λ z. z <> to.program) e)))
Scanned-pos test from to len sc h (String.◌∷◌ c s) e = omega arith

-- a token that a scan reads
scanned-Holds :
    (test : ℕ → Bool) (ty : TokenType) (l : Lexer)
    → test 0 ≡ false
    → test (peek l) ≡ true
    → Holds l
        (make_token ty l (scan test l.program l.current_position).0)
        (scan test l.program l.current_position).1
unfolding make_token
scanned-Holds test ty l h₀ h =
    let sc = scan-Scanned test l.program l.current_position h₀ in
    record {
      starts = refl;
      after = (scan test l.program l.current_position).1.program <> terminator;
      stands =
          ap (λ z. z <> terminator) sc.reads.splits
          ∙ concat_assoc sc.read _ terminator
          ∙ ap (λ z. z <> (scan test l.program l.current_position).1.program <> terminator)
              (sym sc.lexeme);
      consumed = λ e. rw sc.lexeme (sc.reads, Scanned-pos test l _ _ sc h sc.read refl);
    }

view-stands : (s : String) → (after : String) × (s <> terminator ≡ view 1 s <> after)
view-stands String.[] = ("", refl)
view-stands (String.◌∷◌ c s) = (s <> terminator, refl)

view-pos : (s : String) → 0 < size (view 1 s)
view-pos String.[] = omega arith
view-pos (String.◌∷◌ c s) = omega arith

-- a token of one character
atom-Holds :
    (ty : TokenType) (l : Lexer)
    → (is_last (make_token ty l 1) ≡ false → peek l ≢ 0)
    → Holds l (get_atom_token ty l).0 (get_atom_token ty l).1
unfolding get_atom_token make_token
atom-Holds ty l h = record {
  starts = refl;
  after = (view-stands l.program).0;
  stands = (view-stands l.program).1;
  consumed = λ e. (Reads-advance l.program l.current_position (h e), view-pos l.program);
}

location-Holds : (l : Lexer) → Holds l (get_location_token l).0 (get_location_token l).1
unfolding get_location_token is_last is_identifier_char make_token
location-Holds l = elim (Bool-cases (is_identifier_char (peek l))) [
  | inl e ↦
      rw (get_location_token, e) (scanned-Holds is_identifier_char TokenType.location l refl e)
  | inr e ↦ rw (get_location_token, e) (atom-Holds TokenType.invalid l (λ x. absurd (cc x)))
]

token-Lexed : (l : Lexer) (t : Token) (l' : Lexer) → Holds l t l' → Lexed l t l'
token-Lexed l t l' h = record {
  gap = "";
  behind_gap = l;
  skips = Reads-refl l;
  starts = h.starts;
  after = h.after;
  stands = h.stands;
  consumed = h.consumed;
}

end-Holds : (l : Lexer) → Holds l (make_token TokenType.end l 0) l
unfolding make_token is_last
end-Holds l = record {
  starts = refl;
  after = l.program <> terminator;
  stands = refl;
  consumed = λ e. absurd (cc e);
}

number-Holds :
    (l : Lexer) → is_digit (peek l) ≡ true → Holds l (get_number_token l).0 (get_number_token l).1
unfolding get_number_token is_digit
number-Holds l h = scanned-Holds is_digit TokenType.number l refl h

word-Holds :
    (l : Lexer)
    → is_identifier_char (peek l) ≡ true
    → Holds l (get_keyword_or_identifier_token l).0 (get_keyword_or_identifier_token l).1
unfolding get_keyword_or_identifier_token is_identifier_char
word-Holds l h = scanned-Holds is_identifier_char _ l refl h

-- behind the number sign of a location
location-Lexed :
    (l : Lexer)
    → peek l ≢ 0
    → Lexed l (get_location_token (advance l)).0 (get_location_token (advance l)).1
location-Lexed l h =
    let held = location-Holds (advance l) in
    record {
      gap = view 1 l.program;
      behind_gap = advance l;
      skips = Reads-advance l.program l.current_position h;
      starts = held.starts;
      after = held.after;
      stands = held.stands;
      consumed = held.consumed;
    }

token_at-Lexed : (l : Lexer) → Lexed l (token_at l).0 (token_at l).1
unfolding token_at
token_at-Lexed l = elim (Bool-cases (peek l == 0)) [
  | inl e ↦ rw (token_at, e) (token-Lexed l _ _ (end-Holds l))
  | inr e ↦ elim (Bool-cases (is_digit (peek l))) [
    | inl d ↦ rw (token_at, e, d) (token-Lexed l _ _ (number-Holds l d))
    | inr d ↦ elim (Bool-cases (is_identifier_char (peek l))) [
      | inl i ↦ rw (token_at, e, d, i) (token-Lexed l _ _ (word-Holds l i))
      | inr i ↦ elim (Bool-cases (peek l == b'#')) [
        | inl x ↦ rw (token_at, e, d, i, x) (location-Lexed l (λ z. ground arith))
        | inr x ↦
            rw (token_at, e, d, i, x)
              (token-Lexed l _ _ (atom-Holds (atom_type (peek l)) l (λ _ z. ground arith)))
      ]
    ]
  ]
]

pub get_next_token-Lexed : (l : Lexer) → Lexed l (get_next_token l).0 (get_next_token l).1
unfolding get_next_token skip_blank
get_next_token-Lexed l =
    let sc = scan-Scanned is_space l.program l.current_position refl in
    let held = token_at-Lexed (skip_blank l) in
    record {
      gap = sc.read <> held.gap;
      behind_gap = held.behind_gap;
      skips = Reads-trans sc.reads held.skips;
      starts = held.starts;
      after = held.after;
      stands = held.stands;
      consumed = held.consumed;
    }
