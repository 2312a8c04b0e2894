-- ===== src/Lexer/Spells.antt =====
-- Texts that lexer.cpp splits into given words, wherever they stand.
use Prim.Native.Char.{Char, code}
use weak_memory_models_simul.Prelude.{
  ℕ, zero, suc, String, true, false, string_eq, List, [], ◌∷◌, ◌++◌, map, some, ◌≡◌, refl, ap, ◌∙◌,
  arith, Option-cases, inl, inr, nat_eq,
}
use weak_memory_models_simul.Prelude.Text.{◌<>◌, first_code}
use weak_memory_models_simul.Utils.{is_space, is_identifier_char}
use weak_memory_models_simul.Lexer.Tokens.{Position, TokenType, Token}
use weak_memory_models_simul.Lexer.Keywords.{keyword_type}
use weak_memory_models_simul.Lexer.Scanned.{walk}
use weak_memory_models_simul.Lexer.{
  Lexer, next_position, make_token, get_keyword_or_identifier_token, token_at, get_next_token,
  is_last, tokens_from,
}
use weak_memory_models_simul.Lexer.Names.{AllChars, IsName}
use weak_memory_models_simul.Lexer.Reading.{
  lexer, scan_text, view_text, at_token, blank_next, word_start, is_last-type, keyword_type-kept,
  first_of,
}

-- the kind of a token and its lexeme
abbrev pub word : Token → TokenType × String
word t = (t.token_type, t.lexeme)

-- The tokens that the loop collects, whatever the fuel.
pub data Collects : Lexer → List Token → Type 0 where
  closing :
      {l l' : Lexer} {t : Token}
      → get_next_token l ≡ (t, l')
      → is_last t ≡ true
      → Collects l (t ∷ [])
  more :
      {l l' : Lexer} {t : Token} {ts : List Token}
      → get_next_token l ≡ (t, l')
      → is_last t ≡ false
      → Collects l' ts
      → Collects l (t ∷ ts)

pub Collects-tokens_from :
    (fuel : ℕ) (l : Lexer) (ts us : List Token)
    → Collects l ts
    → tokens_from fuel l ≡ some us
    → ts ≡ us
unfolding tokens_from
Collects-tokens_from zero l ts us c h = absurd (cc h)
Collects-tokens_from (suc fuel) l _ us (closing e k) h = cc (rw (tokens_from, e, k) at h)
Collects-tokens_from (suc fuel) l _ us (more {l' = l'} {ts = ts} e k c) h =
    let token = ap (λ z. z.0) e in
    let behind = ap (λ z. z.1) e in
    elim (Option-cases (tokens_from fuel l')) [
      | inl out ↦ absurd (cc (rw (tokens_from, token, k, behind, out) at h))
      | inr (rest, r) ↦
          cc (Collects-tokens_from fuel l' ts rest c r, rw (tokens_from, token, k, behind, r) at h)
    ]

-- The lexer reads the words from the text, with `rest` behind it.
pub record Spells (s : String) (ws : List (TokenType × String)) (rest : String) : Type 0 where
  pub at :
      (p : Position)
      → (ts : List Token) × (p' : Position) × (map word ts ≡ ws)
        × ((us : List Token) → Collects (lexer rest p') us → Collects (lexer s p) (ts ++ us))

pub Spells-nil : (s : String) → Spells s [] s
Spells-nil s = record { at = λ p. ([], p, refl, λ us c. c) }

pub Spells-cons :
    (s rest rest' : String) (w : TokenType × String) (ws : List (TokenType × String))
    → ((p : Position)
        → (t : Token) × (p' : Position) × (word t ≡ w)
          × (is_last t ≡ false)
          × (get_next_token (lexer s p) ≡ (t, lexer rest p')))
    → Spells rest ws rest'
    → Spells s (w ∷ ws) rest'
Spells-cons s rest rest' w ws next r = record {
  at = λ p.
      let (t, q, is, kept, reads) = next p in
      let (ts, q', are, collects) = r.at q in
      (t ∷ ts, q', cc, λ us c. more reads kept (collects us c));
}

keyword_read :
    (w rest : String) (p : Position)
    → AllChars is_identifier_char w
    → is_identifier_char (first_code rest) ≡ false
    → get_keyword_or_identifier_token (lexer (w <> rest) p)
      ≡ (record { token_type = keyword_type w; lexeme = w; start_pos = p }, lexer rest (walk w p))
unfolding get_keyword_or_identifier_token make_token
keyword_read w rest p all stop = rw (
  get_keyword_or_identifier_token,
  scan_text is_identifier_char w rest p all stop,
  view_text w rest,
)

name_token :
    (w rest : String) (p : Position)
    → IsName w
    → is_identifier_char (first_code rest) ≡ false
    → get_next_token (lexer (w <> rest) p)
      ≡ (record { token_type = keyword_type w; lexeme = w; start_pos = p }, lexer rest (walk w p))
unfolding token_at
name_token w rest p n stop =
    let (visible, inside) = word_start (first_code w) n.first in
    let same = first_of w rest (λ z. ground arith) in
    at_token (w <> rest) p (rw same visible)
    ∙ rw (token_at, same, inside, n.no_digit, n.first) (keyword_read w rest p n.all stop)

-- A keyword or name, with no character of an identifier behind it.
pub Spells-name :
    (w rest rest' : String) (ws : List (TokenType × String))
    → IsName w
    → is_identifier_char (first_code rest) ≡ false
    → Spells rest ws rest'
    → Spells (w <> rest) ((keyword_type w, w) ∷ ws) rest'
Spells-name w rest rest' ws n stop =
    Spells-cons (w <> rest) rest rest' (keyword_type w, w) ws
      (λ p. (
        record { token_type = keyword_type w; lexeme = w; start_pos = p },
        walk w p,
        refl,
        is_last-type _ (keyword_type w) refl ∙ keyword_type-kept w,
        name_token w rest p n stop,
      ))

Collects-blank :
    (l l' : Lexer) (ts : List Token)
    → get_next_token l' ≡ get_next_token l
    → Collects l ts
    → Collects l' ts
Collects-blank l l' _ h (closing e k) = closing (h ∙ e) k
Collects-blank l l' _ h (more e k c) = more (h ∙ e) k c

-- A blank or newline is skipped.
pub Spells-blank :
    (c : Char) (s rest : String) (ws : List (TokenType × String))
    → is_space (code c) ≡ true
    → Spells s ws rest
    → Spells (String.◌∷◌ c s) ws rest
Spells-blank c s rest ws h r = record {
  at = λ p.
      let (ts, q, are, collects) = r.at (next_position (code c) p) in
      (ts, q, are, λ us k. Collects-blank _ _ _ (blank_next c s p h) (collects us k));
}
