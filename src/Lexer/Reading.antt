-- ===== src/Lexer/Reading.antt =====
-- What get_next_token of lexer.cpp does at the start of a known text.
use Prim.Native.Char.{Char, code}
use weak_memory_models_simul.Prelude.{
  ℕ, String, Bool, true, false, ◌||◌, if◌then◌else◌, string_eq, ◌≡◌, ◌≢◌, refl, ap, arith, ◌==◌,
  nat_eq,
}
use weak_memory_models_simul.Prelude.Text.{◌<>◌, first_code, view, size}
use weak_memory_models_simul.Utils.{is_space, is_digit, is_identifier_char}
use weak_memory_models_simul.Lexer.Tokens.{Position, TokenType, Token}
use weak_memory_models_simul.Lexer.Keywords.{keyword_type}
use weak_memory_models_simul.Lexer.Scanned.{walk}
use weak_memory_models_simul.Lexer.{
  Lexer, scan, skip_blank, next_position, token_at, get_next_token, is_last,
}
use weak_memory_models_simul.Lexer.Names.{AllChars}

-- a pointer into a text and the position there
abbrev pub lexer : String → Position → Lexer
lexer s p = record { program = s; current_position = p }

pub scan_text :
    (test : ℕ → Bool) (w rest : String) (p : Position)
    → AllChars test w
    → test (first_code rest) ≡ false
    → scan test (w <> rest) p ≡ (size w, lexer rest (walk w p))
unfolding scan walk
scan_text test String.[] String.[] p all stop = refl
scan_text test String.[] (String.◌∷◌ c s) p all stop = rw (scan, stop)
scan_text test (String.◌∷◌ c w) rest p (h, all) stop =
    rw (scan, h, scan_text test w rest (next_position (code c) p) all stop)

pub view_text : (w rest : String) → view (size w) (w <> rest) ≡ w
view_text String.[] rest = refl
view_text (String.◌∷◌ c w) rest = ap (String.◌∷◌ c) (view_text w rest)

-- a token in front of which no blank stands
pub at_token :
    (s : String) (p : Position)
    → is_space (first_code s) ≡ false
    → get_next_token (lexer s p) ≡ token_at (lexer s p)
unfolding get_next_token skip_blank scan
at_token String.[] p h = refl
at_token (String.◌∷◌ c s) p h = rw (get_next_token, skip_blank, scan, h)

-- a blank or newline in front of a token is skipped
pub blank_next :
    (c : Char) (s : String) (p : Position)
    → is_space (code c) ≡ true
    → get_next_token (lexer (String.◌∷◌ c s) p)
      ≡ get_next_token (lexer s (next_position (code c) p))
unfolding get_next_token skip_blank scan
blank_next c s p h = rw (get_next_token, skip_blank, scan, h)

pub word_start : (c : ℕ) → is_identifier_char c ≡ true → (is_space c ≡ false) × ((c == 0) ≡ false)
unfolding is_identifier_char is_digit
word_start c h = (ground arith, ground arith)

pub digit_start : (c : ℕ) → is_digit c ≡ true → (is_space c ≡ false) × ((c == 0) ≡ false)
unfolding is_digit
digit_start c h = (ground arith, ground arith)

-- `is_last`, of a kind
abbrev pub last_type : TokenType → Bool
last_type ty = elim ty [ TokenType.end ↦ true | TokenType.invalid ↦ true | _ ↦ false ]

pub is_last-type : (t : Token) (ty : TokenType) → t.token_type ≡ ty → is_last t ≡ last_type ty
unfolding is_last
is_last-type t ty h = rw (is_last, h)

pub if-kept :
    (b : Bool) (ty ty' : TokenType)
    → last_type ty ≡ false
    → last_type ty' ≡ false
    → last_type (if b then ty else ty') ≡ false
if-kept true ty ty' h h' = h
if-kept false ty ty' h h' = h'

pub keyword_type-kept : (w : String) → last_type (keyword_type w) ≡ false
unfolding keyword_type
keyword_type-kept w = if-kept (w == "if") _ _ refl (
    if-kept (w == "goto") _ _ refl (
      if-kept (w == "thread_goto") _ _ refl (
        if-kept (w == "SEQ_CST" || w == "REL" || w == "ACQ" || w == "REL_ACQ" || w == "RLX") _ _
          refl
          (if-kept (w == "load") _ _ refl (
            if-kept (w == "store") _ _ refl (
              if-kept (w == "cas") _ _ refl
                (if-kept (w == "fai") _ _ refl (if-kept (w == "fence") _ _ refl refl))))))))

pub first_of : (w rest : String) → first_code w ≢ 0 → first_code (w <> rest) ≡ first_code w
first_of String.[] rest h = absurd (h refl)
first_of (String.◌∷◌ c s) rest h = refl
