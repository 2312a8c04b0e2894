-- ===== src/Lexer/Names.antt =====
-- Names and numbers by their characters.
use Prim.Native.Char.{code}
use weak_memory_models_simul.Prelude.{
  ℕ, String, Bool, true, false, ◌&&◌, not, string_eq, ◌≡◌, refl, arith, nat_eq,
}
use weak_memory_models_simul.Prelude.Text.{first_code}
use weak_memory_models_simul.Utils.{is_digit, is_identifier_char}

-- every character passes a test
abbrev pub AllChars : (ℕ → Bool) → String → Type 0
AllChars test String.[] = Unit
AllChars test (String.◌∷◌ c s) = (test (code c) ≡ true) × AllChars test s

unfoldable pub all_chars : (ℕ → Bool) → String → Bool
all_chars test String.[] = true
all_chars test (String.◌∷◌ c s) = test (code c) && all_chars test s

pub two_tests : (a b : Bool) → (a && b) ≡ true → (a ≡ true) × (b ≡ true)
two_tests true b h = (refl, h)
two_tests false b h = absurd (cc h)

pub three_tests : (a b c : Bool) → (a && not b && c) ≡ true → (a ≡ true) × (b ≡ false) × (c ≡ true)
three_tests true false c h = (refl, refl, h)
three_tests true true c h = absurd (cc h)
three_tests false b c h = absurd (ground arith)

pub all_chars-AllChars : (test : ℕ → Bool) (s : String) → all_chars test s ≡ true → AllChars test s
unfolding all_chars
all_chars-AllChars test String.[] h = tt
all_chars-AllChars test (String.◌∷◌ c s) h =
    let (passes, others) = two_tests (test (code c)) (all_chars test s) h in
    (passes, all_chars-AllChars test s others)

-- a keyword or name: characters of identifiers, the first no digit
pub record IsName (w : String) : Type 0 where
  pub first : is_identifier_char (first_code w) ≡ true
  pub no_digit : is_digit (first_code w) ≡ false
  pub all : AllChars is_identifier_char w

-- the same as a test
unfoldable pub is_name : String → Bool
unfolding all_chars
is_name String.[] = false
is_name (String.◌∷◌ c w) =
    is_identifier_char (code c) && not (is_digit (code c)) && all_chars is_identifier_char w

pub is_name-IsName : (w : String) → is_name w ≡ true → IsName w
unfolding is_name
is_name-IsName String.[] h = absurd (cc h)
is_name-IsName (String.◌∷◌ c w) h =
    let (first, no_digit, all) = three_tests _ _ _ h in
    record {
      first = first;
      no_digit = no_digit;
      all = (first, all_chars-AllChars is_identifier_char w all);
    }
