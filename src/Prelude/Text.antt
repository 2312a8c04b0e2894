-- ===== src/Prelude/Text.antt =====
-- Texts that are walked character by character: `std::string` and `const char*`. A character stands
-- for a byte.
use Prim.Native.Nat.{ℕ, zero, suc, ◌+◌}
use Prim.Native.Char.{code, nul}
use Prim.Native.String.{String}
use mathlib.Core.Path.{◌≡◌, refl, ap}
use native.Mathlib.Omega.{arith}

-- operator+, which computes on its first text
infixr 65 ◌<>◌
abbrev pub ◌<>◌ : String → String → String
String.[] <> t = t
(String.◌∷◌ c s) <> t = String.◌∷◌ c (s <> t)

abbrev pub size : String → ℕ
size String.[] = 0
size (String.◌∷◌ c s) = suc (size s)

-- the byte at a pointer into a C string, 0 at its end
abbrev pub first_code : String → ℕ
first_code String.[] = 0
first_code (String.◌∷◌ c s) = code c

-- behind the first byte
abbrev pub behind_first : String → String
behind_first String.[] = String.[]
behind_first (String.◌∷◌ c s) = s

-- std::string_view of a pointer into a C string and a length: it can hold the terminator
abbrev pub view : ℕ → String → String
view zero s = String.[]
view (suc n) String.[] = String.◌∷◌ nul String.[]
view (suc n) (String.◌∷◌ c s) = String.◌∷◌ c (view n s)

pub concat-nil : (s : String) → s <> String.[] ≡ s
concat-nil String.[] = refl
concat-nil (String.◌∷◌ c s) = ap (String.◌∷◌ c) (concat-nil s)

pub concat_assoc : (s t u : String) → (s <> t) <> u ≡ s <> (t <> u)
concat_assoc String.[] t u = refl
concat_assoc (String.◌∷◌ c s) t u = ap (String.◌∷◌ c) (concat_assoc s t u)

pub size-concat : (s t : String) → size (s <> t) ≡ size s + size t
size-concat String.[] t = omega arith
size-concat (String.◌∷◌ c s) t = omega (arith, size-concat s t)
