-- ===== src/Utils.antt =====
-- src/utils/utils.cpp: classes of characters, by their codes, `trim`, and the spelling of operators
-- and access modes. `isspace` is the C library's std::isspace.
use Prim.Native.Char.{code}
use weak_memory_models_simul.Prelude.{
  ℕ, String, Bool, ◌&&◌, ◌||◌, not, if◌then◌else◌, ◌==◌, nat_eq, leb,
}
use weak_memory_models_simul.Lang.{
  MemoryOrder, sequentially_consistent, release, acquire, release_acquire, relaxed,
}
use weak_memory_models_simul.Ast.{BinOpType}

abbrev pub is_space : ℕ → Bool
is_space c = c == b' ' || c == b'\t' || c == b'\r' || c == b'\n'

abbrev pub is_newline : ℕ → Bool
is_newline c = c == b'\n'

unfoldable pub is_digit : ℕ → Bool
is_digit c = leb b'0' c && leb c b'9'

-- letters, digits and the underscore
unfoldable pub is_identifier_char : ℕ → Bool
unfolding is_digit
is_identifier_char c =
    (leb b'a' c && leb c b'z') || (leb b'A' c && leb c b'Z') || is_digit c || c == b'_'

unfoldable pub get_binop : BinOpType → String
get_binop BinOpType.plus = "+"
get_binop BinOpType.minus = "-"
get_binop BinOpType.mult = "*"
get_binop BinOpType.div = "/"

unfoldable pub get_memory_order : MemoryOrder → String
get_memory_order sequentially_consistent = "SEQ_CST"
get_memory_order acquire = "ACQ"
get_memory_order release = "REL"
get_memory_order release_acquire = "REL_ACQ"
get_memory_order relaxed = "RLX"

module _ (isspace : ℕ → Bool) where
  -- the test of both loops of `trim`
  abbrev trimmed : ℕ → Bool
  trimmed c = not (c == b'\n') && isspace c

  -- the first loop of `trim`
  unfoldable pub trim_start : String → String
  trim_start String.[] = String.[]
  trim_start (String.◌∷◌ c s) =
      let rest = trim_start s in if trimmed (code c) then rest else String.◌∷◌ c s

  -- the second loop: a text is trimmed to nothing where all of it is blank
  unfoldable pub trim_end : String → String
  trim_end String.[] = String.[]
  trim_end (String.◌∷◌ c s) = elim (trim_end s) [
    | String.[] ↦ if trimmed (code c) then String.[] else String.◌∷◌ c String.[]
    | String.◌∷◌ d t ↦ String.◌∷◌ c (String.◌∷◌ d t)
  ]

  unfoldable pub trim : String → String
  unfolding trim_start trim_end
  trim s = trim_end (trim_start s)
