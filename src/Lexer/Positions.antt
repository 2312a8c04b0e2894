-- ===== src/Lexer/Positions.antt =====
-- The positions that `advance` counts, and the tokens' lexemes.
use Prim.Native.Char.{code}
use mathlib.Core.Path.{subst}
use weak_memory_models_simul.Prelude.{
  ℕ, zero, suc, ◌+◌, String, List, some, ◌≡◌, refl, ap, ◌∙◌, arith, inl, inr, if◌then◌else◌, ◌==◌,
  nat_eq, All,
}
use weak_memory_models_simul.Prelude.Text.{◌<>◌, size, concat_assoc}
use weak_memory_models_simul.Utils.{is_newline}
use weak_memory_models_simul.Lexer.Tokens.{Position, Token}
use weak_memory_models_simul.Lexer.Scanned.{Reads, Reads-trans, Reads-refl, walk}
use weak_memory_models_simul.Lexer.Rounds.{tokens_from-cases}
use weak_memory_models_simul.Lexer.Located.{Lexed, get_next_token-Lexed, terminator}
use weak_memory_models_simul.Lexer.{
  Lexer, next_position, get_next_token, tokens_from, start, get_tokens,
}

pub newlines : String → ℕ
newlines String.[] = 0
newlines (String.◌∷◌ c s) = (if is_newline (code c) then 1 else 0) + newlines s

-- the text behind the last newline
pub last_line : String → String
unfolding newlines
last_line String.[] = String.[]
last_line (String.◌∷◌ c s) = if newlines (String.◌∷◌ c s) == 0 then String.◌∷◌ c s else last_line s

-- The token's lexeme stands in the program, or is the terminator behind it, and the token's position
-- has the number of characters before it, the number of lines before its line, and the number of
-- characters before it in its line.
pub record LocatedIn (program : String) (t : Token) : Type 0 where
  pub before : String
  pub after : String
  pub splits : program <> terminator ≡ before <> (t.lexeme <> after)
  pub index : t.start_pos.index ≡ size before
  pub line : t.start_pos.line ≡ newlines before
  pub column : t.start_pos.column ≡ size (last_line before)

walk-index : (s : String) (p : Position) → (walk s p).index ≡ p.index + size s
unfolding walk next_position
walk-index String.[] p = omega arith
walk-index (String.◌∷◌ c s) p = omega (arith, walk-index s (next_position (code c) p))

walk-line : (s : String) (p : Position) → (walk s p).line ≡ p.line + newlines s
unfolding walk next_position newlines
walk-line String.[] p = omega arith
walk-line (String.◌∷◌ c s) p = ground (arith, walk-line s (next_position (code c) p))

last_line_all : (s : String) → newlines s ≡ 0 → last_line s ≡ s
unfolding last_line
last_line_all String.[] h = refl
last_line_all (String.◌∷◌ c s) h = ground arith

walk-column :
    (s : String) (p : Position)
    → (walk s p).column ≡ (if newlines s == 0 then p.column + size s else size (last_line s))
unfolding walk next_position newlines last_line
walk-column String.[] p = omega arith
walk-column (String.◌∷◌ c s) p =
    ground (arith, walk-column s (next_position (code c) p), last_line_all s)

walk-LocatedIn :
    (program : String) (l l' : Lexer) (before : String) (t : Token)
    → Reads (record { program = program; current_position = start }) l before
    → Lexed l t l'
    → LocatedIn program t
walk-LocatedIn program l l' before t reads found =
    let all = Reads-trans reads found.skips in
    let b = before <> found.gap in
    record {
      before = b;
      after = found.after;
      splits =
          ap (λ z. z <> terminator) all.splits
          ∙ concat_assoc b _ terminator
          ∙ ap (◌<>◌ b) found.stands;
      index = omega (arith, walk-index b start, ap (λ z. z.index) (found.starts ∙ all.moves));
      line = omega (arith, walk-line b start, ap (λ z. z.line) (found.starts ∙ all.moves));
      column = ground (
        arith,
        walk-column b start,
        ap (λ z. z.column) (found.starts ∙ all.moves),
        last_line_all b,
      );
    }

tokens_from-LocatedIn :
    (program : String) (fuel : ℕ) (l : Lexer) (before : String) (tokens : List Token)
    → Reads (record { program = program; current_position = start }) l before
    → tokens_from fuel l ≡ some tokens
    → All (LocatedIn program) tokens
unfolding tokens_from
tokens_from-LocatedIn program zero l before tokens reads h = absurd (cc h)
tokens_from-LocatedIn program (suc fuel) l before tokens reads h =
    let found = get_next_token-Lexed l in
    let located =
      walk-LocatedIn program l (get_next_token l).1 before (get_next_token l).0 reads found in
    elim (tokens_from-cases fuel l tokens h) [
      | inl same ↦ subst (All (LocatedIn program)) same (located, tt)
      | inr (e, rest, returns, same) ↦
          let behind = Reads-trans (Reads-trans reads found.skips) (found.consumed e).0 in
          subst (All (LocatedIn program)) same
            (located, tokens_from-LocatedIn program fuel (get_next_token l).1 _ rest behind returns)
    ]

-- Every token stands where its position says, with its lexeme.
pub get_tokens-LocatedIn :
    (program : String) (fuel : ℕ) (tokens : List Token)
    → get_tokens fuel program ≡ some tokens
    → All (LocatedIn program) tokens
unfolding get_tokens
get_tokens-LocatedIn program fuel tokens =
    tokens_from-LocatedIn program fuel (record { program = program; current_position = start }) ""
      tokens (Reads-refl _)
