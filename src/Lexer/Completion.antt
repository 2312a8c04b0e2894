-- ===== src/Lexer/Completion.antt =====
-- The loop of `get_tokens` ends, and how.
use weak_memory_models_simul.Prelude.{
  ℕ, zero, suc, ◌+◌, ◌<◌, String, true, false, List, [], ◌∷◌, some, ◌≡◌, ap, ◌∙◌, arith, Bool-cases,
  inl, inr,
}
use weak_memory_models_simul.Prelude.Text.{size, size-concat}
use weak_memory_models_simul.Lexer.Tokens.{Token}
use weak_memory_models_simul.Lexer.Scanned.{Reads}
use weak_memory_models_simul.Lexer.Located.{get_next_token-Lexed}
use weak_memory_models_simul.Lexer.{Lexer, get_next_token, is_last, tokens_from, start, get_tokens}

-- The last token, and no other, is an END or INVALID one.
pub data Closed : List Token → Type 0 where
  closing : {t : Token} → is_last t ≡ true → Closed (t ∷ [])
  more : {t : Token} {ts : List Token} → is_last t ≡ false → Closed ts → Closed (t ∷ ts)

Reads-size : {l l' : Lexer} {s : String} → Reads l l' s → size l.program ≡ size s + size l'.program
Reads-size {l} {l'} {s} r = ap size r.splits ∙ size-concat s l'.program

get_next_token-shorter :
    (l : Lexer)
    → is_last (get_next_token l).0 ≡ false
    → size (get_next_token l).1.program < size l.program
get_next_token-shorter l e =
    let found = get_next_token-Lexed l in
    let (reads, nonempty) = found.consumed e in
    omega (arith, Reads-size found.skips, Reads-size reads, nonempty)

tokens_from-Closed :
    (fuel : ℕ) (l : Lexer)
    → size l.program < fuel
    → (tokens : List Token) × (tokens_from fuel l ≡ some tokens) × Closed tokens
unfolding tokens_from
tokens_from-Closed zero l bound = absurd (omega (arith, bound))
tokens_from-Closed (suc fuel) l bound = elim (Bool-cases (is_last (get_next_token l).0)) [
  | inl e ↦ ((get_next_token l).0 ∷ [], rw (tokens_from, e), closing e)
  | inr e ↦
      let shorter = get_next_token-shorter l e in
      let (tokens, returns, closed) = tokens_from-Closed fuel (get_next_token l).1 (omega arith) in
      ((get_next_token l).0 ∷ tokens, rw (tokens_from, e, returns), more e closed)
]

-- The lexer ends on every program: one round more than the program has characters is enough for its
-- loop. The last of the tokens it returns, and no other, is an END or INVALID token.
pub get_tokens-Closed :
    (program : String)
    → (tokens : List Token) × (get_tokens (suc (size program)) program ≡ some tokens)
      × Closed tokens
unfolding get_tokens
get_tokens-Closed program =
    tokens_from-Closed (suc (size program)) (record { program = program; current_position = start })
      (omega arith)
