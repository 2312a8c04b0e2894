-- ===== src/Lexer/Rounds.antt =====
-- One round of the loop of `get_tokens` in lexer.cpp.
use weak_memory_models_simul.Prelude.{
  ℕ, suc, false, List, [], ◌∷◌, some, ◌≡◌, Bool-cases, Option-cases, inl, inr, ◌⊎◌,
}
use weak_memory_models_simul.Lexer.Tokens.{Token}
use weak_memory_models_simul.Lexer.{Lexer, get_next_token, is_last, tokens_from}

-- The token is the last one, or the rest of the loop gives the others.
pub tokens_from-cases :
    (fuel : ℕ) (l : Lexer) (tokens : List Token)
    → tokens_from (suc fuel) l ≡ some tokens
    → ((get_next_token l).0 ∷ [] ≡ tokens)
      ⊎ ((is_last (get_next_token l).0 ≡ false)
          × (rest : List Token) × (tokens_from fuel (get_next_token l).1 ≡ some rest)
          × ((get_next_token l).0 ∷ rest ≡ tokens))
unfolding tokens_from
tokens_from-cases fuel l tokens h = elim (Bool-cases (is_last (get_next_token l).0)) [
  | inl e ↦ inl (cc (rw (tokens_from, e) at h))
  | inr e ↦ elim (Option-cases (tokens_from fuel (get_next_token l).1)) [
    | inl out ↦ absurd (cc (rw (tokens_from, e, out) at h))
    | inr (rest, returns) ↦ inr (e, rest, returns, cc (rw (tokens_from, e, returns) at h))
  ]
]
