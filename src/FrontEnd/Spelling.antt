-- ===== src/FrontEnd/Spelling.antt =====
-- The lexer makes a token of a memory order from the five spellings only that the parser reads.
use mathlib.Core.Path.{subst}
use weak_memory_models_simul.Prelude.{
  ℕ, zero, suc, ◌≤◌, String, List, some, ◌≡◌, ◌≢◌, arith, Bool-cases, inl, inr, ◌==◌, nat_eq,
  string_eq, All, length,
}
use weak_memory_models_simul.Prelude.Result.{ok}
use weak_memory_models_simul.Lang.{
  MemoryOrder, sequentially_consistent, release, acquire, release_acquire, relaxed,
}
use weak_memory_models_simul.Lexer.Tokens.{Token, TokenType}
use weak_memory_models_simul.Lexer.Keywords.{keyword_type}
use weak_memory_models_simul.Lexer.Rounds.{tokens_from-cases}
use weak_memory_models_simul.Utils.{is_digit, is_identifier_char}
use weak_memory_models_simul.Lexer.{
  Lexer, peek, advance, make_token, get_atom_token, get_number_token, get_location_token,
  get_keyword_or_identifier_token, atom_type, token_at, get_next_token, skip_blank, tokens_from,
}
use weak_memory_models_simul.Parsing.{to_memory_order}
use weak_memory_models_simul.Parser.Outcomes.{Spelled}

keyword_type-Spelled :
    (w : String)
    → keyword_type w ≡ TokenType.memory_order
    → (o : MemoryOrder) × (to_memory_order w ≡ ok o)
unfolding keyword_type to_memory_order
keyword_type-Spelled w h = elim (Bool-cases (w == "SEQ_CST")) [
  | inl e ↦ (sequentially_consistent, rw (to_memory_order, e))
  | inr n₁ ↦ elim (Bool-cases (w == "REL")) [
    | inl e ↦ (release, rw (to_memory_order, n₁, e))
    | inr n₂ ↦ elim (Bool-cases (w == "ACQ")) [
      | inl e ↦ (acquire, rw (to_memory_order, n₁, n₂, e))
      | inr n₃ ↦ elim (Bool-cases (w == "REL_ACQ")) [
        | inl e ↦ (release_acquire, rw (to_memory_order, n₁, n₂, n₃, e))
        | inr n₄ ↦ elim (Bool-cases (w == "RLX")) [
          | inl e ↦ (relaxed, rw (to_memory_order, n₁, n₂, n₃, n₄, e))
          | inr n₅ ↦ absurd (ground (arith, rw (keyword_type, n₁, n₂, n₃, n₄, n₅) at h))
        ]
      ]
    ]
  ]
]

atom_type-not-order : (c : ℕ) → atom_type c ≢ TokenType.memory_order
unfolding atom_type
atom_type-not-order c h = ground arith

location-Spelled : (l : Lexer) → Spelled (get_location_token l).0
unfolding get_location_token get_atom_token make_token
location-Spelled l = elim (Bool-cases (is_identifier_char (peek l))) [
  | inl e ↦ rw (get_location_token, e) (λ h. absurd (cc))
  | inr e ↦ rw (get_location_token, e) (λ h. absurd (cc))
]

token_at-Spelled : (l : Lexer) → Spelled (token_at l).0
unfolding token_at get_number_token get_keyword_or_identifier_token get_atom_token make_token
token_at-Spelled l = elim (Bool-cases (peek l == 0)) [
  | inl e ↦ rw (token_at, e) (λ h. absurd (cc))
  | inr e ↦ elim (Bool-cases (is_digit (peek l))) [
    | inl d ↦ rw (token_at, e, d) (λ h. absurd (cc))
    | inr d ↦ elim (Bool-cases (is_identifier_char (peek l))) [
      | inl i ↦ rw (token_at, e, d, i) (keyword_type-Spelled _)
      | inr i ↦ elim (Bool-cases (peek l == b'#')) [
        | inl x ↦ rw (token_at, e, d, i, x) (location-Spelled (advance l))
        | inr x ↦ rw (token_at, e, d, i, x) (λ h. absurd (atom_type-not-order (peek l) h))
      ]
    ]
  ]
]

-- each round of the lexer's loop gives one token, which is spelled right
pub tokens_from-Spelled :
    (fuel : ℕ) (l : Lexer) (tokens : List Token)
    → tokens_from fuel l ≡ some tokens
    → All Spelled tokens × (length tokens ≤ fuel)
unfolding tokens_from get_next_token
tokens_from-Spelled zero l tokens h = absurd (cc h)
tokens_from-Spelled (suc fuel) l tokens h =
    let spelled = token_at-Spelled (skip_blank l) in
    elim (tokens_from-cases fuel l tokens h) [
      | inl same ↦
          subst (λ ts. All Spelled ts × (length ts ≤ suc fuel)) same ((spelled, tt), omega arith)
      | inr (e, rest, returns, same) ↦
          let (all, bound) = tokens_from-Spelled fuel (get_next_token l).1 rest returns in
          subst (λ ts. All Spelled ts × (length ts ≤ suc fuel)) same
            ((spelled, all), omega (arith, bound))
    ]
