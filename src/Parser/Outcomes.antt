-- ===== src/Parser/Outcomes.antt =====
-- What the functions of parser.cpp do on a list of tokens that ends in END: they consume no more than
-- it has, and throw only what they are written to throw.
use weak_memory_models_simul.Prelude.{
  ℕ, zero, suc, ◌≤◌, String, true, false, List, [], ◌∷◌, ◌≡◌, ◌≢◌, arith, Bool-cases, inl, inr,
  length, All, ◌==◌, nat_eq,
}
use weak_memory_models_simul.Prelude.Result.{ok, err}
use weak_memory_models_simul.Prelude.Int.{ℤ}
use weak_memory_models_simul.Lexer.Tokens.{Token, TokenType}
use weak_memory_models_simul.Lang.{MemoryOrder}
use weak_memory_models_simul.Exceptions.{Error, Checked, unexpected_token}
use weak_memory_models_simul.Parsing.{
  Parsing, ◌>>=◌, pure, type_index, has_type, peek, advance, to_memory_order, expect,
}

-- A token of a memory order has the spelling of one.
abbrev pub Spelled : Token → Type 0
Spelled t =
    t.token_type ≡ TokenType.memory_order → (o : MemoryOrder) × (to_memory_order t.lexeme ≡ ok o)

-- The tokens of a program: the last, and no other, is an END token.
pub data Program : List Token → Type 0 where
  ending : {t : Token} → t.token_type ≡ TokenType.end → Program (t ∷ [])
  more :
      {t : Token} {ts : List Token}
      → t.token_type ≢ TokenType.end
      → Spelled t
      → Program ts
      → Program (t ∷ ts)

pub expect_yes :
    (ty : TokenType) (t : Token) (ts : List Token)
    → has_type ty t ≡ true
    → expect ty (t ∷ ts) ≡ ok (t.lexeme, ts)
unfolding expect peek advance
expect_yes ty t ts h = rw (expect, h)

pub expect_no :
    (ty : TokenType) (t : Token) (ts : List Token)
    → has_type ty t ≡ false
    → expect ty (t ∷ ts) ≡ err (unexpected_token t (ty ∷ []))
unfolding expect peek advance
expect_no ty t ts h = rw (expect, h)

-- behind a token other than END
pub Program-tail :
    {t : Token} {ts : List Token} → t.token_type ≢ TokenType.end → Program (t ∷ ts) → Program ts
Program-tail other (ending h) = absurd (other h)
Program-tail other (more _ s p) = p

module _ (stoi : String → Checked ℤ) where
  -- the exceptions: an unexpected token, of none of the kinds that it says are expected, or that
  -- of std::stoi
  pub data Reported : Error → Type 0 where
    unexpected :
        {t : Token} {tys : List TokenType}
        → All (λ ty. has_type ty t ≡ false) tys
        → Reported (unexpected_token t tys)
    from_stoi : {e : Error} (lexeme : String) → stoi lexeme ≡ err e → Reported e

  -- At most `n` tokens are left, and END is among them.
  pub data Outcome {A : Type 0} (n : ℕ) : Checked (A × List Token) → Type 0 where
    threw : {e : Error} → Reported e → Outcome n (err e)
    went : {a : A} {rest : List Token} → Program rest → length rest ≤ n → Outcome n (ok (a, rest))

  -- A parsing function that leaves no more tokens than it finds, and one that leaves fewer.
  pub record Safe {A : Type 0} (m : Parsing A) : Type 0 where
    pub at : (n : ℕ) (ts : List Token) → Program ts → length ts ≤ n → Outcome n (m ts)

  pub record Eats {A : Type 0} (m : Parsing A) : Type 0 where
    pub at : (n : ℕ) (ts : List Token) → Program ts → length ts ≤ suc n → Outcome n (m ts)

module _ {stoi : String → Checked ℤ} where
  module _ {A : Type 0} where
    Outcome-weaken :
        (n : ℕ) (r : Checked (A × List Token)) → Outcome stoi n r → Outcome stoi (suc n) r
    Outcome-weaken n _ (threw x) = threw x
    Outcome-weaken n _ (went p b) = went p (omega arith)

    Eats-at :
        (m : Parsing A)
        → Eats stoi m
        → (n : ℕ) (ts : List Token) → Program ts
        → length ts ≤ n
        → Outcome stoi n (m ts)
    Eats-at m e n [] p b = elim p [ ]
    Eats-at m e zero (t ∷ ts) p b = absurd (omega (arith, b))
    Eats-at m e (suc n) (t ∷ ts) p b = Outcome-weaken n (m (t ∷ ts)) (e.at n (t ∷ ts) p b)

    pub Eats-Safe : {m : Parsing A} → Eats stoi m → Safe stoi m
    Eats-Safe {m = m} e = record { at = λ n ts p b. Eats-at m e n ts p b }

    pub Safe-pure : (a : A) → Safe stoi (pure a)
    Safe-pure a = record { at = λ n ts p b. went p b }

  module _ {A B : Type 0} where
    pub Outcome-bind :
        (n : ℕ) (r : Checked (A × List Token)) (f : A → Parsing B)
        → Outcome stoi n r
        → ((a : A) → Safe stoi (f a))
        → Outcome stoi n (elim r [ err e ↦ err e | ok (a, rest) ↦ f a rest ])
    Outcome-bind n _ f (threw x) k = threw x
    Outcome-bind n _ f (went {a} {rest} p b) k = (k a).at n rest p b

    pub Safe-bind :
        {m : Parsing A} {f : A → Parsing B}
        → Safe stoi m
        → ((a : A) → Safe stoi (f a))
        → Safe stoi (m >>= f)
    Safe-bind {m} {f} s k = record { at = λ n ts p b. Outcome-bind n (m ts) f (s.at n ts p b) k }

    pub Eats-bind :
        {m : Parsing A} {f : A → Parsing B}
        → Eats stoi m
        → ((a : A) → Safe stoi (f a))
        → Eats stoi (m >>= f)
    Eats-bind {m} {f} s k = record { at = λ n ts p b. Outcome-bind n (m ts) f (s.at n ts p b) k }

  Safe-peek_at :
      {B : Type 0} (f : Token → Parsing B)
      → ((n : ℕ) (t : Token) (ts : List Token)
          → Program (t ∷ ts)
          → length (t ∷ ts) ≤ n
          → Outcome stoi n (f t (t ∷ ts)))
      → (n : ℕ) (ts : List Token) → Program ts
      → length ts ≤ n
      → Outcome stoi n ((peek >>= f) ts)
  unfolding peek
  Safe-peek_at f k n [] p b = elim p [ ]
  Safe-peek_at f k n (t ∷ ts) p b = k n t ts p b

  -- A function that looks at the first token.
  pub Safe-peek :
      {B : Type 0} (f : Token → Parsing B)
      → ((n : ℕ) (t : Token) (ts : List Token)
          → Program (t ∷ ts)
          → length (t ∷ ts) ≤ n
          → Outcome stoi n (f t (t ∷ ts)))
      → Safe stoi (peek >>= f)
  Safe-peek f k = record { at = λ n ts p b. Safe-peek_at f k n ts p b }

  expect-Outcome :
      (ty : TokenType) (n : ℕ) (ts : List Token)
      → (type_index TokenType.end == type_index ty) ≡ false
      → Program ts
      → length ts ≤ suc n
      → Outcome stoi n (expect ty ts)
  expect-Outcome ty n [] e p b = elim p [ ]
  expect-Outcome ty n (t ∷ _) e (ending h) b =
      let other : has_type ty t ≡ false = unfold has_type in rw (h, e) in
      rw (expect_no ty t [] other) (threw (unexpected (other, tt)))
  expect-Outcome ty n (t ∷ ts) e (more other s p) b = elim (Bool-cases (has_type ty t)) [
    | inl is ↦ rw (expect_yes ty t ts is) (went p (omega arith))
    | inr not ↦ rw (expect_no ty t ts not) (threw (unexpected (not, tt)))
  ]

  pub expect-Eats :
      (ty : TokenType) → (type_index TokenType.end == type_index ty) ≡ false → Eats stoi (expect ty)
  expect-Eats ty e = record { at = λ n ts p b. expect-Outcome ty n ts e p b }
