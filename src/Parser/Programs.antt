-- ===== src/Parser/Programs.antt =====
-- The loop of `parse` in parser.cpp: it ends, and throws only what its statements throw.
use weak_memory_models_simul.Prelude.{
  ℕ, zero, suc, ◌≤◌, String, List, [], ◌∷◌, Option, none, some, ◌≡◌, refl, arith, length,
}
use weak_memory_models_simul.Prelude.Result.{ok, err}
use weak_memory_models_simul.Prelude.Int.{ℤ}
use weak_memory_models_simul.Lexer.Tokens.{Token, TokenType}
use weak_memory_models_simul.Ast.{AstNode, StatementNode}
use weak_memory_models_simul.Exceptions.{Error, Checked}
use weak_memory_models_simul.Parser.Outcomes.{
  Program, ending, more, Reported, unexpected, Outcome, threw, went, Eats,
}
use weak_memory_models_simul.Parser.Statements.{
  assignment-Eats, condition-Eats, goto-Eats, thread_goto-Eats, double_argument_call-Eats, cas-Eats,
  fence-Eats, label_at,
}
use weak_memory_models_simul.Parser.{
  parse_body, parse_statement, parse_statements, load_node, store_node, fai_node,
}
use weak_memory_models_simul.Parsing.{Parsing, ◌>>=◌, pure, has_type, peek, advance}

abbrev IsEnd : AstNode → Type 0
IsEnd n = n ≡ AstNode.end

abbrev IsLast : StatementNode → Type 0
IsLast s = IsEnd s.statement

-- The last statement is `end`.
abbrev pub EndsIn : List StatementNode → Type 0
EndsIn [] = ⊥
EndsIn (s ∷ []) = s.statement ≡ AstNode.end
EndsIn (s ∷ t ∷ ss) = EndsIn (t ∷ ss)

EndsIn-cons : (s : StatementNode) (ss : List StatementNode) → EndsIn ss → EndsIn (s ∷ ss)
EndsIn-cons s [] h = absurd h
EndsIn-cons s (t ∷ ss) h = h

module _ (stoi : String → Checked ℤ) where
  -- What is left behind a statement: fewer tokens, and END among them unless it was the last one.
  data Consumed {A : Type 0} (Last : A → Type 0) (n : ℕ) : Checked (A × List Token) → Type 0 where
    thrown : {e : Error} → Reported stoi e → Consumed Last n (err e)
    left :
        {a : A} {rest : List Token}
        → Program rest
        → length rest ≤ n
        → Consumed Last n (ok (a, rest))
    finished : {a : A} → Last a → Consumed Last n (ok (a, []))

  Outcome-Consumed :
      {A : Type 0} (Last : A → Type 0) (n : ℕ) (r : Checked (A × List Token))
      → Outcome stoi n r
      → Consumed Last n r
  Outcome-Consumed Last n _ (threw x) = thrown x
  Outcome-Consumed Last n _ (went p b) = left p b

  Eats-Consumed :
      {A : Type 0} (Last : A → Type 0) (m : Parsing A) (n : ℕ) (ts : List Token)
      → Eats stoi m
      → Program ts
      → length ts ≤ suc n
      → Consumed Last n (m ts)
  Eats-Consumed Last m n ts e p b = Outcome-Consumed Last n (m ts) (e.at n ts p b)

  end-Consumed :
      (n : ℕ) (t : Token) (ts : List Token)
      → t.token_type ≡ TokenType.end
      → Program (t ∷ ts)
      → Consumed IsEnd n (ok (AstNode.end, ts))
  end-Consumed n t _ h (ending _) = finished refl
  end-Consumed n t ts h (more other _ _) = absurd (other h)

  body-Consumed :
      (n : ℕ) (t : Token) (ts : List Token) (ty : TokenType)
      → t.token_type ≡ ty
      → Program (t ∷ ts)
      → length (t ∷ ts) ≤ suc n
      → Consumed IsEnd n (parse_body stoi t ty (t ∷ ts))
  unfolding parse_body advance has_type
  body-Consumed n t ts TokenType.identifier h p b =
      Eats-Consumed IsEnd _ n (t ∷ ts) (assignment-Eats stoi) p b
  body-Consumed n t ts TokenType.condition h p b =
      Eats-Consumed IsEnd _ n (t ∷ ts) (condition-Eats stoi) p b
  body-Consumed n t ts TokenType.goto h p b = Eats-Consumed IsEnd _ n (t ∷ ts) (goto-Eats stoi) p b
  body-Consumed n t ts TokenType.thread_goto h p b =
      Eats-Consumed IsEnd _ n (t ∷ ts) (thread_goto-Eats stoi) p b
  body-Consumed n t ts TokenType.load h p b =
      Eats-Consumed IsEnd _ n (t ∷ ts)
        (double_argument_call-Eats stoi load_node TokenType.load refl) p b
  body-Consumed n t ts TokenType.store h p b =
      Eats-Consumed IsEnd _ n (t ∷ ts)
        (double_argument_call-Eats stoi store_node TokenType.store refl) p b
  body-Consumed n t ts TokenType.fai h p b =
      Eats-Consumed IsEnd _ n (t ∷ ts) (double_argument_call-Eats stoi fai_node TokenType.fai refl)
        p b
  body-Consumed n t ts TokenType.cas h p b = Eats-Consumed IsEnd _ n (t ∷ ts) (cas-Eats stoi) p b
  body-Consumed n t ts TokenType.fence h p b =
      Eats-Consumed IsEnd _ n (t ∷ ts) (fence-Eats stoi) p b
  body-Consumed n t ts TokenType.end h p b = end-Consumed n t ts h p
  body-Consumed n t ts _ h p b = thrown (
      unexpected
        (rw (has_type, h) (refl, (refl, (refl, (refl, (refl, (refl, (refl, (refl, tt))))))))))

  Consumed-map :
      {A B : Type 0} (Last : B → Type 0) (f : A → B) (n : ℕ) (r : Checked (A × List Token))
      → Consumed (λ a. Last (f a)) n r
      → Consumed {A = B} Last n (elim r [ err e ↦ err e | ok (a, rest) ↦ ok (f a, rest) ])
  Consumed-map Last f n _ (thrown x) = thrown x
  Consumed-map Last f n _ (left p b) = left p b
  Consumed-map Last f n _ (finished e) = finished e

  labelled_statement-Consumed :
      (n : ℕ) (r : Checked (String × List Token))
      → Outcome stoi (suc n) r
      → Consumed IsLast n (elim r [
        | err e ↦ err e
        | ok (label, rest) ↦
            (do
              t ← peek
              statement ← parse_body stoi t t.token_type
              pure (record { statement = statement; label = label }))
              rest
      ])
  unfolding peek
  labelled_statement-Consumed n _ (threw x) = thrown x
  labelled_statement-Consumed n _ (went {rest = []} p b) = elim p [ ]
  labelled_statement-Consumed n _ (went {a = label} {rest = t ∷ ts} p b) =
      Consumed-map IsLast (λ statement. record { statement = statement; label = label }) n _
        (body-Consumed n t ts t.token_type refl p b)

  statement-Consumed :
      (n : ℕ) (ts : List Token)
      → Program ts
      → length ts ≤ suc n
      → Consumed IsLast n (parse_statement stoi ts)
  unfolding parse_statement
  statement-Consumed n ts p b = labelled_statement-Consumed n _ (label_at stoi (suc n) ts p b)

  -- The last statement is `end`; the exceptions are an unexpected token, or that of std::stoi.
  abbrev pub Fine : Checked (List StatementNode) → Type 0
  Fine (ok statements) = EndsIn statements
  Fine (err e) = Reported stoi e

  -- The fuel was enough.
  pub record Returns (o : Option (Checked (List StatementNode))) : Type 0 where
    pub result : Checked (List StatementNode)
    pub returns : o ≡ some result
    pub fine : Fine result

  Returns-cons :
      (s : StatementNode) (o : Option (Checked (List StatementNode)))
      → Returns o
      → Returns (elim o [
        | none ↦ none
        | some (err e) ↦ some (err e)
        | some (ok statements) ↦ some (ok (s ∷ statements))
      ])
  Returns-cons s o r = go r.result r.returns r.fine
    where
      go :
          (x : Checked (List StatementNode))
          → o ≡ some x
          → Fine x
          → Returns (elim o [
            | none ↦ none
            | some (err e) ↦ some (err e)
            | some (ok statements) ↦ some (ok (s ∷ statements))
          ])
      go (ok ss) h f =
          rw h (record { result = ok (s ∷ ss); returns = refl; fine = EndsIn-cons s ss f })
      go (err e) h f = rw h (record { result = err e; returns = refl; fine = f })

  no_tokens : (fuel : ℕ) → parse_statements stoi fuel [] ≡ some (ok [])
  unfolding parse_statements
  no_tokens zero = refl
  no_tokens (suc fuel) = refl

  -- one round of the loop
  round-Returns :
      (fuel : ℕ) (r : Checked (StatementNode × List Token))
      → Consumed IsLast fuel r
      → ((rest : List Token)
          → Program rest
          → length rest ≤ fuel
          → Returns (parse_statements stoi fuel rest))
      → Returns (elim r [
        | err e ↦ some (err e)
        | ok (statement, rest) ↦ elim (parse_statements stoi fuel rest) [
          | none ↦ none
          | some (err e) ↦ some (err e)
          | some (ok statements) ↦ some (ok (statement ∷ statements))
        ]
      ])
  round-Returns fuel _ (thrown {e = e} x) k = record { result = err e; returns = refl; fine = x }
  round-Returns fuel _ (left {a = s} {rest = rest} p b) k = Returns-cons s _ (k rest p b)
  round-Returns fuel _ (finished {a = s} e) k =
      rw (no_tokens fuel) (record { result = ok (s ∷ []); returns = refl; fine = e })

  -- The loop ends within as many rounds as there are tokens, where the last of them, and no other,
  -- is an END token, and a memory order has the spelling of one. It then returns statements, of
  -- which the last is `end`, or throws an unexpected token, of none of the kinds that it says are
  -- expected, or what std::stoi threw.
  pub parse_statements-Returns :
      (fuel : ℕ) (ts : List Token)
      → Program ts
      → length ts ≤ fuel
      → Returns (parse_statements stoi fuel ts)
  unfolding parse_statements
  parse_statements-Returns fuel [] p b = elim p [ ]
  parse_statements-Returns zero (t ∷ ts) p b = absurd (omega (arith, b))
  parse_statements-Returns (suc fuel) (t ∷ ts) p b =
      round-Returns fuel _ (statement-Consumed fuel (t ∷ ts) p b)
        (λ rest q c. parse_statements-Returns fuel rest q c)
