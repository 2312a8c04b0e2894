-- ===== src/Safety/Programs.antt =====
-- The programs that the front end returns (lexer.cpp, parser.cpp) are closed.
use weak_memory_models_simul.Prelude.{
  ℕ, zero, suc, ◌<◌, String, List, [], ◌∷◌, Option, none, some, ◌≡◌, ◌≢◌, sym, ap, ◌∙◌, arith,
  string_eq, Option-cases, inl, inr, ◌⊎◌, get_elem?, length,
}
use mathlib.Core.Path.{subst}
use weak_memory_models_simul.Prelude.Result.{ok, err, Result-cases}
use weak_memory_models_simul.Prelude.Int.{ℤ}
use weak_memory_models_simul.Prelude.Map.{Map}
use weak_memory_models_simul.Prelude.Text.{size}
use weak_memory_models_simul.Exceptions.{Checked, Error}
use weak_memory_models_simul.Ast.{AstNode, StatementNode, ProgramNode}
use weak_memory_models_simul.Lexer.{get_tokens}
use weak_memory_models_simul.Lexer.Tokens.{Token}
use weak_memory_models_simul.Lexer.Completion.{get_tokens-Closed}
use weak_memory_models_simul.Parser.{find_invalid, labeled_instructions, parse, parse_statements}
use weak_memory_models_simul.Parser.Labels.{labels_lead_to_statements}
use weak_memory_models_simul.Parser.Programs.{EndsIn, Fine, parse_statements-Returns}
use weak_memory_models_simul.FrontEnd.{front_end}
use weak_memory_models_simul.FrontEnd.Errors.{Closed-Program}
use weak_memory_models_simul.FrontEnd.Spelling.{tokens_from-Spelled}
use weak_memory_models_simul.Interpreter.{Interpreter}
use weak_memory_models_simul.Storage.Interface.{StorageSubsystem}
use weak_memory_models_simul.State.{ProgramState}
use weak_memory_models_simul.Interpreter.NonDeterministic
use weak_memory_models_simul.Interpreter.NonDeterministic.{Draw}
use weak_memory_models_simul.Safety.Lawful.{Lawful}
use weak_memory_models_simul.Safety.Formed.{IsClosed}
use weak_memory_models_simul.Safety.States.{Reached, IsRunning, Reached-IsRunning}
use weak_memory_models_simul.Safety.Runs.{Failure, run-fails}

length-get_elem {ℓ} :
    {A : Type ℓ} (xs : List A) (k : ℕ) (x : A) → get_elem? xs k ≡ some x → k < length xs
length-get_elem [] k x h = absurd (cc)
length-get_elem (y ∷ xs) zero x h = omega arith
length-get_elem (y ∷ xs) (suc k) x h = omega (arith, length-get_elem xs k x h)

EndsIn-starts : (ss : List StatementNode) → EndsIn ss → 0 < length ss
EndsIn-starts [] h = absurd h
EndsIn-starts (s ∷ ss) h = omega arith

EndsIn-goes_on :
    (ss : List StatementNode) (k : ℕ) (n : StatementNode)
    → EndsIn ss
    → get_elem? ss k ≡ some n
    → (n.statement ≡ AstNode.end) ⊎ (suc k < length ss)
EndsIn-goes_on [] k n h e = absurd h
EndsIn-goes_on (s ∷ []) zero n h e =
    let same : s ≡ n = cc in inl (ap (λ (x : StatementNode). x.statement) (sym same) ∙ h)
EndsIn-goes_on (s ∷ []) (suc k) n h e = absurd (cc)
EndsIn-goes_on (s ∷ t ∷ ss) zero n h e = inr (omega arith)
EndsIn-goes_on (s ∷ t ∷ ss) (suc k) n h e = elim (EndsIn-goes_on (t ∷ ss) k n h e) [
  | inl ends ↦ inl ends
  | inr lt ↦ inr (omega (arith, lt))
]

abbrev interpreter : ProgramNode × Map String ℕ → Interpreter
interpreter (root, labels) = record { root = root; labeled_instructions = labels }

returned {ℓ} :
    {A : Type ℓ} {a b : A} → (let r : Option (Checked A) = some (ok a) in r) ≡ some (ok b) → a ≡ b
returned h = cc

pub statements-IsClosed :
    (ss : List StatementNode) (labels : Map String ℕ)
    → EndsIn ss
    → labeled_instructions 0 ss [] ≡ ok labels
    → IsClosed (interpreter (record { statements = ss }, labels))
statements-IsClosed ss labels ends h = record {
  starts = EndsIn-starts ss ends;
  goes_on = λ k n e. EndsIn-goes_on ss k n ends e;
  labelled = λ label k e.
      let l = labels_lead_to_statements ss labels label k h e in
      length-get_elem ss k l.statement l.stands;
}

parse-IsClosed :
    (stoi : String → Checked ℤ) (fuel : ℕ) (tokens : List Token) (ss : Checked (List StatementNode))
    (p : ProgramNode × Map String ℕ)
    → find_invalid tokens ≡ none
    → parse_statements stoi fuel tokens ≡ some ss
    → Fine stoi ss
    → parse stoi fuel tokens ≡ some (ok p)
    → IsClosed (interpreter p)
unfolding parse
parse-IsClosed stoi fuel tokens (err x) p valid parsed fine h =
    absurd (cc (rw (parse, valid, parsed) at h))
parse-IsClosed stoi fuel tokens (ok ss) (root, labels) valid parsed fine h =
    elim (Result-cases (labeled_instructions 0 ss [])) [
      | inl (ls, e) ↦
          subst (λ (p : ProgramNode × Map String ℕ). IsClosed (interpreter p))
            (returned (rw (parse, valid, parsed, e) at h)) (statements-IsClosed ss ls fine e)
      | inr (x, e) ↦ absurd (cc (rw (parse, valid, parsed, e) at h))
    ]

invalid-parse :
    (stoi : String → Checked ℤ) (fuel : ℕ) (tokens : List Token) (t : Token)
    (p : ProgramNode × Map String ℕ)
    → find_invalid tokens ≡ some t
    → parse stoi fuel tokens ≢ some (ok p)
unfolding parse
invalid-parse stoi fuel tokens t p e h = cc (rw (parse, e) at h)

-- A program that the lexer and the parser return is closed: its last statement is `end`, and every
-- label of its table leads to a statement.
pub front_end-IsClosed :
    (stoi : String → Checked ℤ) (code : String) (root : ProgramNode) (labels : Map String ℕ)
    → front_end stoi (suc (size code)) code ≡ some (ok (root, labels))
    → IsClosed (record { root = root; labeled_instructions = labels })
unfolding front_end get_tokens
front_end-IsClosed stoi code root labels h =
    let (tokens, lexes, closed) = get_tokens-Closed code in
    let (spelled, bound) = tokens_from-Spelled (suc (size code)) _ tokens lexes in
    let h₁ : parse stoi (suc (size code)) tokens ≡ some (ok (root, labels)) =
      rw (front_end, lexes) at h in
    elim (Option-cases (find_invalid tokens)) [
      | inl valid ↦
          let parsed =
            parse_statements-Returns stoi (suc (size code)) tokens
              (Closed-Program tokens closed valid spelled) bound in
          parse-IsClosed stoi (suc (size code)) tokens parsed.result (root, labels) valid
            parsed.returns parsed.fine h₁
      | inr (t, e) ↦ absurd (invalid-parse stoi (suc (size code)) tokens t (root, labels) e h₁)
    ]

module _ {S : Type 0} (m : StorageSubsystem S) (Valid : S → Type 0) (lawful : Lawful m Valid)
    (stoi : String → Checked ℤ) (code : String) (root : ProgramNode) (labels : Map String ℕ)
    (returns : front_end stoi (suc (size code)) code ≡ some (ok (root, labels))) where
  abbrev program : Interpreter
  program = record { root = root; labeled_instructions = labels }

  -- Let the lexer and the parser return a program, and let the memory model keep its invariant. In
  -- every state that a run of the program leads through, each active thread is at a statement of the
  -- program, the ids of the threads and the current one were given out before, the target of a goto
  -- is a statement, and the memory satisfies its invariant.
  pub program_states : (s : ProgramState S) → Reached m program s → IsRunning program Valid s
  program_states s reached =
      Reached-IsRunning m program Valid lawful (front_end-IsClosed stoi code root labels returns)
        reached

  -- Let the lexer and the parser return a program, and let the memory model keep its invariant. A
  -- random execution that throws does so at an instruction of the program, in a state of the run, for
  -- one of these causes: the instruction jumps or starts a thread at a label that the program does not
  -- have (unknown_label), reads a register that its thread has not set (std::out_of_range), computes
  -- what does not fit int or divides by zero (undefined), or is a fence that the memory model refuses
  -- (std::runtime_error). So no assertion fails, the accesses to the memory, its own steps and the
  -- flush at the end succeed, the choice of a thread and of a step finds one, and no statement is
  -- looked up out of the program.
  pub program_fails :
      (draws : List Draw) (x : Error)
      → NonDeterministic.run m program draws ≡ some (err x)
      → Failure m program x
  program_fails draws x fails =
      run-fails m program Valid lawful (front_end-IsClosed stoi code root labels returns) draws x
        fails
