-- ===== src/Safety/Examples.antt =====
-- The theorems on runs at a concrete program, one with a jump to a label that it does not have.
use weak_memory_models_simul.Prelude.{
  ℕ, String, [], ◌∷◌, some, ◌≡◌, refl, nat_eq, string_eq, ◌==◌, if◌then◌else◌,
}
use weak_memory_models_simul.Prelude.Result.{ok, err}
use weak_memory_models_simul.Prelude.Int.{ℤ, pos}
use weak_memory_models_simul.Prelude.Map.{lookup, put, HashOrder, nat_less, string_less}
use weak_memory_models_simul.Exceptions.{Checked, unknown_label, logic_error}
use weak_memory_models_simul.Ast.{AstNode, ProgramNode}
use weak_memory_models_simul.Storage.Pso
use weak_memory_models_simul.Storage.Pso.{Pso, pso}
use weak_memory_models_simul.Storage.Pso.Views as Views
use weak_memory_models_simul.State
use weak_memory_models_simul.State.{ProgramState}
use weak_memory_models_simul.Lexer
use weak_memory_models_simul.Parser
use weak_memory_models_simul.Parsing
use weak_memory_models_simul.Utils
use weak_memory_models_simul.FrontEnd.{front_end}
use weak_memory_models_simul.Interpreter.{
  Interpreter, find_label, visit_statement, get_transition_state,
}
use weak_memory_models_simul.Interpreter.ModelChecking.{initial_state}
use weak_memory_models_simul.Interpreter.NonDeterministic
use weak_memory_models_simul.Interpreter.NonDeterministic.{Draw}
use weak_memory_models_simul.Safety.Formed.{IsClosed}
use weak_memory_models_simul.Safety.States.{Reached, IsRunning}
use weak_memory_models_simul.Safety.Runs.{Failure}
use weak_memory_models_simul.Safety.Models.{pso-Lawful, models-Lawful}
use weak_memory_models_simul.Safety.Lawful.{Lawful}
use weak_memory_models_simul.Storage.Sc.{sc}
use weak_memory_models_simul.Storage.Tso.{tso}
use weak_memory_models_simul.Storage.Tso.Buffers as Buffers
use weak_memory_models_simul.Storage.Sra.{sra}
use weak_memory_models_simul.Storage.Sra.Invariant as Invariant
use weak_memory_models_simul.Safety.Programs.{front_end-IsClosed, program_states, program_fails}

abbrev ids : HashOrder ℕ
ids = record { order = λ ks. ks; order_count = λ k ks. refl }

abbrev names : HashOrder String
names = record { order = λ ks. ks; order_count = λ k ks. refl }

abbrev stoi : String → Checked ℤ
stoi s = if s == "1" then ok (pos 1) else err logic_error

abbrev code : String
code = "goto L"

abbrev root : ProgramNode
root = record {
  statements =
      record { statement = AstNode.goto (record { goto_label = "L" }); label = "" }
      ∷ record { statement = AstNode.end; label = "" }
      ∷ [];
}

abbrev program : Interpreter
program = record { root = root; labeled_instructions = [] }

code_returns : front_end stoi 7 code ≡ some (ok (root, []))
unfolding front_end Lexer.next_position Lexer.advance Lexer.scan Lexer.skip_blank Lexer.make_token
    Lexer.get_atom_token Lexer.get_number_token Lexer.get_keyword_or_identifier_token
    Lexer.get_location_token Lexer.atom_type Lexer.token_at Lexer.get_next_token Lexer.is_last
    Lexer.tokens_from Lexer.get_tokens Parser.parse_binop Parser.parse_condition Parser.parse_goto
    Parser.parse_thread_goto Parser.parse_double_argument_call Parser.parse_cas_call
    Parser.parse_fence_call Parser.parse_number Parser.parse_expression Parser.parse_assignment
    Parser.parse_label Parser.parse_body Parser.parse_statement Parser.parse_statements
    Parser.labeled_instructions Parser.find_invalid Parser.parse Parsing.has_type Parsing.peek
    Parsing.advance Parsing.is_labeled_statement_next Parsing.to_memory_order Parsing.expect
    Parsing.expect_memory_order Parsing.to_binop_type Parsing.parse_operation Utils.is_digit
    Utils.is_identifier_char Utils.get_binop Utils.get_memory_order Utils.trim_start Utils.trim_end
    Utils.trim lookup put
code_returns = refl

front_end-IsClosed_example : IsClosed program
front_end-IsClosed_example = front_end-IsClosed stoi code root [] code_returns

program_states_example : IsRunning program Views.IsValid (initial_state (pso ids names) program)
program_states_example =
    program_states (pso ids names) Views.IsValid (pso-Lawful ids names) stoi code root []
      code_returns (initial_state (pso ids names) program) Reached.start

-- The jump fails.
jump_fails :
    NonDeterministic.run (pso ids names) program (record { thread = 0; kind = 1; choice = 0 } ∷ [])
    ≡ some (err (unknown_label "L"))
unfolding NonDeterministic.run NonDeterministic.execute NonDeterministic.round visit_statement
    get_transition_state find_label lookup put State.has_active_threads
    State.is_interleaving_possible State.has_eps_transitions State.add_thread
    Pso.has_eps_transitions
jump_fails = refl

program_fails_example : Failure (pso ids names) program (unknown_label "L")
program_fails_example =
    program_fails (pso ids names) Views.IsValid (pso-Lawful ids names) stoi code root []
      code_returns (record { thread = 0; kind = 1; choice = 0 } ∷ []) (unknown_label "L") jump_fails

models-Lawful_example :
    Lawful sc (λ z. Unit)
    × Lawful (tso ids) Buffers.IsValid
    × Lawful (pso ids names) Views.IsValid
    × Lawful sra Invariant.IsValid
models-Lawful_example = models-Lawful ids names
