-- ===== src/Main/Examples.antt =====
-- The theorems on the process at a concrete command line and file.
use weak_memory_models_simul.Prelude.{
  ℕ, String, List, [], ◌∷◌, Option, none, some, ◌≡◌, refl, ◌==◌, nat_eq, string_eq, if◌then◌else◌,
}
use weak_memory_models_simul.Prelude.Result.{ok, err}
use weak_memory_models_simul.Prelude.Int.{pos}
use weak_memory_models_simul.Prelude.Map.{Map, lookup, put, nat_less, string_less}
use weak_memory_models_simul.Ast.{ProgramNode}
use weak_memory_models_simul.Exceptions.{Checked, logic_error}
use weak_memory_models_simul.ArgsParser
use weak_memory_models_simul.FileReader.{read_file}
use weak_memory_models_simul.FileReader.Lines.{read_file-appends}
use weak_memory_models_simul.FrontEnd.{front_end}
use weak_memory_models_simul.FrontEnd.Errors.{Accepted}
use weak_memory_models_simul.FileReader
use weak_memory_models_simul.Lexer
use weak_memory_models_simul.Parser
use weak_memory_models_simul.Parsing
use weak_memory_models_simul.Utils
use weak_memory_models_simul.Threads
use weak_memory_models_simul.State
use weak_memory_models_simul.Interpreter
use weak_memory_models_simul.Interpreter.NonDeterministic
use weak_memory_models_simul.Main
use weak_memory_models_simul.Main.Failures.{Terminates, main_terminates}
use weak_memory_models_simul.Main.{Environment, Exit, parse_options, main}
use weak_memory_models_simul.Main.Exits.{Ends}
use weak_memory_models_simul.Main.Options.{values, last_value, parse_options_lem}
use weak_memory_models_simul.Main.Runs.{Refused, IsAccepted, options, main_refuses, main_ends}

abbrev extract : String → Option String
extract s = if s == "" then none else some s

abbrev open_file : String → Option String
open_file path = if path == "p.wmm" then some "goto L\nL: end" else none

abbrev environment : Environment
environment = record {
  extract = extract;
  open_file = open_file;
  stoi = λ s. if s == "1" then ok (pos 1) else err logic_error;
  to_string = λ n. "1";
  isspace = λ c. c == 32;
  left = λ s. "";
  ids = record { order = λ ks. ks; order_count = λ k ks. refl };
  names = record { order = λ ks. ks; order_count = λ k ks. refl };
  draws = [];
  rounds = 9;
  input = [];
}

-- The second model is the one that counts.
abbrev arguments : List String
arguments = "--mm" ∷ "pso" ∷ "--file" ∷ "p.wmm" ∷ "--mm" ∷ "sra" ∷ "--it" ∷ "mc" ∷ []

parsed_arguments :
    parse_options extract ("simulator" ∷ arguments)
    ≡ record { program_path = "p.wmm"; memory_model = "sra"; interpreter_type = "mc" }
unfolding parse_options ArgsParser.parse ArgsParser.create ArgsParser.call_each ArgsParser.callback
    put
parsed_arguments = refl

parse_options_lem_example :
    ((parse_options extract arguments).program_path
      ≡ last_value "" (values extract "--file" arguments))
    × ((parse_options extract arguments).memory_model
        ≡ last_value "sc" (values extract "--mm" arguments))
    × ((parse_options extract arguments).interpreter_type
        ≡ last_value "nd" (values extract "--it" arguments))
parse_options_lem_example = parse_options_lem extract arguments

read_file-appends_example : read_file open_file 14 "p.wmm" ≡ some (ok "goto L\nL: end\n")
read_file-appends_example = read_file-appends open_file "p.wmm" "goto L\nL: end" refl

main_refuses_example :
    main environment 1 1 "simulator" ("--file" ∷ "q.wmm" ∷ []) ≡ some Exit.exit_failure
main_refuses_example = main_refuses environment "simulator" ("--file" ∷ "q.wmm" ∷ []) 1 1 (
    unfold parse_options ArgsParser.parse ArgsParser.create ArgsParser.call_each ArgsParser.callback
      put in
    Refused.no_file refl)

arguments-IsAccepted : IsAccepted (options environment "simulator" arguments)
unfolding parse_options ArgsParser.parse ArgsParser.create ArgsParser.call_each ArgsParser.callback
    put
arguments-IsAccepted = record { path = cc; interpreter = refl; model = refl }

arguments_open :
    open_file (options environment "simulator" arguments).program_path ≡ some "goto L\nL: end"
unfolding parse_options ArgsParser.parse ArgsParser.create ArgsParser.call_each ArgsParser.callback
    put
arguments_open = refl

main_ends_example :
    (r : Checked (ProgramNode × Map String ℕ)) × Accepted environment.stoi r
    × (front_end environment.stoi 15 "goto L\nL: end\n" ≡ some r)
    × (x : Option Exit) × (main environment 14 15 "simulator" arguments ≡ x)
    × Ends environment (options environment "simulator" arguments) r x
main_ends_example =
    main_ends environment "simulator" arguments "goto L\nL: end" arguments-IsAccepted arguments_open

-- A file whose only statement reads a register never set, with the default options.
abbrev unset_environment : Environment
unset_environment = record environment {
  open_file = λ path. if path == "u.wmm" then some "r=q+q" else none;
  draws = record { thread = 0; kind = 1; choice = 0 } ∷ [];
}

abbrev unset_arguments : List String
unset_arguments = "--file" ∷ "u.wmm" ∷ []

unset_terminates : main unset_environment 6 7 "simulator" unset_arguments ≡ some Exit.terminated
unfolding main Main.run_main Main.check_options Main.run_file Main.simulate Main.run_interpreter
    Main.exit_of parse_options ArgsParser.parse ArgsParser.create ArgsParser.call_each
    ArgsParser.callback put read_file FileReader.read_lines front_end Lexer.next_position
    Lexer.advance Lexer.scan Lexer.skip_blank Lexer.make_token Lexer.get_atom_token
    Lexer.get_keyword_or_identifier_token Lexer.atom_type Lexer.token_at Lexer.get_next_token
    Lexer.is_last Lexer.tokens_from Lexer.get_tokens Parser.parse_binop Parser.parse_expression
    Parser.parse_assignment Parser.parse_label Parser.parse_body Parser.parse_statement
    Parser.parse_statements Parser.labeled_instructions Parser.find_invalid Parser.parse
    Parsing.has_type Parsing.peek Parsing.advance Parsing.is_labeled_statement_next Parsing.expect
    Parsing.to_binop_type Parsing.parse_operation Utils.is_digit Utils.is_identifier_char
    NonDeterministic.run NonDeterministic.execute NonDeterministic.round Interpreter.visit_statement
    Interpreter.get_transition_state Interpreter.register Threads.get lookup
    State.has_active_threads State.is_interleaving_possible State.has_eps_transitions
    State.add_thread
unset_terminates = refl

main_terminates_example :
    Terminates unset_environment (options unset_environment "simulator" unset_arguments) "r=q+q\n"
unfolding parse_options ArgsParser.parse ArgsParser.create ArgsParser.call_each ArgsParser.callback
    put
main_terminates_example =
    main_terminates unset_environment "simulator" unset_arguments "r=q+q"
      (record { path = cc; interpreter = refl; model = refl }) refl refl unset_terminates
