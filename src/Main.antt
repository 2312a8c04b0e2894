-- ===== src/Main.antt =====
-- src/main.cpp: the options, the program's file, and the choice of the interpreter and the memory
-- model. What the operating system and the library decide is an argument: an Environment.
pub mod Options
pub mod Exits
pub mod Runs
pub mod Failures
mod Examples
use weak_memory_models_simul.Prelude.{
  ℕ, String, Bool, true, false, not, ◌||◌, List, [], ◌∷◌, Option, none, some, if◌then◌else◌, ◌==◌,
  string_eq, nat_eq,
}
use weak_memory_models_simul.Prelude.Result.{ok, err}
use weak_memory_models_simul.Prelude.Int.{ℤ}
use weak_memory_models_simul.Prelude.Map.{HashOrder}
use weak_memory_models_simul.Prelude.Text.{◌<>◌}
use weak_memory_models_simul.Exceptions.{
  Error, Checked, invalid_arguments, unable_to_open_file, invalid_token, unexpected_token,
  multiple_statements_with_same_label, unknown_label, invalid_thread_interleaving, out_of_range,
  logic_error, fences_not_supported, assertion_failed, undefined_behaviour,
}
use weak_memory_models_simul.Storage.Interface.{StorageSubsystem}
use weak_memory_models_simul.Storage.Sc.{sc}
use weak_memory_models_simul.Storage.Tso.{tso}
use weak_memory_models_simul.Storage.Pso.{pso}
use weak_memory_models_simul.Storage.Sra.{sra}
use weak_memory_models_simul.State.{ProgramState}
use weak_memory_models_simul.ArgsParser
use weak_memory_models_simul.FileReader.{read_file}
use weak_memory_models_simul.FrontEnd.{front_end}
use weak_memory_models_simul.Interpreter.{Interpreter}
use weak_memory_models_simul.Interpreter.NonDeterministic
use weak_memory_models_simul.Interpreter.NonDeterministic.{Draw}
use weak_memory_models_simul.Interpreter.ModelChecking
use weak_memory_models_simul.Tracing
use weak_memory_models_simul.Interactive
use weak_memory_models_simul.Interactive.Answers.{
  Input, get_new_eps_transition_state, get_new_propagation_state, get_new_increase_state,
}

pub record ProgramOptions : Type 0 where
  pub program_path : String
  pub memory_model : String
  pub interpreter_type : String

abbrev pub default_options : ProgramOptions
default_options = record { program_path = ""; memory_model = "sc"; interpreter_type = "nd" }

unfoldable pub parse_options : (String → Option String) → List String → ProgramOptions
unfolding ArgsParser.parse ArgsParser.create
parse_options extract argv =
    ArgsParser.parse extract
      (ArgsParser.create
        (("--file", λ v o. record o { program_path = v })
          ∷ ("--mm", λ v o. record o { memory_model = v })
          ∷ ("--it", λ v o. record o { interpreter_type = v })
          ∷ [])
        [])
      argv default_options

-- the value of a block that returns none
pub data Done : Type 0 where
  done : Done

abbrev usage : String → String
usage program_name =
    "USAGE: "
    <> (program_name
        <> " --file [path/to/program] [--mm [memory model|sc, tso, pso, sra] --it [interpreter type|nd, tr, mc, i]]")

unfoldable pub check_options : String → ProgramOptions → Checked Done
check_options program_name o =
    let it = o.interpreter_type in
    let mm = o.memory_model in
    if o.program_path == ""
    then err (invalid_arguments (usage program_name))
    else if not (it == "nd" || (it == "tr" || (it == "mc" || it == "i")))
    then err (invalid_arguments "Interpreter type must be one of: nd, tr, mc, i")
    else if not (mm == "sc" || (mm == "tso" || (mm == "pso" || mm == "sra")))
    then err (invalid_arguments "Memory model type must be one of: sc, tso, pso, sra")
    else ok done

-- The library's functions, the iteration orders, the files, the random numbers and the input; and
-- the numbers of rounds of the model checker and of the interactive interpreter.
pub record Environment : Type 0 where
  pub extract : String → Option String
  pub open_file : String → Option String
  pub stoi : String → Checked ℤ
  pub to_string : ℤ → String
  pub isspace : ℕ → Bool
  pub left : String → String
  pub ids : HashOrder ℕ
  pub names : HashOrder String
  pub draws : List Draw
  pub rounds : ℕ
  pub input : Input

-- main drops what an interpreter returns
abbrev pub finish {ℓ} : {A : Type ℓ} → Option (Checked A) → Option (Checked Done)
finish none = none
finish (some (err e)) = some (err e)
finish (some (ok a)) = some (ok done)

-- the choice of the interpreter, with a memory model
unfoldable pub run_interpreter :
    {S : Type 0}
    → Environment
    → StorageSubsystem S
    → (ProgramState S → Input → Checked (ProgramState S × Input))
    → String
    → Interpreter
    → Option (Checked Done)
run_interpreter e m choose it i =
    if it == "nd"
    then finish (NonDeterministic.run m i e.draws)
    else if it == "tr"
    then finish (Tracing.run m i e.to_string e.draws)
    else if it == "mc"
    then finish (ModelChecking.run m i e.rounds)
    else if it == "i"
    then finish (Interactive.run m i e.isspace e.stoi choose e.rounds e.input)
    else some (ok done)

-- the choice of the memory model
unfoldable pub simulate : Environment → ProgramOptions → Interpreter → Option (Checked Done)
unfolding run_interpreter
simulate e o i =
    let it = o.interpreter_type in
    if o.memory_model == "sc"
    then run_interpreter e sc (get_new_eps_transition_state sc) it i
    else if o.memory_model == "tso"
    then run_interpreter e (tso e.ids) (get_new_eps_transition_state (tso e.ids)) it i
    else if o.memory_model == "pso"
    then run_interpreter e (pso e.ids e.names) (get_new_propagation_state e.isspace e.names e.left)
        it i
    else if o.memory_model == "sra"
    then run_interpreter e sra (get_new_increase_state e.isspace e.left) it i
    else some (ok done)

-- the ways in which the process ends
pub data Exit : Type 0 where
  exit_success : Exit
  exit_failure : Exit
  -- an exception that is not caught, or a failed assertion
  terminated : Exit
  undefined : Exit

-- the `catch`, of std::runtime_error alone
unfoldable pub exit_of : Checked Done → Exit
exit_of (ok d) = Exit.exit_success
exit_of (err (invalid_arguments message)) = Exit.exit_failure
exit_of (err (unable_to_open_file path)) = Exit.exit_failure
exit_of (err (invalid_token t)) = Exit.exit_failure
exit_of (err (unexpected_token t types)) = Exit.exit_failure
exit_of (err (multiple_statements_with_same_label label)) = Exit.exit_failure
exit_of (err (unknown_label label)) = Exit.exit_failure
exit_of (err (invalid_thread_interleaving prev next)) = Exit.exit_failure
exit_of (err fences_not_supported) = Exit.exit_failure
exit_of (err out_of_range) = Exit.terminated
exit_of (err logic_error) = Exit.terminated
exit_of (err assertion_failed) = Exit.terminated
exit_of (err undefined_behaviour) = Exit.undefined

-- `none`: the rounds ran out, of the file's lines, of the lexer or the parser, or of an interpreter
unfoldable pub run_file : Environment → ℕ → ℕ → ProgramOptions → Option (Checked Done)
unfolding simulate
run_file e lines rounds o = elim (read_file e.open_file lines o.program_path) [
  | none ↦ none
  | some (err x) ↦ some (err x)
  | some (ok code) ↦ elim (front_end e.stoi rounds code) [
    | none ↦ none
    | some (err x) ↦ some (err x)
    | some (ok (root, labels)) ↦
        simulate e o (record { root = root; labeled_instructions = labels })
  ]
]

-- behind the parsing of the command line
unfoldable pub run_main : Environment → ℕ → ℕ → String → ProgramOptions → Option Exit
unfolding check_options run_file exit_of
run_main e lines rounds program_name o = elim (check_options program_name o) [
  | err x ↦ some (exit_of (err x))
  | ok d ↦ elim (run_file e lines rounds o) [ none ↦ none | some r ↦ some (exit_of r) ]
]

unfoldable pub main : Environment → ℕ → ℕ → String → List String → Option Exit
unfolding parse_options run_main
main e lines rounds program_name arguments =
    run_main e lines rounds program_name (parse_options e.extract (program_name ∷ arguments))
