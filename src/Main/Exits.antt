-- ===== src/Main/Exits.antt =====
-- How a process of the simulator may end: the classes of the exceptions (exceptions.h), of which main
-- catches std::runtime_error, and what stands for each value of the options.
use weak_memory_models_simul.Prelude.{ℕ, String, List, Option, none, some}
use weak_memory_models_simul.Prelude.Result.{ok, err}
use weak_memory_models_simul.Prelude.Map.{Map}
use weak_memory_models_simul.Ast.{ProgramNode}
use weak_memory_models_simul.Lexer.Tokens.{Token, TokenType}
use weak_memory_models_simul.Exceptions.{Error, Checked}
use weak_memory_models_simul.Exceptions
use weak_memory_models_simul.Storage.Interface.{StorageSubsystem}
use weak_memory_models_simul.Storage.Sc.{Sc, sc}
use weak_memory_models_simul.Storage.Tso.{Tso, tso}
use weak_memory_models_simul.Storage.Pso.{Pso, pso}
use weak_memory_models_simul.Storage.Sra.{Sra, sra}
use weak_memory_models_simul.State.{ProgramState}
use weak_memory_models_simul.Interpreter.{Interpreter}
use weak_memory_models_simul.Interpreter.NonDeterministic
use weak_memory_models_simul.Interpreter.ModelChecking
use weak_memory_models_simul.Tracing
use weak_memory_models_simul.Interactive
use weak_memory_models_simul.Interactive.Answers.{
  Input, get_new_eps_transition_state, get_new_propagation_state, get_new_increase_state,
}
use weak_memory_models_simul.Main.{ProgramOptions, Environment, Exit}

-- The structs of exceptions.h, each derived from std::runtime_error, and what the fences of strong
-- release acquire throw.
pub data IsRuntimeError : Error → Type 0 where
  arguments : {msg : String} → IsRuntimeError (Exceptions.invalid_arguments msg)
  file : {path : String} → IsRuntimeError (Exceptions.unable_to_open_file path)
  token : {t : Token} → IsRuntimeError (Exceptions.invalid_token t)
  kind : {t : Token} {tys : List TokenType} → IsRuntimeError (Exceptions.unexpected_token t tys)
  labels : {label : String} → IsRuntimeError (Exceptions.multiple_statements_with_same_label label)
  label : {label : String} → IsRuntimeError (Exceptions.unknown_label label)
  interleaving : {s t : ℕ} → IsRuntimeError (Exceptions.invalid_thread_interleaving s t)
  fence : IsRuntimeError Exceptions.fences_not_supported

-- What is no std::runtime_error: the library's std::logic_error and the class below it, and an
-- assertion, which ends the process by itself.
pub data IsUncaught : Error → Type 0 where
  range : IsUncaught Exceptions.out_of_range
  logic : IsUncaught Exceptions.logic_error
  assertion : IsUncaught Exceptions.assertion_failed

pub data EndsBy : Error → Exit → Type 0 where
  caught : {x : Error} → IsRuntimeError x → EndsBy x Exit.exit_failure
  uncaught : {x : Error} → IsUncaught x → EndsBy x Exit.terminated
  undefined : EndsBy Exceptions.undefined_behaviour Exit.undefined

-- What an interpreter returns decides how the process ends, if it does.
pub data Returned {ℓ} {A : Type ℓ} : Option (Checked A) → Option Exit → Type ℓ where
  running : Returned none none
  returned : {a : A} → Returned (some (ok a)) (some Exit.exit_success)
  threw : {y : Error} {x : Exit} → EndsBy y x → Returned (some (err y)) (some x)

-- A memory model, and how the interactive interpreter lets the user choose its eps-transitions.
pub record Model : Type 1 where
  pub S : Type 0
  pub m : StorageSubsystem S
  pub choose : ProgramState S → Input → Checked (ProgramState S × Input)

-- The values of --mm.
pub data Chosen (e : Environment) : String → Model → Type 1 where
  consistent : Chosen e "sc" (record { S = Sc; m = sc; choose = get_new_eps_transition_state sc })
  total_order :
      Chosen e "tso"
        (record { S = Tso; m = tso e.ids; choose = get_new_eps_transition_state (tso e.ids) })
  partial_order : Chosen e "pso" (record {
    S = Pso;
    m = pso e.ids e.names;
    choose = get_new_propagation_state e.isspace e.names e.left;
  })
  release_acquire :
      Chosen e "sra" (record { S = Sra; m = sra; choose = get_new_increase_state e.isspace e.left })

-- The values of --it, with how the process ends.
pub data Finishes (e : Environment) (i : Interpreter) (M : Model)
    : String → Option Exit → Type 0 where
  random :
      {x : Option Exit} → Returned (NonDeterministic.run M.m i e.draws) x → Finishes e i M "nd" x
  tracing :
      {x : Option Exit} → Returned (Tracing.run M.m i e.to_string e.draws) x → Finishes e i M "tr" x
  checking :
      {x : Option Exit} → Returned (ModelChecking.run M.m i e.rounds) x → Finishes e i M "mc" x
  interactive :
      {x : Option Exit}
      → Returned (Interactive.run M.m i e.isspace e.stoi M.choose e.rounds e.input) x
      → Finishes e i M "i" x

-- Behind the lexer and the parser.
pub data Ends (e : Environment) (o : ProgramOptions)
    : Checked (ProgramNode × Map String ℕ) → Option Exit → Type 1 where
  refused : {y : Error} {x : Exit} → EndsBy y x → Ends e o (err y) (some x)
  ran :
      {root : ProgramNode} {labels : Map String ℕ} {M : Model} {x : Option Exit}
      → Chosen e o.memory_model M
      → Finishes e (record { root = root; labeled_instructions = labels }) M o.interpreter_type x
      → Ends e o (ok (root, labels)) x
