-- ===== src/Interactive/Examples.antt =====
-- The theorems on the interactive interpreter at concrete programs, states and inputs.
use weak_memory_models_simul.Prelude.{
  ℕ, String, Bool, true, [], ◌∷◌, none, some, ◌≡◌, refl, ◌==◌, nat_eq, string_eq, if◌then◌else◌,
}
use weak_memory_models_simul.Prelude.Result.{ok, err}
use weak_memory_models_simul.Prelude.Int.{ℤ, pos, int_eq}
use weak_memory_models_simul.Prelude.Map.{lookup, put, erase, HashOrder, nat_less, string_less}
use weak_memory_models_simul.Exceptions.{Checked, logic_error}
use weak_memory_models_simul.Lang.{relaxed}
use weak_memory_models_simul.Ast.{AstNode}
use weak_memory_models_simul.Storage.Tso
use weak_memory_models_simul.Storage.Tso.{Tso, tso}
use weak_memory_models_simul.Threads
use weak_memory_models_simul.State.{
  ProgramState, create, has_eps_transitions, get_eps_transition_states, with_storages,
  is_interleaving_possible, get_active_threads_ids,
}
use weak_memory_models_simul.State
use weak_memory_models_simul.Utils.{trim}
use weak_memory_models_simul.Utils
use weak_memory_models_simul.Interpreter.{
  Interpreter, register, visit_statement, get_transition_state,
}
use weak_memory_models_simul.Interpreter.ModelChecking.{flush_state, initial_state}
use weak_memory_models_simul.Interpreter.NonDeterministic.Runs.{Outcome}
use weak_memory_models_simul.Interactive
use weak_memory_models_simul.Interactive.{change_thread}
use weak_memory_models_simul.Interactive.Answers
use weak_memory_models_simul.Interactive.Answers.{
  Input, get_new_eps_transition_state, get_new_propagation_state, get_new_increase_state,
  get_new_thread_id, get_yes_no,
}
use weak_memory_models_simul.Interactive.Runs.{interactive_runs}
use weak_memory_models_simul.Interactive.Choices.{tso_announced}

abbrev ids : HashOrder ℕ
ids = record { order = λ ks. ks; order_count = λ k ks. refl }

abbrev names : HashOrder String
names = record { order = λ ks. ks; order_count = λ k ks. refl }

-- the blank is the only space, and one digit the only number
abbrev isspace : ℕ → Bool
isspace c = c == 32

abbrev stoi : String → Checked ℤ
stoi s = if s == "1" then ok (pos 1) else if s == "2" then ok (pos 2) else err logic_error

abbrev left : String → String
left s = ""

-- r = 1; store RLX #x r; end
abbrev program : Interpreter
program = record {
  root = record {
    statements =
        record {
          statement = AstNode.assignment "r" (AstNode.number (record { value = pos 1 }));
          label = "";
        }
        ∷ record {
          statement =
              AstNode.store
                (record { memory_order = relaxed; location_name = "x"; register_name = "r" });
          label = "";
        }
        ∷ record { statement = AstNode.end; label = "" }
        ∷ [];
  };
  labeled_instructions = [];
}

-- The user first answers with a word that is asked for again, then lets the write reach the memory.
abbrev session : Input
session = "maybe" ∷ " y " ∷ "more" ∷ []

abbrev result : ProgramState Tso
result = record {
  next_thread_id = 1;
  current_thread_id = 0;
  last_evaluated_value = pos 1;
  goto_instruction = none;
  is_allowed_interleaving = true;
  storage = record { memory = ("x", pos 1) ∷ []; store_buffers = [] };
  threads = [];
  finished_thread_states = (0, ("r", pos 1) ∷ []) ∷ [];
}

interactive_run :
    Interactive.run
      (tso ids)
      program
      isspace
      stoi
      (get_new_eps_transition_state (tso ids))
      4
      session
    ≡ some (ok (result, "more" ∷ []))
unfolding Interactive.run Interactive.interact Interactive.take_turn Interactive.change_thread
    Interactive.is_changing Interactive.perform_transition Answers.should_perform_eps_transition
    Answers.should_change_thread Answers.get_new_thread_id Answers.ask_thread Answers.find_id
    Answers.get_yes_no Answers.get_new_eps_transition_state Utils.trim Utils.trim_start
    Utils.trim_end flush_state visit_statement get_transition_state register lookup put erase
    State.has_active_threads State.is_interleaving_possible State.has_eps_transitions
    State.get_active_threads_ids State.get_eps_transition_states State.add_thread
    State.with_storages State.update_current_thread_instruction State.update_current_thread_register
    State.set_register Threads.get Threads.set Tso.write Tso.has_eps_transitions
    Tso.get_eps_transitions Tso.propagate Tso.flush Tso.flush_all Tso.flush_buffer Tso.drain
interactive_run = refl

interactive_runs_example : Outcome (tso ids) program (initial_state (tso ids) program) result
interactive_runs_example =
    interactive_runs (tso ids) program (tso_announced ids) isspace stoi 4 result session
      ("more" ∷ []) interactive_run
