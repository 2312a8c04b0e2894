-- ===== src/Interactive/Sessions.antt =====
-- Interactive sessions with two threads (interactive.cpp): one stores, and the user lets the other
-- one see the message, or lets the write reach the memory.
use weak_memory_models_simul.Prelude.{
  ℕ, String, Bool, true, [], ◌∷◌, some, none, ◌≡◌, ◌⊎◌, refl, ◌==◌, nat_eq, string_eq,
  if◌then◌else◌,
}
use weak_memory_models_simul.Prelude.Result.{ok, err}
use weak_memory_models_simul.Prelude.Int.{ℤ, pos, int_eq}
use weak_memory_models_simul.Prelude.Map.{lookup, put, erase, HashOrder, nat_less, string_less}
use weak_memory_models_simul.Exceptions.{Checked, logic_error}
use weak_memory_models_simul.Lang.{relaxed}
use weak_memory_models_simul.Ast.{AstNode, ProgramNode}
use weak_memory_models_simul.Storage.Pso
use weak_memory_models_simul.Storage.Pso.{Pso, pso}
use weak_memory_models_simul.Storage.Sra
use weak_memory_models_simul.Storage.Sra.{Sra, sra}
use weak_memory_models_simul.Threads
use weak_memory_models_simul.State.{ProgramState}
use weak_memory_models_simul.State
use weak_memory_models_simul.Utils
use weak_memory_models_simul.Parser
use weak_memory_models_simul.Interpreter.{
  Interpreter, find_label, register, visit_statement, get_transition_state,
}
use weak_memory_models_simul.Interpreter.ModelChecking.{flush_state, initial_state}
use weak_memory_models_simul.Interpreter.NonDeterministic.Runs.{Outcome}
use weak_memory_models_simul.Interactive
use weak_memory_models_simul.Interactive.Answers
use weak_memory_models_simul.Interactive.Answers.{
  Input, get_new_propagation_state, get_new_increase_state,
}
use weak_memory_models_simul.Interactive.Locations.{interactive_increases, interactive_propagations}
use weak_memory_models_simul.Safety.Formed.{IsClosed}
use weak_memory_models_simul.Safety.Programs.{statements-IsClosed}

abbrev ids : HashOrder ℕ
ids = record { order = λ ks. ks; order_count = λ k ks. refl }

abbrev names : HashOrder String
names = record { order = λ ks. ks; order_count = λ k ks. refl }

-- the blank is the only space, and one digit the only number
abbrev isspace : ℕ → Bool
isspace c = c == 32

abbrev stoi : String → Checked ℤ
stoi s = if s == "0" then ok (pos 0) else if s == "1" then ok (pos 1) else err logic_error

abbrev left : String → String
left s = ""

-- thread_goto L; end; L: r = 1; store RLX #x r; end
abbrev root : ProgramNode
root = record {
  statements =
      record { statement = AstNode.thread_goto (record { thread_goto_label = "L" }); label = "" }
      ∷ record { statement = AstNode.end; label = "" }
      ∷ record {
        statement = AstNode.assignment "r" (AstNode.number (record { value = pos 1 }));
        label = "L";
      }
      ∷ record {
        statement =
            AstNode.store
              (record { memory_order = relaxed; location_name = "x"; register_name = "r" });
        label = "";
      }
      ∷ record { statement = AstNode.end; label = "" }
      ∷ [];
}

abbrev program : Interpreter
program = record { root = root; labeled_instructions = ("L", 2) ∷ [] }

program-IsClosed : IsClosed program
program-IsClosed =
    statements-IsClosed root.statements (("L", 2) ∷ []) refl
      (unfold Parser.labeled_instructions lookup put in refl)

-- what the sessions leave of the input
abbrev more : Input
more = "more" ∷ []

-- Thread 1 stores, and thread 0 is let see the message.
abbrev seeing : Input
seeing = "y" ∷ "1" ∷ "n" ∷ "y" ∷ "0" ∷ "y" ∷ " x" ∷ "n" ∷ "1" ∷ "more" ∷ []

-- Thread 1 stores, and its write is let reach the memory.
abbrev storing : Input
storing = "y" ∷ "1" ∷ "n" ∷ "n" ∷ "y" ∷ " x" ∷ "n" ∷ "0" ∷ "more" ∷ []

abbrev seen : ProgramState Sra
seen = record {
  next_thread_id = 2;
  current_thread_id = 1;
  last_evaluated_value = pos 1;
  goto_instruction = none;
  is_allowed_interleaving = true;
  storage = record {
    memory =
        record { location = "x"; value = pos 1; memory_order = relaxed; view = ("x", 1) ∷ [] } ∷ [];
    thread_views = (0, ("x", 1) ∷ []) ∷ (1, ("x", 1) ∷ []) ∷ [];
    location_timestamps = ("x", 1) ∷ [];
  };
  threads = [];
  finished_thread_states = (0, []) ∷ (1, ("r", pos 1) ∷ []) ∷ [];
}

abbrev stored : ProgramState Pso
stored = record {
  next_thread_id = 2;
  current_thread_id = 0;
  last_evaluated_value = pos 1;
  goto_instruction = none;
  is_allowed_interleaving = true;
  storage = record { memory = ("x", pos 1) ∷ []; store_buffers = [] };
  threads = [];
  finished_thread_states = (0, []) ∷ (1, ("r", pos 1) ∷ []) ∷ [];
}

seeing_runs :
    Interactive.run sra program isspace stoi (get_new_increase_state isspace left) 6 seeing
    ≡ some (ok (seen, more))
unfolding Interactive.run Interactive.interact Interactive.take_turn Interactive.change_thread
    Interactive.is_changing Interactive.perform_transition Answers.should_perform_eps_transition
    Answers.should_change_thread Answers.get_new_thread_id Answers.ask_thread Answers.find_id
    Answers.get_yes_no Answers.ask_location Answers.find_location Utils.trim Utils.trim_start
    Utils.trim_end flush_state find_label visit_statement get_transition_state register lookup put
    erase State.has_active_threads State.is_interleaving_possible State.has_eps_transitions
    State.get_active_threads_ids State.get_interleaving_state State.add_thread
    State.update_current_thread_instruction State.update_current_thread_register State.set_register
    Threads.get Threads.set Sra.read Sra.write Sra.has_eps_transitions Sra.any_behind
    Sra.get_timestamp Sra.set_timestamp Sra.get_increase_locations Sra.increase_locations
    Sra.increase_location_local_timestamp Sra.prepare_thread Sra.find_message Sra.join
    Answers.get_new_increase_state
seeing_runs = refl

storing_runs :
    Interactive.run
      (pso ids names)
      program
      isspace
      stoi
      (get_new_propagation_state isspace names left)
      6
      storing
    ≡ some (ok (stored, more))
unfolding Interactive.run Interactive.interact Interactive.take_turn Interactive.change_thread
    Interactive.is_changing Interactive.perform_transition Answers.should_perform_eps_transition
    Answers.should_change_thread Answers.get_new_thread_id Answers.ask_thread Answers.find_id
    Answers.get_yes_no Answers.ask_location Answers.find_location Utils.trim Utils.trim_start
    Utils.trim_end flush_state find_label visit_statement get_transition_state register lookup put
    erase State.has_active_threads State.is_interleaving_possible State.has_eps_transitions
    State.get_active_threads_ids State.get_interleaving_state State.add_thread
    State.update_current_thread_instruction State.update_current_thread_register State.set_register
    Threads.get Threads.set Pso.write Pso.push_back Pso.has_eps_transitions
    Pso.get_propagate_locations Pso.propagate Pso.pop_front Pso.set_buffer Pso.flush Pso.flush_all
    Pso.flush_buffer Pso.flush_queues Answers.get_new_propagation_state
storing_runs = refl

interactive_increases_example : Outcome sra program (initial_state sra program) seen ⊎ (more ≡ [])
interactive_increases_example =
    interactive_increases isspace stoi left program 6 seen seeing more seeing_runs

interactive_propagations_example :
    Outcome (pso ids names) program (initial_state (pso ids names) program) stored ⊎ (more ≡ [])
interactive_propagations_example =
    interactive_propagations isspace stoi left ids names program program-IsClosed 6 stored storing
      more storing_runs
