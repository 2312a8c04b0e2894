-- ===== src/Tracing/Examples.antt =====
-- The theorem on the tracing interpreter at a concrete program.
use weak_memory_models_simul.Prelude.{
  ℕ, String, List, [], ◌∷◌, some, ◌≡◌, refl, nat_eq, string_eq, ◌==◌, if◌then◌else◌,
}
use weak_memory_models_simul.Prelude.Result.{ok}
use weak_memory_models_simul.Prelude.Int.{ℤ, pos, int_eq}
use weak_memory_models_simul.Prelude.Map.{lookup, put, erase, HashOrder, nat_less, string_less}
use weak_memory_models_simul.Ast.{AstNode}
use weak_memory_models_simul.Storage.Pso
use weak_memory_models_simul.Storage.Pso.{Pso, pso}
use weak_memory_models_simul.State
use weak_memory_models_simul.State.{ProgramState}
use weak_memory_models_simul.Threads
use weak_memory_models_simul.Stringifier
use weak_memory_models_simul.Interpreter.{
  Interpreter, register, visit_statement, get_transition_state,
}
use weak_memory_models_simul.Interpreter.ModelChecking.{flush_state}
use weak_memory_models_simul.Interpreter.NonDeterministic
use weak_memory_models_simul.Interpreter.NonDeterministic.{Draw}
use weak_memory_models_simul.Tracing
use weak_memory_models_simul.Tracing.{Event, Traced}
use weak_memory_models_simul.Tracing.Runs.{silent, tracing_lem}

abbrev ids : HashOrder ℕ
ids = record { order = λ ks. ks; order_count = λ k ks. refl }

abbrev names : HashOrder String
names = record { order = λ ks. ks; order_count = λ k ks. refl }

abbrev to_string : ℤ → String
to_string n = if n == pos 1 then "1" else "many"

-- r = 1; end
abbrev program : Interpreter
program = record {
  root = record {
    statements =
        record {
          statement = AstNode.assignment "r" (AstNode.number (record { value = pos 1 }));
          label = "";
        }
        ∷ record { statement = AstNode.end; label = "L" }
        ∷ [];
  };
  labeled_instructions = ("L", 1) ∷ [];
}

abbrev draws : List Draw
draws =
    record { thread = 0; kind = 1; choice = 0 } ∷ record { thread = 0; kind = 1; choice = 0 } ∷ []

abbrev empty : Pso
empty = record { memory = []; store_buffers = [] }

abbrev result : ProgramState Pso
result = record (State.create empty) {
  next_thread_id = 1;
  last_evaluated_value = pos 1;
  finished_thread_states = (0, ("r", pos 1) ∷ []) ∷ [];
}

abbrev output : List (Event Pso)
output =
    Event.regular_transition 0
    ∷ Event.statement 0 "r = 1"
    ∷ Event.storage empty
    ∷ Event.registers (("r", pos 1) ∷ [])
    ∷ Event.regular_transition 0
    ∷ Event.statement 0 "L: end"
    ∷ Event.storage empty
    ∷ Event.flush_memory
    ∷ Event.program_finished
    ∷ Event.state result
    ∷ []

traced : Tracing.run (pso ids names) program to_string draws ≡ some (ok (result, output))
unfolding Tracing.run Tracing.trace Tracing.trace_round Tracing.trace_interleave
    Tracing.trace_transition Tracing.trace_statement Tracing.trace_state Tracing.trace_end
    Stringifier.stringify Stringifier.stringify_node flush_state visit_statement
    get_transition_state register lookup put erase State.has_active_threads
    State.is_interleaving_possible State.has_eps_transitions State.get_active_threads_ids
    State.get_eps_transition_states State.add_thread State.update_current_thread_instruction
    State.update_current_thread_register State.set_register Threads.get Threads.set
    Pso.has_eps_transitions Pso.flush Pso.flush_all
traced = refl

tracing_lem_example :
    silent (Tracing.run (pso ids names) program to_string draws)
    ≡ NonDeterministic.run (pso ids names) program draws
tracing_lem_example = tracing_lem (pso ids names) program to_string draws
