-- ===== src/Interpreter/Examples.antt =====
-- The theorems on the interpreter, the registers and the labels at concrete programs.
use weak_memory_models_simul.Prelude.{
  ℕ, String, true, List, [], ◌∷◌, none, some, ◌≡◌, ◌↔◌, refl, arith, nat_eq, string_eq, false,
  eq_iff, All, count, ◌==◌, ◌&&◌, if◌then◌else◌,
}
use weak_memory_models_simul.Prelude.Result.{ok}
use weak_memory_models_simul.Prelude.Int.{ℤ, pos, int_eq, ◌+ℤ◌, checked}
use weak_memory_models_simul.Prelude.Map.{lookup, put, erase, HashOrder, nat_less, string_less}
use weak_memory_models_simul.Lang.{MemoryOrder, sequentially_consistent, relaxed}
use weak_memory_models_simul.Ast.{AstNode, StatementNode, CasNode, FaiNode, BinOpType}
use weak_memory_models_simul.Storage.Tso
use weak_memory_models_simul.Storage.Tso.{Tso, tso}
use weak_memory_models_simul.Threads
use weak_memory_models_simul.Threads.Equality.{HasUniqueKeys, equals_iff}
use weak_memory_models_simul.State.{ProgramState, create}
use weak_memory_models_simul.State
use weak_memory_models_simul.Parser.{labeled_instructions}
use weak_memory_models_simul.Parser.Labels.{Labelled, labels_lead_to_statements}
use weak_memory_models_simul.Interpreter.{
  Interpreter, register, apply, visit_cas, visit_fai, visit_statement, get_transition_state,
}
use weak_memory_models_simul.Interpreter.Swaps.{cas_twice}
use weak_memory_models_simul.Interpreter.Instructions.{fai_not_atomic, fai_atomic}
use weak_memory_models_simul.Interpreter.NonDeterministic
use weak_memory_models_simul.Interpreter.NonDeterministic.{Draw}
use weak_memory_models_simul.Interpreter.NonDeterministic.Runs.{Outcome, random_runs}
use weak_memory_models_simul.Interpreter.ModelChecking
use weak_memory_models_simul.Interpreter.ModelChecking.{
  explore, is_found, same_results, expand, flush_state, initial_state, run,
}
use weak_memory_models_simul.Interpreter.ModelChecking.Flag.{flagged}
use weak_memory_models_simul.Interpreter.ModelChecking.Executions.{model_checker_results}
use weak_memory_models_simul.Interpreter.ModelChecking.Same.{Distinct}
use weak_memory_models_simul.Interpreter.ModelChecking.Reachable.{Origin, Represented}
use weak_memory_models_simul.Interpreter.ModelChecking.Search.{
  Size, final, round, none_left, one_more, FinalState, run_correct,
}

abbrev ids : HashOrder ℕ
ids = record { order = λ ks. ks; order_count = λ k ks. refl }

-- r = 1; store RLX #x r; end
abbrev statements : List StatementNode
statements =
    record {
      statement = AstNode.assignment "r" (AstNode.number (record { value = pos 1 }));
      label = "";
    }
    ∷ record {
      statement =
          AstNode.store
            (record { memory_order = relaxed; location_name = "x"; register_name = "r" });
      label = "L";
    }
    ∷ record { statement = AstNode.end; label = "END" }
    ∷ []

abbrev program : Interpreter
program = record {
  root = record { statements = statements };
  labeled_instructions = ("END", 2) ∷ ("L", 1) ∷ [];
}

label_table : labeled_instructions 0 statements [] ≡ ok (("END", 2) ∷ ("L", 1) ∷ [])
unfolding labeled_instructions lookup put
label_table = refl

labels_lead_to_statements_example : Labelled statements "END" 2
labels_lead_to_statements_example =
    labels_lead_to_statements statements (("END", 2) ∷ ("L", 1) ∷ []) "END" 2 label_table
      (unfold lookup in refl)

-- The search of the program has six states: one write can reach the memory before `end`.
program_size : Size (tso ids) program (initial_state (tso ids) program) 6
unfolding expand flush_state visit_statement get_transition_state
    ModelChecking.is_allowed_interleaving register lookup put erase State.has_active_threads
    State.is_interleaving_possible State.has_eps_transitions State.get_active_threads_ids
    State.get_eps_transition_states State.add_thread State.update_current_thread_instruction
    State.update_current_thread_register State.set_register Threads.get Threads.set Tso.write
    Tso.has_eps_transitions Tso.get_eps_transitions Tso.propagate Tso.flush Tso.flush_all
    Tso.flush_buffer Tso.drain
program_size = round refl refl (
    one_more
      (round refl refl (
        one_more
          (round refl refl (
            one_more (round refl refl (one_more (final refl refl) none_left refl))
              (one_more (final refl refl) none_left refl) refl))
          none_left refl))
      none_left refl)

run_correct_example :
    (results : List (ProgramState Tso)) × (run (tso ids) program 6 ≡ some (ok results))
    × All (λ f. Origin (tso ids) program f (initial_state (tso ids) program ∷ [])) results
    × ((u : FinalState (tso ids) program) → Represented (tso ids) program u.final results)
    × Distinct results
run_correct_example = run_correct (tso ids) program 6 6 program_size (omega arith)

-- A random execution of the program: the write reaches the memory at the end.
abbrev draws : List Draw
draws =
    record { thread = 0; kind = 1; choice = 0 }
    ∷ record { thread = 0; kind = 1; choice = 0 }
    ∷ record { thread = 0; kind = 1; choice = 0 }
    ∷ []

abbrev random_result : ProgramState Tso
random_result = record {
  next_thread_id = 1;
  current_thread_id = 0;
  last_evaluated_value = pos 1;
  goto_instruction = none;
  is_allowed_interleaving = true;
  storage = record { memory = ("x", pos 1) ∷ []; store_buffers = [] };
  threads = [];
  finished_thread_states = (0, ("r", pos 1) ∷ []) ∷ [];
}

random_run : NonDeterministic.run (tso ids) program draws ≡ some (ok random_result)
unfolding NonDeterministic.run NonDeterministic.execute NonDeterministic.round NonDeterministic.pick
    flush_state visit_statement get_transition_state register lookup put erase
    State.has_active_threads State.is_interleaving_possible State.has_eps_transitions
    State.get_active_threads_ids State.get_eps_transition_states State.add_thread
    State.update_current_thread_instruction State.update_current_thread_register State.set_register
    Threads.get Threads.set Tso.write Tso.has_eps_transitions Tso.get_eps_transitions Tso.propagate
    Tso.flush Tso.flush_all Tso.flush_buffer Tso.drain
random_run = refl

random_runs_example : Outcome (tso ids) program (initial_state (tso ids) program) random_result
random_runs_example = (random_runs (tso ids) program random_result).0 (draws, random_run)

program_results : run (tso ids) program 6 ≡ some (ok (random_result ∷ []))
unfolding run explore expand flush_state visit_statement get_transition_state
    ModelChecking.is_allowed_interleaving register lookup put erase State.has_active_threads
    State.is_interleaving_possible State.has_eps_transitions State.get_active_threads_ids
    State.get_eps_transition_states State.add_thread State.update_current_thread_instruction
    State.update_current_thread_register State.set_register Threads.get Threads.set Threads.equals
    Threads.cmp is_found same_results Tso.write Tso.has_eps_transitions Tso.get_eps_transitions
    Tso.propagate Tso.flush Tso.flush_all Tso.flush_buffer Tso.drain
program_results = refl

model_checker_results_example :
    All
      (λ f.
        (ds : List Draw) × (NonDeterministic.run (tso ids) program ds ≡ some (ok (flagged true f))))
      (random_result ∷ [])
model_checker_results_example =
    model_checker_results (tso ids) program 6 (random_result ∷ []) program_results

-- Threads 1 and 2 have the increments 1 and 5 in their registers.
abbrev two_threads : ProgramState Tso
two_threads = record (create (tso ids).create) {
  next_thread_id = 3;
  current_thread_id = 1;
  threads =
      (1, record { instruction_index = 0; thread_subsystem = ("r", pos 1) ∷ [] })
      ∷ (2, record { instruction_index = 0; thread_subsystem = ("r", pos 5) ∷ [] })
      ∷ [];
}

abbrev increment : MemoryOrder → FaiNode
increment o = record { memory_order = o; location_name = "x"; register_name = "r" }

-- both threads' increments, the first by thread 1
abbrev after_first : ProgramState Tso → ProgramState Tso
after_first s = record s {
  last_evaluated_value = pos 0;
  storage = record { memory = []; store_buffers = (1, ("x", pos 1) ∷ []) ∷ [] };
}

abbrev after_second : ProgramState Tso → ProgramState Tso
after_second s = record s {
  current_thread_id = 2;
  last_evaluated_value = pos 0;
  storage = record {
    memory = [];
    store_buffers = (1, ("x", pos 1) ∷ []) ∷ (2, ("x", pos 5) ∷ []) ∷ [];
  };
}

fai_not_atomic_example :
    (after_second two_threads).last_evaluated_value ≡ (after_first two_threads).last_evaluated_value
unfolding visit_fai register apply ◌+ℤ◌ checked lookup put Threads.get Tso.read Tso.write
    Tso.flush_buffer
fai_not_atomic_example =
    fai_not_atomic ids program (increment relaxed) (increment relaxed) 2 two_threads
      (after_first two_threads) (after_second two_threads) (λ t. refl) refl (omega arith) refl refl
      refl

-- the same with sequential consistency
abbrev stored : ℕ → ProgramState Tso → ProgramState Tso
stored n s = record s { storage = record { memory = ("x", pos n) ∷ []; store_buffers = [] } }

abbrev atomic_first : ProgramState Tso
atomic_first = record (stored 1 two_threads) { last_evaluated_value = pos 0 }

abbrev atomic_second : ProgramState Tso
atomic_second = record (stored 6 two_threads) {
  current_thread_id = 2;
  last_evaluated_value = pos 1;
}

fai_atomic_example :
    (given : ℤ) × (register (tso ids) program "r" two_threads ≡ ok given)
    × (apply BinOpType.plus (pos 0) given ≡ ok (pos 1))
unfolding visit_fai register apply ◌+ℤ◌ checked lookup put erase Threads.get Tso.read Tso.write
    Tso.flush_buffer Tso.drain
fai_atomic_example =
    fai_atomic ids program (increment sequentially_consistent) (increment sequentially_consistent) 2
      two_threads atomic_first atomic_second (λ t. refl) refl (omega arith) refl refl refl

-- Threads 1 and 2 both expect 0, and want 1 and 5.
abbrev two_swaps : ProgramState Tso
two_swaps = record two_threads {
  threads =
      (1, record { instruction_index = 0; thread_subsystem = ("e", pos 0) ∷ ("d", pos 1) ∷ [] })
      ∷ (2, record { instruction_index = 0; thread_subsystem = ("e", pos 0) ∷ ("d", pos 5) ∷ [] })
      ∷ [];
}

abbrev swap : CasNode
swap = record {
  memory_order = sequentially_consistent;
  location_name = "x";
  register_expected = "e";
  register_desired = "d";
}

-- the first succeeds, and the second fails
abbrev swapped : ProgramState Tso
swapped = record (stored 1 two_swaps) { last_evaluated_value = pos 0 }

abbrev refused : ProgramState Tso
refused = record (stored 1 two_swaps) { current_thread_id = 2; last_evaluated_value = pos 1 }

cas_twice_example :
    (expected desired : ℤ) × (register (tso ids) program "e" two_swaps ≡ ok expected)
    × (register (tso ids) program "d" two_swaps ≡ ok desired)
    × (pos 1 ≡ (if pos 0 == expected && true then desired else pos 0))
unfolding visit_cas register lookup put erase Threads.get Tso.read Tso.write Tso.flush_buffer
    Tso.drain
cas_twice_example =
    cas_twice ids program swap swap 2 two_swaps swapped refused (λ t. refl) refl (omega arith) refl
      refl

-- Registers that differ.
abbrev registers : Threads.ThreadSubsystem
registers = ("b", pos 2) ∷ []

abbrev others : Threads.ThreadSubsystem
others = ("a", pos 1) ∷ []

registers-HasUniqueKeys : HasUniqueKeys registers
unfolding count
registers-HasUniqueKeys = record { once = λ r. ground (arith, eq_iff "b" r) }

others-HasUniqueKeys : HasUniqueKeys others
unfolding count
others-HasUniqueKeys = record { once = λ r. ground (arith, eq_iff "a" r) }

equals_iff_example :
    (Threads.equals registers others ≡ true) ↔ ((r : String) → lookup r registers ≡ lookup r others)
equals_iff_example = equals_iff registers others registers-HasUniqueKeys others-HasUniqueKeys

-- A final state is left out behind one with a further thread, and not the other way round.
abbrev one_finished : ProgramState Tso
one_finished = record (create (tso ids).create) {
  finished_thread_states = (0, ("r", pos 0) ∷ []) ∷ [];
}

abbrev two_finished : ProgramState Tso
two_finished = record (create (tso ids).create) {
  finished_thread_states = (0, ("r", pos 0) ∷ []) ∷ (1, ("q", pos 1) ∷ []) ∷ [];
}

fewer_threads_found :
    (is_found one_finished (two_finished ∷ []) ≡ true)
    × (is_found two_finished (one_finished ∷ []) ≡ false)
unfolding is_found same_results Threads.equals Threads.cmp lookup
fewer_threads_found = (refl, refl)
