-- ===== src/Interactive/Answers.antt =====
-- src/interpreter/interactive/interactive-cli.cpp: the questions to the user. The lines of the input
-- are an argument, and what a question leaves of them is returned; `isspace` and `stoi` are the
-- library's. The output is left out.
use weak_memory_models_simul.Prelude.{
  ℕ, String, Bool, true, false, ◌||◌, List, [], ◌∷◌, Option, none, some, if◌then◌else◌, get_elem?,
  ◌==◌, string_eq, nat_eq,
}
use weak_memory_models_simul.Prelude.Result.{ok, err, ◌>>=◌}
use weak_memory_models_simul.Prelude.Int.{ℤ, pos, negsuc}
use weak_memory_models_simul.Prelude.Map.{lookup, nat_less, HashOrder}
use weak_memory_models_simul.Exceptions.{Checked, undefined_behaviour}
use weak_memory_models_simul.Storage.Interface.{StorageSubsystem}
use weak_memory_models_simul.Storage.Pso
use weak_memory_models_simul.Storage.Pso.{Pso}
use weak_memory_models_simul.Storage.Sra
use weak_memory_models_simul.Storage.Sra.{Sra}
use weak_memory_models_simul.State.{ProgramState, get_active_threads_ids, get_eps_transition_states}
use weak_memory_models_simul.Utils.{trim}
use weak_memory_models_simul.Interpreter.{Interpreter}

-- std::cin: its lines
abbrev pub Input : Type 0
Input = List String

-- `find` over the thread ids, none of which is negative
unfoldable pub find_id : ℤ → List ℕ → Option ℕ
find_id n [] = none
find_id (negsuc k) (t ∷ ts) = none
find_id (pos k) (t ∷ ts) = let rest = find_id (pos k) ts in if t == k then some t else rest

-- `find` over the locations
unfoldable pub find_location : String → List String → Bool
find_location x [] = false
find_location x (y ∷ ys) = let rest = find_location x ys in if y == x then true else rest

module _ {S : Type 0} where
  -- the template: the first state, or the state itself where there is none
  unfoldable pub get_new_eps_transition_state :
      StorageSubsystem S → ProgramState S → Input → Checked (ProgramState S × Input)
  get_new_eps_transition_state m s input = do
    states ← get_eps_transition_states m s
    elim states [ [] ↦ ok (s, input) | u ∷ us ↦ ok (u, input) ]

module _ (isspace : ℕ → Bool) where
  -- The answer is `false` at the end of the input.
  unfoldable pub get_yes_no : Input → Bool × Input
  get_yes_no [] = (false, [])
  get_yes_no (line ∷ input) =
      let rest = get_yes_no input in
      let ans = trim isspace line in
      if ans == "y" then (true, input) else if ans == "" || ans == "n" then (false, input) else rest

  -- the loop of `get_new_thread_id`: a line that is not the id of an active thread is asked for
  -- again, and the answer is 0 at the end of the input
  unfoldable pub ask_thread : (String → Checked ℤ) → List ℕ → Input → ℕ × Input
  ask_thread stoi ids [] = (0, [])
  ask_thread stoi ids (line ∷ input) =
      let rest = ask_thread stoi ids input in
      elim (stoi (trim isspace line)) [
        | err e ↦ rest
        | ok n ↦ elim (find_id n ids) [ none ↦ rest | some t ↦ (t, input) ]
      ]

  -- the loop over the lines for a location; the text that it ends with, from `chosen_location`
  -- before it. What `getline` leaves there at the end of the input is `left`.
  unfoldable pub ask_location : (String → String) → List String → String → Input → String × Input
  ask_location left locations chosen_location [] = (left chosen_location, [])
  ask_location left locations chosen_location (line ∷ input) =
      let ans = trim isspace line in
      let rest = ask_location left locations ans input in
      if find_location ans locations then (ans, input) else rest

  unfoldable pub should_perform_eps_transition : Input → Bool × Input
  unfolding get_yes_no
  should_perform_eps_transition input = get_yes_no input

  module _ {S : Type 0} where
    -- the instruction is looked up to be printed; an index out of the program is undefined
    unfoldable pub should_change_thread :
        Interpreter → ProgramState S → Input → Checked (Bool × Input)
    unfolding get_yes_no
    should_change_thread i s input = elim (lookup s.current_thread_id s.threads) [
      | none ↦ ok (get_yes_no input)
      | some thread ↦ elim (get_elem? i.root.statements thread.instruction_index) [
        | none ↦ err undefined_behaviour
        | some statement ↦ ok (get_yes_no input)
      ]
    ]

    unfoldable pub get_new_thread_id : (String → Checked ℤ) → ProgramState S → Input → ℕ × Input
    unfolding ask_thread
    get_new_thread_id stoi s input = ask_thread stoi (get_active_threads_ids s) input

  -- the specialization for partial store order
  unfoldable pub get_new_propagation_state :
      HashOrder String
      → (String → String)
      → ProgramState Pso
      → Input
      → Checked (ProgramState Pso × Input)
  unfolding ask_location
  get_new_propagation_state names left s input =
      let locations = Pso.get_propagate_locations names s.current_thread_id s.storage in
      let (x, rest) = ask_location left locations "" input in
      do
        storage ← Pso.propagate s.current_thread_id x s.storage
        ok (record s { storage = storage }, rest)

  -- the specialization for strong release acquire
  unfoldable pub get_new_increase_state :
      (String → String) → ProgramState Sra → Input → Checked (ProgramState Sra × Input)
  unfolding ask_location
  get_new_increase_state left s input = do
    locations ← Sra.get_increase_locations s.current_thread_id s.storage
    let (x, rest) = ask_location left locations "" input in
        ok (
          record s {
            storage = Sra.increase_location_local_timestamp s.current_thread_id x s.storage;
          },
          rest,
        )
