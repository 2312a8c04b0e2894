-- ===== src/Main/Runs.antt =====
-- How a process of the simulator ends.
use weak_memory_models_simul.Prelude.{
  ℕ, suc, String, Bool, true, false, ◌||◌, List, ◌∷◌, Option, none, some, ◌==◌, ◌≡◌, ◌≢◌, string_eq,
  sym, ap, ◌∙◌, Bool-cases, inl, inr,
}
use weak_memory_models_simul.Prelude.Result.{ok, err}
use weak_memory_models_simul.Prelude.Map.{Map}
use weak_memory_models_simul.Prelude.Text.{◌<>◌, size}
use weak_memory_models_simul.Ast.{ProgramNode}
use weak_memory_models_simul.Exceptions.{Error, Checked}
use weak_memory_models_simul.Exceptions
use weak_memory_models_simul.Interpreter.{Interpreter}
use mathlib.Core.Path.{subst}
use weak_memory_models_simul.FileReader.{read_file}
use weak_memory_models_simul.FileReader.Lines.{read_file-appends}
use weak_memory_models_simul.FrontEnd.{front_end}
use weak_memory_models_simul.FrontEnd.Errors.{Accepted, front_end_lem}
use weak_memory_models_simul.Main.{
  ProgramOptions, Environment, Done, done, Exit, parse_options, check_options, run_file, simulate,
  run_interpreter, run_main, exit_of, finish, main,
}
use weak_memory_models_simul.Main.Exits.{
  IsRuntimeError, IsUncaught, EndsBy, caught, uncaught, Returned, Model, Chosen, consistent,
  total_order, partial_order, release_acquire, Finishes, Ends,
}

-- Options that the program refuses, and a file that it cannot open.
pub data Refused (e : Environment) (o : ProgramOptions) : Type 0 where
  no_path : o.program_path ≡ "" → Refused e o
  unknown_interpreter :
      o.interpreter_type ≢ "nd"
      → o.interpreter_type ≢ "tr"
      → o.interpreter_type ≢ "mc"
      → o.interpreter_type ≢ "i"
      → Refused e o
  unknown_model :
      o.memory_model ≢ "sc"
      → o.memory_model ≢ "tso"
      → o.memory_model ≢ "pso"
      → o.memory_model ≢ "sra"
      → Refused e o
  no_file : e.open_file o.program_path ≡ none → Refused e o

abbrev knows_interpreter : ProgramOptions → Bool
knows_interpreter o =
    let it = o.interpreter_type in it == "nd" || (it == "tr" || (it == "mc" || it == "i"))

abbrev knows_model : ProgramOptions → Bool
knows_model o =
    let mm = o.memory_model in mm == "sc" || (mm == "tso" || (mm == "pso" || mm == "sra"))

-- Options that it accepts.
pub record IsAccepted (o : ProgramOptions) : Type 0 where
  pub path : o.program_path ≢ ""
  pub interpreter : knows_interpreter o ≡ true
  pub model : knows_model o ≡ true

differs : (s t : String) → s ≢ t → (s == t) ≡ false
differs s t apart = elim (Bool-cases (s == t)) [
  | inl e ↦ absurd (apart ((string_eq.test_iff s t).0 e))
  | inr e ↦ e
]

check_options-accepted :
    (name : String) (o : ProgramOptions) → IsAccepted o → check_options name o ≡ ok done
unfolding check_options
check_options-accepted name o a = rw (differs o.program_path "" a.path, a.interpreter, a.model)

-- Whether the options are refused by the check or with the file, the exit is the same.
refused :
    (e : Environment) (name : String) (o : ProgramOptions) (lines rounds : ℕ)
    → Refused e o
    → run_main e lines rounds name o ≡ some Exit.exit_failure
unfolding run_main check_options run_file read_file exit_of
refused e name o lines rounds (no_path h) =
    rw (run_main, check_options, (string_eq.test_iff o.program_path "").1 h)
refused e name o lines rounds (unknown_interpreter no_nd no_tr no_mc no_i) =
    elim (Bool-cases (o.program_path == "")) [
      | inl empty ↦ rw (run_main, check_options, empty)
      | inr path ↦ rw (
        run_main,
        check_options,
        path,
        differs o.interpreter_type "nd" no_nd,
        differs o.interpreter_type "tr" no_tr,
        differs o.interpreter_type "mc" no_mc,
        differs o.interpreter_type "i" no_i,
      )
    ]
refused e name o lines rounds (unknown_model no_sc no_tso no_pso no_sra) =
    elim (Bool-cases (o.program_path == "")) [
      | inl empty ↦ rw (run_main, check_options, empty)
      | inr path ↦ elim (Bool-cases (knows_interpreter o)) [
        | inl known ↦ rw (
          run_main,
          check_options,
          path,
          known,
          differs o.memory_model "sc" no_sc,
          differs o.memory_model "tso" no_tso,
          differs o.memory_model "pso" no_pso,
          differs o.memory_model "sra" no_sra,
        )
        | inr unknown ↦ rw (run_main, check_options, path, unknown)
      ]
    ]
refused e name o lines rounds (no_file h) = elim (Bool-cases (o.program_path == "")) [
  | inl empty ↦ rw (run_main, check_options, empty)
  | inr path ↦ elim (Bool-cases (knows_interpreter o)) [
    | inl known ↦ elim (Bool-cases (knows_model o)) [
      | inl model ↦ rw (run_main, check_options, path, known, model, run_file, read_file, h)
      | inr model ↦ rw (run_main, check_options, path, known, model)
    ]
    | inr unknown ↦ rw (run_main, check_options, path, unknown)
  ]
]

exit_of-EndsBy : (x : Error) → EndsBy x (exit_of (err x))
unfolding exit_of
exit_of-EndsBy (Exceptions.invalid_arguments _) = caught IsRuntimeError.arguments
exit_of-EndsBy (Exceptions.unable_to_open_file _) = caught IsRuntimeError.file
exit_of-EndsBy (Exceptions.invalid_token _) = caught IsRuntimeError.token
exit_of-EndsBy (Exceptions.unexpected_token _ _) = caught IsRuntimeError.kind
exit_of-EndsBy (Exceptions.multiple_statements_with_same_label _) = caught IsRuntimeError.labels
exit_of-EndsBy (Exceptions.unknown_label _) = caught IsRuntimeError.label
exit_of-EndsBy (Exceptions.invalid_thread_interleaving _ _) = caught IsRuntimeError.interleaving
exit_of-EndsBy Exceptions.fences_not_supported = caught IsRuntimeError.fence
exit_of-EndsBy Exceptions.out_of_range = uncaught IsUncaught.range
exit_of-EndsBy Exceptions.logic_error = uncaught IsUncaught.logic
exit_of-EndsBy Exceptions.assertion_failed = uncaught IsUncaught.assertion
exit_of-EndsBy Exceptions.undefined_behaviour = EndsBy.undefined

-- how the process ends with the result of a part of it
abbrev exit : Option (Checked Done) → Option Exit
exit none = none
exit (some r) = some (exit_of r)

exit-Returned : {A : Type 0} (r : Option (Checked A)) → Returned r (exit (finish r))
unfolding exit_of
exit-Returned none = Returned.running
exit-Returned (some (ok a)) = Returned.returned
exit-Returned (some (err x)) = Returned.threw (exit_of-EndsBy x)

run_interpreter-Finishes :
    (e : Environment) (o : ProgramOptions) (i : Interpreter) (M : Model)
    → knows_interpreter o ≡ true
    → Finishes e i M o.interpreter_type (exit (run_interpreter e M.m M.choose o.interpreter_type i))
unfolding run_interpreter
run_interpreter-Finishes e o i M known =
    let it = o.interpreter_type in
    let at = λ (s : String) (x : Option Exit) (is : (it == s) ≡ true) (f : Finishes e i M s x).
      subst (λ z. Finishes e i M z x) (sym ((string_eq.test_iff it s).0 is)) f in
    elim (Bool-cases (it == "nd")) [
      | inl nd ↦ rw (run_interpreter, nd) (at "nd" _ nd (Finishes.random (exit-Returned _)))
      | inr no_nd ↦ elim (Bool-cases (it == "tr")) [
        | inl tr ↦
            rw (run_interpreter, no_nd, tr) (at "tr" _ tr (Finishes.tracing (exit-Returned _)))
        | inr no_tr ↦ elim (Bool-cases (it == "mc")) [
          | inl mc ↦
              rw (run_interpreter, no_nd, no_tr, mc)
                (at "mc" _ mc (Finishes.checking (exit-Returned _)))
          | inr no_mc ↦ elim (Bool-cases (it == "i")) [
            | inl is ↦
                rw (run_interpreter, no_nd, no_tr, no_mc, is)
                  (at "i" _ is (Finishes.interactive (exit-Returned _)))
            | inr not ↦ absurd (cc (rw (no_nd, no_tr, no_mc, not) at known))
          ]
        ]
      ]
    ]

-- The memory model that an accepted option stands for is the one of the run.
record Simulated (e : Environment) (o : ProgramOptions) (i : Interpreter) : Type 1 where
  M : Model
  chosen : Chosen e o.memory_model M
  simulates : simulate e o i ≡ run_interpreter e M.m M.choose o.interpreter_type i

simulate-Simulated :
    (e : Environment) (o : ProgramOptions) (i : Interpreter)
    → knows_model o ≡ true
    → Simulated e o i
unfolding simulate
simulate-Simulated e o i known =
    let mm = o.memory_model in
    let at = λ (s : String) (M : Model) (is : (mm == s) ≡ true) (c : Chosen e s M).
      subst (λ z. Chosen e z M) (sym ((string_eq.test_iff mm s).0 is)) c in
    elim (Bool-cases (mm == "sc")) [
      | inl is ↦ record { M = _; chosen = at "sc" _ is consistent; simulates = rw (simulate, is) }
      | inr no_sc ↦ elim (Bool-cases (mm == "tso")) [
        | inl is ↦ record {
          M = _;
          chosen = at "tso" _ is total_order;
          simulates = rw (simulate, no_sc, is);
        }
        | inr no_tso ↦ elim (Bool-cases (mm == "pso")) [
          | inl is ↦ record {
            M = _;
            chosen = at "pso" _ is partial_order;
            simulates = rw (simulate, no_sc, no_tso, is);
          }
          | inr no_pso ↦ elim (Bool-cases (mm == "sra")) [
            | inl is ↦ record {
              M = _;
              chosen = at "sra" _ is release_acquire;
              simulates = rw (simulate, no_sc, no_tso, no_pso, is);
            }
            | inr not ↦ absurd (cc (rw (no_sc, no_tso, no_pso, not) at known))
          ]
        ]
      ]
    ]

parsed :
    (e : Environment) (name : String) (o : ProgramOptions) (lines rounds : ℕ) (code : String)
    (r : Checked (ProgramNode × Map String ℕ))
    → IsAccepted o
    → read_file e.open_file lines o.program_path ≡ some (ok code)
    → front_end e.stoi rounds code ≡ some r
    → (x : Option Exit) × (run_main e lines rounds name o ≡ x) × Ends e o r x
unfolding run_main run_file
parsed e name o lines rounds code (err y) accepted reads returns = (
  some (exit_of (err y)),
  rw (run_main, check_options-accepted name o accepted, run_file, reads, returns),
  Ends.refused (exit_of-EndsBy y),
)
parsed e name o lines rounds code (ok (root, labels)) accepted reads returns =
    let i : Interpreter = record { root = root; labeled_instructions = labels } in
    let s = simulate-Simulated e o i accepted.model in
    let f = run_interpreter-Finishes e o i s.M accepted.interpreter in
    (
      exit (run_interpreter e s.M.m s.M.choose o.interpreter_type i),
      (rw (run_main, check_options-accepted name o accepted, run_file, reads, returns))
          ∙ ap exit s.simulates,
      Ends.ran s.chosen f,
    )

module _ (e : Environment) (name : String) (arguments : List String) where
  abbrev pub options : ProgramOptions
  options = parse_options e.extract (name ∷ arguments)

  -- An empty path, an unknown interpreter, an unknown memory model, or a file that cannot be opened
  -- end the process with EXIT_FAILURE.
  pub main_refuses :
      (lines rounds : ℕ)
      → Refused e options
      → main e lines rounds name arguments ≡ some Exit.exit_failure
  unfolding main
  main_refuses lines rounds r = refused e name options lines rounds r

  -- With accepted options and a file that can be opened, the file is read to its end, and the lexer
  -- and the parser return on its text with a newline behind it, with a program or an exception of
  -- those known. The exception ends the process, or else the interpreter that the option --it names
  -- runs the program with the memory model that --mm names, and ends it: with success where it
  -- returns, with EXIT_FAILURE where it throws a std::runtime_error, and abnormally where it throws
  -- another exception or an assertion fails; while it runs the process does. One round more than the
  -- file has characters is enough to read it, and one more to parse it.
  pub main_ends :
      (file : String)
      → IsAccepted options
      → e.open_file options.program_path ≡ some file
      → (r : Checked (ProgramNode × Map String ℕ)) × Accepted e.stoi r
        × (front_end e.stoi (suc (size (file <> "\n"))) (file <> "\n") ≡ some r)
        × (x : Option Exit) × (main e (suc (size file)) (suc (size (file <> "\n"))) name arguments
            ≡ x)
        × Ends e options r x
  unfolding main
  main_ends file accepted opens =
      let (r, returns, known) = front_end_lem e.stoi (file <> "\n") in
      let (x, exits, ends) =
        parsed e name options (suc (size file)) (suc (size (file <> "\n"))) (file <> "\n") r
          accepted (read_file-appends e.open_file options.program_path file opens) returns in
      (r, known, returns, x, exits, ends)
