-- ===== src/Main/Failures.antt =====
-- What ends a process of the simulator (main.cpp) past its `catch`.
use mathlib.Core.List.{Memᴰ}
use weak_memory_models_simul.Prelude.{
  ℕ, suc, String, List, Option, none, some, ◌≡◌, refl, sym, ◌∙◌, string_eq, nat_eq, get_elem?,
}
use weak_memory_models_simul.Prelude.Result.{ok, err}
use weak_memory_models_simul.Prelude.Int.{ℤ}
use weak_memory_models_simul.Prelude.Map.{Map, lookup, nat_less, string_less}
use weak_memory_models_simul.Prelude.Text.{◌<>◌, size}
use weak_memory_models_simul.Ast.{ProgramNode, AstNode, StatementNode}
use weak_memory_models_simul.Exceptions.{Error, Checked}
use weak_memory_models_simul.Storage.Interface.{StorageSubsystem}
use weak_memory_models_simul.State.{ProgramState, ThreadState, current_thread}
use weak_memory_models_simul.FrontEnd.{front_end}
use weak_memory_models_simul.FrontEnd.Errors.{Accepted, Documented, invalid, reported, repeated}
use weak_memory_models_simul.Parser.Outcomes.{unexpected, from_stoi}
use weak_memory_models_simul.Interpreter.{Interpreter}
use weak_memory_models_simul.Interpreter.NonDeterministic
use weak_memory_models_simul.Safety.Lawful.{Lawful}
use weak_memory_models_simul.Safety.Causes.{Cause, registers}
use weak_memory_models_simul.Safety.States.{Reached}
use weak_memory_models_simul.Safety.Runs.{Failure}
use weak_memory_models_simul.Safety.Models.{sc-Lawful, tso-Lawful, pso-Lawful, sra-Lawful}
use weak_memory_models_simul.Safety.Programs.{program_fails}
use weak_memory_models_simul.Main.{ProgramOptions, Environment, Exit, main}
use weak_memory_models_simul.Main.Exits.{
  IsUncaught, EndsBy, caught, uncaught, Returned, Model, Chosen, consistent, total_order,
  partial_order, release_acquire, Finishes, Ends, refused, ran,
}
use weak_memory_models_simul.Main.Runs.{IsAccepted, options, main_ends}

-- An instruction of the program that reads, in a state of the run, a register that its thread has
-- not set.
pub record UnsetRegister {S : Type 0} (m : StorageSubsystem S) (i : Interpreter) : Type 0 where
  pub state : ProgramState S
  pub reached : Reached m i state
  pub thread : ThreadState
  pub statement : StatementNode
  pub active : lookup state.current_thread_id state.threads ≡ some thread
  pub stands : get_elem? i.root.statements thread.instruction_index ≡ some statement
  pub register : String
  pub read : Memᴰ register (registers statement.statement)
  pub unset : lookup register (current_thread state).thread_subsystem ≡ none

module _ {S : Type 0} (m : StorageSubsystem S) (i : Interpreter) where
  Cause-reads_unset :
      {s : ProgramState S} {n : AstNode} {y : Error}
      → Cause m i s n y
      → IsUncaught y
      → (r : String) × Memᴰ r (registers n) × (lookup r (current_thread s).thread_subsystem ≡ none)
  Cause-reads_unset (Cause.unset r there e) u = (r, there, e)
  Cause-reads_unset (Cause.assigns c) u = Cause-reads_unset c u
  Cause-reads_unset (Cause.jumps _ _) u = elim u [ ]
  Cause-reads_unset (Cause.starts _ _) u = elim u [ ]
  Cause-reads_unset (Cause.branches _ _ _ _) u = elim u [ ]
  Cause-reads_unset (Cause.computes _ _ _ _) u = elim u [ ]
  Cause-reads_unset (Cause.increments _ _ _ _) u = elim u [ ]
  Cause-reads_unset (Cause.fences _ _) u = elim u [ ]

  Failure-UnsetRegister : {y : Error} → Failure m i y → IsUncaught y → UnsetRegister m i
  Failure-UnsetRegister f u =
      let (r, there, e) = Cause-reads_unset f.cause u in
      record {
        state = f.state;
        reached = f.reached;
        thread = f.thread;
        statement = f.statement;
        active = f.active;
        stands = f.stands;
        register = r;
        read = there;
        unset = e;
      }

-- What ends a random execution of the text abnormally: std::stoi threw on a lexeme, or an
-- instruction reads a register that is not set.
pub data Terminates (e : Environment) (o : ProgramOptions) (code : String) : Type 1 where
  number : (lexeme : String) {y : Error} → e.stoi lexeme ≡ err y → Terminates e o code
  register :
      {root : ProgramNode} {labels : Map String ℕ} {M : Model}
      → front_end e.stoi (suc (size code)) code ≡ some (ok (root, labels))
      → Chosen e o.memory_model M
      → UnsetRegister M.m (record { root = root; labeled_instructions = labels })
      → Terminates e o code

EndsBy-IsUncaught : {y : Error} {x : Exit} → EndsBy y x → x ≡ Exit.terminated → IsUncaught y
EndsBy-IsUncaught (caught _) h = absurd (cc h)
EndsBy-IsUncaught (uncaught u) h = u
EndsBy-IsUncaught EndsBy.undefined h = absurd (cc h)

Documented-number :
    {stoi : String → Checked ℤ} {y : Error}
    → Documented stoi y
    → IsUncaught y
    → (lexeme : String) × (stoi lexeme ≡ err y)
Documented-number (reported (from_stoi lexeme e)) u = (lexeme, e)
Documented-number (reported (unexpected _)) u = elim u [ ]
Documented-number (invalid _) u = elim u [ ]
Documented-number repeated u = elim u [ ]

Returned-throws :
    {A : Type 0} {r : Option (Checked A)} {x : Option Exit}
    → Returned r x
    → x ≡ some Exit.terminated
    → (y : Error) × (r ≡ some (err y)) × IsUncaught y
Returned-throws Returned.running h = absurd (cc h)
Returned-throws Returned.returned h = absurd (cc h)
Returned-throws (Returned.threw {y = y} by) h = (y, refl, EndsBy-IsUncaught by (cc h))

Finishes-random :
    {e : Environment} {i : Interpreter} {M : Model} {it : String} {x : Option Exit}
    → Finishes e i M it x
    → it ≡ "nd"
    → Returned (NonDeterministic.run M.m i e.draws) x
Finishes-random (Finishes.random r) h = r
Finishes-random (Finishes.tracing r) h = absurd (cc ((string_eq.test_iff "tr" "nd").1 h))
Finishes-random (Finishes.checking r) h = absurd (cc ((string_eq.test_iff "mc" "nd").1 h))
Finishes-random (Finishes.interactive r) h = absurd (cc ((string_eq.test_iff "i" "nd").1 h))

record Kept (M : Model) : Type 1 where
  Valid : M.S → Type 0
  lawful : Lawful M.m Valid

Chosen-Kept : {e : Environment} {mm : String} {M : Model} → Chosen e mm M → Kept M
Chosen-Kept consistent = record { Valid = _; lawful = sc-Lawful }
Chosen-Kept {e = e} total_order = record { Valid = _; lawful = tso-Lawful e.ids }
Chosen-Kept {e = e} partial_order = record { Valid = _; lawful = pso-Lawful e.ids e.names }
Chosen-Kept release_acquire = record { Valid = _; lawful = sra-Lawful }

Ends-Terminates :
    {e : Environment} {o : ProgramOptions} {code : String}
    {r : Checked (ProgramNode × Map String ℕ)} {x : Option Exit}
    → Ends e o r x
    → x ≡ some Exit.terminated
    → o.interpreter_type ≡ "nd"
    → Accepted e.stoi r
    → front_end e.stoi (suc (size code)) code ≡ some r
    → Terminates e o code
Ends-Terminates (refused by) h nd known returns =
    let (lexeme, throws) = Documented-number known (EndsBy-IsUncaught by (cc h)) in
    Terminates.number lexeme throws
Ends-Terminates {e = e} {code = code} (ran {root} {labels} {M} chosen finishes) h nd known returns =
    let (y, throws, u) = Returned-throws (Finishes-random finishes nd) h in
    let kept = Chosen-Kept chosen in
    let failure =
      program_fails M.m kept.Valid kept.lawful e.stoi code root labels returns e.draws y throws in
    Terminates.register returns chosen (Failure-UnsetRegister M.m _ failure u)

pub main_terminates :
    (e : Environment) (name : String) (arguments : List String) (file : String)
    → IsAccepted (options e name arguments)
    → (options e name arguments).interpreter_type ≡ "nd"
    → e.open_file (options e name arguments).program_path ≡ some file
    → main e (suc (size file)) (suc (size (file <> "\n"))) name arguments ≡ some Exit.terminated
    → Terminates e (options e name arguments) (file <> "\n")
main_terminates e name arguments file accepted nd opens ended =
    let (r, known, returns, x, exits, ends) = main_ends e name arguments file accepted opens in
    Ends-Terminates ends (sym exits ∙ ended) nd known returns
