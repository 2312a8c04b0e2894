-- ===== src/ArgsParser.antt =====
-- src/args-parser/args-parser.h: options on a command line. `O` is the type of the options; the
-- properties are members of type std::string, the only ones that the program registers. `extract` is
-- the library's `>>` from a stream of the text: the first word, or none where the text is blank.
use weak_memory_models_simul.Prelude.{
  String, List, [], ◌∷◌, Option, none, some, if◌then◌else◌, ◌==◌, string_eq,
}
use weak_memory_models_simul.Prelude.Map.{Map, put, string_less}

-- an assignment to a member
abbrev pub PropertyType : Type 0 → Type 0
PropertyType O = String → O → O

-- `create`, and register_callback for each argument
unfoldable pub create :
    {O : Type 0}
    → List (String × PropertyType O)
    → Map String (PropertyType O)
    → Map String (PropertyType O)
unfolding put
create [] callbacks = callbacks
create ((name, prop) ∷ args) callbacks = create args (put name prop callbacks)

module _ (extract : String → Option String) {O : Type 0} where
  -- The callback of an option, on the rest of the command line from an index on: the next argument,
  -- if there is one, is the option's value.
  unfoldable pub callback : String → PropertyType O → List String → O → O
  callback name prop [] o = o
  callback name prop (arg ∷ []) o = o
  callback name prop (arg ∷ value ∷ rest) o =
      if arg == name then elim (extract value) [ none ↦ o | some v ↦ prop v o ] else o

  -- the loop over the callbacks
  unfoldable pub call_each : Map String (PropertyType O) → List String → O → O
  unfolding callback
  call_each [] argv o = o
  call_each ((name, prop) ∷ callbacks) argv o = call_each callbacks argv (callback name prop argv o)

  -- the loop over the indices
  unfoldable pub parse : Map String (PropertyType O) → List String → O → O
  unfolding call_each
  parse callbacks [] o = o
  parse callbacks (arg ∷ argv) o = parse callbacks argv (call_each callbacks (arg ∷ argv) o)
