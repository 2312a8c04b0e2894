-- ===== src/Main/Options.antt =====
-- What args-parser.h makes of the options that main.cpp registers.
use weak_memory_models_simul.Prelude.{
  String, List, [], ◌∷◌, Option, none, some, if◌then◌else◌, ◌==◌, ◌≡◌, refl, ap, sym, ◌∙◌,
  string_eq, Bool-cases, Option-cases, inl, inr,
}
use weak_memory_models_simul.Prelude.Map.{Map, put, string_less}
use weak_memory_models_simul.ArgsParser
use weak_memory_models_simul.ArgsParser.{PropertyType}
use weak_memory_models_simul.Main.{ProgramOptions, default_options, parse_options}

-- The values of an option on a command line: the first word of each argument behind its name.
unfoldable pub values : (String → Option String) → String → List String → List String
values extract name [] = []
values extract name (arg ∷ []) = []
values extract name (arg ∷ value ∷ argv) =
    let rest = values extract name (value ∷ argv) in
    if arg == name then elim (extract value) [ none ↦ rest | some v ↦ v ∷ rest ] else rest

-- the last of some values, or else the one before them
unfoldable pub last_value : String → List String → String
last_value v [] = v
last_value v (w ∷ ws) = last_value w ws

module _ (extract : String → Option String) where
  -- what a callback does to the member of its own option
  abbrev given : String → List String → String → String
  given name argv v = ArgsParser.callback extract name (λ w u. w) argv v

  last_value-values :
      (name arg : String) (argv : List String) (v : String)
      → last_value v (values extract name (arg ∷ argv))
        ≡ last_value (given name (arg ∷ argv) v) (values extract name argv)
  unfolding values last_value ArgsParser.callback
  last_value-values name arg [] v = refl
  last_value-values name arg (value ∷ argv) v = elim (Bool-cases (arg == name)) [
    | inl e ↦ elim (Option-cases (extract value)) [
      | inl blank ↦ rw (e, blank)
      | inr (w, word) ↦ rw (e, word, last_value)
    ]
    | inr e ↦ rw e
  ]

  module _ {O : Type 0} (get : O → String) where
    callback-own :
        (name : String) (prop : PropertyType O)
        → ((v : String) (o : O) → get (prop v o) ≡ v)
        → (argv : List String) (o : O)
        → get (ArgsParser.callback extract name prop argv o) ≡ given name argv (get o)
    unfolding ArgsParser.callback
    callback-own name prop sets [] o = refl
    callback-own name prop sets (arg ∷ []) o = refl
    callback-own name prop sets (arg ∷ value ∷ argv) o = elim (Bool-cases (arg == name)) [
      | inl e ↦ elim (Option-cases (extract value)) [
        | inl blank ↦ rw (e, blank)
        | inr (w, word) ↦ rw (e, word) (sets w o)
      ]
      | inr e ↦ rw e
    ]

    callback-other :
        (name : String) (prop : PropertyType O)
        → ((v : String) (o : O) → get (prop v o) ≡ get o)
        → (argv : List String) (o : O) → get (ArgsParser.callback extract name prop argv o) ≡ get o
    unfolding ArgsParser.callback
    callback-other name prop keeps [] o = refl
    callback-other name prop keeps (arg ∷ []) o = refl
    callback-other name prop keeps (arg ∷ value ∷ argv) o = elim (Bool-cases (arg == name)) [
      | inl e ↦ elim (Option-cases (extract value)) [
        | inl blank ↦ rw (e, blank)
        | inr (w, word) ↦ rw (e, word) (keeps w o)
      ]
      | inr e ↦ rw e
    ]

    parse-last :
        (name : String) (callbacks : Map String (PropertyType O))
        → ((argv : List String) (o : O)
            → get (ArgsParser.call_each extract callbacks argv o) ≡ given name argv (get o))
        → (argv : List String) (o : O)
        → get (ArgsParser.parse extract callbacks argv o)
          ≡ last_value (get o) (values extract name argv)
    unfolding ArgsParser.parse values last_value
    parse-last name callbacks calls [] o = refl
    parse-last name callbacks calls (arg ∷ argv) o =
        parse-last name callbacks calls argv (ArgsParser.call_each extract callbacks (arg ∷ argv) o)
        ∙ ap (λ v. last_value v (values extract name argv)) (calls (arg ∷ argv) o)
        ∙ sym (last_value-values name arg argv (get o))

  abbrev registered : Map String (PropertyType ProgramOptions)
  registered =
      ("--file", λ v o. record o { program_path = v })
      ∷ ("--it", λ v o. record o { interpreter_type = v })
      ∷ ("--mm", λ v o. record o { memory_model = v })
      ∷ []

  path_called :
      (argv : List String) (o : ProgramOptions)
      → (ArgsParser.call_each extract registered argv o).program_path
        ≡ given "--file" argv o.program_path
  unfolding ArgsParser.call_each
  path_called argv o =
      callback-other (λ (u : ProgramOptions). u.program_path) "--mm" _ (λ v u. refl) argv _
      ∙ callback-other (λ (u : ProgramOptions). u.program_path) "--it" _ (λ v u. refl) argv _
      ∙ callback-own (λ (u : ProgramOptions). u.program_path) "--file" _ (λ v u. refl) argv o

  model_called :
      (argv : List String) (o : ProgramOptions)
      → (ArgsParser.call_each extract registered argv o).memory_model
        ≡ given "--mm" argv o.memory_model
  unfolding ArgsParser.call_each
  model_called argv o =
      callback-own (λ (u : ProgramOptions). u.memory_model) "--mm" _ (λ v u. refl) argv _
      ∙ ap (given "--mm" argv) (
          callback-other (λ (u : ProgramOptions). u.memory_model) "--it" _ (λ v u. refl) argv _
          ∙ callback-other (λ (u : ProgramOptions). u.memory_model) "--file" _ (λ v u. refl) argv o)

  interpreter_called :
      (argv : List String) (o : ProgramOptions)
      → (ArgsParser.call_each extract registered argv o).interpreter_type
        ≡ given "--it" argv o.interpreter_type
  unfolding ArgsParser.call_each
  interpreter_called argv o =
      callback-other (λ (u : ProgramOptions). u.interpreter_type) "--mm" _ (λ v u. refl) argv _
      ∙ callback-own (λ (u : ProgramOptions). u.interpreter_type) "--it" _ (λ v u. refl) argv _
      ∙ ap (given "--it" argv) (
          callback-other (λ (u : ProgramOptions). u.interpreter_type) "--file" _ (λ v u. refl) argv
            o)

-- Each option has, behind the parsing of a command line, the last value that stands there behind its
-- name, and where there is none the default: no path, the model sc, and the interpreter nd.
pub parse_options_lem :
    (extract : String → Option String) (argv : List String)
    → ((parse_options extract argv).program_path ≡ last_value "" (values extract "--file" argv))
      × ((parse_options extract argv).memory_model ≡ last_value "sc" (values extract "--mm" argv))
      × ((parse_options extract argv).interpreter_type
          ≡ last_value "nd" (values extract "--it" argv))
unfolding parse_options ArgsParser.create put
parse_options_lem extract argv = (
  parse-last extract (λ o. o.program_path) "--file" (registered extract) (path_called extract) argv
      default_options,
  parse-last extract (λ o. o.memory_model) "--mm" (registered extract) (model_called extract) argv
      default_options,
  parse-last extract (λ o. o.interpreter_type) "--it" (registered extract)
      (interpreter_called extract) argv default_options,
)
