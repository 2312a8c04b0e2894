-- ===== src/FileReader.antt =====
-- src/file-reader/file-reader.cpp: the text of a file, read line by line. `open_file` is the library's:
-- what a file holds, or `none` where it cannot be opened.
pub mod Lines
use Prim.Native.Char.{code}
use weak_memory_models_simul.Prelude.{
  ℕ, zero, suc, String, Option, none, some, if◌then◌else◌, ◌==◌, nat_eq,
}
use weak_memory_models_simul.Prelude.Result.{ok, err}
use weak_memory_models_simul.Prelude.Text.{◌<>◌}
use weak_memory_models_simul.Exceptions.{Checked, unable_to_open_file}

-- std::getline: a line, and what stands behind its newline; `none` where the file ended first
unfoldable pub getline : String → String × Option String
getline String.[] = (String.[], none)
getline (String.◌∷◌ c s) =
    let rest = getline s in
    if code c == b'\n' then (String.[], some s) else (String.◌∷◌ c rest.0, rest.1)

-- the loop; `none`: the rounds ran out
unfoldable pub read_lines : ℕ → String → String → Option String
unfolding getline
read_lines zero file text = none
read_lines (suc rounds) file text =
    let line = getline file in
    let read = text <> (line.0 <> "\n") in
    elim line.1 [ none ↦ some read | some rest ↦ read_lines rounds rest read ]

unfoldable pub read_file : (String → Option String) → ℕ → String → Option (Checked String)
unfolding read_lines
read_file open_file rounds path = elim (open_file path) [
  | none ↦ some (err (unable_to_open_file path))
  | some file ↦ elim (read_lines rounds file "") [ none ↦ none | some text ↦ some (ok text) ]
]
