-- ===== src/FileReader/Lines.antt =====
-- The loop of file-reader.cpp returns the file's text.
use Prim.Native.Char.{Char, code}
use text.Mathlib.TextEquality.{Char-path}
use weak_memory_models_simul.Prelude.{
  ℕ, zero, suc, ◌<◌, String, Option, none, some, ◌≡◌, inl, inr, refl, sym, ap, ◌∙◌, arith,
  Bool-cases, Option-cases, ◌==◌, nat_eq,
}
use weak_memory_models_simul.Prelude.Result.{ok}
use weak_memory_models_simul.Prelude.Text.{◌<>◌, size, concat_assoc}
use weak_memory_models_simul.FileReader.{getline, read_lines, read_file}

abbrev joined : String × Option String → String
joined (line, none) = line
joined (line, some rest) = line <> ("\n" <> rest)

joined_behind :
    (c : Char) (line : String) (rest : Option String)
    → joined (String.◌∷◌ c line, rest) ≡ String.◌∷◌ c (joined (line, rest))
joined_behind c line none = refl
joined_behind c line (some rest) = refl

-- A line and what is behind it make up the file.
getline-joined : (file : String) → joined (getline file) ≡ file
unfolding getline
getline-joined String.[] = refl
getline-joined (String.◌∷◌ c s) = elim (Bool-cases (code c == b'\n')) [
  | inl e ↦
      rw e (ap (λ d. String.◌∷◌ d s) (Char-path "\n" c (sym ((nat_eq.test_iff (code c) 10).0 e))))
  | inr e ↦
      rw e (joined_behind c (getline s).0 (getline s).1 ∙ ap (String.◌∷◌ c) (getline-joined s))
]

getline-shorter : (file rest : String) → (getline file).1 ≡ some rest → size rest < size file
unfolding getline
getline-shorter String.[] rest h = absurd (cc)
getline-shorter (String.◌∷◌ c s) rest h = elim (Bool-cases (code c == b'\n')) [
  | inl e ↦ let same : s ≡ rest = cc (rw e at h) in omega (arith, ap size same)
  | inr e ↦ omega (arith, getline-shorter s rest (rw e at h))
]

read_lines-appends :
    (rounds : ℕ) (file text : String)
    → size file < rounds
    → read_lines rounds file text ≡ some (text <> (file <> "\n"))
unfolding read_lines
read_lines-appends zero file text bound = absurd (omega (arith, bound))
read_lines-appends (suc rounds) file text bound = elim (Option-cases (getline file).1) [
  | inl e ↦
      let whole : (getline file).0 ≡ file =
        ap (λ r. joined ((getline file).0, r)) (sym e) ∙ getline-joined file in
      rw (read_lines, e, whole)
  | inr (rest, e) ↦
      let line = (getline file).0 in
      let whole : line <> ("\n" <> rest) ≡ file =
        ap (λ r. joined (line, r)) (sym e) ∙ getline-joined file in
      rw (read_lines, e)
        (read_lines-appends rounds rest (text <> (line <> "\n"))
            (omega (arith, bound, getline-shorter file rest e))
          ∙ ap some (
              concat_assoc text (line <> "\n") (rest <> "\n")
              ∙ ap (λ z. text <> z)
                  (concat_assoc line "\n" (rest <> "\n")
                    ∙ sym (concat_assoc line ("\n" <> rest) "\n")
                    ∙ ap (λ z. z <> "\n") whole)))
]

-- A file that can be opened is read to its end: one round more than it has characters is enough.
-- The result is the file's text with a newline behind it.
pub read_file-appends :
    (open_file : String → Option String) (path file : String)
    → open_file path ≡ some file
    → read_file open_file (suc (size file)) path ≡ some (ok (file <> "\n"))
unfolding read_file
read_file-appends open_file path file opens =
    rw (read_file, opens, read_lines-appends (suc (size file)) file "" (omega arith))
