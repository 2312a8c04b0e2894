-- ===== src/Lexer/Scanned.antt =====
-- What the loops of lexer.cpp read: the text between the pointer's old and new place.
use Prim.Native.Char.{code}
use weak_memory_models_simul.Prelude.{
  ℕ, suc, String, Bool, false, ◌≡◌, ◌≢◌, refl, sym, ap, ◌∙◌, Bool-cases, inl, inr,
}
use weak_memory_models_simul.Prelude.Text.{◌<>◌, size, view, first_code, concat_assoc}
use weak_memory_models_simul.Lexer.Tokens.{Position}
use weak_memory_models_simul.Lexer.{Lexer, next_position, advance, scan}

-- the position behind a text
unfoldable pub walk : String → Position → Position
walk String.[] p = p
walk (String.◌∷◌ c s) p = walk s (next_position (code c) p)

-- The pointer has moved from one lexer to the other over the text `read`.
pub record Reads (from to : Lexer) (read : String) : Type 0 where
  pub splits : from.program ≡ read <> to.program
  pub moves : to.current_position ≡ walk read from.current_position

-- What the scan's length and end mean.
pub record Scanned (test : ℕ → Bool) (from : Lexer) (len : ℕ) (to : Lexer) : Type 0 where
  pub read : String
  pub reads : Reads from to read
  pub length : size read ≡ len
  pub lexeme : view len from.program ≡ read
  pub stops : (test (first_code to.program) ≡ false)

pub scan-Scanned :
    (test : ℕ → Bool) (s : String) (p : Position)
    → test 0 ≡ false
    → Scanned test
        (record { program = s; current_position = p })
        (scan test s p).0
        (scan test s p).1
unfolding scan walk
scan-Scanned test String.[] p h = record {
  read = "";
  reads = record { splits = refl; moves = refl };
  length = refl;
  lexeme = refl;
  stops = h;
}
scan-Scanned test (String.◌∷◌ c s) p h = elim (Bool-cases (test (code c))) [
  | inl passes ↦
      let rest = scan-Scanned test s (next_position (code c) p) h in
      rw (scan, passes)
        (record {
          read = String.◌∷◌ c rest.read;
          reads = record { splits = ap (String.◌∷◌ c) rest.reads.splits; moves = rest.reads.moves };
          length = ap suc rest.length;
          lexeme = ap (String.◌∷◌ c) rest.lexeme;
          stops = rest.stops;
        })
  | inr fails ↦
      rw (scan, fails)
        (record {
          read = "";
          reads = record { splits = refl; moves = refl };
          length = refl;
          lexeme = refl;
          stops = fails;
        })
]

walk-concat : (s t : String) (p : Position) → walk (s <> t) p ≡ walk t (walk s p)
unfolding walk
walk-concat String.[] t p = refl
walk-concat (String.◌∷◌ c s) t p = walk-concat s t (next_position (code c) p)

pub Reads-trans : {l m n : Lexer} {s t : String} → Reads l m s → Reads m n t → Reads l n (s <> t)
Reads-trans {s} {t} a b = record {
  splits = a.splits ∙ ap (◌<>◌ s) b.splits ∙ sym (concat_assoc s t _);
  moves = b.moves ∙ ap (walk t) a.moves ∙ sym (walk-concat s t _);
}

pub Reads-refl : (l : Lexer) → Reads l l ""
unfolding walk
Reads-refl l = record { splits = refl; moves = refl }

-- One character in front of the pointer.
pub Reads-advance :
    (s : String) (p : Position)
    → first_code s ≢ 0
    → Reads
        (record { program = s; current_position = p })
        (advance (record { program = s; current_position = p }))
        (view 1 s)
unfolding advance walk
Reads-advance String.[] p h = absurd (h refl)
Reads-advance (String.◌∷◌ c s) p h = record { splits = refl; moves = refl }
