-- ===== src/Parser/Labels.antt =====
-- The labels of a program (LabeledInstructionsRetriever of parser.cpp).
use weak_memory_models_simul.Prelude.{
  ℕ, suc, ◌+◌, String, List, [], ◌∷◌, some, is_some, ◌==◌, nat_eq, string_eq, ◌≡◌, refl, arith,
  eq_iff, get_elem?, Bool-cases, inl, inr, ◌⊎◌,
}
use weak_memory_models_simul.Prelude.Result.{ok}
use weak_memory_models_simul.Prelude.Map.{Map, lookup, put, string_less, lookup-put}
use weak_memory_models_simul.Ast.{StatementNode}
use mathlib.Core.Path.{subst}
use weak_memory_models_simul.Parser.{labeled_instructions}

-- A statement of the program that bears the label.
pub record Labelled (statements : List StatementNode) (label : String) (index : ℕ) : Type 0 where
  pub statement : StatementNode
  pub stands : get_elem? statements index ≡ some statement
  pub bears : statement.label ≡ label

-- the same, counted from `index` on
record Later (statements : List StatementNode) (label : String) (index k : ℕ) : Type 0 where
  offset : ℕ
  place : k ≡ index + offset
  found : Labelled statements label offset

later :
    (index k : ℕ) (label : String) (statement : StatementNode) (statements : List StatementNode)
    → Later statements label (suc index) k
    → Later (statement ∷ statements) label index k
later index k label statement statements l = record {
  offset = suc l.offset;
  place = omega (arith, l.place);
  found = record { statement = l.found.statement; stands = l.found.stands; bears = l.found.bears };
}

collects :
    (index : ℕ) (statements : List StatementNode) (labels labels' : Map String ℕ) (label : String)
    (k : ℕ)
    → labeled_instructions index statements labels ≡ ok labels'
    → lookup label labels' ≡ some k
    → (lookup label labels ≡ some k) ⊎ Later statements label index k
unfolding labeled_instructions
collects index [] labels labels' label k h e = inl (cc)
collects index (statement ∷ statements) labels labels' label k h e =
    elim (Bool-cases (statement.label == "")) [
      | inl unlabelled ↦
          elim (collects (suc index) statements labels labels' label k (rw unlabelled at h) e) [
            | inl old ↦ inl old
            | inr l ↦ inr (later index k label statement statements l)
          ]
      | inr labelled ↦ elim (Bool-cases (is_some (lookup statement.label labels))) [
        | inl twice ↦ absurd (cc (rw (labelled, twice) at h))
        | inr once ↦
            elim (collects (suc index) statements (put statement.label index labels) labels' label k
              (rw (labelled, once) at h) e) [
                | inr l ↦ inr (later index k label statement statements l)
                | inl old ↦ elim (Bool-cases (statement.label == label)) [
                  | inl same ↦ inr (record {
                    offset = 0;
                    place = ground (arith, lookup-put statement.label label index labels);
                    found = record {
                      statement = statement;
                      stands = refl;
                      bears = (eq_iff statement.label label).0 same;
                    };
                  })
                  | inr other ↦ inl (ground (arith, lookup-put statement.label label index labels))
                ]
              ]
      ]
    ]

-- A label leads to the statement that bears it: every index in the table of labels is that of a
-- statement of the program, so no jump to a known label leaves the program.
pub labels_lead_to_statements :
    (statements : List StatementNode) (labels : Map String ℕ) (label : String) (k : ℕ)
    → labeled_instructions 0 statements [] ≡ ok labels
    → lookup label labels ≡ some k
    → Labelled statements label k
unfolding lookup
labels_lead_to_statements statements labels label k h e =
    elim (collects 0 statements [] labels label k h e) [
      | inl old ↦ absurd (cc (old))
      | inr l ↦ subst (Labelled statements label) (omega (arith, l.place)) l.found
    ]
