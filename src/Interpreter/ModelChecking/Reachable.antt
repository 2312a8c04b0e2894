-- ===== src/Interpreter/ModelChecking/Reachable.antt =====
-- The results of the search of model-checking.cpp against the transitions that it explores.
use mathlib.Core.List.{Memᴰ}
use mathlib.Core.List.Memᴰ
use mathlib.Core.Path.{subst}
use weak_memory_models_simul.Prelude.{
  ℕ, zero, suc, true, false, List, [], ◌∷◌, ◌++◌, some, ◌≡◌, refl, sym, ap, ◌∙◌, arith, Bool-cases,
  inl, inr, ◌⊎◌, nat_eq,
}
use weak_memory_models_simul.Prelude.Result.{ok, Result-cases}
use weak_memory_models_simul.Storage.Interface.{StorageSubsystem}
use weak_memory_models_simul.State.{ProgramState, has_active_threads}
use weak_memory_models_simul.Interpreter.{Interpreter}
use weak_memory_models_simul.Interpreter.ModelChecking.{is_found, expand, flush_state, explore}
use weak_memory_models_simul.Interpreter.ModelChecking.Same.{
  Covers, Distinct, found-Covers, added, added-Distinct,
}

module _ {S : Type 0} (m : StorageSubsystem S) (i : Interpreter) where
  -- The states to which the search gets from a state, one round at a time.
  pub data Reach : ProgramState S → ProgramState S → Type 0 where
    here : {s : ProgramState S} → Reach s s
    next :
        {s t u : ProgramState S} {ts : List (ProgramState S)}
        → has_active_threads s ≡ true
        → expand m i s ≡ ok ts
        → Memᴰ t ts
        → Reach t u
        → Reach s u

  -- The results have the final state itself, its storage flushed, or one that covers it.
  pub record Represented (u : ProgramState S) (results : List (ProgramState S)) : Type 0 where
    pub state : ProgramState S
    pub listed : Memᴰ state results
    pub alike : (flush_state m i u ≡ ok state) ⊎ Covers state u

  -- A final state that the search reaches, whose flushed form is the result.
  pub record Origin (f : ProgramState S) (queue : List (ProgramState S)) : Type 0 where
    pub start : ProgramState S
    pub final : ProgramState S
    pub queued : Memᴰ start queue
    pub path : Reach start final
    pub finished : has_active_threads final ≡ false
    pub flushed : flush_state m i final ≡ ok f

  pub record Explored (queue finals results : List (ProgramState S)) : Type 0 where
    pub kept : (f : ProgramState S) → Memᴰ f finals → Memᴰ f results
    pub covers :
        (s u : ProgramState S)
        → Memᴰ s queue
        → Reach s u
        → has_active_threads u ≡ false
        → Represented u results
    pub sound : (f : ProgramState S) → Memᴰ f results → Memᴰ f finals ⊎ Origin f queue

  finished-flush :
      (u f : ProgramState S)
      → flush_state m i u ≡ ok f
      → f.finished_thread_states ≡ u.finished_thread_states
  unfolding flush_state
  finished-flush u f h = elim (Result-cases (m.flush u.storage)) [
    | inl (z, e) ↦ ground (arith, e)
    | inr (d, e) ↦ ground (arith, e)
  ]

  Explored-active :
      (s : ProgramState S) (states ts finals results : List (ProgramState S))
      → has_active_threads s ≡ true
      → expand m i s ≡ ok ts
      → Explored (states ++ ts) finals results
      → Explored (s ∷ states) finals results
  Explored-active s states ts finals results active e rest = record {
    kept = rest.kept;
    covers = λ x u there path finished. elim (Memᴰ.cases_cons there) [
      | inl same ↦ from_head u (subst (λ z. Reach z u) same path) finished
      | inr behind ↦ rest.covers x u (Memᴰ.append_left ts behind) path finished
    ];
    sound = λ f there. elim (rest.sound f there) [
      | inl old ↦ inl old
      | inr o ↦ inr (origin o (Memᴰ.append_cases states o.queued))
    ];
  }
    where
      step_from :
          {x u : ProgramState S}
          → Reach x u
          → x ≡ s
          → has_active_threads u ≡ false
          → Represented u results
      step_from here same finished = absurd (cc (ap has_active_threads same))
      step_from (next {t = t} {u = u} _ e' there path) same finished =
          let listed : Memᴰ t ts = subst (Memᴰ t) (cc (e, e', ap (expand m i) same)) there in
          rest.covers t u (Memᴰ.append_right states listed) path finished

      from_head :
          (u : ProgramState S) → Reach s u → has_active_threads u ≡ false → Represented u results
      from_head u path finished = step_from path refl finished

      origin :
          {f : ProgramState S} (o : Origin f (states ++ ts))
          → Memᴰ o.start states ⊎ Memᴰ o.start ts
          → Origin f (s ∷ states)
      origin o (inl before) = record {
        start = o.start;
        final = o.final;
        queued = Memᴰ.tail before;
        path = o.path;
        finished = o.finished;
        flushed = o.flushed;
      }
      origin o (inr new) = record {
        start = s;
        final = o.final;
        queued = Memᴰ.head refl;
        path = next active e new o.path;
        finished = o.finished;
        flushed = o.flushed;
      }

  added-kept :
      (f g : ProgramState S) (finals : List (ProgramState S))
      → Memᴰ g finals
      → Memᴰ g (added f finals)
  added-kept f g finals there = elim (Bool-cases (is_found f finals)) [
    | inl found ↦ rw found there
    | inr absent ↦ rw absent (Memᴰ.append_left (f ∷ []) there)
  ]

  added-cases :
      (f g : ProgramState S) (finals : List (ProgramState S))
      → Memᴰ g (added f finals)
      → Memᴰ g finals ⊎ (g ≡ f)
  added-cases f g finals there = elim (Bool-cases (is_found f finals)) [
    | inl found ↦ inl (rw found at there)
    | inr absent ↦ elim (Memᴰ.append_cases finals (rw absent at there)) [
      | inl old ↦ inl old
      | inr new ↦ inr (Memᴰ.eq_of_singleton new)
    ]
  ]

  added-Represented :
      (u f : ProgramState S) (finals : List (ProgramState S))
      → flush_state m i u ≡ ok f
      → Represented u (added f finals)
  added-Represented u f finals e = elim (Bool-cases (is_found f finals)) [
    | inl found ↦
        let (g, there, covers) = found-Covers f finals found in
        rw found (record {
          state = g;
          listed = there;
          alike = inr (record {
            within = λ t registers h.
                covers.within t registers
                  (subst (Memᴰ (t, registers)) (sym (finished-flush u f e)) h);
          });
        })
    | inr absent ↦
        rw absent
          (record { state = f; listed = Memᴰ.append_right finals (Memᴰ.head refl); alike = inl e })
  ]

  Explored-final :
      (s f : ProgramState S) (states finals results : List (ProgramState S))
      → has_active_threads s ≡ false
      → flush_state m i s ≡ ok f
      → Explored states (added f finals) results
      → Explored (s ∷ states) finals results
  Explored-final s f states finals results idle e rest = record {
    kept = λ g there. rest.kept g (added-kept f g finals there);
    covers = λ x u there path finished. elim (Memᴰ.cases_cons there) [
      | inl same ↦ at_head path same
      | inr behind ↦ rest.covers x u behind path finished
    ];
    sound = λ g there. elim (rest.sound g there) [
      | inl there' ↦ elim (added-cases f g finals there') [
        | inl old ↦ inl old
        | inr same ↦ inr (record {
          start = s;
          final = s;
          queued = Memᴰ.head refl;
          path = here;
          finished = idle;
          flushed = e ∙ ap ok (sym same);
        })
      ]
      | inr o ↦ inr (record {
        start = o.start;
        final = o.final;
        queued = Memᴰ.tail o.queued;
        path = o.path;
        finished = o.finished;
        flushed = o.flushed;
      })
    ];
  }
    where
      itself : (x : ProgramState S) → x ≡ s → Represented x results
      itself x same =
          let r = added-Represented x f finals (ap (flush_state m i) same ∙ e) in
          record { state = r.state; listed = rest.kept r.state r.listed; alike = r.alike }

      at_head : {x u : ProgramState S} → Reach x u → x ≡ s → Represented u results
      at_head (here {s = x}) same = itself x same
      at_head (next active _ _ _) same = absurd (cc (ap has_active_threads same))

  pub explored :
      (fuel : ℕ) (queue finals results : List (ProgramState S))
      → explore m i fuel queue finals ≡ some (ok results)
      → Explored queue finals results
  unfolding explore
  explored fuel [] finals results h = record {
    kept = λ f there. subst (Memᴰ f) (cc) there;
    covers = λ s u there path finished. absurd (Memᴰ.not-nil there);
    sound = λ f there. inl (subst (Memᴰ f) (cc) there);
  }
  explored zero (s ∷ states) finals results h = absurd (cc)
  explored (suc fuel) (s ∷ states) finals results h = elim (Bool-cases (has_active_threads s)) [
    | inl active ↦ elim (Result-cases (expand m i s)) [
      | inl (ts, e) ↦
          Explored-active s states ts finals results active e
            (explored fuel (states ++ ts) finals results (rw (active, e, explore) at h))
      | inr (d, e) ↦ absurd (cc (rw (active, e, explore) at h))
    ]
    | inr idle ↦ elim (Result-cases (flush_state m i s)) [
      | inl (f, e) ↦
          Explored-final s f states finals results idle e
            (explored fuel states (added f finals) results (rw (idle, e, explore) at h))
      | inr (d, e) ↦ absurd (cc (rw (idle, e, explore) at h))
    ]
  ]

  pub explored-Distinct :
      (fuel : ℕ) (queue finals results : List (ProgramState S))
      → explore m i fuel queue finals ≡ some (ok results)
      → Distinct finals
      → Distinct results
  unfolding explore
  explored-Distinct fuel [] finals results h distinct = subst Distinct (cc) distinct
  explored-Distinct zero (s ∷ states) finals results h distinct = absurd (cc)
  explored-Distinct (suc fuel) (s ∷ states) finals results h distinct =
      elim (Bool-cases (has_active_threads s)) [
        | inl active ↦ elim (Result-cases (expand m i s)) [
          | inl (ts, e) ↦
              explored-Distinct fuel (states ++ ts) finals results (rw (active, e, explore) at h)
                distinct
          | inr (d, e) ↦ absurd (cc (rw (active, e, explore) at h))
        ]
        | inr idle ↦ elim (Result-cases (flush_state m i s)) [
          | inl (f, e) ↦
              explored-Distinct fuel states (added f finals) results (rw (idle, e, explore) at h)
                (added-Distinct f finals distinct)
          | inr (d, e) ↦ absurd (cc (rw (idle, e, explore) at h))
        ]
      ]
