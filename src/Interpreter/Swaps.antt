-- ===== src/Interpreter/Swaps.antt =====
-- Two compare-and-swaps (interpreter.cpp) under total store order.
use weak_memory_models_simul.Prelude.{
  ℕ, String, ◌&&◌, none, ◌≡◌, ◌≢◌, sym, ap, ◌∙◌, arith, nat_eq, string_eq, get_or_default,
  if◌then◌else◌, Bool-cases, inl, inr, ◌==◌,
}
use weak_memory_models_simul.Prelude.Result.{ok, >>=-eq-ok, ok_injective}
use weak_memory_models_simul.Prelude.Int.{ℤ, pos, int_eq}
use weak_memory_models_simul.Prelude.Map.{lookup, nat_less, HashOrder}
use weak_memory_models_simul.Lang.{is_seq_cst}
use weak_memory_models_simul.Ast.{CasNode}
use weak_memory_models_simul.Storage.Interface.{StorageSubsystem, value_at}
use weak_memory_models_simul.Storage.Tso
use weak_memory_models_simul.Storage.Tso.{Tso, tso, buffered, flush_buffer}
use weak_memory_models_simul.Storage.Tso.Views.{seen, buffers-flush_buffer, memory-flush_buffer}
use weak_memory_models_simul.State.{ProgramState}
use weak_memory_models_simul.Interpreter.{Interpreter, register, visit_cas}
use weak_memory_models_simul.Interpreter.Instructions.{flushed_read, drained_read, seen-write}

module _ {S : Type 0} (m : StorageSubsystem S) (i : Interpreter) where
  -- What a compare-and-swap that does not throw has done.
  record Swapped (n : CasNode) (s s' : ProgramState S) : Type 0 where
    expected : ℤ
    desired : ℤ
    flushed : S
    expects : register m i n.register_expected s ≡ ok expected
    desires : register m i n.register_desired s ≡ ok desired
    flushes : m.flush_thread s.current_thread_id s.storage ≡ ok flushed
    value :
        s'.last_evaluated_value
        ≡ (m.read s.current_thread_id n.location_name n.memory_order flushed).0
    stores :
        (let behind = (m.read s.current_thread_id n.location_name n.memory_order flushed).1 in
          if s'.last_evaluated_value == expected
          then m.write s.current_thread_id n.location_name desired n.memory_order behind
          else ok behind)
        ≡ ok s'.storage

  visit_cas-Swapped :
      (n : CasNode) (s s' : ProgramState S) → visit_cas m i n s ≡ ok s' → Swapped n s s'
  unfolding visit_cas
  visit_cas-Swapped n s s' h =
      let (expected, expects, h₁) = >>=-eq-ok (register m i n.register_expected s) _ h in
      let (desired, desires, h₂) = >>=-eq-ok (register m i n.register_desired s) _ h₁ in
      let (flushed, flushes, h₃) = >>=-eq-ok (m.flush_thread s.current_thread_id s.storage) _ h₂ in
      let (actual, behind) = m.read s.current_thread_id n.location_name n.memory_order flushed in
      let (storage, stores, h₄) =
        >>=-eq-ok
          (if actual == expected
            then m.write s.current_thread_id n.location_name desired n.memory_order behind
            else ok behind)
          _ h₃ in
      let value : s'.last_evaluated_value
          ≡ (m.read s.current_thread_id n.location_name n.memory_order flushed).0 =
        cc (h₄) in
      let stored : storage ≡ s'.storage = cc (h₄) in
      record {
        expected = expected;
        desired = desired;
        flushed = flushed;
        expects = expects;
        desires = desires;
        flushes = flushes;
        value = value;
        stores = rw value (stores ∙ ap ok stored);
      }

-- What a thread sees behind the flush of another one's empty buffer.
seen-flushed :
    (t u : ℕ) (x : String) (s : Tso)
    → ((t : ℕ) → lookup t s.store_buffers ≡ none)
    → seen u (flush_buffer t s) x ≡ lookup x s.memory
seen-flushed t u x s drained =
    ground (arith, buffers-flush_buffer t u s, memory-flush_buffer t s x, drained t, drained u)

-- Two compare-and-swaps by different threads at one location, with nothing buffered before them.
module _ (h : HashOrder ℕ) (i : Interpreter) (n k : CasNode) (u : ℕ) (s s₁ s₂ : ProgramState Tso)
    (drained : (t : ℕ) → lookup t s.storage.store_buffers ≡ none)
    (same : n.location_name ≡ k.location_name) (apart : s.current_thread_id ≢ u)
    (e₁ : visit_cas (tso h) i n s ≡ ok s₁)
    (e₂ : visit_cas (tso h) i k (record s₁ { current_thread_id = u }) ≡ ok s₂) where
  first : Swapped (tso h) i n s s₁
  first = visit_cas-Swapped (tso h) i n s s₁ e₁

  second : Swapped (tso h) i k (record s₁ { current_thread_id = u }) s₂
  second = visit_cas-Swapped (tso h) i k (record s₁ { current_thread_id = u }) s₂ e₂

  flushed₁ : flush_buffer s.current_thread_id s.storage ≡ first.flushed
  flushed₁ = cc (first.flushes)

  flushed₂ : flush_buffer u s₁.storage ≡ second.flushed
  flushed₂ = cc (second.flushes)

  -- what the first one leaves behind, from the flushed state
  left :
      (if s₁.last_evaluated_value == first.expected
        then Tso.write s.current_thread_id n.location_name first.desired n.memory_order
            (flush_buffer s.current_thread_id s.storage)
        else ok (flush_buffer s.current_thread_id s.storage))
      ≡ ok s₁.storage
  left = rw flushed₁ (first_stores)
    where
      first_stores :
          (if s₁.last_evaluated_value == first.expected
            then Tso.write s.current_thread_id n.location_name first.desired n.memory_order
                first.flushed
            else ok first.flushed)
          ≡ ok s₁.storage
      first_stores = unfold Tso.read in first.stores

  first_value : s₁.last_evaluated_value ≡ value_at n.location_name s.storage.memory
  first_value =
      first.value
      ∙ ap (λ f. (Tso.read s.current_thread_id n.location_name n.memory_order f).0) (sym flushed₁)
      ∙ drained_read s.current_thread_id n.location_name n.memory_order s.storage
          (drained s.current_thread_id)

  second_value :
      s₂.last_evaluated_value ≡ get_or_default (seen u s₁.storage n.location_name) (pos 0)
  second_value =
      second.value
      ∙ ap (λ f. (Tso.read u k.location_name k.memory_order f).0) (sym flushed₂)
      ∙ flushed_read u k.location_name k.memory_order s₁.storage
      ∙ ap (λ z. get_or_default (seen u s₁.storage z) (pos 0)) (sym same)

  -- Of two compare-and-swaps under total store order, by different threads at one location, with
  -- nothing buffered before them, the second finds the desired value of the first where this one is
  -- sequentially consistent and found the value that it expects. In every other case the second finds
  -- what the first found: so where they are not sequentially consistent and expect the same value,
  -- both succeed or both fail.
  pub cas_twice :
      (expected desired : ℤ) × (register (tso h) i n.register_expected s ≡ ok expected)
      × (register (tso h) i n.register_desired s ≡ ok desired)
      × (s₂.last_evaluated_value ≡ (
          if s₁.last_evaluated_value == expected && is_seq_cst n.memory_order
          then desired
          else s₁.last_evaluated_value))
  cas_twice = (first.expected, first.desired, first.expects, first.desires, found)
    where
      found : s₂.last_evaluated_value ≡ (
          if s₁.last_evaluated_value == first.expected && is_seq_cst n.memory_order
          then first.desired
          else s₁.last_evaluated_value)
      found = elim (Bool-cases (s₁.last_evaluated_value == first.expected)) [
        | inl hit ↦
            let sees =
              seen-write s.current_thread_id u n.location_name first.desired n.memory_order
                s.storage s₁.storage drained apart (rw hit at left) in
            elim (Bool-cases (is_seq_cst n.memory_order)) [
              | inl strong ↦
                  rw (hit, strong)
                    (second_value ∙ ap (λ z. get_or_default z (pos 0)) (rw strong at sees))
              | inr weak ↦
                  rw (hit, weak)
                    (second_value
                      ∙ ap (λ z. get_or_default z (pos 0)) (rw weak at sees)
                      ∙ sym first_value)
            ]
        | inr miss ↦
            let flushed = ok_injective (rw miss at left) in
            rw miss (
              second_value
              ∙ ap (λ f. get_or_default (seen u f n.location_name) (pos 0)) (sym flushed)
              ∙ ap (λ z. get_or_default z (pos 0))
                  (seen-flushed s.current_thread_id u n.location_name s.storage drained)
              ∙ sym first_value)
      ]
