-- ===== src/Interpreter/Instructions.antt =====
-- Single instructions (interpreter.cpp): arithmetic, and fetch-and-increment over total store order.
use weak_memory_models_simul.Prelude.{
  ℕ, String, [], ◌∷◌, ◌++◌, true, false, Option, none, some, ◌==◌, ◌≡◌, ◌≢◌, sym, ap, ◌∙◌, arith,
  eq_iff, nat_eq, string_eq, or_else, get_or_default, if◌then◌else◌, Bool-cases, inl, inr,
}
use weak_memory_models_simul.Prelude.Result.{ok, err, >>=-eq-ok}
use weak_memory_models_simul.Exceptions.{Error, undefined_behaviour}
use weak_memory_models_simul.Prelude.Int.{ℤ, pos, int_eq, ◌+ℤ◌, ◌-ℤ◌, ◌*ℤ◌, quot, checked}
use weak_memory_models_simul.Prelude.Map.{lookup, nat_less, HashOrder, lookup-put}
use weak_memory_models_simul.Lang.{MemoryOrder, is_seq_cst}
use weak_memory_models_simul.Ast.{FaiNode, BinOpType}
use weak_memory_models_simul.Storage.Interface.{StorageSubsystem, value_at}
use weak_memory_models_simul.Storage.Tso
use weak_memory_models_simul.Storage.Tso.{Tso, tso, buffered, flush_buffer, push_back}
use weak_memory_models_simul.Storage.Tso.Views.{
  seen, buffers-flush_buffer, memory-flush_buffer, seen-push_back,
}
use weak_memory_models_simul.State.{ProgramState}
use weak_memory_models_simul.Interpreter.{Interpreter, register, defined, apply, visit_fai}

defined_undefined : (o : Option ℤ) (x : Error) → defined o ≡ err x → x ≡ undefined_behaviour
unfolding defined
defined_undefined none x h = cc
defined_undefined (some v) x h = absurd (cc)

-- An operation on two registers that does not succeed is undefined.
pub apply_undefined :
    (op : BinOpType) (a b : ℤ) (x : Error) → apply op a b ≡ err x → x ≡ undefined_behaviour
unfolding apply
apply_undefined BinOpType.plus a b x h = defined_undefined (checked (a +ℤ b)) x h
apply_undefined BinOpType.minus a b x h = defined_undefined (checked (a -ℤ b)) x h
apply_undefined BinOpType.mult a b x h = defined_undefined (checked (a *ℤ b)) x h
apply_undefined BinOpType.div a b x h = elim (Bool-cases (b == pos 0)) [
  | inl zero_divisor ↦ cc (rw zero_divisor at h)
  | inr other ↦ defined_undefined (checked (quot a b)) x (rw other at h)
]

module _ {S : Type 0} (m : StorageSubsystem S) (i : Interpreter) where
  -- What a fetch-and-increment that succeeds has done.
  pub record Fetched (n : FaiNode) (s s' : ProgramState S) : Type 0 where
    pub increment : ℤ
    pub flushed : S
    pub sum : ℤ
    pub given : register m i n.register_name s ≡ ok increment
    pub flushes : m.flush_thread s.current_thread_id s.storage ≡ ok flushed
    pub value :
        s'.last_evaluated_value
        ≡ (m.read s.current_thread_id n.location_name n.memory_order flushed).0
    pub adds : apply BinOpType.plus s'.last_evaluated_value increment ≡ ok sum
    pub writes :
        m.write s.current_thread_id n.location_name sum n.memory_order
          (m.read s.current_thread_id n.location_name n.memory_order flushed).1
        ≡ ok s'.storage

  visit_fai-Fetched :
      (n : FaiNode) (s s' : ProgramState S) → visit_fai m i n s ≡ ok s' → Fetched n s s'
  unfolding visit_fai
  visit_fai-Fetched n s s' h =
      let (increment, given, h₁) = >>=-eq-ok (register m i n.register_name s) _ h in
      let (flushed, flushes, h₂) = >>=-eq-ok (m.flush_thread s.current_thread_id s.storage) _ h₁ in
      let (sum, adds, h₃) = >>=-eq-ok (apply BinOpType.plus _ increment) _ h₂ in
      let (storage, writes, h₄) = >>=-eq-ok (m.write s.current_thread_id _ sum _ _) _ h₃ in
      let value : s'.last_evaluated_value
          ≡ (m.read s.current_thread_id n.location_name n.memory_order flushed).0 =
        cc (h₄) in
      let stored : storage ≡ s'.storage = cc (h₄) in
      record {
        increment = increment;
        flushed = flushed;
        sum = sum;
        given = given;
        flushes = flushes;
        value = value;
        adds = rw value adds;
        writes = writes ∙ ap ok stored;
      }

-- What a thread reads right after the flush of its buffer.
pub flushed_read :
    (t : ℕ) (x : String) (o : MemoryOrder) (s : Tso)
    → (Tso.read t x o (flush_buffer t s)).0 ≡ get_or_default (seen t s x) (pos 0)
unfolding Tso.read
flushed_read t x o s = ground (arith, buffers-flush_buffer t t s, memory-flush_buffer t s x)

-- With nothing buffered before the flush, it reads the memory.
pub drained_read :
    (t : ℕ) (x : String) (o : MemoryOrder) (s : Tso)
    → lookup t s.store_buffers ≡ none
    → (Tso.read t x o (flush_buffer t s)).0 ≡ value_at x s.memory
drained_read t x o s drained =
    flushed_read t x o s
    ∙ ap (λ b. get_or_default (or_else (buffered b x) (lookup x s.memory)) (pos 0)) drained

-- What another thread sees behind a write, where nothing is buffered before it.
pub seen-write :
    (t u : ℕ) (x : String) (v : ℤ) (o : MemoryOrder) (s s' : Tso)
    → ((t : ℕ) → lookup t s.store_buffers ≡ none)
    → t ≢ u
    → Tso.write t x v o (flush_buffer t s) ≡ ok s'
    → seen u s' x ≡ (if is_seq_cst o then some v else lookup x s.memory)
unfolding Tso.write
seen-write t u x v o s s' drained apart e =
    let f = flush_buffer t s in
    let p = push_back t x v f in
    let none_at_u : lookup u f.store_buffers ≡ none =
      ground (arith, buffers-flush_buffer t u s, drained u) in
    let memory : lookup x f.memory ≡ lookup x s.memory =
      ground (arith, memory-flush_buffer t s x, drained t) in
    elim (Bool-cases (is_seq_cst o)) [
      | inl strong ↦ ground (
        arith,
        strong,
        buffers-flush_buffer t u p,
        memory-flush_buffer t p x,
        seen-push_back t t x x v f,
        eq_iff x x,
        others v f,
        none_at_u,
      )
      | inr weak ↦ ground (arith, weak, seen-push_back t u x x v f, none_at_u, memory)
    ]
  where
    others :
        (v : ℤ) (f : Tso) → lookup u (push_back t x v f).store_buffers ≡ lookup u f.store_buffers
    others v f =
        unfold push_back in
        ground (
          arith,
          lookup-put t u (get_or_default (lookup t f.store_buffers) [] ++ (x, v) ∷ [])
              f.store_buffers,
        )

-- Two fetch-and-increments by different threads at one location, with nothing buffered before them.
module _ (h : HashOrder ℕ) (i : Interpreter) (n k : FaiNode) (u : ℕ) (s s₁ s₂ : ProgramState Tso)
    (drained : (t : ℕ) → lookup t s.storage.store_buffers ≡ none)
    (same : n.location_name ≡ k.location_name) (apart : s.current_thread_id ≢ u)
    (e₁ : visit_fai (tso h) i n s ≡ ok s₁)
    (e₂ : visit_fai (tso h) i k (record s₁ { current_thread_id = u }) ≡ ok s₂) where
  first : Fetched (tso h) i n s s₁
  first = visit_fai-Fetched (tso h) i n s s₁ e₁

  second : Fetched (tso h) i k (record s₁ { current_thread_id = u }) s₂
  second = visit_fai-Fetched (tso h) i k (record s₁ { current_thread_id = u }) s₂ e₂

  flushed₁ : flush_buffer s.current_thread_id s.storage ≡ first.flushed
  flushed₁ = cc (first.flushes)

  flushed₂ : flush_buffer u s₁.storage ≡ second.flushed
  flushed₂ = cc (second.flushes)

  first_value : s₁.last_evaluated_value ≡ value_at n.location_name s.storage.memory
  first_value =
      first.value
      ∙ ap (λ f. (Tso.read s.current_thread_id n.location_name n.memory_order f).0) (sym flushed₁)
      ∙ drained_read s.current_thread_id n.location_name n.memory_order s.storage
          (drained s.current_thread_id)

  written :
      Tso.write s.current_thread_id n.location_name first.sum n.memory_order
        (flush_buffer s.current_thread_id s.storage)
      ≡ ok s₁.storage
  written = rw flushed₁ (first_writes)
    where
      first_writes :
          Tso.write s.current_thread_id n.location_name first.sum n.memory_order first.flushed
          ≡ ok s₁.storage
      first_writes = unfold Tso.read in first.writes

  second_value :
      s₂.last_evaluated_value
      ≡ get_or_default
          (if is_seq_cst n.memory_order
            then some first.sum
            else lookup n.location_name s.storage.memory)
          (pos 0)
  second_value =
      second.value
      ∙ ap (λ f. (Tso.read u k.location_name k.memory_order f).0) (sym flushed₂)
      ∙ flushed_read u k.location_name k.memory_order s₁.storage
      ∙ ap (λ z. get_or_default (seen u s₁.storage z) (pos 0)) (sym same)
      ∙ ap (λ z. get_or_default z (pos 0))
          (seen-write s.current_thread_id u n.location_name first.sum n.memory_order s.storage
            s₁.storage drained apart written)

  -- Under total store order a fetch-and-increment that is not sequentially consistent is not atomic:
  -- of two by different threads at one location, with nothing buffered before them, the second
  -- returns the same value as the first, whatever the increments: it has lost the first increment.
  pub fai_not_atomic :
      is_seq_cst n.memory_order ≡ false → s₂.last_evaluated_value ≡ s₁.last_evaluated_value
  fai_not_atomic weak = rw (second_value, first_value, weak)

  -- Under total store order, a sequentially consistent fetch-and-increment is atomic: of two by
  -- different threads at one location, with nothing buffered before them, the second returns the
  -- sum of the value that the first returned and the first's increment.
  pub fai_atomic :
      is_seq_cst n.memory_order ≡ true
      → (increment : ℤ) × (register (tso h) i n.register_name s ≡ ok increment)
        × (apply BinOpType.plus s₁.last_evaluated_value increment ≡ ok s₂.last_evaluated_value)
  fai_atomic strong = (first.increment, first.given, rw (second_value, strong) first.adds)
