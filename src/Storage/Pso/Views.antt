-- ===== src/Storage/Pso/Views.antt =====
-- What each thread sees under partial store order (pso-storage-subsystem.cpp): the backs of its own
-- queues in front of the memory.
use weak_memory_models_simul.Prelude.{
  ℕ, String, List, [], ◌∷◌, ◌++◌, Option, none, some, if◌then◌else◌, or_else, get_or_default, ltb,
  ◌==◌, nat_eq, string_eq, ◌≡◌, ◌≢◌, refl, ◌∙◌, arith, eq_iff, Option-cases, get_last?,
  get_last?-append, count, inl, inr,
}
use weak_memory_models_simul.Prelude.Result.{ok}
use weak_memory_models_simul.Prelude.Int.{ℤ}
use weak_memory_models_simul.Prelude.Map.{
  keys, lookup, put, erase, nat_less, string_less, lookup-put, lookup-erase, HashOrder, count-keys,
}
use weak_memory_models_simul.Storage.Interface.{Memory}
use weak_memory_models_simul.Storage.Pso.{
  Pso, Buffer, back, buffered, flush_queues, flush_buffer, push_back,
}

-- the value that thread `t` sees at a location, if any was written
abbrev pub seen : ℕ → Pso → String → Option ℤ
seen t s x = or_else (buffered (lookup t s.store_buffers) x) (lookup x s.memory)

-- No queue of a thread is empty.
pub record HasValues (b : Buffer) : Type 0 where
  pub values : (x : String) → lookup x b ≢ some []

-- No thread has an entry without queues, and no queue is empty.
pub record IsValid (s : Pso) : Type 0 where
  pub nonempty : (t : ℕ) → lookup t s.store_buffers ≢ some []
  pub queues : (t : ℕ) (b : Buffer) → lookup t s.store_buffers ≡ some b → HasValues b

pub get_last?-some : (q : List ℤ) → some q ≢ some [] → (v : ℤ) × (get_last? q ≡ some v)
get_last?-some [] h = absurd (h refl)
get_last?-some (v ∷ []) h = (v, refl)
get_last?-some (v ∷ w ∷ q) h = get_last?-some (w ∷ q) (λ e. cc)

-- what the loop of `flush_buffer` makes of the memory, without its failures
pub drained : List String → Buffer → Memory → Memory
drained [] b m = m
drained (x ∷ xs) b m = drained xs b (elim (back b x) [ none ↦ m | some v ↦ put x v m ])

-- The loop does not meet an empty queue.
flush_queues-eq-drained :
    (xs : List String) (b : Buffer) (m : Memory)
    → HasValues b
    → flush_queues xs b m ≡ ok (drained xs b m)
unfolding flush_queues drained
flush_queues-eq-drained [] b m h = refl
flush_queues-eq-drained (x ∷ xs) b m h = elim (Option-cases (lookup x b)) [
  | inl e ↦ ground (arith, flush_queues-eq-drained xs b m h)
  | inr (q, e) ↦
      let (v, last) = get_last?-some q (λ z. h.values x (e ∙ z)) in
      ground (arith, last, flush_queues-eq-drained xs b (put x v m) h)
]

lookup-drained :
    (xs : List String) (b : Buffer) (m : Memory) (y : String)
    → lookup y (drained xs b m)
      ≡ (if ltb 0 (count y xs) then or_else (back b y) (lookup y m) else lookup y m)
unfolding drained count
lookup-drained [] b m y = refl
lookup-drained (x ∷ xs) b m y = elim (Option-cases (back b x)) [
  | inl e ↦ rw e (ground (arith, e, lookup-drained xs b m y, eq_iff x y))
  | inr (v, e) ↦
      rw e (ground (arith, e, lookup-drained xs b (put x v m) y, lookup-put x y v m, eq_iff x y))
]

lookup-drained_all :
    (names : HashOrder String) (b : Buffer) (m : Memory) (y : String)
    → lookup y (drained (names.order (keys b)) b m) ≡ or_else (back b y) (lookup y m)
lookup-drained_all names b m y = elim (Option-cases (lookup y b)) [
  | inl e ↦ ground (arith, lookup-drained (names.order (keys b)) b m y)
  | inr (q, e) ↦ ground (
    arith,
    lookup-drained (names.order (keys b)) b m y,
    names.order_count y (keys b),
    count-keys y q b e,
  )
]

-- The state behind `flush_buffer`, without its failures.
pub flushed : HashOrder String → ℕ → Pso → Pso
flushed names t s = elim (lookup t s.store_buffers) [
  | none ↦ s
  | some b ↦ record {
    memory = drained (names.order (keys b)) b s.memory;
    store_buffers = erase t s.store_buffers;
  }
]

pub flush_buffer-eq-flushed :
    (names : HashOrder String) (t : ℕ) (s : Pso)
    → IsValid s
    → flush_buffer names t s ≡ ok (flushed names t s)
unfolding flush_buffer flushed
flush_buffer-eq-flushed names t s h = elim (Option-cases (lookup t s.store_buffers)) [
  | inl e ↦ rw (e, flush_buffer, flushed)
  | inr (b, e) ↦
      ground (arith, flush_queues-eq-drained (names.order (keys b)) b s.memory (h.queues t b e))
]

pub buffers-flushed :
    (names : HashOrder String) (t u : ℕ) (s : Pso)
    → lookup u (flushed names t s).store_buffers
      ≡ (if t == u then none else lookup u s.store_buffers)
unfolding flushed
buffers-flushed names t u s = ground (arith, lookup-erase t u s.store_buffers)

-- A flush makes the memory what the thread saw.
pub memory-flushed :
    (names : HashOrder String) (t : ℕ) (s : Pso) (x : String)
    → lookup x (flushed names t s).memory ≡ seen t s x
unfolding flushed
memory-flushed names t s x = elim (Option-cases (lookup t s.store_buffers)) [
  | inl e ↦ rw (e, flushed)
  | inr (b, e) ↦ rw (e, flushed) (lookup-drained_all names b s.memory x)
]

pub flushed-IsValid :
    (names : HashOrder String) (t : ℕ) {s : Pso} → IsValid s → IsValid (flushed names t s)
flushed-IsValid names t {s} h = record {
  nonempty = λ u e. ground (arith, h.nonempty u, buffers-flushed names t u s);
  queues = λ u b e. h.queues u b (ground (arith, buffers-flushed names t u s));
}

-- the queues of thread `t` behind a write
abbrev pub pushed : ℕ → String → ℤ → Pso → Buffer
pushed t x v s =
    let b = get_or_default (lookup t s.store_buffers) [] in
    put x (get_or_default (lookup x b) [] ++ v ∷ []) b

pub buffers-push_back :
    (t u : ℕ) (x : String) (v : ℤ) (s : Pso)
    → lookup u (push_back t x v s).store_buffers
      ≡ (if t == u then some (pushed t x v s) else lookup u s.store_buffers)
unfolding push_back
buffers-push_back t u x v s = lookup-put t u (pushed t x v s) s.store_buffers

pub lookup-pushed :
    (t : ℕ) (x y : String) (v : ℤ) (s : Pso)
    → lookup y (pushed t x v s) ≡ (
        if x == y
        then some
            (get_or_default (lookup x (get_or_default (lookup t s.store_buffers) [])) [] ++ v ∷ [])
        else lookup y (get_or_default (lookup t s.store_buffers) []))
lookup-pushed t x y v s =
    let b = get_or_default (lookup t s.store_buffers) [] in
    lookup-put x y (get_or_default (lookup x b) [] ++ v ∷ []) b

lookup-default :
    (t : ℕ) (y : String) (s : Pso)
    → back (get_or_default (lookup t s.store_buffers) []) y ≡ buffered (lookup t s.store_buffers) y
lookup-default t y s = go (lookup t s.store_buffers)
  where
    go : (o : Option Buffer) → back (get_or_default o []) y ≡ buffered o y
    go none = unfold lookup in refl
    go (some b) = refl

back-pushed :
    (t : ℕ) (x y : String) (v : ℤ) (s : Pso)
    → back (pushed t x v s) y ≡ (if x == y then some v else buffered (lookup t s.store_buffers) y)
back-pushed t x y v s =
    let q = get_or_default (lookup x (get_or_default (lookup t s.store_buffers) [])) [] in
    ground (arith, lookup-pushed t x y v s, get_last?-append q v, lookup-default t y s)

-- A thread sees its own new write, and no other thread sees anything new.
pub seen-push_back :
    (t u : ℕ) (x y : String) (v : ℤ) (s : Pso)
    → seen u (push_back t x v s) y
      ≡ (if t == u then (if x == y then some v else seen t s y) else seen u s y)
seen-push_back t u x y v s =
    rw (buffers-push_back t u x v s) (unfold push_back in ground (arith, back-pushed t x y v s))
