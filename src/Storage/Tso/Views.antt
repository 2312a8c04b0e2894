-- ===== src/Storage/Tso/Views.antt =====
-- What each thread sees under total store order (tso-storage-subsystem.cpp): its own buffer in
-- front of the memory. Every operation is described by what it does to the views.
use mathlib.Core.List.{reverse-cons, reverse-append}
use weak_memory_models_simul.Prelude.{
  ℕ, String, [], ◌∷◌, ◌++◌, Option, none, some, reverse, if◌then◌else◌, or_else, ◌==◌, nat_eq,
  string_eq, ◌≡◌, refl, arith, Option-cases, inl, inr,
}
use weak_memory_models_simul.Prelude.Int.{ℤ}
use weak_memory_models_simul.Prelude.Map.{
  lookup, put, nat_less, string_less, lookup-put, lookup-erase, lookup-append,
}
use weak_memory_models_simul.Storage.Interface.{Memory}
use weak_memory_models_simul.Storage.Tso.{
  Tso, Buffer, newest, buffered, drain, flush_buffer, push_back,
}

-- the value that thread `t` sees at a location, if any was written
abbrev pub seen : ℕ → Tso → String → Option ℤ
seen t s x = or_else (buffered (lookup t s.store_buffers) x) (lookup x s.memory)

pub newest-cons :
    (x y : String) (v : ℤ) (q : Buffer)
    → newest y ((x, v) ∷ q) ≡ or_else (newest y q) (if x == y then some v else none)
unfolding lookup
newest-cons x y v q = rw reverse-cons (lookup-append y (reverse q) ((x, v) ∷ []))

pub newest-append :
    (x y : String) (v : ℤ) (q : Buffer)
    → newest y (q ++ (x, v) ∷ []) ≡ (if x == y then some v else newest y q)
unfolding lookup
newest-append x y v q = rw reverse-append refl

pub lookup-drain :
    (q : Buffer) (m : Memory) (x : String)
    → lookup x (drain q m) ≡ or_else (newest x q) (lookup x m)
unfolding drain
lookup-drain [] m x = unfold lookup in refl
lookup-drain ((y, v) ∷ q) m x =
    ground (arith, lookup-drain q (put y v m) x, lookup-put y x v m, newest-cons y x v q)

-- A flush empties the thread's buffer and no other.
pub buffers-flush_buffer :
    (t u : ℕ) (s : Tso)
    → lookup u (flush_buffer t s).store_buffers
      ≡ (if t == u then none else lookup u s.store_buffers)
unfolding flush_buffer
buffers-flush_buffer t u s = ground (arith, lookup-erase t u s.store_buffers)

-- A flush makes the memory what the thread saw.
pub memory-flush_buffer :
    (t : ℕ) (s : Tso) (x : String) → lookup x (flush_buffer t s).memory ≡ seen t s x
unfolding flush_buffer
memory-flush_buffer t s x = elim (Option-cases (lookup t s.store_buffers)) [
  | inl e ↦ rw (e, flush_buffer)
  | inr (q, e) ↦ rw (e, flush_buffer) (lookup-drain q s.memory x)
]

-- A thread sees its own new write, and no other thread sees anything new.
pub seen-push_back :
    (t u : ℕ) (x y : String) (v : ℤ) (s : Tso)
    → seen u (push_back t x v s) y
      ≡ (if t == u then (if x == y then some v else seen t s y) else seen u s y)
unfolding push_back
seen-push_back t u x y v s = elim (Option-cases (lookup t s.store_buffers)) [
  | inl e ↦ rw e (
      ground (
        arith,
        e,
        newest-append x y v [],
        lookup-put t u ([] ++ (x, v) ∷ []) s.store_buffers,
        newest-nil y,
      ))
  | inr (q, e) ↦
      rw e (
        ground (arith, e, newest-append x y v q, lookup-put t u (q ++ (x, v) ∷ []) s.store_buffers))
]
  where
    newest-nil : (y : String) → newest y [] ≡ none
    newest-nil y = unfold lookup in refl
