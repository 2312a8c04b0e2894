-- ===== src/Storage/Sra/Visibility.antt =====
-- What threads see of each other under strong release acquire (sra-storage-subsystem.cpp).
use weak_memory_models_simul.Prelude.{
  ℕ, ◌≤◌, String, true, false, none, some, if◌then◌else◌, ◌==◌, nat_eq, string_eq, ◌≡◌, ◌≢◌, ap,
  ◌∙◌, arith, eq_iff, Bool-cases, Option-cases, inl, inr, ◌⊎◌,
}
use weak_memory_models_simul.Prelude.Result.{ok}
use weak_memory_models_simul.Prelude.Int.{ℤ, pos}
use weak_memory_models_simul.Prelude.Map.{nat_less, string_less}
use weak_memory_models_simul.Lang.{MemoryOrder, is_acquire, is_release}
use weak_memory_models_simul.Storage.Sra.{
  Sra, Message, get_timestamp, thread_view, max_timestamp, find_message, join, read, write,
}
use weak_memory_models_simul.Storage.Sra.Views.{
  get_timestamp-set, le-join_old, le-join_new, get_timestamp-le,
}
use weak_memory_models_simul.Storage.Sra.Invariant.{limits, IsValid, view-put, read-IsValid}
use weak_memory_models_simul.Storage.Sra.Writes.{
  next_stamp, new_message, written, write-eq-written, limits-written, thread_view-written,
  find_message-written, written-IsValid,
}

-- A read of a message: its value, and the view behind it.
read-found :
    (t u : ℕ) (x : String) (o : MemoryOrder) (s : Sra) (m : Message)
    → find_message x (get_timestamp x (thread_view t s)) s.memory ≡ some m
    → ((read t x o s).0 ≡ m.value)
      × (thread_view u (read t x o s).1 ≡ (
          if t == u
          then (if is_acquire o then join m.view (thread_view t s) else thread_view t s)
          else thread_view u s))
unfolding read
read-found t u x o s m e =
    let view = if is_acquire o then join m.view (thread_view t s) else thread_view t s in
    (rw (e, read), rw (e, read) (view-put t u view s.thread_views))

read-missed :
    (t u : ℕ) (x : String) (o : MemoryOrder) (s : Sra)
    → find_message x (get_timestamp x (thread_view t s)) s.memory ≡ none
    → ((read t x o s).0 ≡ pos 0) × (thread_view u (read t x o s).1 ≡ thread_view u s)
unfolding read
read-missed t u x o s e =
    (rw (e, read), rw (e, read) (ground (arith, view-put t u (thread_view t s) s.thread_views)))

memory-read : (t : ℕ) (x : String) (o : MemoryOrder) (s : Sra) → (read t x o s).1.memory ≡ s.memory
unfolding read
memory-read t x o s = ground arith

-- From a valid state a write succeeds in every access mode and leaves a valid state. Its own thread
-- then reads the value at the location, and at the other locations what it read before.
pub write-IsValid_and_read :
    (t : ℕ) (x y : String) (v : ℤ) (o p : MemoryOrder) (s : Sra)
    → IsValid s
    → (s' : Sra) × (write t x v o s ≡ ok s')
      × IsValid s'
      × ((read t y p s').0 ≡ (if x == y then v else (read t y p s).0))
write-IsValid_and_read t x y v o p s h = (
  written t x v o s,
  write-eq-written t x v o s,
  written-IsValid t x v o s h,
  go (Bool-cases (x == y))
      (Option-cases (find_message y (get_timestamp y (thread_view t s)) s.memory)),
)
  where
    stamp_now :
        get_timestamp y (thread_view t (written t x v o s))
        ≡ (if x == y then next_stamp t x v o s else get_timestamp y (thread_view t s))
    stamp_now = ground (
      arith,
      thread_view-written t x v o s t,
      get_timestamp-set x y (next_stamp t x v o s) (thread_view t s),
    )

    found :
        find_message y
          (get_timestamp y (thread_view t (written t x v o s)))
          (written t x v o s).memory
        ≡ (if x == y
            then some (new_message t x v o s)
            else find_message y (get_timestamp y (thread_view t s)) s.memory)
    found = ground (
      arith,
      stamp_now,
      find_message-written t x v o s h y (get_timestamp y (thread_view t (written t x v o s))),
    )

    go :
        ((x == y) ≡ true) ⊎ ((x == y) ≡ false)
        → (find_message y (get_timestamp y (thread_view t s)) s.memory ≡ none)
          ⊎ ((m : Message) × (find_message y (get_timestamp y (thread_view t s)) s.memory ≡ some m))
        → (read t y p (written t x v o s)).0 ≡ (if x == y then v else (read t y p s).0)
    go (inl same) any =
        ground (arith, same, found, read-found t t y p (written t x v o s) (new_message t x v o s))
    go (inr other) (inl e) =
        ground
          (arith, other, found, e, read-missed t t y p (written t x v o s), read-missed t t y p s)
    go (inr other) (inr (m, e)) =
        ground
          (arith, other, found, e, read-found t t y p (written t x v o s) m, read-found t t y p s m)

-- A read never takes any thread's view back, and leaves the messages as they are.
pub read_monotone :
    (t u : ℕ) (x y : String) (o : MemoryOrder) (s : Sra)
    → (get_timestamp y (thread_view u s) ≤ get_timestamp y (thread_view u (read t x o s).1))
      × ((read t x o s).1.memory ≡ s.memory)
read_monotone t u x y o s =
    elim (Option-cases (find_message x (get_timestamp x (thread_view t s)) s.memory)) [
      | inl e ↦ (ground (arith, e, read-missed t u x o s), memory-read t x o s)
      | inr (m, e) ↦ (
        ground (arith, e, read-found t u x o s m, le-join_old m.view (thread_view t s) y),
        memory-read t x o s,
      )
    ]

limits-read :
    (t : ℕ) (x : String) (o : MemoryOrder) (s : Sra) (z : String)
    → limits (read t x o s).1 z ≡ limits s z
unfolding read
limits-read t x o s z = ground arith

-- The two writes of message passing, and a thread that has reached the flag.
module _ (t u : ℕ) (x y : String) (v w : ℤ) (o q p p' : MemoryOrder) (s s' : Sra) (h : IsValid s)
    (apart : x ≢ y) (released : is_release q ≡ true) (acquired : is_acquire p ≡ true)
    (h' : IsValid s') where
  abbrev after_data : Sra
  after_data = written t x v o s

  abbrev after_flag : Sra
  after_flag = written t y w q after_data

  abbrev flag : Message
  flag = new_message t y w q after_data

  abbrev acquiring : Sra
  acquiring = (read u y p s').1

  data-IsValid : IsValid after_data
  data-IsValid = written-IsValid t x v o s h

  -- The flag carries the time stamp of the data.
  flag_carries : get_timestamp x flag.view ≡ next_stamp t x v o s
  flag_carries = ground (
    arith,
    released,
    eq_iff y x,
    eq_iff x x,
    apart,
    thread_view-written t x v o s t,
    get_timestamp-set y x (next_stamp t y w q after_data) (thread_view t after_data),
    get_timestamp-set x x (next_stamp t x v o s) (thread_view t s),
  )

  data_limit : limits after_flag x ≡ next_stamp t x v o s
  data_limit = ground (
    arith,
    limits-written t y w q after_data x,
    limits-written t x v o s x,
    eq_iff y x,
    eq_iff x x,
    apart,
  )

  module _ (mem : s'.memory ≡ after_flag.memory)
      (lim : (z : String) → max_timestamp z s' ≡ max_timestamp z after_flag)
      (at_flag : get_timestamp y (thread_view u s') ≡ max_timestamp y after_flag) where
    finds_flag : find_message y (get_timestamp y (thread_view u s')) s'.memory ≡ some flag
    finds_flag =
        rw (mem, at_flag)
          (ground (
            arith,
            find_message-written t y w q after_data data-IsValid y (max_timestamp y after_flag),
            limits-written t y w q after_data y,
            eq_iff y y,
          ))

    view_behind : thread_view u acquiring ≡ join flag.view (thread_view u s')
    view_behind = ground (arith, read-found u u y p s' flag finds_flag, acquired)

    reaches_data : get_timestamp x (thread_view u acquiring) ≡ next_stamp t x v o s
    reaches_data = omega (
      arith,
      flag_carries,
      data_limit,
      lim x,
      limits-read u y p s' x,
      le-join_new flag.view (thread_view u s') x,
      ap (get_timestamp x) view_behind,
      get_timestamp-le (limits acquiring) (thread_view u acquiring) x
          ((read-IsValid u y p s' h').reached u),
    )

    finds_data :
        find_message x (get_timestamp x (thread_view u acquiring)) acquiring.memory
        ≡ some (new_message t x v o s)
    finds_data =
        rw (reaches_data, memory-read u y p s', mem)
          (ground (
            arith,
            find_message-written t y w q after_data data-IsValid x (next_stamp t x v o s),
            find_message-written t x v o s h x (next_stamp t x v o s),
            eq_iff y x,
            eq_iff x x,
            apart,
          ))

    passes : ((read u y p s').0 ≡ w) × ((read u x p' acquiring).0 ≡ v)
    passes = (
      (read-found u u y p s' flag finds_flag).0,
      (read-found u u x p' acquiring (new_message t x v o s) finds_data).0,
    )

-- Message passing: thread `t` writes data and then, with release, a flag at another location. If
-- thread `u` has reached the flag, its acquiring read returns the flag's value, and its next read of
-- the data, in any access mode, returns the data written.
pub message_passing :
    (t u : ℕ) (x y : String) (v w : ℤ) (o q p p' : MemoryOrder) (s s₁ s₂ s' : Sra)
    → IsValid s
    → x ≢ y
    → is_release q ≡ true
    → is_acquire p ≡ true
    → write t x v o s ≡ ok s₁
    → write t y w q s₁ ≡ ok s₂
    → IsValid s'
    → s'.memory ≡ s₂.memory
    → ((z : String) → max_timestamp z s' ≡ max_timestamp z s₂)
    → get_timestamp y (thread_view u s') ≡ max_timestamp y s₂
    → ((read u y p s').0 ≡ w) × ((read u x p' (read u y p s').1).0 ≡ v)
message_passing t u x y v w o q p p' s s₁ s₂ s' h apart released acquired e₁ e₂ h' mem lim at_flag =
    let a : s₁ ≡ written t x v o s = cc (e₁, write-eq-written t x v o s) in
    let b : s₂ ≡ written t y w q (written t x v o s) = cc (a, e₂, write-eq-written t y w q s₁) in
    passes t u x y v w o q p p' s s' h apart released acquired h' (mem ∙ ap (λ z. z.memory) b)
      (λ z. lim z ∙ ap (max_timestamp z) b) (at_flag ∙ ap (max_timestamp y) b)
