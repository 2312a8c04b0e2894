-- ===== src/Storage/Sra/Writes.antt =====
-- Writes under strong release acquire (sra-storage-subsystem.cpp), and what is read behind them.
use weak_memory_models_simul.Prelude.{
  ℕ, suc, ◌<◌, ◌≤◌, String, ◌&&◌, List, [], ◌∷◌, ◌++◌, Option, none, some, if◌then◌else◌, or_else,
  ◌==◌, nat_eq, string_eq, ◌≡◌, refl, ap, arith, eq_iff, All, Bool-cases, inl, inr,
}
use weak_memory_models_simul.Prelude.Result.{ok}
use weak_memory_models_simul.Prelude.Int.{ℤ}
use weak_memory_models_simul.Prelude.Map.{put, nat_less, string_less, lookup-put}
use weak_memory_models_simul.Lang.{MemoryOrder, is_release}
use weak_memory_models_simul.Storage.Sra.{
  Sra, Message, ThreadView, set_timestamp, thread_view, max_timestamp, find_message, write,
}
use weak_memory_models_simul.Storage.Sra.Views.{
  get_timestamp-set, get_timestamp-cons, Within, Within-mono, set_timestamp-Within, stamp,
  find_message-append,
}
use weak_memory_models_simul.Storage.Sra.Invariant.{
  limits, IsStamped, IsStamped-mono, IsValid, find_message-fresh, view-put, reached-put,
}

All-append {ℓ κ} :
    {A : Type ℓ} (P : A → Type κ) (xs : List A) (y : A) → All P xs → P y → All P (xs ++ y ∷ [])
All-append P [] y h p = (p, tt)
All-append P (x ∷ xs) y h p = (h.0, All-append P xs y h.1 p)

-- The parts of a write.
module _ (t : ℕ) (x : String) (v : ℤ) (o : MemoryOrder) (s : Sra) where
  abbrev pub next_stamp : ℕ
  next_stamp = suc (max_timestamp x s)

  abbrev pub next_view : ThreadView
  next_view = set_timestamp x next_stamp (thread_view t s)

  abbrev pub new_message : Message
  new_message = record {
    location = x;
    value = v;
    memory_order = o;
    view = if is_release o then next_view else (x, next_stamp) ∷ [];
  }

  abbrev pub written : Sra
  written = record {
    memory = s.memory ++ new_message ∷ [];
    thread_views = put t next_view s.thread_views;
    location_timestamps = put x next_stamp s.location_timestamps;
  }

  pub write-eq-written : write t x v o s ≡ ok written
  unfolding write
  write-eq-written = refl

  pub limits-written : (y : String) → limits written y ≡ (if x == y then next_stamp else limits s y)
  limits-written y = ground (arith, lookup-put x y next_stamp s.location_timestamps)

  pub limits_grow : (y : String) → limits s y ≤ limits written y
  limits_grow y = ground (arith, limits-written y, eq_iff x y)

  pub stamp-new_message : stamp new_message ≡ next_stamp
  stamp-new_message = ground (
    arith,
    get_timestamp-set x x next_stamp (thread_view t s),
    get_timestamp-cons x x next_stamp [],
    eq_iff x x,
  )

  pub thread_view-written :
      (u : ℕ) → thread_view u written ≡ (if t == u then next_view else thread_view u s)
  thread_view-written u = view-put t u next_view s.thread_views

  -- The new message is the one with its time stamp, and the others are found as before.
  pub find_message-written :
      IsValid s
      → (y : String) (n : ℕ)
      → find_message y n written.memory
        ≡ (if x == y && next_stamp == n then some new_message else find_message y n s.memory)
  find_message-written h y n = ground (
    arith,
    find_message-append y n s.memory new_message,
    stamp-new_message,
    eq_iff x y,
    find_message-fresh (limits s) y n s.memory h.stamped,
    ap (limits s),
    or_else-none (find_message y n s.memory),
  )
    where
      or_else-none : (p : Option Message) → or_else p none ≡ p
      or_else-none none = refl
      or_else-none (some m) = refl

  next_view-Within : IsValid s → Within (limits written) next_view
  next_view-Within h =
      set_timestamp-Within (limits written) x next_stamp (thread_view t s)
        (ground (arith, limits-written x, eq_iff x x))
        (Within-mono (limits s) (limits written) (thread_view t s) limits_grow (h.reached t))

  carried-written : IsValid s → Within (limits written) new_message.view
  carried-written h = elim (Bool-cases (is_release o)) [
    | inl released ↦ rw released (next_view-Within h)
    | inr plain ↦ rw plain (ground (arith, limits-written x, eq_iff x x), tt)
  ]

  pub written-IsValid : IsValid s → IsValid written
  written-IsValid h = record {
    stamped =
        All-append (IsStamped (limits written)) s.memory new_message
          (IsStamped-mono (limits s) (limits written) s.memory limits_grow h.stamped)
          (record {
            positive = ground (arith, stamp-new_message);
            stamp_le = ground (arith, stamp-new_message, limits-written x, eq_iff x x);
            carried = carried-written h;
          });
    complete = λ y n p q. rw (find_message-written h y n) (found y n p q);
    reached =
        reached-put (limits written) t next_view s.thread_views (next_view-Within h) (λ u.
          Within-mono (limits s) (limits written) (thread_view u s) limits_grow (h.reached u));
  }
    where
      found :
          (y : String) (n : ℕ)
          → 0 < n
          → n ≤ max_timestamp y written
          → (m : Message) × ((if x == y && next_stamp == n
                then some new_message
                else find_message y n s.memory)
              ≡ some m)
      found y n p q = elim (Bool-cases (x == y && next_stamp == n)) [
        | inl hit ↦ (new_message, rw hit)
        | inr miss ↦
            let (m, e) =
              h.complete y n p
                (ground (arith, limits-written y, eq_iff x y, miss, ap (limits s))) in
            (m, rw miss e)
      ]
