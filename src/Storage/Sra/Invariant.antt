-- ===== src/Storage/Sra/Invariant.antt =====
-- The invariant of strong release acquire (sra-storage-subsystem.cpp): the messages of a location
-- bear the time stamps from 1 to the last one, and no view is ahead of the last one.
use weak_memory_models_simul.Prelude.{
  ℕ, ◌<◌, ◌≤◌, ◌+◌, String, ◌&&◌, List, [], ◌∷◌, Option, none, some, if◌then◌else◌, get_or_default,
  ◌==◌, ltb, nat_eq, string_eq, ◌≡◌, refl, ap, arith, eq_iff, All, Bool-cases, Option-cases, inl,
  inr,
}
use weak_memory_models_simul.Prelude.Map.{Map, lookup, put, nat_less, string_less, lookup-put}
use weak_memory_models_simul.Lang.{MemoryOrder, is_acquire}
use mathlib.Core.Path.{subst}
use weak_memory_models_simul.Storage.Sra.{
  Sra, Message, ThreadView, get_timestamp, thread_view, max_timestamp, find_message, join, read,
  increase_location_local_timestamp, prepare_thread,
}
use weak_memory_models_simul.Storage.Sra.Views.{
  Within, Within-mono, set_timestamp-Within, join-Within, stamp,
}

-- the last time stamp of each location
abbrev pub limits : Sra → String → ℕ
limits s x = max_timestamp x s

pub record IsStamped (bound : String → ℕ) (m : Message) : Type 0 where
  pub positive : 0 < stamp m
  pub stamp_le : stamp m ≤ bound m.location
  pub carried : Within bound m.view

pub record IsValid (s : Sra) : Type 0 where
  pub stamped : All (IsStamped (limits s)) s.memory
  pub complete :
      (x : String) (n : ℕ)
      → 0 < n
      → n ≤ max_timestamp x s
      → (m : Message) × (find_message x n s.memory ≡ some m)
  pub reached : (t : ℕ) → Within (limits s) (thread_view t s)

pub IsStamped-mono :
    (f g : String → ℕ) (ms : List Message)
    → ((x : String) → f x ≤ g x)
    → All (IsStamped f) ms
    → All (IsStamped g) ms
IsStamped-mono f g [] le h = tt
IsStamped-mono f g (m ∷ ms) le h = (
  record {
    positive = h.0.positive;
    stamp_le = omega (arith, le m.location, h.0.stamp_le);
    carried = Within-mono f g m.view le h.0.carried;
  },
  IsStamped-mono f g ms le h.1,
)

-- A message that is found is stamped within the limits.
pub find_message-IsStamped :
    (bound : String → ℕ) (x : String) (n : ℕ) (ms : List Message) (m : Message)
    → All (IsStamped bound) ms
    → find_message x n ms ≡ some m
    → IsStamped bound m
unfolding find_message
find_message-IsStamped bound x n [] m h e = cc
find_message-IsStamped bound x n (k ∷ ms) m h e =
    elim (Bool-cases (k.location == x && stamp k == n)) [
      | inl hit ↦ let same : some k ≡ some m = rw hit at e in some_eq same h.0
      | inr miss ↦ find_message-IsStamped bound x n ms m h.1 (rw miss at e)
    ]
  where
    some_eq : {k m : Message} → some k ≡ some m → IsStamped bound k → IsStamped bound m
    some_eq p q = subst (IsStamped bound) (cc) q

-- No message of a valid state has a time stamp above the last one.
pub find_message-fresh :
    (bound : String → ℕ) (x : String) (n : ℕ) (ms : List Message)
    → All (IsStamped bound) ms
    → bound x < n
    → find_message x n ms ≡ none
unfolding find_message
find_message-fresh bound x n [] h lt = refl
find_message-fresh bound x n (k ∷ ms) h lt =
    ground (arith, find_message-fresh bound x n ms h.1, eq_iff k.location x, h.0.stamp_le, ap bound)

-- The views behind `m_thread_views[thread_id] = view`.
pub view-put :
    (t u : ℕ) (view : ThreadView) (views : Map ℕ ThreadView)
    → get_or_default (lookup u (put t view views)) []
      ≡ (if t == u then view else get_or_default (lookup u views) [])
view-put t u view views = ground (arith, lookup-put t u view views)

pub reached-put :
    (bound : String → ℕ) (t : ℕ) (view : ThreadView) (views : Map ℕ ThreadView)
    → Within bound view
    → ((u : ℕ) → Within bound (get_or_default (lookup u views) []))
    → (u : ℕ) → Within bound (get_or_default (lookup u (put t view views)) [])
reached-put bound t view views w h u = elim (Bool-cases (t == u)) [
  | inl same ↦ rw (view-put t u view views, same) w
  | inr other ↦ rw (view-put t u view views, other) (h u)
]

-- Only the views have changed.
views-IsValid :
    (s s' : Sra)
    → IsValid s
    → s'.memory ≡ s.memory
    → ((x : String) → max_timestamp x s' ≡ max_timestamp x s)
    → ((u : ℕ) → Within (limits s) (thread_view u s'))
    → IsValid s'
views-IsValid s s' h e limit views = record {
  stamped =
      rw e (IsStamped-mono (limits s) (limits s') s.memory (λ x. omega (arith, limit x)) h.stamped);
  complete = λ x n p q. rw e (h.complete x n p (omega (arith, limit x)));
  reached = λ u. Within-mono (limits s) (limits s') _ (λ x. omega (arith, limit x)) (views u);
}

-- A read keeps the invariant, in every access mode.
pub read-IsValid :
    (t : ℕ) (x : String) (o : MemoryOrder) (s : Sra) → IsValid s → IsValid (read t x o s).1
unfolding read
read-IsValid t x o s h = go (find_message x (get_timestamp x view) s.memory) refl
  where
    view : ThreadView
    view = thread_view t s

    joined :
        (m : Message)
        → find_message x (get_timestamp x view) s.memory ≡ some m
        → Within (limits s) (if is_acquire o then join m.view view else view)
    joined m e = elim (Bool-cases (is_acquire o)) [
      | inl acquires ↦ rw acquires (
          join-Within (limits s) m.view view
            (find_message-IsStamped (limits s) x (get_timestamp x view) s.memory m h.stamped
              e).carried
            (h.reached t))
      | inr plain ↦ rw plain (h.reached t)
    ]

    go :
        (o' : Option Message)
        → find_message x (get_timestamp x view) s.memory ≡ o'
        → IsValid (read t x o s).1
    go none e =
        rw (e, read)
          (views-IsValid s _ h refl (λ y. refl)
            (reached-put (limits s) t view s.thread_views (h.reached t) h.reached))
    go (some m) e =
        rw (e, read)
          (views-IsValid s _ h refl (λ y. refl)
            (reached-put (limits s) t _ s.thread_views (joined m e) h.reached))

-- An eps-transition keeps the invariant: no view gets ahead of the last time stamp.
pub increase-IsValid :
    (t : ℕ) (x : String) (s : Sra) → IsValid s → IsValid (increase_location_local_timestamp t x s)
unfolding increase_location_local_timestamp
increase-IsValid t x s h =
    let prev = get_timestamp x (thread_view t s) in
    elim (Bool-cases (ltb prev (max_timestamp x s))) [
      | inl behind ↦ rw behind (
          views-IsValid s _ h refl limit (
            reached-put (limits s) t _ s.thread_views
              (set_timestamp-Within (limits s) x (prev + 1) (thread_view t s) (ground arith)
                (h.reached t))
              h.reached))
      | inr level ↦ rw level (
          views-IsValid s _ h refl limit
            (reached-put (limits s) t _ s.thread_views (h.reached t) h.reached))
    ]
  where
    limit :
        (y : String)
        → get_or_default (lookup y (put x (max_timestamp x s) s.location_timestamps)) 0
          ≡ max_timestamp y s
    limit y = ground (arith, lookup-put x y (max_timestamp x s) s.location_timestamps, eq_iff x y)

pub prepare_thread-IsValid : (t : ℕ) (s : Sra) → IsValid s → IsValid (prepare_thread t s)
unfolding prepare_thread
prepare_thread-IsValid t s h = elim (Option-cases (lookup t s.thread_views)) [
  | inl e ↦
      rw (e, prepare_thread)
        (views-IsValid s _ h refl (λ y. refl)
          (reached-put (limits s) t [] s.thread_views tt h.reached))
  | inr (view, e) ↦ rw (e, prepare_thread) h
]
