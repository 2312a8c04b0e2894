-- ===== src/Storage/Sra/Transitions.antt =====
-- The eps-transitions of strong release acquire (sra-storage-subsystem.cpp): a thread's view moves
-- on by one message at one location.
use weak_memory_models_simul.Prelude.{
  ℕ, ◌+◌, String, true, ◌&&◌, List, [], ◌∷◌, some, if◌then◌else◌, ◌==◌, ltb, nat_eq, string_eq, ◌≡◌,
  refl, arith, eq_iff, Bool-cases, Option-cases, inl, inr,
}
use weak_memory_models_simul.Prelude.Result.{ok}
use weak_memory_models_simul.Prelude.Map.{Map, lookup, nat_less, string_less, lookup-put}
use weak_memory_models_simul.Storage.Sra.{
  Sra, ThreadView, get_timestamp, set_timestamp, thread_view, max_timestamp, any_behind,
  has_eps_transitions, increase_locations, increase_location_local_timestamp, increase_each,
  get_eps_transitions,
}
use weak_memory_models_simul.Storage.Sra.Views.{get_timestamp-set}
use weak_memory_models_simul.Storage.Sra.Invariant.{view-put}

-- An eps-transition at a location moves the thread's view there to the next time stamp if there is
-- one. Every other time stamp, the other threads, the memory and the last time stamps stay.
pub increase_one :
    (t u : ℕ) (x y : String) (s : Sra)
    → (get_timestamp y (thread_view u (increase_location_local_timestamp t x s)) ≡ (
        if t == u && x == y && ltb (get_timestamp x (thread_view t s)) (max_timestamp x s)
        then get_timestamp y (thread_view u s) + 1
        else get_timestamp y (thread_view u s)))
      × (max_timestamp y (increase_location_local_timestamp t x s) ≡ max_timestamp y s)
      × ((increase_location_local_timestamp t x s).memory ≡ s.memory)
unfolding increase_location_local_timestamp
increase_one t u x y s =
    let view = thread_view t s in
    let next = set_timestamp x (get_timestamp x view + 1) view in
    elim (Bool-cases (ltb (get_timestamp x view) (max_timestamp x s))) [
      | inl behind ↦ rw behind (
        ground (
          arith,
          view-put t u next s.thread_views,
          eq_iff x y,
          get_timestamp-set x y (get_timestamp x view + 1) view,
          behind,
        ),
        ground (arith, lookup-put x y (max_timestamp x s) s.location_timestamps, eq_iff x y),
        refl,
      )
      | inr level ↦ rw level (
        ground (arith, view-put t u view s.thread_views, level),
        ground (arith, lookup-put x y (max_timestamp x s) s.location_timestamps, eq_iff x y),
        refl,
      )
    ]

-- the locations at which a view is behind, in order
pub behind : ThreadView → Map String ℕ → List String
behind view [] = []
behind view ((x, n) ∷ ts) =
    let rest = behind view ts in if ltb (get_timestamp x view) n then x ∷ rest else rest

increase_locations-some :
    (view : ThreadView) (ts : Map String ℕ)
    → increase_locations (some view) ts ≡ ok (behind view ts)
unfolding increase_locations behind
increase_locations-some view [] = refl
increase_locations-some view ((x, n) ∷ ts) = rw (increase_locations-some view ts) (ground arith)

any_behind-nonempty :
    (view : ThreadView) (ts : Map String ℕ)
    → any_behind view ts ≡ true
    → (x : String) × (xs : List String) × (behind view ts ≡ x ∷ xs)
unfolding any_behind behind
any_behind-nonempty view [] h = absurd (cc)
any_behind-nonempty view ((x, n) ∷ ts) h = elim (Bool-cases (ltb (get_timestamp x view) n)) [
  | inl hit ↦ (x, behind view ts, rw hit)
  | inr miss ↦ let (y, ys, e) = any_behind-nonempty view ts (rw miss at h) in (y, ys, rw (miss, e))
]

-- Wherever the storage says that a thread has eps-transitions, they are computed without an
-- exception, one for each location at which its view is behind, and there is at least one.
pub eps_transitions_exist :
    (t : ℕ) (s : Sra)
    → has_eps_transitions t s ≡ true
    → (x : String) × (xs : List String) × (behind (thread_view t s) s.location_timestamps ≡ x ∷ xs)
      × (get_eps_transitions t s
          ≡ ok (increase_location_local_timestamp t x s ∷ increase_each t xs s))
unfolding get_eps_transitions has_eps_transitions
eps_transitions_exist t s h = elim (Option-cases (lookup t s.thread_views)) [
  | inl e ↦ absurd (cc (e))
  | inr (view, e) ↦
      let listed = increase_locations-some view s.location_timestamps in
      let (x, xs, left) =
        any_behind-nonempty view s.location_timestamps (rw (e, has_eps_transitions) at h) in
      (x, xs, ground (arith, e, left), ground (arith, e, h, listed, left))
]
