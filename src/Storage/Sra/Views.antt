-- ===== src/Storage/Sra/Views.antt =====
-- Time stamps of views under strong release acquire (sra-storage-subsystem.h).
use Prim.Native.Nat.{max}
use weak_memory_models_simul.Prelude.{
  ℕ, ◌≤◌, String, ◌&&◌, List, [], ◌∷◌, ◌++◌, none, some, if◌then◌else◌, or_else, ◌==◌, nat_eq,
  string_eq, ◌≡◌, refl, arith, eq_iff, All,
}
use weak_memory_models_simul.Prelude.Map.{lookup, nat_less, string_less, lookup-put, All-put}
use weak_memory_models_simul.Storage.Sra.{
  Message, ThreadView, get_timestamp, set_timestamp, find_message, join,
}

pub get_timestamp-set :
    (x y : String) (n : ℕ) (view : ThreadView)
    → get_timestamp y (set_timestamp x n view) ≡ (if x == y then n else get_timestamp y view)
unfolding get_timestamp set_timestamp
get_timestamp-set x y n view = ground (arith, lookup-put x y n view)

pub get_timestamp-cons :
    (x y : String) (n : ℕ) (view : ThreadView)
    → get_timestamp y ((x, n) ∷ view) ≡ (if x == y then n else get_timestamp y view)
unfolding get_timestamp lookup
get_timestamp-cons x y n view = ground arith

pub get_timestamp-nil : (y : String) → get_timestamp y [] ≡ 0
unfolding get_timestamp lookup
get_timestamp-nil y = refl

-- A join loses no time stamp of either view.
pub le-join_old :
    (new view : ThreadView) (y : String) → get_timestamp y view ≤ get_timestamp y (join new view)
unfolding join
le-join_old [] view y = omega arith
le-join_old ((x, n) ∷ new) view y =
    let raised = set_timestamp x (max (get_timestamp x view) n) view in
    ground (
      arith,
      le-join_old new raised y,
      eq_iff x y,
      get_timestamp-set x y (max (get_timestamp x view) n) view,
    )

pub le-join_new :
    (new view : ThreadView) (y : String) → get_timestamp y new ≤ get_timestamp y (join new view)
unfolding join
le-join_new [] view y = rw (get_timestamp-nil y) (omega arith)
le-join_new ((x, n) ∷ new) view y =
    let raised = set_timestamp x (max (get_timestamp x view) n) view in
    ground (
      arith,
      le-join_new new raised y,
      le-join_old new raised y,
      get_timestamp-cons x y n new,
      get_timestamp-set x y (max (get_timestamp x view) n) view,
    )

-- Each time stamp of a view is at most the bound for its location.
abbrev pub Within : (String → ℕ) → ThreadView → Type 0
Within bound view = All (λ e. e.1 ≤ bound e.0) view

pub Within-mono :
    (f g : String → ℕ) (view : ThreadView)
    → ((x : String) → f x ≤ g x)
    → Within f view
    → Within g view
Within-mono f g [] le w = tt
Within-mono f g ((x, n) ∷ view) le w = (omega (arith, le x), Within-mono f g view le w.1)

pub get_timestamp-le :
    (bound : String → ℕ) (view : ThreadView) (y : String)
    → Within bound view
    → get_timestamp y view ≤ bound y
get_timestamp-le bound [] y w = rw (get_timestamp-nil y) (omega arith)
get_timestamp-le bound ((x, n) ∷ view) y w =
    ground (arith, get_timestamp-cons x y n view, get_timestamp-le bound view y, eq_iff x y)

pub set_timestamp-Within :
    (bound : String → ℕ) (x : String) (n : ℕ) (view : ThreadView)
    → n ≤ bound x
    → Within bound view
    → Within bound (set_timestamp x n view)
unfolding set_timestamp
set_timestamp-Within bound x n view le w = All-put (λ e. e.1 ≤ bound e.0) x n view le w

-- A join stays below what bounds both views.
pub join-Within :
    (bound : String → ℕ) (new view : ThreadView)
    → Within bound new
    → Within bound view
    → Within bound (join new view)
unfolding join
join-Within bound [] view w h = h
join-Within bound ((x, n) ∷ new) view w h =
    join-Within bound new (set_timestamp x (max (get_timestamp x view) n) view) w.1 (
      set_timestamp-Within bound x (max (get_timestamp x view) n) view
        (omega (arith, get_timestamp-le bound view x h, w.0)) h)

-- the time stamp of a message at its own location
abbrev pub stamp : Message → ℕ
stamp m = get_timestamp m.location m.view

pub find_message-append :
    (x : String) (n : ℕ) (ms : List Message) (m : Message)
    → find_message x n (ms ++ m ∷ [])
      ≡ or_else (find_message x n ms) (if m.location == x && stamp m == n then some m else none)
unfolding find_message
find_message-append x n [] m = refl
find_message-append x n (k ∷ ms) m = ground (arith, find_message-append x n ms m)

pub find_message-some :
    (x : String) (n : ℕ) (ms : List Message) (m : Message)
    → find_message x n ms ≡ some m
    → (m.location ≡ x) × (stamp m ≡ n)
unfolding find_message
find_message-some x n [] m h = cc
find_message-some x n (k ∷ ms) m h = ground (arith, find_message-some x n ms m, eq_iff k.location x)
