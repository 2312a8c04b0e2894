-- ===== src/Prelude/Map.antt =====
-- std::map and std::unordered_map as association lists without repeated keys. A new key of a
-- std::map enters at its place in the order; of a std::unordered_map the library fixes no order,
-- so code that iterates over one takes a `HashOrder`.
use Prim.Native.Nat.{Ordering}
use Prim.Native.String as Text
use mathlib.Core.Bool.{Bool, true, false}
use mathlib.Core.List.{List, [], ◌∷◌, ◌++◌, map, Memᴰ}
use mathlib.Core.List.Memᴰ
use mathlib.Core.Option.{Option, none, some}
use mathlib.Core.Path.{◌≡◌, refl, ap, sym}
use mathlib.Core.Logic.{◌≢◌, inl, inr}
use native.Mathlib.Omega.{arith}
use Prim.Native.Nat.{ℕ}
use Prim.Native.String.{String}
use weak_memory_models_simul.Prelude.Tests.{
  if◌then◌else◌, EqTest, ◌==◌, nat_eq, string_eq, or_else, is_some, ltb, Bool-cases,
}
use weak_memory_models_simul.Prelude.Lists.{count, All}

-- std::less
pub record Less {ℓ} (K : Type ℓ) : Type ℓ where
  pub less : K → K → Bool

instance abbrev pub nat_less : Less ℕ
nat_less = record { less = ltb }

abbrev pub text_less : String → String → Bool
text_less s t = elim (Text.compare s t) [ Ordering.lt ↦ true | _ ↦ false ]

instance abbrev pub string_less : Less String
string_less = record { less = text_less }

abbrev pub Map {ℓ κ} : Type ℓ → Type κ → Type (ℓ ⊔ κ)
Map K V = List (K × V)

abbrev pub keys {ℓ κ} : {K : Type ℓ} {V : Type κ} → Map K V → List K
keys m = map (λ e. e.0) m

module _ {ℓ κ} {K : Type ℓ} {V : Type κ} ⦃e : EqTest K⦄ where
  -- m.find(k)
  unfoldable pub lookup : K → Map K V → Option V
  lookup key [] = none
  lookup key ((k, value) ∷ rest) = if k == key then some value else lookup key rest

  -- m.erase(k)
  unfoldable pub erase : K → Map K V → Map K V
  erase k [] = []
  erase k ((j, v) ∷ m) = let rest = erase k m in if j == k then rest else (j, v) ∷ rest

  replace : K → V → Map K V → Map K V
  replace k v [] = []
  replace k v ((j, w) ∷ m) =
      let rest = replace k v m in if j == k then (k, v) ∷ rest else (j, w) ∷ rest

module _ {ℓ κ} {K : Type ℓ} {V : Type κ} ⦃e : EqTest K⦄ ⦃o : Less K⦄ where
  enter : K → V → Map K V → Map K V
  enter k v [] = (k, v) ∷ []
  enter k v ((j, w) ∷ m) = if o.less k j then (k, v) ∷ (j, w) ∷ m else (j, w) ∷ enter k v m

  -- m[k] = v
  unfoldable pub put : K → V → Map K V → Map K V
  unfolding replace enter lookup
  put k v m = if is_some (lookup k m) then replace k v m else enter k v m

module _ {ℓ κ} {K : Type ℓ} {V : Type κ} ⦃e : EqTest K⦄ where
  pub lookup-erase :
      (k j : K) (m : Map K V) → lookup j (erase k m) ≡ (if k == j then none else lookup j m)
  unfolding lookup erase
  lookup-erase k j [] = ground arith
  lookup-erase k j ((i, v) ∷ m) =
      ground (arith, lookup-erase k j m, e.test_iff i k, e.test_iff i j, e.test_iff k j)

  lookup-replace :
      (k j : K) (v : V) (m : Map K V)
      → lookup j (replace k v m)
        ≡ (if k == j then (if is_some (lookup k m) then some v else none) else lookup j m)
  unfolding lookup replace
  lookup-replace k j v [] = ground arith
  lookup-replace k j v ((i, w) ∷ m) =
      ground (arith, lookup-replace k j v m, e.test_iff i k, e.test_iff i j, e.test_iff k j)

  pub lookup-append :
      (k : K) (m n : Map K V) → lookup k (m ++ n) ≡ or_else (lookup k m) (lookup k n)
  unfolding lookup
  lookup-append k [] n = refl
  lookup-append k ((j, v) ∷ m) n = ground (arith, lookup-append k m n)

module _ {ℓ κ} {K : Type ℓ} {V : Type κ} ⦃e : EqTest K⦄ ⦃o : Less K⦄ where
  lookup-enter :
      (k j : K) (v : V) (m : Map K V)
      → lookup k m ≡ none
      → lookup j (enter k v m) ≡ (if k == j then some v else lookup j m)
  unfolding lookup enter
  lookup-enter k j v [] h = refl
  lookup-enter k j v ((i, w) ∷ m) h =
      ground (arith, lookup-enter k j v m, e.test_iff i k, e.test_iff i j, e.test_iff k j)

  pub lookup-put :
      (k j : K) (v : V) (m : Map K V)
      → lookup j (put k v m) ≡ (if k == j then some v else lookup j m)
  unfolding put
  lookup-put k j v m = ground (arith, lookup-replace k j v m, lookup-enter k j v m)

pub ruleset map_laws = (lookup-erase, lookup-put)

-- The order in which a std::unordered_map with these keys is iterated: some arrangement of them.
pub record HashOrder {ℓ} (K : Type ℓ) ⦃e : EqTest K⦄ : Type ℓ where
  pub order : List K → List K
  pub order_count : (k : K) (ks : List K) → count k (order ks) ≡ count k ks

module _ {ℓ κ} {K : Type ℓ} {V : Type κ} ⦃e : EqTest K⦄ where
  pub count-keys : (k : K) (v : V) (m : Map K V) → lookup k m ≡ some v → count k (keys m) ≢ 0
  unfolding lookup count
  count-keys k v [] h = cc
  count-keys k v ((j, w) ∷ m) h = elim (Bool-cases (j == k)) [
    | inl same ↦ rw same (λ z. omega arith)
    | inr other ↦ rw other (count-keys k v m (rw other at h))
  ]

module _ {ℓ κ} {K : Type ℓ} {V : Type κ} ⦃e : EqTest K⦄ ⦃o : Less K⦄ where
  lookup-nil : (k : K) → lookup k (let m : Map K V = [] in m) ≡ none
  unfolding lookup
  lookup-nil k = refl

  pub put-ne-nil : (k : K) (v : V) (m : Map K V) → put k v m ≢ []
  put-ne-nil k v m h =
      ground (arith, lookup-put k k v m, (e.test_iff k k).1 refl, lookup-nil k, ap (lookup k) h)

-- What holds of the entries of a map, and of a new entry, holds of all behind `put`.
module _ {ℓ κ μ} {K : Type ℓ} {V : Type κ} ⦃e : EqTest K⦄ ⦃o : Less K⦄ (P : K × V → Type μ) where
  All-replace : (k : K) (v : V) (m : Map K V) → P (k, v) → All P m → All P (replace k v m)
  unfolding replace
  All-replace k v [] p h = tt
  All-replace k v ((j, w) ∷ m) p h = elim (Bool-cases (j == k)) [
    | inl same ↦ rw same (p, All-replace k v m p h.1)
    | inr other ↦ rw other (h.0, All-replace k v m p h.1)
  ]

  All-enter : (k : K) (v : V) (m : Map K V) → P (k, v) → All P m → All P (enter k v m)
  unfolding enter
  All-enter k v [] p h = (p, tt)
  All-enter k v ((j, w) ∷ m) p h = elim (Bool-cases (o.less k j)) [
    | inl before ↦ rw before (p, h)
    | inr behind ↦ rw behind (h.0, All-enter k v m p h.1)
  ]

  pub All-put : (k : K) (v : V) (m : Map K V) → P (k, v) → All P m → All P (put k v m)
  unfolding put
  All-put k v m p h = elim (Bool-cases (is_some (lookup k m))) [
    | inl there ↦ rw there (All-replace k v m p h)
    | inr absent ↦ rw absent (All-enter k v m p h)
  ]

pub Mem-keys {κ} :
    {V : Type κ} (t : ℕ) (m : Map ℕ V) → is_some (lookup t m) ≡ true → Memᴰ t (keys m)
unfolding lookup
Mem-keys t [] h = absurd (cc)
Mem-keys t ((k, v) ∷ m) h = elim (Bool-cases (k == t)) [
  | inl e ↦ Memᴰ.head (sym ((nat_eq.test_iff k t).0 e))
  | inr e ↦ Memᴰ.tail (Mem-keys t m (rw e at h))
]

pub lookup-Mem {κ} :
    {V : Type κ} (t : ℕ) (m : Map ℕ V) → Memᴰ t (keys m) → is_some (lookup t m) ≡ true
unfolding lookup
lookup-Mem t [] there = absurd (Memᴰ.not-nil there)
lookup-Mem t ((k, v) ∷ m) there = elim (Bool-cases (k == t)) [
  | inl e ↦ rw e
  | inr e ↦ elim (Memᴰ.cases_cons there) [
    | inl same ↦ absurd (cc ((nat_eq.test_iff k t).1 (sym same), e))
    | inr behind ↦ rw e (lookup-Mem t m behind)
  ]
]
