-- ===== src/Prelude/Lists.antt =====
-- Lists measured by native numbers, their Boolean tests, and the predicates on their elements.
use Prim.Native.Nat.{ℕ, zero, suc, ◌+◌, ◌≤◌}
use mathlib.Core.Path.{◌≡◌, refl, ap, subst}
use mathlib.Core.Logic.{inl, inr}
use mathlib.Core.Bool.{Bool, true, false, ◌&&◌, ◌||◌}
use mathlib.Core.Option.{Option, none, some}
use mathlib.Core.List.{List, [], ◌∷◌, ◌++◌}
use native.Mathlib.Omega.{arith}
use orion_dock.Prelude.Tests.{if◌then◌else◌, Bool-cases}

module _ {ℓ} {A : Type ℓ} where
  abbrev pub length : List A → ℕ
  length [] = 0
  length (x ∷ xs) = suc (length xs)

  abbrev pub is_empty : List A → Bool
  is_empty [] = true
  is_empty (x ∷ xs) = false

  abbrev pub head? : List A → Option A
  head? [] = none
  head? (x ∷ xs) = some x

  abbrev pub get_elem? : List A → ℕ → Option A
  get_elem? [] i = none
  get_elem? (x ∷ xs) zero = some x
  get_elem? (x ∷ xs) (suc i) = get_elem? xs i

  -- A write out of bounds changes nothing.
  abbrev pub set : List A → ℕ → A → List A
  set [] i v = []
  set (x ∷ xs) zero v = v ∷ xs
  set (x ∷ xs) (suc i) v = x ∷ set xs i v

  abbrev pub take : ℕ → List A → List A
  take zero xs = []
  take (suc n) [] = []
  take (suc n) (x ∷ xs) = x ∷ take n xs

  abbrev pub replicate : ℕ → A → List A
  replicate zero a = []
  replicate (suc n) a = a ∷ replicate n a

  abbrev pub any : (A → Bool) → List A → Bool
  any p [] = false
  any p (x ∷ xs) = p x || any p xs

  abbrev pub all : (A → Bool) → List A → Bool
  all p [] = true
  all p (x ∷ xs) = p x && all p xs

  abbrev pub keep : (A → Bool) → List A → List A
  keep p [] = []
  keep p (x ∷ xs) = let rest = keep p xs in if p x then x ∷ rest else rest

  abbrev pub find_first : (A → Bool) → List A → Option A
  find_first p [] = none
  find_first p (x ∷ xs) = let rest = find_first p xs in if p x then some x else rest

  -- Membership with the position kept.
  pub data Elem (a : A) : List A → Type ℓ where
    here : {xs : List A} → Elem a (a ∷ xs)
    there : {x : A} {xs : List A} → Elem a xs → Elem a (x ∷ xs)

  abbrev pub All {κ} : (A → Type κ) → List A → Type κ
  All P [] = Unit
  All P (x ∷ xs) = P x × All P xs

  pub length-append : (xs ys : List A) → length (xs ++ ys) ≡ length xs + length ys
  length-append [] ys = omega arith
  length-append (x ∷ xs) ys = omega (arith, length-append xs ys)

  pub length-keep : (p : A → Bool) (xs : List A) → length (keep p xs) ≤ length xs
  length-keep p [] = omega arith
  length-keep p (x ∷ xs) = ground (arith, length-keep p xs)

  pub length-set : (xs : List A) (i : ℕ) (v : A) → length (set xs i v) ≡ length xs
  length-set [] i v = refl
  length-set (x ∷ xs) zero v = refl
  length-set (x ∷ xs) (suc i) v = ap suc (length-set xs i v)

  pub length-replicate : (n : ℕ) (a : A) → length (replicate n a) ≡ n
  length-replicate zero a = refl
  length-replicate (suc n) a = ap suc (length-replicate n a)

  pub Elem-any : (p : A → Bool) {a : A} {xs : List A} → Elem a xs → p a ≡ true → any p xs ≡ true
  Elem-any p here h = ground arith
  Elem-any p (there e) h = ground (arith, Elem-any p e h)

  pub any-Elem : (p : A → Bool) (xs : List A) → any p xs ≡ true → (a : A) × Elem a xs × (p a ≡ true)
  any-Elem p [] h = cc
  any-Elem p (x ∷ xs) h = elim (Bool-cases (p x)) [
    | inl hit ↦ (x, here, hit)
    | inr miss ↦ let (a, e, q) = any-Elem p xs (ground arith) in (a, there e, q)
  ]

module _ {ℓ κ} {A : Type ℓ} {B : Type κ} where
  abbrev pub filter_map : (A → Option B) → List A → List B
  filter_map f [] = []
  filter_map f (x ∷ xs) =
      let rest = filter_map f xs in elim (f x) [ none ↦ rest | some b ↦ b ∷ rest ]

  pub filter_map-append :
      (f : A → Option B) (xs ys : List A)
      → filter_map f (xs ++ ys) ≡ filter_map f xs ++ filter_map f ys
  filter_map-append f [] ys = refl
  filter_map-append f (x ∷ xs) ys = ground (arith, filter_map-append f xs ys)

module _ {ℓ} {A : Type ℓ} (q : A → Bool) where
  keep-Elem_step :
      {a : A} (x : A) (xs rest : List A) (b : Bool)
      → q x ≡ b
      → (Elem a rest → Elem a xs × (q a ≡ true))
      → Elem a (if b then x ∷ rest else rest)
      → Elem a (x ∷ xs) × (q a ≡ true)
  keep-Elem_step x xs rest true h ih here = (here, h)
  keep-Elem_step x xs rest true h ih (there e) = let (m, t) = ih e in (there m, t)
  keep-Elem_step x xs rest false h ih e = let (m, t) = ih e in (there m, t)

  -- What is kept is an element that passes the test, and every such element is kept.
  pub keep-Elem : {a : A} (xs : List A) → Elem a (keep q xs) → Elem a xs × (q a ≡ true)
  keep-Elem [] e = elim e [ ]
  keep-Elem (x ∷ xs) e = keep-Elem_step x xs (keep q xs) (q x) refl (keep-Elem xs) e

  pub Elem-keep : {a : A} {xs : List A} → Elem a xs → q a ≡ true → Elem a (keep q xs)
  Elem-keep here h = rw h here
  Elem-keep (there {x} {xs} e) h = elim (Bool-cases (q x)) [
    | inl yes' ↦ rw yes' (there (Elem-keep e h))
    | inr no' ↦ rw no' (Elem-keep e h)
  ]

  -- Dropping elements that fail the test anyway does not change whether one passes.
  pub any-keep :
      (f : A → Bool) (xs : List A)
      → ((x : A) → q x ≡ false → f x ≡ false)
      → any f (keep q xs) ≡ any f xs
  any-keep f [] h = refl
  any-keep f (x ∷ xs) h = ground (arith, any-keep f xs h, h x)

  pub any-keep-false :
      (f : A → Bool) (xs : List A)
      → ((x : A) → q x ≡ true → f x ≡ false)
      → any f (keep q xs) ≡ false
  any-keep-false f [] h = refl
  any-keep-false f (x ∷ xs) h = ground (arith, any-keep-false f xs h, h x)

module _ {ℓ κ} {A : Type ℓ} (P : A → Type κ) where
  pub All-append : (xs ys : List A) → All P xs → All P ys → All P (xs ++ ys)
  All-append [] ys hx hy = hy
  All-append (x ∷ xs) ys hx hy = (hx.0, All-append xs ys hx.1 hy)

  pub All-mono {μ} : (Q : A → Type μ) (xs : List A) → ((x : A) → P x → Q x) → All P xs → All Q xs
  All-mono Q [] up h = tt
  All-mono Q (x ∷ xs) up h = (up x h.0, All-mono Q xs up h.1)

  pub elem-All : {a : A} {xs : List A} → Elem a xs → All P xs → P a
  elem-All here h = h.0
  elem-All (there e) h = elem-All e h.1

pub find_first-Elem {ℓ} :
    {A : Type ℓ} (p : A → Bool) (xs : List A) {a : A}
    → find_first p xs ≡ some a
    → Elem a xs × (p a ≡ true)
find_first-Elem p [] h = cc
find_first-Elem p (x ∷ xs) {a} h = elim (Bool-cases (p x)) [
  | inl hit ↦
      let e : x ≡ a = ground arith in
      (subst (λ y. Elem y (x ∷ xs)) e here, subst (λ y. p y ≡ true) e hit)
  | inr miss ↦ let (m, q) = find_first-Elem p xs (ground arith) in (there m, q)
]
