-- ===== src/Prelude/Tests.antt =====
-- Boolean tests on the native numbers, the conditional, and splits that keep an equation.
use Prim.Native.Nat.{ℕ, ◌≤◌, compare, Ordering}
use mathlib.Core.Path.{◌≡◌, refl}
use mathlib.Core.Logic.{◌↔◌, ◌≢◌, ◌⊎◌, inl, inr}
use mathlib.Core.Bool.{not, Bool, true, false, ◌&&◌, ◌||◌}
use mathlib.Core.Option.{Option, none, some}
use native.Mathlib.Omega.{arith}

abbrev pub ltb : ℕ → ℕ → Bool
ltb a b = elim (compare a b) [ Ordering.lt ↦ true | _ ↦ false ]

abbrev pub leb : ℕ → ℕ → Bool
leb a b = elim (compare a b) [ Ordering.gt ↦ false | _ ↦ true ]

abbrev pub eqb : ℕ → ℕ → Bool
eqb a b = elim (compare a b) [ Ordering.eq ↦ true | _ ↦ false ]

infix 1 if◌then◌else◌
abbrev pub if◌then◌else◌ {ℓ} : {A : Type ℓ} → Bool → A → A → A
if true then x else y = x
if false then x else y = y

pub eqb_iff : (a b : ℕ) → (eqb a b ≡ true) ↔ (a ≡ b)
eqb_iff a b = ground arith

pub Bool-cases : (b : Bool) → (b ≡ true) ⊎ (b ≡ false)
Bool-cases true = inl refl
Bool-cases false = inr refl

pub Option-cases {ℓ} : {A : Type ℓ} (o : Option A) → (o ≡ none) ⊎ ((a : A) × (o ≡ some a))
Option-cases none = inl refl
Option-cases (some a) = inr (a, refl)

pub and_eq_true : (a b : Bool) → (a && b) ≡ true → (a ≡ true) × (b ≡ true)
and_eq_true true b h = (refl, h)
and_eq_true false b h = cc

pub or_eq_true : (a b : Bool) → (a || b) ≡ true → (a ≡ true) ⊎ (b ≡ true)
or_eq_true true b h = inl refl
or_eq_true false b h = inr h

pub or_left : (a b : Bool) → a ≡ true → (a || b) ≡ true
or_left true b h = refl
or_left false b h = cc

pub or_right : (a b : Bool) → b ≡ true → (a || b) ≡ true
or_right true b h = refl
or_right false b h = h

-- The branch that a test leaves of an equation on a conditional.
pub then_of {ℓ} :
    {A : Type ℓ} {b : Bool} {x z : A} (y : A) → b ≡ true → (if b then x else y) ≡ z → x ≡ z
then_of {b = true} y e h = h
then_of {b = false} y e h = cc

pub else_of {ℓ} :
    {A : Type ℓ} {b : Bool} {y z : A} (x : A) → b ≡ false → (if b then x else y) ≡ z → y ≡ z
else_of {b = true} x e h = cc
else_of {b = false} x e h = h

pub not_both : {b : Bool} → b ≡ true → b ≢ false
not_both h e = cc

pub not_of_false : {P : Type 0} (b : Bool) → (b ≡ true) ↔ P → b ≡ false → ¬ P
not_of_false b i e h = not_both (i.1 h) e

pub false_of_not : {P : Type 0} (b : Bool) → (b ≡ true) ↔ P → ¬ P → b ≡ false
false_of_not b i h = elim (Bool-cases b) [ inl e ↦ absurd (h (i.0 e)) | inr e ↦ e ]

-- A test decides a statement.
abbrev pub Holds : Bool → Type 0 → Type 0
Holds b P = (b ≡ true) ↔ P

pub and_iff : {P Q : Type 0} (a b : Bool) → Holds a P → Holds b Q → Holds (a && b) (P × Q)
and_iff a b p q = (
  λ h. let (x, y) = and_eq_true a b h in (p.0 x, q.0 y),
  λ (x, y). let e = p.1 x in let f = q.1 y in ground arith,
)

pub or_iff : {P Q : Type 0} (a b : Bool) → Holds a P → Holds b Q → Holds (a || b) (P ⊎ Q)
or_iff a b p q = (
  λ h. elim (or_eq_true a b h) [ inl x ↦ inl (p.0 x) | inr y ↦ inr (q.0 y) ],
  λ h. elim h [ inl x ↦ or_left _ _ (p.1 x) | inr y ↦ or_right _ _ (q.1 y) ],
)

pub not_iff : {P : Type 0} (a : Bool) → Holds a P → Holds (not a) (¬ P)
not_iff true p = (λ h. cc, λ h. absurd (h (p.0 refl)))
not_iff false p = (λ h x. not_both (p.1 x) refl, λ h. refl)

pub leb_iff : (a b : ℕ) → Holds (leb a b) (a ≤ b)
leb_iff a b = (λ h. ground arith, λ h. ground arith)
