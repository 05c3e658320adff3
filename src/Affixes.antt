-- ===== src/Affixes.antt =====
-- What the prefix, suffix and containment tests say, as equations.
use Prim.Native.String.{[], ◌∷◌}
use text.Mathlib.TextEquality.{starts_with_iff, eq_iff}
use text.Mathlib.TextLemmas.{nil-append, cons-append}
use text.Mathlib.TextPositions.{starts_with-append}
use orion_dock.Prelude.{
  contains_text, String, ◌≡◌, refl, sym, ap, ◌∙◌, ◌↔◌, inl, inr, true, ◌⧺◌, starts_with, ends_with,
  or_eq_true, or_left, or_right, eq_refl, contains_text, subst,
}

-- The prefix test holds exactly of the texts that begin so.
pub starts_with-append_iff :
    (s t : String) → (starts_with s t ≡ true) ↔ ((r : String) × (s ≡ t ⧺ r))
starts_with-append_iff s t = (
  λ h. let (r, e) = (starts_with_iff s t).0 h in (r, sym e),
  λ (r, e). rw e (starts_with-append t r),
)

ends_with_self : (t : String) → ends_with t t ≡ true
unfolding ends_with
ends_with_self [] = refl
ends_with_self (c ∷ t) = rw (eq_refl (c ∷ t))

ends_with_append : (p t : String) → ends_with (p ⧺ t) t ≡ true
unfolding ends_with
ends_with_append [] t = rw nil-append (ends_with_self t)
ends_with_append (c ∷ p) t = rw cons-append (or_right _ _ (ends_with_append p t))

ends_with-eq : (s t : String) → ends_with s t ≡ true → (p : String) × (s ≡ p ⧺ t)
unfolding ends_with
ends_with-eq [] [] h = ("", sym (nil-append _))
ends_with-eq [] (c ∷ t) h = cc
ends_with-eq (c ∷ s) t h = elim (or_eq_true _ _ h) [
  | inl same ↦ ("", (eq_iff _ _).0 same ∙ sym (nil-append t))
  | inr later ↦
      let (p, e) = ends_with-eq s t later in (c ∷ p, ap (◌∷◌ c) e ∙ sym (cons-append c p t))
]

-- The suffix test holds exactly of the texts that end so.
pub ends_with_iff : (s t : String) → (ends_with s t ≡ true) ↔ ((p : String) × (s ≡ p ⧺ t))
ends_with_iff s t = (ends_with-eq s t, λ (p, e). rw e (ends_with_append p t))

contains_text-eq :
    (s t : String) → contains_text s t ≡ true → (p : String) × (r : String) × (s ≡ p ⧺ (t ⧺ r))
unfolding contains_text
contains_text-eq [] [] h = ("", "", refl)
contains_text-eq [] (c ∷ t) h = cc
contains_text-eq (c ∷ s) t h = elim (or_eq_true _ _ h) [
  | inl here ↦
      let (r, e) = (starts_with-append_iff (c ∷ s) t).0 here in
      ("", r, e ∙ sym (nil-append (t ⧺ r)))
  | inr later ↦
      let (p, r, e) = contains_text-eq s t later in
      (c ∷ p, r, ap (◌∷◌ c) e ∙ sym (cons-append c p (t ⧺ r)))
]

contains_nothing : (s : String) → contains_text s "" ≡ true
unfolding contains_text
contains_nothing [] = refl
contains_nothing (c ∷ s) =
    or_left _ _ ((starts_with-append_iff (c ∷ s) "").1 (c ∷ s, sym (nil-append (c ∷ s))))

contains_text-prefix : (t r : String) → contains_text (t ⧺ r) t ≡ true
unfolding contains_text
contains_text-prefix [] r = rw nil-append (contains_nothing r)
contains_text-prefix (c ∷ t) r = rw cons-append (
    or_left _ _ (
      subst (λ x. starts_with x (c ∷ t) ≡ true) (cons-append c t r) (starts_with-append (c ∷ t) r)))

contains_text-append : (p t r : String) → contains_text (p ⧺ (t ⧺ r)) t ≡ true
unfolding contains_text
contains_text-append [] t r = rw nil-append (contains_text-prefix t r)
contains_text-append (c ∷ p) t r = rw cons-append (or_right _ _ (contains_text-append p t r))

-- The containment test holds exactly of the texts that have the other in one piece.
pub contains_text_iff :
    (s t : String) → (contains_text s t ≡ true) ↔ ((p : String) × (r : String) × (s ≡ p ⧺ (t ⧺ r)))
contains_text_iff s t = (contains_text-eq s t, λ (p, r, e). rw e (contains_text-append p t r))
