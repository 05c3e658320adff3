-- ===== src/Core/Superego/Phrases.antt =====
-- `contains_phrase` of crates/orion-core/src/superego.rs against its meaning on token lists.
use orion_dock.Prelude.{
  then_of, else_of, String, ◌≡◌, refl, sym, ap, subst, ◌↔◌, inl, inr, true, false, ◌||◌, List, [],
  ◌∷◌, ◌++◌, arith, eq_iff, eq_refl, ltb, Bool-cases, and_eq_true, or_eq_true, or_left, or_right,
  length, is_empty, length-append, ◌==◌,
}
use orion_dock.Core.Superego.{begins, some_window, contains_phrase}

begins-append : (ps ys : List String) → begins ps (ps ++ ys) ≡ true
begins-append [] ys = refl
begins-append (p ∷ ps) ys = rw (eq_refl p, begins) (begins-append ps ys)

begins-split : (ps ts : List String) → begins ps ts ≡ true → (ys : List String) × (ts ≡ ps ++ ys)
begins-split [] ts h = (ts, refl)
begins-split (p ∷ ps) [] h = cc
begins-split (p ∷ ps) (t ∷ ts) h =
    let (same, rest) = and_eq_true (t == p) (begins ps ts) h in
    let (ys, e) = begins-split ps ts rest in (ys, rw ((eq_iff t p).0 same) (ap (λ l. p ∷ l) e))

window-split :
    (ps ts : List String)
    → some_window ps ts ≡ true
    → (xs : List String) × (ys : List String) × (ts ≡ xs ++ (ps ++ ys))
window-split ps [] h = let (ys, e) = begins-split ps [] h in ([], ys, e)
window-split ps (t ∷ ts) h = elim (or_eq_true (begins ps (t ∷ ts)) (some_window ps ts) h) [
  | inl now ↦ let (ys, e) = begins-split ps (t ∷ ts) now in ([], ys, e)
  | inr later ↦ let (xs, ys, e) = window-split ps ts later in (t ∷ xs, ys, ap (λ l. t ∷ l) e)
]

begins-window : (ps ts : List String) → begins ps ts ≡ true → some_window ps ts ≡ true
begins-window ps [] h = h
begins-window ps (t ∷ ts) h = or_left _ _ h

window-append : (ps xs ys : List String) → some_window ps (xs ++ (ps ++ ys)) ≡ true
window-append ps [] ys = begins-window ps (ps ++ ys) (begins-append ps ys)
window-append ps (x ∷ xs) ys = or_right _ _ (window-append ps xs ys)

length-split :
    (xs ps ys ts : List String) → ts ≡ xs ++ (ps ++ ys) → ltb (length ts) (length ps) ≡ false
length-split xs ps ys ts e =
    ground (arith, ap length e, length-append xs (ps ++ ys), length-append ps ys)

-- A phrase is found exactly when it is not empty and the tokens have it in one piece.
pub contains_phrase_iff :
    (ts ps : List String)
    → (contains_phrase ts ps ≡ true) ↔ (
        (is_empty ps ≡ false) × ((xs : List String) × (ys : List String) × (ts ≡ xs ++ (ps ++ ys))))
unfolding contains_phrase
contains_phrase_iff ts ps = (
  (λ h. elim (Bool-cases (is_empty ps || ltb (length ts) (length ps))) [
    | inl out ↦ let e = then_of _ out h in cc
    | inr in' ↦ (ground arith, window-split ps ts (else_of _ in' h))
  ]),
  (λ h.
      let (xs, ys, e) = h.1 in
      rw (h.0, length-split xs ps ys ts e, contains_phrase)
        (subst (λ l. some_window ps l ≡ true) (sym e) (window-append ps xs ys))),
)
