-- ===== src/Skills/Failure/Keys.antt =====
-- What `kind_key` identifies: the key that loop detection compares.
use mathlib.Core.Option
use Prim.Native.Char.{code}
use Prim.Native.String.{len}
use text.Mathlib.Text.{get?}
use text.Mathlib.TextLemmas.{cons-append, append_cancel_left}
use text.Mathlib.TextPositions.{boundary-zero}
use mathlib.Core.Path.{subst}
use orion_dock.Prelude.{
  ℕ, min, String, ◌≡◌, refl, sym, ◌∙◌, ap, ◌↔◌, false, Option, none, some, arith, ◌⧺◌,
  is_char_boundary,
}
use orion_dock.Skills.Failure.{
  StructuredFailure, permission_denied, resource_not_found, connection_failed,
  authentication_failed, invalid_input, timeout, unknown, endpoint, kind_key,
}

-- The variants, their fields left out.
pub data Kind : Type 0 where
  permission_kind resource_kind connection_kind authentication_kind : Kind
  input_kind time_kind other_kind : Kind

abbrev pub kind : StructuredFailure → Kind
kind (permission_denied _ _) = Kind.permission_kind
kind (resource_not_found _ _) = Kind.resource_kind
kind (connection_failed _ _ _ _) = Kind.connection_kind
kind (authentication_failed _ _) = Kind.authentication_kind
kind (invalid_input _ _ _) = Kind.input_kind
kind (timeout _ _) = Kind.time_kind
kind (unknown _) = Kind.other_kind

abbrev first : String → ℕ
first String.[] = 0
first (String.◌∷◌ c s) = code c

abbrev initial : Kind → ℕ
initial Kind.permission_kind = b'p'
initial Kind.resource_kind = b'n'
initial Kind.connection_kind = b'c'
initial Kind.authentication_kind = b'a'
initial Kind.input_kind = b'i'
initial Kind.time_kind = b't'
initial Kind.other_kind = b'u'

initial_injective : (a b : Kind) → initial a ≡ initial b → a ≡ b
initial_injective a b h = ground arith

abbrev label : Kind → String
label Kind.permission_kind = "permission_denied:"
label Kind.resource_kind = "not_found:"
label Kind.connection_kind = "conn_failed:"
label Kind.authentication_kind = "auth_failed:"
label Kind.input_kind = "invalid_input:"
label Kind.time_kind = "timeout:"
label Kind.other_kind = "unknown:"

-- What a failure is about, as far as its key says it: `none` where the cut would panic.
abbrev pub subject : StructuredFailure → Option String
subject (permission_denied path _) = some path
subject (resource_not_found resource _) = some resource
subject (connection_failed host port _ _) = some (endpoint host port)
subject (authentication_failed service _) = some service
subject (invalid_input field _ _) = some field
subject (timeout _ operation) = some operation
subject (unknown msg) = get? msg 0 (min (len msg) 50)

kind_key-label :
    (f : StructuredFailure) → kind_key f ≡ Option.map (λ s. label (kind f) ⧺ s) (subject f)
unfolding kind_key
kind_key-label (permission_denied path _) = refl
kind_key-label _ = refl

first-label : (k : Kind) (t : String) → first (label k ⧺ t) ≡ initial k
first-label Kind.permission_kind t = rw cons-append
first-label _ t = rw cons-append

-- Both parts of a key can be read back.
key_parts : (a b : Kind) (s t : String) → label a ⧺ s ≡ label b ⧺ t → (a ≡ b) × (s ≡ t)
key_parts a b s t h =
    let same : a ≡ b =
      initial_injective a b (sym (first-label a s) ∙ (ap first h ∙ first-label b t)) in
    (same, append_cancel_left (label b) s t (sym (ap (λ k. label k ⧺ s) same) ∙ h))

-- Two failures with one key are of one variant and about one thing, and failures of one variant
-- about one thing have one key.
pub kind_key-eq_iff :
    (f g : StructuredFailure) {k l : String}
    → kind_key f ≡ some k
    → kind_key g ≡ some l
    → (k ≡ l) ↔ ((kind f ≡ kind g) × (subject f ≡ subject g))
kind_key-eq_iff f g {k} {l} p q =
    let (s, es, ks) = (Option.map-eq-some_iff _ _).0 (sym (kind_key-label f) ∙ p) in
    let (t, et, lt) = (Option.map-eq-some_iff _ _).0 (sym (kind_key-label g) ∙ q) in
    (
      λ e.
          let (same, about) = key_parts (kind f) (kind g) s t (ks ∙ (e ∙ sym lt)) in
          (same, es ∙ (ap some about ∙ sym et)),
      λ e. cc (e.0, e.1, kind_key-label f, kind_key-label g, p, q),
    )

cut-none_iff : (msg : String) (n : ℕ) → (get? msg 0 n ≡ none) ↔ (is_char_boundary msg n ≡ false)
cut-none_iff msg n = ground (arith, boundary-zero msg)

-- The key of a failure panics exactly when it is an unstructured one whose first 50 bytes end
-- inside a character.
pub kind_key-panics_iff :
    (f : StructuredFailure)
    → (kind_key f ≡ none)
      ↔ ((msg : String) × (f ≡ unknown msg) × (is_char_boundary msg (min (len msg) 50) ≡ false))
unfolding kind_key
kind_key-panics_iff (unknown msg) = (
  λ e. (msg, refl, (cut-none_iff msg _).0 ((Option.map-eq-none_iff _ _).0 e)),
  λ e.
      let same : e.0 ≡ msg = cc (e.1) in
      let bad = subst (λ m. is_char_boundary m (min (len m) 50) ≡ false) same e.2 in
      (Option.map-eq-none_iff _ _).1 ((cut-none_iff msg _).1 bad),
)
kind_key-panics_iff f = (λ e. cc, λ e. cc (e.1))
