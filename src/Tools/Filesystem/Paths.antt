-- ===== src/Tools/Filesystem/Paths.antt =====
-- The paths that `validate_path` of skills/skill-filesystem/src/lib.rs lets through.
use orion_dock.Prelude.{
  subst, ◌||◌, String, ◌≡◌, refl, sym, ap, ◌∙◌, ◌⊎◌, inl, inr, Bool, true, false, Option, none,
  some, List, [], ◌∷◌, ◌++◌, append_assoc, arith, Elem, any-Elem, and_eq_true, eq_iff,
  if◌then◌else◌, Bool-cases, append-nil, ◌==◌,
}
use orion_dock.Skills.Registry.{SkillResult, ok, err}
use orion_dock.Tools.Host.{
  FilePath, path_from, parent, join_file_name, last_part, begins_with, Io, Os, Json,
}
use orion_dock.Tools.Filesystem.{
  Session, Run, and_then, io, permission_denied, canonical_root, is_within_allowed_roots,
  is_traversal, validate_path, validate_existing, validate_parent,
}

begins_with-ok :
    (path root : FilePath)
    → begins_with path root ≡ true
    → (rest : FilePath) × (path ≡ root ++ rest)
unfolding begins_with
begins_with-ok path [] h = (path, refl)
begins_with-ok [] (r ∷ root) h = cc
begins_with-ok (p ∷ path) (r ∷ root) h =
    let (same, more) = and_eq_true (p == r) (begins_with path root) h in
    let (rest, e) = begins_with-ok path root more in (rest, rw ((eq_iff p r).0 same, e) refl)

if_extends :
    (b : Bool) (path tail : FilePath)
    → (rest : FilePath) × ((if b then path else path ++ tail) ≡ path ++ rest)
if_extends true path tail = ([], sym (append-nil path))
if_extends false path tail = (tail, refl)

join_file_name-extends :
    (path other : FilePath) → (tail : FilePath) × (join_file_name path other ≡ path ++ tail)
unfolding join_file_name
join_file_name-extends path other =
    if_extends
      (last_part other == ""
        || last_part other == "/"
        || last_part other == "."
        || last_part other == "..")
      path (last_part other ∷ [])

-- The branch that a test leaves of a run.
then_run :
    {S R : Type 0} (b : Bool) (m n : S → R) (s : S) {r : R}
    → b ≡ true
    → (if b then m else n) s ≡ r
    → m s ≡ r
then_run true m n s e h = h
then_run false m n s e h = cc

else_run :
    {S R : Type 0} (b : Bool) (m n : S → R) (s : S) {r : R}
    → b ≡ false
    → (if b then m else n) s ≡ r
    → n s ≡ r
else_run true m n s e h = cc
else_run false m n s e h = h

pub Io-cases :
    {A : Type 0} (answer : Io A)
    → ((a : A) × (answer ≡ Io.done a)) ⊎ ((e : String) × (answer ≡ Io.failed e))
Io-cases (Io.done a) = inl (a, refl)
Io-cases (Io.failed e) = inr (e, refl)

ok-injective : {A : Type 0} {a b : A} → ok a ≡ ok b → a ≡ b
ok-injective h = cc

-- The world and the roots are as they were.
abbrev pub Calm : {Value W : Type 0} → Session Value W → Session Value W → Type 0
Calm s s' = (s'.world ≡ s.world) × (s'.skill.allowed_roots ≡ s.skill.allowed_roots)

module _ {Value W : Type 0} (json : Json Value) (os : Os W) (debug : List String → String) where
  -- Below an allowed root, resolved if the system can resolve it.
  abbrev pub Inside : List FilePath → W → FilePath → Type 0
  Inside roots w path =
      (root : FilePath) × (rest : FilePath) × Elem root roots
      × (path ≡ canonical_root json os debug w root ++ rest)

  is_within-Inside :
      (path : FilePath) (s : Session Value W)
      → is_within_allowed_roots json os debug path s ≡ true
      → Inside s.skill.allowed_roots s.world path
  unfolding is_within_allowed_roots
  is_within-Inside path s h =
      let (root, member, begins) =
        any-Elem (λ root. begins_with path (canonical_root json os debug s.world root))
          s.skill.allowed_roots h in
      let (rest, e) = begins_with-ok path (canonical_root json os debug s.world root) begins in
      (root, rest, member, e)

  pub validate_path-Calm :
      (path_str : String) (s : Session Value W) → Calm s (validate_path json os debug path_str s).1
  unfolding validate_path
  validate_path-Calm path_str s = ground arith

  pub and_then-ok :
      {A B : Type 0} (r : SkillResult A × Session Value W) (k : A → Run json os debug B) (b : B)
      (s' : Session Value W)
      → and_then json os debug r k ≡ (ok b, s')
      → (a : A) × (t : Session Value W) × (r ≡ (ok a, t)) × (k a t ≡ (ok b, s'))
  and_then-ok (ok a, t) k b s' h = (a, t, refl, h)
  and_then-ok (err e, t) k b s' h = let h' = ap (λ p. p.0) h in cc

  io-ok :
      {A : Type 0} (message : String) (answer : Io A) (s t : Session Value W) (a : A)
      → io json os debug message answer s ≡ (ok a, t)
      → (answer ≡ Io.done a) × (t ≡ s)
  io-ok message (Io.done a') s t a h =
      (ap Io.done (ok-injective (ap (λ p. p.0) h)), sym (ap (λ p. p.1) h))
  io-ok message (Io.failed e) s t a h = let h' = ap (λ p. p.0) h in cc

  if-ok :
      (inside : Bool) (found path : FilePath) (path_str reason : String) (s t : Session Value W)
      → (if◌then◌else◌ {A = Run json os debug FilePath} inside
            (λ s. (ok found, s))
            (permission_denied json os debug path_str reason))
          s
        ≡ (ok path, t)
      → (inside ≡ true) × (found ≡ path) × (t ≡ s)
  unfolding permission_denied
  if-ok true found path path_str reason s t h =
      (refl, ok-injective (ap (λ p. p.0) h), sym (ap (λ p. p.1) h))
  if-ok false found path path_str reason s t h = let h' = ap (λ p. p.0) h in cc

  denied-ok :
      {A : Type 0} {a : A} (path_str reason : String) (s t : Session Value W)
      → permission_denied json os debug path_str reason s ≡ (ok a, t)
      → ⊥
  unfolding permission_denied
  denied-ok path_str reason s t h = let h' = ap (λ p. p.0) h in cc

  validate_existing-ok :
      (path_str : String) (path : FilePath) (s t : Session Value W)
      → validate_existing json os debug path_str s ≡ (ok path, t)
      → (t ≡ s) × Inside s.skill.allowed_roots s.world path
  validate_existing-ok path_str path s t h =
      let (c, u, resolved, rest) =
        and_then-ok
          (io json os debug "Cannot resolve path: " (os.canonicalize (path_from path_str) s.world)
            s)
          _ path t h in
      let (answer, same) = io-ok "Cannot resolve path: " _ s u c resolved in
      let (inside, found, kept) =
        if-ok (is_within_allowed_roots json os debug c u) c path path_str _ u t rest in
      (
        kept ∙ same,
        subst (λ p. Inside s.skill.allowed_roots s.world p) found
            (is_within-Inside c s
              (ap (is_within_allowed_roots json os debug c) (sym same) ∙ inside)),
      )

  Inside-extend :
      (roots : List FilePath) (w : W) (path tail : FilePath)
      → Inside roots w path
      → Inside roots w (path ++ tail)
  Inside-extend roots w path tail (root, rest, member, e) = (
    root,
    rest ++ tail,
    member,
    ap (λ p. p ++ tail) e ∙ append_assoc (canonical_root json os debug w root) rest tail,
  )

  Inside-join :
      (roots : List FilePath) (w : W) (path other : FilePath)
      → Inside roots w path
      → Inside roots w (join_file_name path other)
  Inside-join roots w path other h =
      let (tail, e) = join_file_name-extends path other in
      subst (λ p. Inside roots w p) (sym e) (Inside-extend roots w path tail h)

  validate_parent-ok :
      (path_str : String) (above : Option FilePath) (path : FilePath) (s t : Session Value W)
      → validate_parent json os debug path_str above s ≡ (ok path, t)
      → (t ≡ s) × Inside s.skill.allowed_roots s.world path
  validate_parent-ok path_str none path s t h = absurd (denied-ok path_str _ s t h)
  validate_parent-ok path_str (some above) path s t h =
      elim (Bool-cases (os.exists above s.world)) [
        | inr gone ↦
            absurd (denied-ok path_str _ s t (else_run (os.exists above s.world) _ _ _ gone h))
        | inl there ↦
            let (c, u, resolved, rest) =
              and_then-ok
                (io json os debug "Cannot resolve parent path: " (os.canonicalize above s.world) s)
                _ path t (then_run (os.exists above s.world) _ _ _ there h) in
            let (answer, same) = io-ok "Cannot resolve parent path: " _ s u c resolved in
            let (inside, found, kept) =
              if-ok (is_within_allowed_roots json os debug c u)
                (join_file_name c (path_from path_str)) path path_str _ u t rest in
            (
              kept ∙ same,
              subst (λ p. Inside s.skill.allowed_roots s.world p) found
                  (Inside-join s.skill.allowed_roots s.world c (path_from path_str) (
                    is_within-Inside c s
                      (ap (is_within_allowed_roots json os debug c) (sym same) ∙ inside))),
            )
      ]

  pub validate_path-ok :
      (path_str : String) (path : FilePath) (s t : Session Value W)
      → validate_path json os debug path_str s ≡ (ok path, t)
      → (t ≡ s) × Inside s.skill.allowed_roots s.world path
  unfolding validate_path
  validate_path-ok path_str path s t h = elim (Bool-cases (is_traversal path_str)) [
    | inl bad ↦ absurd (denied-ok path_str _ s t (then_run (is_traversal path_str) _ _ _ bad h))
    | inr good ↦
        let h' = else_run (is_traversal path_str) _ _ _ good h in
        elim (Bool-cases (os.exists (path_from path_str) s.world)) [
          | inl there ↦
              validate_existing-ok path_str path s t
                (then_run (os.exists (path_from path_str) s.world) _ _ _ there h')
          | inr gone ↦
              validate_parent-ok path_str (parent (path_from path_str)) path s t
                (else_run (os.exists (path_from path_str) s.world) _ _ _ gone h')
        ]
  ]
