-- ===== src/Router/Constraints/Store.antt =====
-- What the store keeps of the constraints that are added, and what comes back from the disk.
use orion_dock.Prelude.{
  String, ◌≡◌, refl, sym, ap, ◌∙◌, subst, inl, inr, Bool, true, false, not, ◌||◌, some, List, [],
  ◌∷◌, ◌++◌, map, append-nil, arith, eq_refl, Bool-cases, Option-cases, or_left, or_right, any,
  keep, Elem, here, there, All, Elem-keep, ◌==◌, Dict, lookup, insert, lookup-insert,
}
use orion_dock.Skills.Failure.{Constraint, constraint_text}
use orion_dock.Router.Constraints.{ConstraintStore, Disk, load, save, add, as_planner_constraints}

module _ (debug : List String → String) where
  abbrev pub known : List String → Constraint → Bool
  known texts c = any (λ t. t == constraint_text debug c) texts

  map-append :
      (l m : List Constraint)
      → map (constraint_text debug) (l ++ m)
        ≡ map (constraint_text debug) l ++ map (constraint_text debug) m
  map-append [] m = refl
  map-append (c ∷ l) m = ap (λ r. constraint_text debug c ∷ r) (map-append l m)

  any-append : (p : String → Bool) (l m : List String) → any p (l ++ m) ≡ (any p l || any p m)
  any-append p [] m = refl
  any-append p (t ∷ l) m = ground (arith, any-append p l m)

  keep-none : {A : Type 0} (p : A → Bool) (l : List A) → All (λ a. p a ≡ false) l → keep p l ≡ []
  keep-none p [] h = refl
  keep-none p (a ∷ l) h = rw (h.0, keep) (keep-none p l h.1)

  Elem-known :
      {c : Constraint} {l : List Constraint}
      → Elem c l
      → known (map (constraint_text debug) l) c ≡ true
  Elem-known {c = c} here = or_left _ _ (eq_refl (constraint_text debug c))
  Elem-known (there e) = or_right _ _ (Elem-known e)

  -- Each constraint that is added is afterwards one of the planner's, by its text.
  add-known :
      (s : ConstraintStore) (l : List Constraint) (c : Constraint)
      → Elem c l
      → known (as_planner_constraints debug (add debug s l)) c ≡ true
  unfolding add
  add-known s l c e =
      let there' = as_planner_constraints debug s in
      let fresh = keep (λ d. not (known there' d)) l in
      rw
        (
          map-append s.constraints fresh,
          any-append (λ t. t == constraint_text debug c) there' (map (constraint_text debug) fresh),
        )
        (elim (Bool-cases (known there' c)) [
          | inl old ↦ or_left _ _ old
          | inr new' ↦
              or_right _ _ (Elem-known (Elem-keep (λ d. not (known there' d)) e (ap not new')))
        ])

  All-Elem : {A : Type 0} (P : A → Type 0) (l : List A) → ((a : A) → Elem a l → P a) → All P l
  All-Elem P [] h = tt
  All-Elem P (a ∷ l) h = (h a here, All-Elem P l (λ b e. h b (there e)))

  -- Adding the same constraints again changes nothing.
  pub add-again :
      (s : ConstraintStore) (l : List Constraint) → add debug (add debug s l) l ≡ add debug s l
  unfolding add
  add-again s l =
      let s' = add debug s l in
      rw
        (
          add,
          keep-none (λ c. not (known (as_planner_constraints debug s') c)) l
              (All-Elem _ l (λ c e. ap not (add-known s l c e))),
        )
        (ap (λ m. record { path = s.path; constraints = m }) (append-nil s'.constraints))

lookup-same : (k v : String) (m : Dict String) → lookup k (insert k v m) ≡ some v
lookup-same k v m = lookup-insert k k v m ∙ rw (eq_refl k) refl

-- What is saved is loaded again, when the JSON library reads what it prints and the file can be read.
pub load-save :
    (disk : Disk) (s : ConstraintStore) (dir : String) (files : Dict String) {files' : Dict String}
    → ((l : List Constraint) (json : String)
        → disk.to_string_pretty l ≡ some json
        → disk.from_str json ≡ some l)
    → s.path ≡ disk.join_path dir "governor_constraints.json"
    → disk.readable s.path ≡ true
    → save disk s files ≡ some files'
    → load disk files' dir ≡ s
unfolding load save
load-save disk s dir files {files'} round_trip at_path readable saved =
    elim (Option-cases (disk.to_string_pretty s.constraints)) [
      | inl failed ↦ ground arith
      | inr (json, printed) ↦
          let written : lookup s.path files' ≡ some json =
            ground (arith, lookup-same s.path json files) in
          let read' = round_trip s.constraints json printed in
          let readable' = subst (λ p. disk.readable p ≡ true) at_path readable in
          rw (sym at_path, written, readable', read', load) refl
    ]
