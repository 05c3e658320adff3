-- ===== src/Birth/Emergence.antt =====
-- The parts of `complete_emergence` of crates/orion-birth/src/stages.rs when they succeed: guards,
-- signatures and the record of the birth.
use orion_dock.Prelude.{
  Elem, any, any-Elem, subst, [], ◌∷◌, then_of, else_of, not_both, ℕ, String, ◌≡◌, refl, sym, ap,
  ◌∙◌, inl, inr, Bool, true, false, Option, none, some, List, eq_iff, eq_refl, if◌then◌else◌,
  Bool-cases, All, ◌⧺◌, ◌==◌, Dict, lookup, insert, lookup-insert,
}
use orion_dock.Birth.Machine.{
  BirthError, Result, World, Run, and_then, pure, fail, fallible, has_birth, record_birth, is_born,
  birth_row, spend_fault, next_fault, io, ok, err,
}
use orion_dock.Birth.Orchestrator.{Platform, Birth, outside, save}
use orion_dock.Birth.Ceremony.{
  document_files, sign_content, path_in, sign_file, sign_all, finish, refuse_born, constitution,
  completed, birth_text,
}
use orion_dock.Birth.Monotone.{has_birth-answer}

pub and_then-ok :
    {A B S : Type 0} (r : Result A × S) (k : A → Run S B) (b : B) (s' : S)
    → and_then r k ≡ (ok b, s')
    → (a : A) × (t : S) × (r ≡ (ok a, t)) × (k a t ≡ (ok b, s'))
and_then-ok (ok a, t) k b s' h = (a, t, refl, h)
and_then-ok (err e, t) k b s' h = let e' = ap (λ p. p.0) h in cc

pub fallible-ok :
    (e : BirthError) (f : World → World) (w v : World)
    → fallible e f w ≡ (ok tt, v)
    → v ≡ f (spend_fault w)
unfolding fallible
fallible-ok e f w v h = elim (Bool-cases (next_fault w)) [
  | inl bad ↦ let e' = ap (λ p. p.0) (then_of _ bad h) in cc
  | inr good ↦ sym (ap (λ p. p.1) (else_of _ good h))
]

pub refused-ok :
    {A S : Type 0} (c : Bool) (e : BirthError) (m : Run S A) (s s' : S) (a : A)
    → (if◌then◌else◌ {A = Run S A} c (fail e) m) s ≡ (ok a, s')
    → (c ≡ false) × (m s ≡ (ok a, s'))
refused-ok true e m s s' a h = let e' = ap (λ p. p.0) h in cc
refused-ok false e m s s' a h = (refl, h)

pub passed-ok :
    {S : Type 0} (c : Bool) (e : BirthError) (s s' : S)
    → (if◌then◌else◌ {A = Run S Unit} c (pure tt) (fail e)) s ≡ (ok tt, s')
    → (c ≡ true) × (s' ≡ s)
passed-ok true e s s' h = (refl, sym (ap (λ p. p.1) h))
passed-ok false e s s' h = let e' = ap (λ p. p.0) h in cc

record_birth-ok :
    (agent_id memory : String) (w v : World)
    → record_birth agent_id memory w ≡ (ok tt, v)
    → (is_born agent_id w ≡ false)
      × (v ≡ record (spend_fault (spend_fault w)) {
        births = insert (birth_row w.backend agent_id) memory w.births;
      })
unfolding record_birth
record_birth-ok agent_id memory w v h =
    let (b, u, asked, rest) = and_then-ok (has_birth agent_id w) _ tt v h in
    let (same, answer) = has_birth-answer agent_id w b u asked in
    let (unborn, inserted) = refused-ok b BirthError.store _ u v tt rest in
    (
      sym answer ∙ unborn,
      fallible-ok BirthError.store
            (λ w. record w { births = insert (birth_row w.backend agent_id) memory w.births }) u v
            inserted
          ∙ ap
              (λ u. record (spend_fault u) {
                births = insert (birth_row u.backend agent_id) memory u.births;
              })
              same,
    )

module _ {Engine : Type 0} where
  pub outside-ok :
      {A : Type 0} (m : Run World A) (b b' : Birth Engine) (a : A)
      → outside m b ≡ (ok a, b')
      → (v : World) × (m b.world ≡ (ok a, v)) × (b' ≡ record b { world = v })
  outside-ok m b b' a h = ((m b.world).1, ap (λ p. (p.0, (m b.world).1)) h, sym (ap (λ p. p.1) h))

module _ {Engine : Type 0} (platform : Platform Engine) where
  pub refuse_born-ok :
      (b b' : Birth Engine)
      → refuse_born platform b ≡ (ok tt, b')
      → (is_born b.orchestrator.agent_id b.world ≡ false)
        × (b' ≡ record b { world = spend_fault b.world })
  unfolding refuse_born
  refuse_born-ok b b' h =
      let (born, c, asked, rest) =
        and_then-ok (outside (has_birth b.orchestrator.agent_id) b) _ tt b' h in
      let (v, ran, after) = outside-ok (has_birth b.orchestrator.agent_id) b c born asked in
      let (same, answer) = has_birth-answer b.orchestrator.agent_id b.world born v ran in
      let (unborn, stays) = refused-ok born BirthError.already_born (pure tt) c b' tt rest in
      (
        sym answer ∙ unborn,
        sym (ap (λ p. p.1) stays) ∙ (after ∙ ap (λ w. record b { world = w }) same),
      )

  -- The state that a birth leaves when it is recorded and the configuration is saved.
  pub finish-ok :
      (b b' : Birth Engine)
      → finish platform b ≡ (ok tt, b')
      → (is_born b.orchestrator.agent_id b.world ≡ false)
        × (b'.orchestrator ≡ completed (platform.now b.world.ticks) b.orchestrator)
        × (b'.world.files ≡ b.world.files)
        × (b'.world.births
            ≡ insert
                (birth_row b.world.backend b.orchestrator.agent_id)
                (birth_text (platform.now b.world.ticks))
                b.world.births)
        × (b'.world.saved ≡ some b'.orchestrator.config)
  unfolding finish save
  finish-ok b b' h =
      let born_at = platform.now b.world.ticks in
      let (a, c, recorded, rest) =
        and_then-ok (outside (record_birth b.orchestrator.agent_id (birth_text born_at)) b) _ tt b'
          h in
      let (v, ran, after) =
        outside-ok (record_birth b.orchestrator.agent_id (birth_text born_at)) b c tt recorded in
      let (unborn, v_is) =
        record_birth-ok b.orchestrator.agent_id (birth_text born_at) b.world v ran in
      let c1 : Birth Engine = record c { orchestrator = completed born_at c.orchestrator } in
      let (u, saving, then') =
        outside-ok (fallible io (λ w. record w { saved = some c1.orchestrator.config })) c1 b' tt
          rest in
      let u_is =
        fallible-ok io (λ w. record w { saved = some c1.orchestrator.config }) c.world u saving in
      (
        unborn,
        ap (λ d. d.orchestrator) then' ∙ ap (λ d. completed born_at d.orchestrator) after,
        ap (λ d. d.world.files) then'
            ∙ (ap (λ w. w.files) u_is ∙ (ap (λ d. d.world.files) after ∙ ap (λ w. w.files) v_is)),
        ap (λ d. d.world.births) then'
            ∙ (ap (λ w. w.births) u_is
                ∙ (ap (λ d. d.world.births) after ∙ ap (λ w. w.births) v_is)),
        ap (λ d. d.world.saved) then'
            ∙ (ap (λ w. w.saved) u_is ∙ sym (ap (λ d. some d.orchestrator.config) then')),
      )

  -- A document that was there is still the same, and got its signature.
  abbrev pub Signed : List ℕ → String → World → World → String → Type 0
  Signed key docs w w' doc =
      (content : String) × (t : ℕ) × (lookup (path_in platform docs doc) w.files ≡ some content)
      × (lookup (path_in platform docs doc) w'.files ≡ some content)
      × (lookup (path_in platform docs (doc ⧺ ".sig")) w'.files
          ≡ some (platform.sign key doc content t))

  Signs : List ℕ → String → String → World → World → Option String → Type 0
  Signs key docs doc w v o =
      (content : String) × (t : ℕ) × (o ≡ some content)
      × (v ≡ record (spend_fault (spend_fault w)) {
        files =
            insert (path_in platform docs (doc ⧺ ".sig")) (platform.sign key doc content t) w.files;
      })

  sign_content-ok :
      (key : List ℕ) (docs doc : String) (o : Option String) (w v : World)
      → sign_content platform key docs doc o w ≡ (ok tt, v)
      → Signs key docs doc w v o
  unfolding Signs
  sign_content-ok key docs doc none w v h = let e = ap (λ p. p.0) h in cc
  sign_content-ok key docs doc (some content) w v h =
      let (a, u, read', rest) = and_then-ok (fallible io (λ w. w) w) _ tt v h in
      let u_is = fallible-ok io (λ w. w) w u read' in
      let sig : World → World = λ w. record w {
        files =
            insert (path_in platform docs (doc ⧺ ".sig")) (platform.sign key doc content u.ticks)
              w.files;
      } in
      (content, u.ticks, refl, fallible-ok io sig u v rest ∙ ap (λ u. sig (spend_fault u)) u_is)

  own_file :
      (d x c : String) (m m' : Dict String)
      → m' ≡ insert (path_in platform d x) c m
      → lookup (path_in platform d x) m' ≡ some c
  own_file d x c m m' e =
      ap (lookup (path_in platform d x)) e
      ∙ (lookup-insert (path_in platform d x) (path_in platform d x) c m
          ∙ rw (eq_refl (path_in platform d x)) refl)

abbrev is_document : String → Bool
is_document x = any (λ f. f == x) document_files

document : (x : String) → is_document x ≡ true → Elem x document_files
document x h =
    let (f, e, same) = any-Elem (λ f. f == x) document_files h in
    subst (λ f. Elem f document_files) ((eq_iff f x).0 same) e

module _ {Engine : Type 0} (platform : Platform Engine)
    (join_apart : (d x y : String)
      → Elem x document_files
      → Elem y document_files
      → platform.join_path d x ≡ platform.join_path d y
      → x ≡ y) where
  other_file :
      (d x y c : String) (m m' : Dict String)
      → is_document x ≡ true
      → is_document y ≡ true
      → (x == y) ≡ false
      → m' ≡ insert (path_in platform d x) c m
      → lookup (path_in platform d y) m' ≡ lookup (path_in platform d y) m
  other_file d x y c m m' xd yd apart e =
      elim (Bool-cases (path_in platform d x == path_in platform d y)) [
        | inl same ↦ absurd (
            not_both
              ((eq_iff x y).1
                (join_apart d x y (document x xd) (document y yd) ((eq_iff _ _).0 same)))
              apart)
        | inr differ ↦
            ap (lookup (path_in platform d y)) e
            ∙ (lookup-insert (path_in platform d x) (path_in platform d y) c m ∙ rw differ refl)
      ]

  -- Signing leaves a file whose name is no signature's as it was.
  sign_all-keeps :
      (key : List ℕ) (docs y : String) (names : List String) (w v : World)
      → is_document y ≡ true
      → All (λ doc. (is_document (doc ⧺ ".sig") ≡ true) × (((doc ⧺ ".sig") == y) ≡ false)) names
      → sign_all platform key docs names w ≡ (ok tt, v)
      → lookup (path_in platform docs y) v.files ≡ lookup (path_in platform docs y) w.files
  unfolding sign_all sign_file Signs
  sign_all-keeps key docs y [] w v yd apart h =
      ap (λ r. lookup (path_in platform docs y) r.1.files) (sym h)
  sign_all-keeps key docs y (doc ∷ names) w v yd ((xd, differ), apart) h =
      let (a, w1, signed, rest) = and_then-ok (sign_file platform key docs doc w) _ tt v h in
      let (c, t, f, e) = sign_content-ok platform key docs doc _ w w1 signed in
      sign_all-keeps key docs y names w1 v yd apart rest
      ∙ other_file docs (doc ⧺ ".sig") y _ _ _ xd yd differ (ap (λ w. w.files) e)

  -- Signing that succeeds keeps each document of the constitution and signs it.
  pub sign_constitution-ok :
      (key : List ℕ) (docs : String) (w v : World)
      → sign_all platform key docs constitution w ≡ (ok tt, v)
      → All (Signed platform key docs w v) constitution
        × (v.births ≡ w.births)
        × (v.backend ≡ w.backend)
        × (v.ticks ≡ w.ticks)
  unfolding sign_all sign_file Signs
  sign_constitution-ok key docs w v h =
      let (a, w1, s1, rest1) = and_then-ok (sign_file platform key docs "soul.md" w) _ tt v h in
      let (b, w2, s2, rest2) =
        and_then-ok (sign_file platform key docs "ethics.md" w1) _ tt v rest1 in
      let (c, w3, s3, rest3) =
        and_then-ok (sign_file platform key docs "instincts.md" w2) _ tt v rest2 in
      let (c1, t1, f1, e1) = sign_content-ok platform key docs "soul.md" _ w w1 s1 in
      let (c2, t2, f2, e2) = sign_content-ok platform key docs "ethics.md" _ w1 w2 s2 in
      let (c3, t3, f3, e3) = sign_content-ok platform key docs "instincts.md" _ w2 w3 s3 in
      let kept = λ (doc : String). sign_all-keeps key docs doc constitution w v in
      let end' : w3 ≡ v = ap (λ p. p.1) rest3 in
      let m1 = ap (λ w. w.files) e1 in
      let m2 = ap (λ w. w.files) e2 in
      let m3 : v.files ≡ _ = ap (λ w. w.files) (sym end' ∙ e3) in
      let was2 = sym (other_file docs "soul.md.sig" "ethics.md" _ _ _ refl refl refl m1) ∙ f2 in
      let was3 =
        sym (
          other_file docs "ethics.md.sig" "instincts.md" _ _ _ refl refl refl m2
          ∙ other_file docs "soul.md.sig" "instincts.md" _ _ _ refl refl refl m1)
        ∙ f3 in
      (
        (
          (
            c1,
            t1,
            f1,
            kept "soul.md" refl ((refl, refl), ((refl, refl), ((refl, refl), tt))) h ∙ f1,
            other_file docs "instincts.md.sig" "soul.md.sig" _ _ _ refl refl refl m3
                ∙ (other_file docs "ethics.md.sig" "soul.md.sig" _ _ _ refl refl refl m2
                    ∙ own_file platform docs "soul.md.sig" _ _ _ m1),
          ),
          (
            (
              c2,
              t2,
              was2,
              kept "ethics.md" refl ((refl, refl), ((refl, refl), ((refl, refl), tt))) h ∙ was2,
              other_file docs "instincts.md.sig" "ethics.md.sig" _ _ _ refl refl refl m3
                  ∙ own_file platform docs "ethics.md.sig" _ _ _ m2,
            ),
            (
              (
                c3,
                t3,
                was3,
                kept "instincts.md" refl ((refl, refl), ((refl, refl), ((refl, refl), tt))) h
                    ∙ was3,
                own_file platform docs "instincts.md.sig" _ _ _ m3,
              ),
              tt,
            ),
          ),
        ),
        ap (λ w. w.births) (sym end' ∙ e3) ∙ (ap (λ w. w.births) e2 ∙ ap (λ w. w.births) e1),
        ap (λ w. w.backend) (sym end' ∙ e3) ∙ (ap (λ w. w.backend) e2 ∙ ap (λ w. w.backend) e1),
        ap (λ w. w.ticks) (sym end' ∙ e3) ∙ (ap (λ w. w.ticks) e2 ∙ ap (λ w. w.ticks) e1),
      )
