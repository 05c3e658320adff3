-- ===== src/Birth/Monotone.antt =====
-- crates/orion-birth/src/stages.rs: the order of the stages and the recorded births, for the
-- operations on the world.
use orion_dock.Prelude.{
  then_of, else_of, ◌≤◌, String, ◌≡◌, refl, sym, ap, ◌∙◌, subst, inl, inr, Bool, false, none, some,
  arith, eq_iff, Bool-cases, Option-cases, lookup, insert, lookup-insert,
}
use orion_dock.Birth.Stage.{rank}
use orion_dock.Birth.Machine.{
  is_born, and_then, BirthError, Result, World, Run, ◌>>=◌, fallible, write, has_birth,
  record_birth, io, ok, err, birth_row, next_fault, spend_fault,
}
use orion_dock.Birth.Orchestrator.{Birth}

pub record Kept (w w' : World) : Type 0 where
  pub same_backend : w'.backend ≡ w.backend
  pub recorded :
      (id : String) (m : String) → lookup id w.births ≡ some m → lookup id w'.births ≡ some m

pub record Later {Engine : Type 0} (b b' : Birth Engine) : Type 0 where
  pub forward : rank b.orchestrator.stage ≤ rank b'.orchestrator.stage
  pub same_agent : b'.orchestrator.agent_id ≡ b.orchestrator.agent_id
  pub kept : Kept b.world b'.world

module _ {S : Type 0} (R : S → S → Type 0) (trans : (a b c : S) → R a b → R b c → R a c) where
  pub and_then-trans :
      {A B : Type 0} {s : S} (r : Result A × S) (k : A → Run S B)
      → R s r.1
      → ((a : A) (t : S) → r ≡ (ok a, t) → R t (k a t).1)
      → R s (and_then r k).1
  and_then-trans (ok a, t) k h hk = trans _ t _ h (hk a t refl)
  and_then-trans (err e, t) k h hk = h

pub Kept-trans : {a b c : World} → Kept a b → Kept b c → Kept a c
Kept-trans h k = record {
  same_backend = k.same_backend ∙ h.same_backend;
  recorded = λ id m l. k.recorded id m (h.recorded id m l);
}

pub same_births : {w w' : World} → w'.backend ≡ w.backend → w'.births ≡ w.births → Kept w w'
same_births f e = record {
  same_backend = f;
  recorded = λ id m l. subst (λ f. lookup id f ≡ some m) (sym e) l;
}

pub Later-trans : {Engine : Type 0} {a b c : Birth Engine} → Later a b → Later b c → Later a c
Later-trans h k = record {
  forward = omega (arith, h.forward, k.forward);
  same_agent = k.same_agent ∙ h.same_agent;
  kept = Kept-trans h.kept k.kept;
}

-- The same of a run on the world, from any state.
abbrev pub Keeps : {A : Type 0} → Run World A → Type 0
Keeps m = (w : World) → Kept w (m w).1

fallible-Kept :
    (e : BirthError) (f : World → World) (w : World)
    → Kept (spend_fault w) (f (spend_fault w))
    → Kept w (fallible e f w).1
unfolding fallible
fallible-Kept e f w h = elim (Bool-cases (next_fault w)) [
  | inl bad ↦ rw (bad, fallible) (same_births refl refl)
  | inr good ↦ rw (good, fallible) (record { same_backend = h.same_backend; recorded = h.recorded })
]

pub fallible-Keeps :
    (e : BirthError) (f : World → World)
    → ((w : World) → ((f w).backend ≡ w.backend) × ((f w).births ≡ w.births))
    → Keeps (fallible e f)
fallible-Keeps e f h w =
    fallible-Kept e f w (same_births (h (spend_fault w)).0 (h (spend_fault w)).1)

pub nothing-Keeps : Keeps (fallible io (λ w. w))
nothing-Keeps = fallible-Keeps io (λ w. w) (λ w. (refl, refl))

pub write-Keeps : (path content : String) → Keeps (write path content)
write-Keeps path content =
    fallible-Keeps io (λ w. record w { files = insert path content w.files }) (λ w. (refl, refl))

pub seq-Kept :
    {A B : Type 0} (m : Run World A) (k : A → Run World B) (w : World)
    → Kept w (m w).1
    → ((a : A) (v : World) → m w ≡ (ok a, v) → Kept v (k a v).1)
    → Kept w ((m >>= k) w).1
seq-Kept m k w hm hk = and_then-trans Kept (λ a b c h k. Kept-trans h k) (m w) k hm hk

pub seq-Keeps :
    {A B : Type 0} (m : Run World A) (k : A → Run World B)
    → Keeps m
    → ((a : A) → Keeps (k a))
    → Keeps (m >>= k)
seq-Keeps m k hm hk w = seq-Kept m k w (hm w) (λ a v e. hk a v)

-- `has_birth` only spends a fault, and tells whether there is a birth in the agent's row.
pub has_birth-answer :
    (agent_id : String) (w : World) (b : Bool) (v : World)
    → has_birth agent_id w ≡ (ok b, v)
    → (v ≡ spend_fault w) × (b ≡ is_born agent_id w)
unfolding has_birth
has_birth-answer agent_id w b v h = elim (Bool-cases (next_fault w)) [
  | inl bad ↦ let e = ap (λ p. p.0) (then_of _ bad h) in cc
  | inr good ↦ let e = else_of _ good h in (sym (ap (λ p. p.1) e), ground (arith, ap (λ p. p.0) e))
]

pub has_birth-Keeps : (agent_id : String) → Keeps (has_birth agent_id)
unfolding has_birth
has_birth-Keeps agent_id w = elim (Bool-cases (next_fault w)) [
  | inl bad ↦ rw (bad, has_birth) (same_births refl refl)
  | inr good ↦ rw (good, has_birth) (same_births refl refl)
]

insert-Kept :
    (row memory : String) (w : World)
    → lookup row w.births ≡ none
    → Kept w (record w { births = insert row memory w.births })
insert-Kept row memory w free = record {
  same_backend = refl;
  recorded = λ id m l. ground (arith, lookup-insert row id memory w.births, eq_iff row id);
}

unborn-lookup :
    (agent_id : String) (w : World)
    → is_born agent_id w ≡ false
    → lookup (birth_row w.backend agent_id) w.births ≡ none
unborn-lookup agent_id w h = elim (Option-cases (lookup (birth_row w.backend agent_id) w.births)) [
  | inl free ↦ free
  | inr (m, taken) ↦ ground arith
]

pub record_birth-Keeps : (agent_id memory : String) → Keeps (record_birth agent_id memory)
unfolding record_birth
record_birth-Keeps agent_id memory w =
    seq-Kept (has_birth agent_id) _ w (has_birth-Keeps agent_id w) λ b v e.
      let (same, answer) = has_birth-answer agent_id w b v e in
      elim (Bool-cases b) [
        | inl born ↦ rw born (same_births refl refl)
        | inr unborn ↦ rw unborn (
            fallible-Kept BirthError.store
              (λ u. record u { births = insert (birth_row u.backend agent_id) memory u.births }) v
              (insert-Kept (birth_row v.backend agent_id) memory (spend_fault v) (
                unborn-lookup agent_id v
                  (subst (λ u. is_born agent_id u ≡ false) (sym same) (sym answer ∙ unborn)))))
      ]
