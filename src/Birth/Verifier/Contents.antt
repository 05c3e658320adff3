-- ===== src/Birth/Verifier/Contents.antt =====
-- The documents that `verify_soul` of crates/orion-core/src/verifier.rs keeps.
use mathlib.Core.Option
use orion_dock.Prelude.{
  String, ◌≡◌, refl, sym, ap, ◌∙◌, inl, inr, false, some, List, [], ◌∷◌, All, ◌==◌, eq_refl, Dict,
  lookup, insert, lookup-insert,
}
use orion_dock.Birth.Ceremony.{constitution}
use orion_dock.Birth.Verifier.{
  valid, CoreDocument, Crypto, Disk, read_to_string, verify_named, verify_all, verify_soul,
  get_document, soul_content, ethics_content,
}
use orion_dock.Birth.Verifier.Authentic.{
  verified_split, valid-apart, verify_all-valid, verify_all-invalid, verify_named-ok, Stored,
  Verifies,
}

lookup-insert_same :
    (x : String) (d : CoreDocument) (m : Dict CoreDocument) → lookup x (insert x d m) ≡ some d
lookup-insert_same x d m = lookup-insert x x d m ∙ rw (eq_refl x) refl

module _ (library : Crypto) (pubkey : library.VerifyingKey) (disk : Disk) (docs_path : String) where
  verify_all-ok_cons :
      (doc_name : String) (required : List String) (m m' : Dict CoreDocument)
      → verify_all library pubkey disk docs_path (doc_name ∷ required) m ≡ (valid tt, m')
      → (d : CoreDocument) × (verify_named library pubkey disk docs_path doc_name ≡ valid d)
        × (verify_all library pubkey disk docs_path required (insert doc_name d m) ≡ (valid tt, m'))
  verify_all-ok_cons doc_name required m m' h =
      elim (verified_split (verify_named library pubkey disk docs_path doc_name)) [
        | inl (d, e) ↦
            (d, e, sym (verify_all-valid library pubkey disk docs_path doc_name required m d e) ∙ h)
        | inr (e, bad) ↦
            let failed =
              verify_all-invalid library pubkey disk docs_path doc_name required m e bad in
            absurd (valid-apart (ap (λ r. r.0) (sym failed ∙ h)))
      ]

  verify_all-other :
      (x : String) (required : List String) (m m' : Dict CoreDocument)
      → All (λ y. (y == x) ≡ false) required
      → verify_all library pubkey disk docs_path required m ≡ (valid tt, m')
      → lookup x m' ≡ lookup x m
  unfolding verify_all
  verify_all-other x [] m m' apart h = ap (λ r. lookup x r.1) (sym h)
  verify_all-other x (y ∷ required) m m' (differ, apart) h =
      let (d, e, rest) = verify_all-ok_cons y required m m' h in
      verify_all-other x required (insert y d m) m' apart rest
      ∙ (lookup-insert y x d m ∙ rw differ refl)

  -- A document that is kept under its name is the one stored in its files, with a valid signature.
  abbrev pub Kept : Dict CoreDocument → String → Type 0
  Kept documents doc_name =
      (d : CoreDocument) × (get_document documents doc_name ≡ some d)
      × Stored library pubkey disk docs_path doc_name d
      × Verifies library pubkey disk docs_path d

  keep :
      (doc_name : String) (required : List String) (d : CoreDocument) (m m' : Dict CoreDocument)
      → All (λ y. (y == doc_name) ≡ false) required
      → verify_named library pubkey disk docs_path doc_name ≡ valid d
      → verify_all library pubkey disk docs_path required (insert doc_name d m) ≡ (valid tt, m')
      → Kept m' doc_name
  unfolding get_document
  keep doc_name required d m m' apart e rest =
      let (stored, verifies) = verify_named-ok library pubkey disk docs_path doc_name d e in
      (
        d,
        verify_all-other doc_name required (insert doc_name d m) m' apart rest
            ∙ lookup-insert_same doc_name d m,
        stored,
        verifies,
      )

  Kept-content :
      (documents : Dict CoreDocument) (doc_name : String)
      → Kept documents doc_name
      → Option.map (λ d. d.content) (get_document documents doc_name)
        ≡ read_to_string disk (disk.join_path docs_path doc_name)
  Kept-content documents doc_name (d, found, stored, verifies) =
      ap (Option.map (λ d. d.content)) found ∙ sym stored.2

  -- After a verification that succeeds, each of the three documents is kept as stored, with its valid
  -- signature, and the contents that are handed out are the texts in the files.
  pub verify_soul-Kept :
      (documents documents' : Dict CoreDocument)
      → verify_soul library pubkey disk docs_path documents ≡ (valid tt, documents')
      → All (Kept documents') constitution
        × (soul_content documents' ≡ read_to_string disk (disk.join_path docs_path "soul.md"))
        × (ethics_content documents' ≡ read_to_string disk (disk.join_path docs_path "ethics.md"))
  unfolding verify_soul soul_content ethics_content
  verify_soul-Kept documents documents' h =
      let (d1, e1, r1) = verify_all-ok_cons "soul.md" ("ethics.md" ∷ "instincts.md" ∷ []) _ _ h in
      let (d2, e2, r2) = verify_all-ok_cons "ethics.md" ("instincts.md" ∷ []) _ _ r1 in
      let (d3, e3, r3) = verify_all-ok_cons "instincts.md" [] _ _ r2 in
      let soul =
        keep "soul.md" ("ethics.md" ∷ "instincts.md" ∷ []) d1 documents documents'
          (refl, (refl, tt)) e1 r1 in
      let ethics =
        keep "ethics.md" ("instincts.md" ∷ []) d2 (insert "soul.md" d1 documents) documents'
          (refl, tt) e2 r2 in
      let instincts =
        keep "instincts.md" [] d3 (insert "ethics.md" d2 (insert "soul.md" d1 documents)) documents'
          tt e3 r3 in
      (
        (soul, (ethics, (instincts, tt))),
        Kept-content documents' "soul.md" soul,
        Kept-content documents' "ethics.md" ethics,
      )
