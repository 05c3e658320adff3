-- ===== src/Birth/Verifier/Authentic.antt =====
-- What the verification in crates/orion-core/src/verifier.rs accepts, as a relation on the files.
use orion_dock.Prelude.{
  ◌⊎◌, subst, then_of, else_of, String, Bool, true, false, Option, none, some, List, [], ◌∷◌,
  concat, ◌⧺◌, Dict, lookup, insert, ℕ, ◌≡◌, refl, sym, ap, ◌∙◌, ◌↔◌, All, inl, inr, Bool-cases,
}
use orion_dock.Birth.Ceremony.{constitution}
use orion_dock.Birth.Verifier.{
  document_not_found, io, CoreError, Checked, valid, invalid, ◌>>=◌, or_error, guard, as_str,
  CoreDocument, signable_bytes, SigMeta, Crypto, Disk, is_file, read_to_string, verify_document,
  load_document, verify_named, verify_all, verify_soul,
}

bind-ok :
    {A B : Type 0} (m : Checked A) (k : A → Checked B) {b : B}
    → (m >>= k) ≡ valid b
    → (a : A) × (m ≡ valid a) × (k a ≡ valid b)
bind-ok (valid a) k h = (a, refl, h)
bind-ok (invalid e) k h = cc

or_error-ok :
    {A : Type 0} (e : CoreError) (o : Option A) {a : A} → or_error e o ≡ valid a → o ≡ some a
or_error-ok e none h = cc
or_error-ok e (some a) h = cc

guard-ok : (b : Bool) (e : CoreError) {u : Unit} → guard b e ≡ valid u → b ≡ true
guard-ok true e h = refl
guard-ok false e h = cc

read-is_file :
    (disk : Disk) (path : String) {c : String}
    → read_to_string disk path ≡ some c
    → is_file disk path ≡ true
read-is_file disk path h = elim (Bool-cases (disk.readable path)) [
  | inl there ↦ rw (is_file, then_of none there h) refl
  | inr shut ↦ let e = else_of (lookup path disk.files) shut h in cc
]

valid-injective : {A : Type 0} {a b : A} → valid a ≡ valid b → a ≡ b
valid-injective h = cc

pub valid-apart : {A : Type 0} {e : CoreError} {a : A} → invalid e ≡ valid a → ⊥
valid-apart h = cc

pub verified_split :
    {A : Type 0} (m : Checked A) → ((a : A) × (m ≡ valid a)) ⊎ ((e : CoreError) × (m ≡ invalid e))
verified_split (valid a) = inl (a, refl)
verified_split (invalid e) = inr (e, refl)

module _ (library : Crypto) (pubkey : library.VerifyingKey) (disk : Disk) (docs_path : String) where
  -- The signature of a document, decoded, is one of its name, tier and content.
  abbrev pub Verifies : CoreDocument → Type 0
  Verifies d =
      (bytes : List ℕ) × (s : library.Signature) × (library.decode d.signature ≡ some bytes)
      × (library.from_slice bytes ≡ some s)
      × (library.verify pubkey (concat (d.name ∷ "|" ∷ as_str d.tier ∷ "|" ∷ d.content ∷ [])) s
          ≡ true)

  -- The document that two readable files make.
  abbrev pub Stored : String → CoreDocument → Type 0
  Stored doc_name d =
      (sig_json : String) × (found : SigMeta) × (read_to_string disk
          (disk.join_path docs_path doc_name)
        ≡ some d.content)
      × (read_to_string disk (disk.join_path docs_path (doc_name ⧺ ".sig")) ≡ some sig_json)
      × (library.parse sig_json ≡ some found)
      × (d ≡ record {
        name = doc_name;
        tier = found.tier;
        content = d.content;
        signature = found.signature;
        signed_at = found.signed_at;
      })

  abbrev pub Authentic : String → Type 0
  Authentic doc_name = (d : CoreDocument) × Stored doc_name d × Verifies d

  verify_document-ok :
      (d : CoreDocument) {u : Unit} → verify_document library pubkey d ≡ valid u → Verifies d
  unfolding verify_document signable_bytes
  verify_document-ok d h =
      let (bytes, h1, r1) = bind-ok (or_error _ (library.decode d.signature)) _ h in
      let (s, h2, r2) = bind-ok (or_error _ (library.from_slice bytes)) _ r1 in
      (bytes, s, or_error-ok _ _ h1, or_error-ok _ _ h2, guard-ok _ _ r2)

  Verifies-verify : (d : CoreDocument) → Verifies d → verify_document library pubkey d ≡ valid tt
  unfolding verify_document signable_bytes
  Verifies-verify d (bytes, s, p, q, r) = rw (p, q, r) refl

  load_document-ok :
      (doc_name : String) (d : CoreDocument)
      → load_document library disk docs_path doc_name ≡ valid d
      → Stored doc_name d
  unfolding load_document
  load_document-ok doc_name d h =
      let doc_path = disk.join_path docs_path doc_name in
      let sig_path = disk.join_path docs_path (doc_name ⧺ ".sig") in
      let (u1, h1, r1) =
        bind-ok (guard (is_file disk doc_path) (document_not_found doc_name)) _ h in
      let (u2, h2, r2) =
        bind-ok (guard (is_file disk sig_path) (document_not_found (doc_name ⧺ ".sig"))) _ r1 in
      let (content, h3, r3) = bind-ok (or_error io (read_to_string disk doc_path)) _ r2 in
      let (sig_json, h4, r4) = bind-ok (or_error io (read_to_string disk sig_path)) _ r3 in
      let (found, h5, r5) =
        bind-ok (or_error (CoreError.config "Invalid .sig JSON") (library.parse sig_json)) _ r4 in
      let same = valid-injective r5 in
      (
        sig_json,
        found,
        or_error-ok io _ h3 ∙ ap (λ d. some d.content) same,
        or_error-ok io _ h4,
        or_error-ok _ _ h5,
        sym same
            ∙ ap
                (λ (e : CoreDocument). record {
                  name = doc_name;
                  tier = found.tier;
                  content = e.content;
                  signature = found.signature;
                  signed_at = found.signed_at;
                })
                same,
      )

  Stored-load :
      (doc_name : String) (d : CoreDocument)
      → Stored doc_name d
      → load_document library disk docs_path doc_name ≡ valid d
  unfolding load_document
  Stored-load doc_name d (sig_json, found, p, q, r, e) =
      rw (read-is_file disk _ p, read-is_file disk _ q, p, q, r) (ap valid (sym e))

  pub verify_named-ok :
      (doc_name : String) (d : CoreDocument)
      → verify_named library pubkey disk docs_path doc_name ≡ valid d
      → Stored doc_name d × Verifies d
  unfolding verify_named
  verify_named-ok doc_name d h =
      let (doc, h1, r1) = bind-ok (load_document library disk docs_path doc_name) _ h in
      let (u, h2, r2) = bind-ok (verify_document library pubkey doc) _ r1 in
      let same = valid-injective r2 in
      (
        subst (Stored doc_name) same (load_document-ok doc_name doc h1),
        subst Verifies same (verify_document-ok doc h2),
      )

  Authentic-verify :
      (doc_name : String) (d : CoreDocument)
      → Stored doc_name d
      → Verifies d
      → verify_named library pubkey disk docs_path doc_name ≡ valid d
  unfolding verify_named
  Authentic-verify doc_name d stored verifies =
      rw (Stored-load doc_name d stored, Verifies-verify d verifies) refl

  pub verify_all-valid :
      (doc_name : String) (required : List String) (documents : Dict CoreDocument)
      (d : CoreDocument)
      → verify_named library pubkey disk docs_path doc_name ≡ valid d
      → verify_all library pubkey disk docs_path (doc_name ∷ required) documents
        ≡ verify_all library pubkey disk docs_path required (insert doc_name d documents)
  unfolding verify_all
  verify_all-valid doc_name required documents d e = rw (e, verify_all) refl

  pub verify_all-invalid :
      (doc_name : String) (required : List String) (documents : Dict CoreDocument) (e : CoreError)
      → verify_named library pubkey disk docs_path doc_name ≡ invalid e
      → verify_all library pubkey disk docs_path (doc_name ∷ required) documents
        ≡ (invalid e, documents)
  unfolding verify_all
  verify_all-invalid doc_name required documents e bad = rw (bad, verify_all) refl

  verify_all-ok :
      (required : List String) (documents : Dict CoreDocument)
      → (verify_all library pubkey disk docs_path required documents).0 ≡ valid tt
      → All Authentic required
  unfolding verify_all
  verify_all-ok [] documents h = tt
  verify_all-ok (doc_name ∷ required) documents h =
      elim (verified_split (verify_named library pubkey disk docs_path doc_name)) [
        | inl (d, e) ↦
            let (stored, verifies) = verify_named-ok doc_name d e in
            (
              (d, stored, verifies),
              verify_all-ok required (insert doc_name d documents)
                  (ap (λ r. r.0) (sym (verify_all-valid doc_name required documents d e)) ∙ h),
            )
        | inr (e, bad) ↦ absurd (
            valid-apart
              (ap (λ r. r.0) (sym (verify_all-invalid doc_name required documents e bad)) ∙ h))
      ]

  All-verify :
      (required : List String) (documents : Dict CoreDocument)
      → All Authentic required
      → (verify_all library pubkey disk docs_path required documents).0 ≡ valid tt
  unfolding verify_all
  All-verify [] documents h = refl
  All-verify (doc_name ∷ required) documents ((d, stored, verifies), rest) =
      ap (λ r. r.0)
        (verify_all-valid doc_name required documents d
          (Authentic-verify doc_name d stored verifies))
      ∙ All-verify required (insert doc_name d documents) rest

  -- The verification succeeds exactly when the two files of each of the three documents are readable,
  -- and the signature in one of them is valid for the name, the tier and the content.
  pub verify_soul_iff :
      (documents : Dict CoreDocument)
      → ((verify_soul library pubkey disk docs_path documents).0 ≡ valid tt)
        ↔ All Authentic constitution
  unfolding verify_soul
  verify_soul_iff documents =
      (verify_all-ok constitution documents, All-verify constitution documents)
