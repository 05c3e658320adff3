-- ===== src/Birth/Verifier/RoundTrip.antt =====
-- `sign_constitutional_documents` of crates/orion-core/src/keyring.rs, or an emergence, and then
-- `verify_soul` of crates/orion-core/src/verifier.rs on the same files.
use orion_dock.Prelude.{
  Elem, String, true, some, List, [], ◌∷◌, concat, Dict, ℕ, ◌≡◌, refl, ap, ◌∙◌, All, All-mono,
}
use orion_dock.Birth.Machine.{World, ok}
use orion_dock.Birth.Orchestrator.{Platform, Birth}
use orion_dock.Birth.Ceremony.{
  document_files, constitution, sign_constitutional_documents, complete_emergence,
}
use orion_dock.Birth.Emergence.{Signed, sign_constitution-ok}
use orion_dock.Birth.Completion.{complete_emergence-Born}
use orion_dock.Birth.Verifier.{
  DocumentTier, valid, CoreDocument, Crypto, Disk, sign_document, verify_soul,
}
use orion_dock.Birth.Verifier.Authentic.{Authentic, verify_soul_iff}

-- The files that a world leaves, all of them readable.
abbrev pub disk_of : {E : Type 0} → Platform E → World → Disk
disk_of platform w = record {
  files = w.files;
  readable = λ p. true;
  join_path = platform.join_path;
}

module _ {Engine : Type 0} (platform : Platform Engine)
    (join_apart : (d x y : String)
      → Elem x document_files
      → Elem y document_files
      → platform.join_path d x ≡ platform.join_path d y
      → x ≡ y)
    (library : Crypto)
    (signs : (key : List ℕ) (doc content : String) (t : ℕ)
      → platform.sign key doc content t
        ≡ library.print
            (sign_document library key doc content DocumentTier.constitutional (platform.now t)))
    (verify_sign : (key : List ℕ) (text : String)
      → library.verify (library.verifying_key key) text (library.sign key text) ≡ true)
    (from_slice_to_bytes : (s : library.Signature)
      → library.from_slice (library.to_bytes s) ≡ some s)
    (decode_encode : (s : library.Signature)
      → library.decode (library.encode (library.to_bytes s)) ≡ some (library.to_bytes s))
    (parse_print : (s : library.Signature) (t : ℕ)
      → let signature = library.encode (library.to_bytes s) in
        let tier = DocumentTier.constitutional in
        library.parse (
          library.print (record { signature = signature; tier = tier; signed_at = platform.now t }))
        ≡ some (record { signature = signature; tier = tier; signed_at = platform.now t })) where
  Signed-Authentic :
      (key : List ℕ) (docs doc : String) (w v : World)
      → Signed platform key docs w v doc
      → Authentic library (library.verifying_key key) (disk_of platform v) docs doc
  unfolding sign_document
  Signed-Authentic key docs doc w v (content, t, was, there, sig) =
      let tier = DocumentTier.constitutional in
      let text = concat (doc ∷ "|" ∷ "constitutional" ∷ "|" ∷ content ∷ []) in
      let bytes = library.to_bytes (library.sign key text) in
      (
        record {
          name = doc;
          tier = tier;
          content = content;
          signature = library.encode bytes;
          signed_at = platform.now t;
        },
        (
          library.print (sign_document library key doc content tier (platform.now t)),
          record { signature = library.encode bytes; tier = tier; signed_at = platform.now t },
          there,
          sig ∙ ap some (signs key doc content t),
          parse_print (library.sign key text) t,
          refl,
        ),
        (
          bytes,
          library.sign key text,
          decode_encode (library.sign key text),
          from_slice_to_bytes (library.sign key text),
          verify_sign key text,
        ),
      )

  Signed-verify :
      (key : List ℕ) (docs : String) (w v : World) (documents : Dict CoreDocument)
      → All (Signed platform key docs w v) constitution
      → (verify_soul library (library.verifying_key key) (disk_of platform v) docs documents).0
        ≡ valid tt
  Signed-verify key docs w v documents signed =
      (verify_soul_iff library (library.verifying_key key) (disk_of platform v) docs documents).1 (
        All-mono (Signed platform key docs w v)
          (Authentic library (library.verifying_key key) (disk_of platform v) docs) constitution
          (λ doc. Signed-Authentic key docs doc w v) signed)

  -- When joining paths keeps the names of the three documents and of their signatures apart, the signatures are the library's, and the library
  -- verifies, decodes and parses what it signs, encodes and prints: after the constitutional documents
  -- were signed, their verification with the public key of the signing key succeeds.
  pub verify_soul-sign :
      (key : List ℕ) (docs : String) (w v : World) (documents : Dict CoreDocument)
      → sign_constitutional_documents platform key docs w ≡ (ok tt, v)
      → (verify_soul library (library.verifying_key key) (disk_of platform v) docs documents).0
        ≡ valid tt
  verify_soul-sign key docs w v documents h =
      Signed-verify key docs w v documents
        (sign_constitution-ok platform join_apart key docs w v h).0

  -- When joining paths keeps the names of the three documents and of their signatures apart, the
  -- signatures are the library's, and the library verifies, decodes and parses what it signs, encodes and
  -- prints: an emergence that succeeds held a key, and the verification of the constitutional documents
  -- with its public key succeeds on the files that it leaves, if these can be read.
  pub verify_soul-emergence :
      (b b' : Birth Engine) (documents : Dict CoreDocument)
      → complete_emergence platform b ≡ (ok tt, b')
      → (key : List ℕ) × (b.orchestrator.signing_key ≡ some key)
        × ((verify_soul library
              (library.verifying_key key)
              (disk_of platform b'.world)
              b.orchestrator.config.docs_dir
              documents).0
            ≡ valid tt)
  verify_soul-emergence b b' documents h =
      let born = complete_emergence-Born platform join_apart b b' h in
      (
        born.key,
        born.held,
        Signed-verify born.key b.orchestrator.config.docs_dir b.world b'.world documents
            born.signed,
      )
