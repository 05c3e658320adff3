-- ===== src/Birth/Verifier.antt =====
-- crates/orion-core/src/verifier.rs and document.rs: the check of the constitutional documents, with
-- `sign_document` of crates/orion-core/src/keyring.rs. `Crypto` is the part of the ed25519, base64 and
-- JSON crates; a text stands for its UTF-8 bytes. The texts of those crates' errors are left out.
pub mod Authentic
pub mod Contents
pub mod RoundTrip
mod Tests
use mathlib.Core.Option
use orion_dock.Prelude.{
  String, Bool, true, false, Option, none, some, List, [], ◌∷◌, if◌then◌else◌, concat, ◌⧺◌, Dict,
  lookup, insert, ℕ,
}
use orion_dock.Birth.Ceremony.{constitution}

pub data CoreError : Type 0 where
  crypto signature_invalid document_not_found keyring config vault : String → CoreError
  io serialization : CoreError

pub data Checked (A : Type 0) : Type 0 where
  valid : A → Checked A
  invalid : CoreError → Checked A

infixl 5 ◌>>=◌
abbrev pub ◌>>=◌ : {A B : Type 0} → Checked A → (A → Checked B) → Checked B
(valid a >>= k) = k a
(invalid e >>= k) = invalid e

infixl 5 ◌>>◌
abbrev pub ◌>>◌ : {A B : Type 0} → Checked A → Checked B → Checked B
(m >> k) = (m >>= λ a. k)

abbrev pub or_error : {A : Type 0} → CoreError → Option A → Checked A
or_error e none = invalid e
or_error e (some a) = valid a

abbrev pub guard : Bool → CoreError → Checked Unit
guard b e = if b then valid tt else invalid e

pub data DocumentTier : Type 0 where
  constitutional mentor_editable : DocumentTier

abbrev pub as_str : DocumentTier → String
as_str DocumentTier.constitutional = "constitutional"
as_str DocumentTier.mentor_editable = "mentor_editable"

pub record CoreDocument : Type 0 where
  pub name : String
  pub tier : DocumentTier
  pub content : String
  pub signature : String
  pub signed_at : String

unfoldable pub signable_bytes : CoreDocument → String
signable_bytes d = concat (d.name ∷ "|" ∷ as_str d.tier ∷ "|" ∷ d.content ∷ [])

pub record SigMeta : Type 0 where
  pub signature : String
  pub tier : DocumentTier
  pub signed_at : String

pub record SignatureMetadata : Type 0 where
  pub signature : String
  pub tier : DocumentTier
  pub signed_at : String

pub record Crypto : Type 1 where
  pub VerifyingKey : Type 0
  pub Signature : Type 0
  pub verifying_key : List ℕ → VerifyingKey
  pub sign : List ℕ → String → Signature
  pub to_bytes : Signature → List ℕ
  pub from_slice : List ℕ → Option Signature
  pub verify : VerifyingKey → String → Signature → Bool
  pub encode : List ℕ → String
  pub decode : String → Option (List ℕ)
  pub print : SignatureMetadata → String
  pub parse : String → Option SigMeta

-- A directory tree: a file that is there may still be unreadable.
pub record Disk : Type 0 where
  pub files : Dict String
  pub readable : String → Bool
  pub join_path : String → String → String

abbrev pub is_file : Disk → String → Bool
is_file disk path = elim (lookup path disk.files) [ none ↦ false | some c ↦ true ]

abbrev pub read_to_string : Disk → String → Option String
read_to_string disk path = if disk.readable path then lookup path disk.files else none

module _ (library : Crypto) where
  unfoldable pub sign_document :
      List ℕ → String → String → DocumentTier → String → SignatureMetadata
  sign_document key doc_name content tier now = record {
    signature = library.encode (
        library.to_bytes
          (library.sign key (concat (doc_name ∷ "|" ∷ as_str tier ∷ "|" ∷ content ∷ []))));
    tier = tier;
    signed_at = now;
  }

  unfoldable pub verify_document : library.VerifyingKey → CoreDocument → Checked Unit
  unfolding signable_bytes
  verify_document pubkey d = do
    bytes ← or_error (crypto "Invalid signature encoding") (library.decode d.signature)
    signature ← or_error (crypto "Invalid signature") (library.from_slice bytes)
    guard (library.verify pubkey (signable_bytes d) signature) (signature_invalid d.name)

  -- A document with what its signature file says.
  unfoldable pub load_document : Disk → String → String → Checked CoreDocument
  load_document disk docs_path doc_name = do
    let doc_path = disk.join_path docs_path doc_name
    let sig_path = disk.join_path docs_path (doc_name ⧺ ".sig")
    guard (is_file disk doc_path) (document_not_found doc_name)
    guard (is_file disk sig_path) (document_not_found (doc_name ⧺ ".sig"))
    content ← or_error io (read_to_string disk doc_path)
    sig_json ← or_error io (read_to_string disk sig_path)
    found ← or_error (CoreError.config "Invalid .sig JSON") (library.parse sig_json)
    valid (record {
      name = doc_name;
      tier = found.tier;
      content = content;
      signature = found.signature;
      signed_at = found.signed_at;
    })

  unfoldable pub verify_named : library.VerifyingKey → Disk → String → String → Checked CoreDocument
  unfolding verify_document load_document
  verify_named pubkey disk docs_path doc_name = do
    doc ← load_document disk docs_path doc_name
    verify_document pubkey doc
    valid doc

  unfoldable pub verify_all :
      library.VerifyingKey
      → Disk
      → String
      → List String
      → Dict CoreDocument
      → Checked Unit × Dict CoreDocument
  unfolding verify_named
  verify_all pubkey disk docs_path [] documents = (valid tt, documents)
  verify_all pubkey disk docs_path (doc_name ∷ required) documents =
      elim (verify_named pubkey disk docs_path doc_name) [
        | invalid e ↦ (invalid e, documents)
        | valid doc ↦ verify_all pubkey disk docs_path required (insert doc_name doc documents)
      ]

  unfoldable pub verify_soul :
      library.VerifyingKey → Disk → String → Dict CoreDocument → Checked Unit × Dict CoreDocument
  unfolding verify_all
  verify_soul pubkey disk docs_path documents =
      verify_all pubkey disk docs_path constitution documents

unfoldable pub get_document : Dict CoreDocument → String → Option CoreDocument
get_document documents name = lookup name documents

unfoldable pub soul_content : Dict CoreDocument → Option String
unfolding get_document
soul_content documents = Option.map (λ d. d.content) (get_document documents "soul.md")

unfoldable pub ethics_content : Dict CoreDocument → Option String
unfolding get_document
ethics_content documents = Option.map (λ d. d.content) (get_document documents "ethics.md")
