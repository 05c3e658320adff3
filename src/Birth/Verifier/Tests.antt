-- ===== src/Birth/Verifier/Tests.antt =====
-- A signature of one bit, and documents that carry it, for the theorems on the verification.
use orion_dock.Prelude.{
  ℕ, String, Bool, true, false, Option, none, some, List, [], ◌∷◌, if◌then◌else◌, ◌==◌, ◌≡◌, refl,
  ◌↔◌, All, ◌⧺◌, lookup, remove, insert, concat,
}
use orion_dock.Birth.Machine.{World, ok}
use orion_dock.Birth.Orchestrator.{Platform, Birth}
use orion_dock.Birth.Ceremony.{
  constitution, sign_all, sign_constitutional_documents, complete_emergence,
}
use orion_dock.Birth.Verifier.{
  ethics_content, read_to_string, soul_content, CoreDocument, Dict, DocumentTier, valid, SigMeta,
  Crypto, sign_document, verify_soul,
}
use orion_dock.Birth.Verifier.Authentic.{Authentic, verify_soul_iff}
use orion_dock.Birth.Verifier.Contents.{Kept, verify_soul-Kept}
use orion_dock.Birth.Verifier.RoundTrip.{disk_of, verify_soul-emergence}
use orion_dock.Birth.Tests.{test_platform, ready, join_apart}

abbrev agree : Bool → Bool → Bool
agree true b = b
agree false true = false
agree false false = true

agree_refl : (b : Bool) → agree b b ≡ true
agree_refl true = refl
agree_refl false = refl

abbrev bit : Bool → List ℕ
bit true = 1 ∷ []
bit false = 0 ∷ []

abbrev bit_of : List ℕ → Option Bool
bit_of (ℕ.zero ∷ []) = some false
bit_of (ℕ.suc ℕ.zero ∷ []) = some true
bit_of _ = none

abbrev bit_text : List ℕ → String
bit_text (ℕ.suc ℕ.zero ∷ []) = "AQ=="
bit_text _ = "AA=="

abbrev meta_of : String → SigMeta
meta_of signature = record {
  signature = signature;
  tier = DocumentTier.constitutional;
  signed_at = "now";
}

-- Only the text of one document has the bit set.
abbrev test_library : Crypto
test_library = record {
  VerifyingKey = List ℕ;
  Signature = Bool;
  verifying_key = λ key. key;
  sign = λ key text. text == "soul.md|constitutional|soul";
  to_bytes = bit;
  from_slice = bit_of;
  verify = λ key text s. agree (text == "soul.md|constitutional|soul") s;
  encode = bit_text;
  decode = λ t. if t == "AQ==" then some (1 ∷ []) else if t == "AA==" then some (0 ∷ []) else none;
  print = λ m. m.signature ⧺ " of now";
  parse = λ t.
      if t == "AQ== of now"
      then some (meta_of "AQ==")
      else if t == "AA== of now"
      then some (meta_of "AA==")
      else none;
}

abbrev signing_platform : Platform (Unit {0})
signing_platform = record test_platform {
  sign = λ key doc content t.
      test_library.print
        (sign_document test_library key doc content DocumentTier.constitutional "now");
}

verify_sign :
    (key : List ℕ) (text : String)
    → test_library.verify (test_library.verifying_key key) text (test_library.sign key text) ≡ true
verify_sign key text = agree_refl (text == "soul.md|constitutional|soul")

from_slice_to_bytes : (s : Bool) → test_library.from_slice (bit s) ≡ some s
from_slice_to_bytes true = refl
from_slice_to_bytes false = refl

decode_encode : (s : Bool) → test_library.decode (bit_text (bit s)) ≡ some (bit s)
decode_encode true = refl
decode_encode false = refl

parse_print :
    (s : Bool) (t : ℕ)
    → test_library.parse (
        test_library.print (record {
          signature = bit_text (bit s);
          tier = DocumentTier.constitutional;
          signed_at = "now";
        }))
      ≡ some (meta_of (bit_text (bit s)))
parse_print true t = refl
parse_print false t = refl

abbrev signed_world : World
signed_world = (sign_constitutional_documents signing_platform (1 ∷ []) "docs/" ready.world).1

test_sign :
    sign_constitutional_documents signing_platform (1 ∷ []) "docs/" ready.world
    ≡ (ok tt, signed_world)
unfolding sign_all lookup insert remove
test_sign = refl

test_verify :
    (verify_soul test_library (1 ∷ []) (disk_of signing_platform signed_world) "docs/" []).0
    ≡ valid tt
unfolding verify_soul sign_document sign_all lookup insert remove concat
test_verify = refl

verify_soul_iff_example :
    ((verify_soul test_library (1 ∷ []) (disk_of signing_platform signed_world) "docs/" []).0
      ≡ valid tt)
    ↔ All
        (Authentic test_library (1 ∷ []) (disk_of signing_platform signed_world) "docs/")
        constitution
verify_soul_iff_example =
    verify_soul_iff test_library (1 ∷ []) (disk_of signing_platform signed_world) "docs/" []

abbrev signed_alive : Birth (Unit {0})
signed_alive = (complete_emergence signing_platform ready).1

test_emergence : complete_emergence signing_platform ready ≡ (ok tt, signed_alive)
unfolding complete_emergence lookup insert remove
test_emergence = refl

verify_soul-emergence_example :
    (key : List ℕ) × (ready.orchestrator.signing_key ≡ some key)
    × ((verify_soul test_library key (disk_of signing_platform signed_alive.world) "docs/" []).0
        ≡ valid tt)
verify_soul-emergence_example =
    verify_soul-emergence signing_platform join_apart test_library (λ key doc content t. refl)
      verify_sign from_slice_to_bytes decode_encode parse_print ready signed_alive [] test_emergence

abbrev kept_documents : Dict CoreDocument
kept_documents =
    (verify_soul test_library (1 ∷ []) (disk_of signing_platform signed_world) "docs/" []).1

test_kept :
    verify_soul test_library (1 ∷ []) (disk_of signing_platform signed_world) "docs/" []
    ≡ (valid tt, kept_documents)
unfolding verify_soul sign_document sign_all lookup insert remove concat
test_kept = refl

verify_soul-Kept_example :
    All
      (Kept test_library (1 ∷ []) (disk_of signing_platform signed_world) "docs/" kept_documents)
      constitution
    × (soul_content kept_documents
        ≡ read_to_string (disk_of signing_platform signed_world) "docs/soul.md")
    × (ethics_content kept_documents
        ≡ read_to_string (disk_of signing_platform signed_world) "docs/ethics.md")
verify_soul-Kept_example =
    verify_soul-Kept test_library (1 ∷ []) (disk_of signing_platform signed_world) "docs/" []
      kept_documents test_kept
