-- ===== src/Birth/Machine.antt =====
-- What the birth of an agent reads and changes outside of its orchestrator, and the state and error
-- passing of its operations. `faults` is the future of the operations that may fail: each takes the
-- next entry, and fails if it is `true`. A failed write leaves its file as it was.
use orion_dock.Prelude.{
  ℕ, String, Bool, true, false, Option, none, some, List, [], ◌∷◌, if◌then◌else◌, Dict, lookup,
  insert,
}

pub data BirthError : Type 0 where
  already_born no_signing_key : BirthError
  stage_guard config : String → BirthError
  store io : BirthError

pub data Result (A : Type 0) : Type 0 where
  ok : A → Result A
  err : BirthError → Result A

pub record Config : Type 0 where
  pub data_dir : String
  pub docs_dir : String
  pub agent_id : Option String
  pub agent_name : Option String
  pub birth_complete : Bool
  pub birth_timestamp : Option String
  pub birth_stage : Option String
  pub external_pubkey_path : Option String

-- The memory store's database: SQLite keeps one birth for its file, Postgres one for each agent.
pub data MemoryStore : Type 0 where
  sqlite postgres : MemoryStore

abbrev pub birth_row : MemoryStore → String → String
birth_row MemoryStore.sqlite agent_id = "1"
birth_row MemoryStore.postgres agent_id = agent_id

-- The clock and the random numbers advance with `ticks`.
pub record World : Type 0 where
  pub files : Dict String
  pub backend : MemoryStore
  pub births : Dict String
  pub saved : Option Config
  pub faults : List Bool
  pub ticks : ℕ

-- An operation on a state of type `S`.
abbrev pub Run : Type 0 → Type 0 → Type 0
Run S A = S → Result A × S

-- What follows a run: an error stops.
abbrev pub and_then : {S A B : Type 0} → Result A × S → (A → Run S B) → Result B × S
and_then (ok a, s) k = k a s
and_then (err e, s) k = (err e, s)

infixl 5 ◌>>=◌
abbrev pub ◌>>=◌ : {S A B : Type 0} → Run S A → (A → Run S B) → Run S B
(m >>= k) s = and_then (m s) k

infixl 5 ◌>>◌
abbrev pub ◌>>◌ : {S A B : Type 0} → Run S A → Run S B → Run S B
(m >> k) s = and_then (m s) (λ a. k)

abbrev pub pure : {S A : Type 0} → A → Run S A
pure a s = (ok a, s)

abbrev pub fail : {S A : Type 0} → BirthError → Run S A
fail e s = (err e, s)

abbrev pub next_fault : World → Bool
next_fault w = elim w.faults [ [] ↦ false | f ∷ fs ↦ f ]

abbrev pub spend_fault : World → World
spend_fault w = record w { faults = elim w.faults [ [] ↦ [] | f ∷ fs ↦ fs ] }

-- An effect that may fail with `e`.
unfoldable pub fallible : BirthError → (World → World) → Run World Unit
fallible e f w = if next_fault w then (err e, spend_fault w) else (ok tt, f (spend_fault w))

abbrev pub write : String → String → Run World Unit
write path content = fallible io (λ w. record w { files = insert path content w.files })

abbrev pub exists : String → World → Bool
exists path w = elim (lookup path w.files) [ none ↦ false | some c ↦ true ]

abbrev pub is_born : String → World → Bool
is_born agent_id w = elim (lookup (birth_row w.backend agent_id) w.births) [
  | none ↦ false
  | some m ↦ true
]

-- `MemoryStore::has_birth`
unfoldable pub has_birth : String → Run World Bool
has_birth agent_id w =
    if next_fault w then (err store, spend_fault w) else (ok (is_born agent_id w), spend_fault w)

-- `MemoryStore::record_birth`
unfoldable pub record_birth : String → String → Run World Unit
unfolding has_birth fallible
record_birth agent_id memory = do
  born ← has_birth agent_id
  (if born
      then fail store
      else fallible store
          (λ w. record w { births = insert (birth_row w.backend agent_id) memory w.births }))
