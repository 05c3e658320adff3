-- ===== src/Skills/Sandbox/Grants.antt =====
-- Which permission grants which action, as a relation on the data of crates/orion-skills/src/sandbox.rs.
use text.Mathlib.TextLemmas.{nil-append}
use orion_dock.Prelude.{
  String, ◌≡◌, refl, sym, ◌∙◌, ◌↔◌, inl, inr, Bool, true, false, Option, some, List, ◌⧺◌, ◌==◌,
  ◌||◌, Elem, Elem-any, any-Elem, any, eq_iff, or_eq_true, or_left, or_right, starts_with,
  ends_with,
}
use orion_dock.Affixes.{starts_with-append_iff, ends_with_iff}
use orion_dock.Skills.Manifest.{
  NetworkPermission, FileSystemPermission, MemoryPermission, Permission, network, file_system,
  memory,
}
use orion_dock.Skills.Sandbox.{
  AuditActionKind, network_request, file_read, file_write, memory_access, other, SkillSandbox,
  is_under, permits, check_permission_inner,
}

-- The path itself, or a path below it, compared roots texts.
pub data Under (path a : String) : Type 0 where
  itself : path ≡ a → Under path a
  below : (rest : String) → path ≡ (a ⧺ "/") ⧺ rest → Under path a

pub data Grants : AuditActionKind → Permission → Type 0 where
  any_host : {d : String} → Grants (network_request d) (network NetworkPermission.full)
  localhost :
      {d : String}
      → d ≡ "localhost"
      → Grants (network_request d) (network NetworkPermission.local_only)
  loopback :
      {d : String} (rest : String)
      → d ≡ "127." ⧺ rest
      → Grants (network_request d) (network NetworkPermission.local_only)
  suffix_of :
      {d : String} {ds : List String} (s p : String)
      → Elem s ds
      → d ≡ p ⧺ s
      → Grants (network_request d) (network (NetworkPermission.domains ds))
  read_any : {p : String} → Grants (file_read p) (file_system FileSystemPermission.full)
  read_under :
      {p : String} {allowed : List String} (a : String)
      → Elem a allowed
      → Under p a
      → Grants (file_read p) (file_system (FileSystemPermission.read allowed))
  write_any : {p : String} → Grants (file_write p) (file_system FileSystemPermission.full)
  write_under :
      {p : String} {allowed : List String} (a : String)
      → Elem a allowed
      → Under p a
      → Grants (file_write p) (file_system (FileSystemPermission.write allowed))
  memory_read : {n : Option String} → Grants (memory_access n) (memory MemoryPermission.read_only)
  memory_all : {n : Option String} → Grants (memory_access n) (memory MemoryPermission.read_write)
  memory_in :
      {n ns : String}
      → n ≡ ns
      → Grants (memory_access (some n)) (memory (MemoryPermission.namespace ns))

is_under_iff : (path a : String) → (is_under path a ≡ true) ↔ Under path a
unfolding is_under
is_under_iff path a = (there, back)
  where
    there : (path == a || starts_with path (a ⧺ "/")) ≡ true → Under path a
    there h = elim (or_eq_true _ _ h) [
      | inl e ↦ itself ((eq_iff _ _).0 e)
      | inr e ↦ let (r, q) = (starts_with-append_iff _ _).0 e in below r q
    ]

    back : Under path a → (path == a || starts_with path (a ⧺ "/")) ≡ true
    back (itself e) = or_left _ _ ((eq_iff _ _).1 e)
    back (below r e) = or_right _ _ ((starts_with-append_iff _ _).1 (r, e))

any-Under :
    (path : String) (roots : List String)
    → any (is_under path) roots ≡ true
    → (a : String) × Elem a roots × Under path a
any-Under path roots h =
    let (a, e, u) = any-Elem (is_under path) roots h in (a, e, (is_under_iff path a).0 u)

-- A permission that the loop accepts grants the action, by one of the listed reasons.
permits→Grants : (k : AuditActionKind) (p : Permission) → permits k p ≡ true → Grants k p
unfolding permits
permits→Grants (network_request d) (network NetworkPermission.full) h = any_host
permits→Grants (network_request d) (network NetworkPermission.local_only) h =
    elim (or_eq_true _ _ h) [
      | inl e ↦ localhost ((eq_iff _ _).0 e)
      | inr e ↦ let (r, q) = (starts_with-append_iff _ _).0 e in loopback r q
    ]
permits→Grants (network_request d) (network (NetworkPermission.domains ds)) h =
    let (s, e, t) = any-Elem (λ s. d == s || ends_with d s) ds h in
    elim (or_eq_true _ _ t) [
      | inl same ↦ suffix_of s "" e ((eq_iff _ _).0 same ∙ sym (nil-append s))
      | inr ends ↦ let (p, q) = (ends_with_iff _ _).0 ends in suffix_of s p e q
    ]
permits→Grants (file_read p) (file_system FileSystemPermission.full) h = read_any
permits→Grants (file_read p) (file_system (FileSystemPermission.read roots)) h =
    let (a, e, u) = any-Under p roots h in read_under a e u
permits→Grants (file_write p) (file_system FileSystemPermission.full) h = write_any
permits→Grants (file_write p) (file_system (FileSystemPermission.write roots)) h =
    let (a, e, u) = any-Under p roots h in write_under a e u
permits→Grants (memory_access n) (memory MemoryPermission.read_only) h = memory_read
permits→Grants (memory_access n) (memory MemoryPermission.read_write) h = memory_all
permits→Grants (memory_access (some n)) (memory (MemoryPermission.namespace ns)) h =
    memory_in ((eq_iff _ _).0 h)
permits→Grants _ _ h = cc

Grants→permits : {k : AuditActionKind} {p : Permission} → Grants k p → permits k p ≡ true
unfolding permits
Grants→permits any_host = refl
Grants→permits (localhost e) = or_left _ _ ((eq_iff _ _).1 e)
Grants→permits (loopback r e) = or_right _ _ ((starts_with-append_iff _ _).1 (r, e))
Grants→permits (suffix_of {d} s p e q) =
    Elem-any (λ s. d == s || ends_with d s) e (or_right _ _ ((ends_with_iff _ _).1 (p, q)))
Grants→permits read_any = refl
Grants→permits (read_under {p} a e u) = Elem-any (is_under p) e ((is_under_iff p a).1 u)
Grants→permits write_any = refl
Grants→permits (write_under {p} a e u) = Elem-any (is_under p) e ((is_under_iff p a).1 u)
Grants→permits memory_read = refl
Grants→permits memory_all = refl
Grants→permits (memory_in e) = (eq_iff _ _).1 e

-- The actions that the sandbox judges; every other one it allows.
abbrev pub is_other : AuditActionKind → Bool
is_other (other _) = true
is_other _ = false

inner :
    (s : SkillSandbox) (k : AuditActionKind)
    → is_other k ≡ false
    → check_permission_inner s k ≡ any (permits k) s.granted_permissions
unfolding check_permission_inner
inner s (other t) h = cc
inner s _ h = refl

-- A judged action is allowed exactly when some granted permission grants it.
pub check_permission_inner_iff :
    (s : SkillSandbox) (k : AuditActionKind)
    → is_other k ≡ false
    → (check_permission_inner s k ≡ true)
      ↔ ((p : Permission) × Elem p s.granted_permissions × Grants k p)
check_permission_inner_iff s k h = (
  λ e.
      let (p, m, q) = any-Elem (permits k) s.granted_permissions (sym (inner s k h) ∙ e) in
      (p, m, permits→Grants k p q),
  λ (p, m, g). inner s k h ∙ Elem-any (permits k) m (Grants→permits g),
)

mono :
    (s t : SkillSandbox) (k : AuditActionKind)
    → ((p : Permission) → Elem p s.granted_permissions → Elem p t.granted_permissions)
    → any (permits k) s.granted_permissions ≡ true
    → any (permits k) t.granted_permissions ≡ true
mono s t k sub h =
    let (p, m, q) = any-Elem (permits k) s.granted_permissions h in Elem-any (permits k) (sub p m) q

-- The check reads which permissions are granted, not their order or how often each stands.
pub check_permission_inner_mono :
    (s t : SkillSandbox) (k : AuditActionKind)
    → ((p : Permission) → Elem p s.granted_permissions → Elem p t.granted_permissions)
    → check_permission_inner s k ≡ true
    → check_permission_inner t k ≡ true
unfolding check_permission_inner
check_permission_inner_mono s t (other x) sub h = refl
check_permission_inner_mono s t (network_request d) sub h = mono s t (network_request d) sub h
check_permission_inner_mono s t (file_read d) sub h = mono s t (file_read d) sub h
check_permission_inner_mono s t (file_write d) sub h = mono s t (file_write d) sub h
check_permission_inner_mono s t (memory_access d) sub h = mono s t (memory_access d) sub h
