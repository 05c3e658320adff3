-- ===== src/Core/Policy/Gate.antt =====
-- When the gate denies a request, and what an advisory takes away.
use orion_dock.Core.Superego.Queries.{check_search_query}
use orion_dock.Prelude.{
  Holds, and_iff, or_iff, Elem, List, [], ◌∷◌, ◌↔◌, ◌⊎◌, inl, inr, any, any-Elem, Elem-any, eq_iff,
  eq_refl, subst, String, ◌≡◌, refl, sym, ap, ◌∙◌, Bool, true, false, not, ◌&&◌, ◌||◌, Option, none,
  some, arith, if◌then◌else◌, ◌==◌,
}
use orion_dock.Core.Superego.{Unicode, SuperegoVerdict}
use orion_dock.Core.Policy.{
  write_restricted, exec_restricted, web_restricted, by_verdict, CapabilityEnvelope,
  CapabilityGateResult, denied_query, evaluate_tool_request, evaluate_user_message_for_capabilities,
  extract_search_like_query, granted, is_exec, is_web,
}

abbrev is_denied : Option SuperegoVerdict → Bool
is_denied none = false
is_denied (some v) = true

-- The gate's decision, by its four tests.
gate_allowed :
    (a b c d : Bool) (o : Option SuperegoVerdict) (x y z g : CapabilityGateResult)
    → x.allowed ≡ false
    → y.allowed ≡ false
    → z.allowed ≡ false
    → g.allowed ≡ true
    → (if a
        then x
        else if b
        then y
        else if c
        then z
        else elim (if d then o else none) [ some v ↦ by_verdict v | none ↦ g ]).allowed
      ≡ not (((a || b) || c) || (d && is_denied o))
gate_allowed true b c d o x y z g hx hy hz hg = hx
gate_allowed false true c d o x y z g hx hy hz hg = hy
gate_allowed false false true d o x y z g hx hy hz hg = hz
gate_allowed false false false true (some v) x y z g hx hy hz hg = refl
gate_allowed false false false true none x y z g hx hy hz hg = hg
gate_allowed false false false false o x y z g hx hy hz hg = hg

listed_iff :
    (tool : String) (names : List String) → Holds (any (λ n. tool == n) names) (Elem tool names)
listed_iff tool names = (
  λ h.
      let (n, e, same) = any-Elem (λ n. tool == n) names h in
      subst (λ n. Elem n names) (sym ((eq_iff tool n).0 same)) e,
  λ e. Elem-any (λ n. tool == n) e (eq_refl tool),
)

last_of_three : (a b c : Bool) → (a || (b || (c || false))) ≡ (a || b || c)
last_of_three a b c = ground arith

last_of_two : (a b : Bool) → (a || (b || false)) ≡ (a || b)
last_of_two a b = ground arith

off_iff : (b : Bool) → Holds (not b) (b ≡ false)
off_iff b = (λ h. ground arith, λ h. ground arith)

not-false : (b : Bool) → not b ≡ false → b ≡ true
not-false b h = ground arith

module _ {Value : Type 0} (u : Unicode) (as_text : String → Value → Option String) (tool : String)
    (args : Value) where
  abbrev query_denied : Bool
  query_denied =
      is_web tool && is_denied (denied_query u as_text (extract_search_like_query u as_text args))

  evaluate_tool_request-allowed :
      (e : CapabilityEnvelope)
      → (evaluate_tool_request u as_text tool args e).allowed
        ≡ not (
            ((not e.allow_web && is_web tool || not e.allow_toolbox_exec && is_exec tool)
              || not e.allow_file_write && tool == "file_write")
            || query_denied)
  unfolding evaluate_tool_request
  evaluate_tool_request-allowed e =
      gate_allowed (not e.allow_web && is_web tool) (not e.allow_toolbox_exec && is_exec tool)
        (not e.allow_file_write && tool == "file_write") (is_web tool)
        (denied_query u as_text (extract_search_like_query u as_text args)) web_restricted
        exec_restricted write_restricted (granted u as_text tool e) refl refl refl refl

  advisory_parts :
      (w x f q : Bool)
      → not (((false && w || true && x) || true && f) || q)
        ≡ (not (((false && w || false && x) || false && f) || q) && not (x || f))
  advisory_parts w x f q = ground arith

  -- An advisory takes away the execution of tools and the writing of files, and nothing else.
  advisory-allowed :
      (code : String)
      → (evaluate_tool_request u as_text tool args
          (evaluate_user_message_for_capabilities (some code))).allowed
        ≡ ((evaluate_tool_request u as_text tool args
              (evaluate_user_message_for_capabilities none)).allowed
            && not (is_exec tool || tool == "file_write"))
  unfolding evaluate_user_message_for_capabilities
  advisory-allowed code =
      evaluate_tool_request-allowed (evaluate_user_message_for_capabilities (some code))
      ∙ (advisory_parts (is_web tool) (is_exec tool) (tool == "file_write") query_denied
          ∙ ap (λ b. b && not (is_exec tool || tool == "file_write"))
              (sym (evaluate_tool_request-allowed (evaluate_user_message_for_capabilities none))))

  -- The text that a request searches for: under `query`, or else under `url`
  pub data Queried : String → Type 0 where
    by_query : {q : String} → as_text "query" args ≡ some q → Queried q
    by_url : {q : String} → as_text "query" args ≡ none → as_text "url" args ≡ some q → Queried q

  -- The reasons to deny a request: its kind is switched off, or it is a web request and the check of
  -- searches denies the text that it searches for.
  pub data Denied (e : CapabilityEnvelope) : Type 0 where
    no_web :
        e.allow_web ≡ false
        → Elem tool ("web_search" ∷ "perplexity_search" ∷ "web_browse" ∷ [])
        → Denied e
    no_exec :
        e.allow_toolbox_exec ≡ false → Elem tool ("toolbox_exec" ∷ "shell_execute" ∷ []) → Denied e
    no_write : e.allow_file_write ≡ false → tool ≡ "file_write" → Denied e
    bad_query :
        (q : String)
        → Elem tool ("web_search" ∷ "perplexity_search" ∷ "web_browse" ∷ [])
        → Queried q
        → (check_search_query u q).allowed ≡ false
        → Denied e

  web_iff : Holds (is_web tool) (Elem tool ("web_search" ∷ "perplexity_search" ∷ "web_browse" ∷ []))
  web_iff =
      subst (λ b. Holds b (Elem tool ("web_search" ∷ "perplexity_search" ∷ "web_browse" ∷ [])))
        (last_of_three (tool == "web_search") _ _) (listed_iff tool _)

  exec_iff : Holds (is_exec tool) (Elem tool ("toolbox_exec" ∷ "shell_execute" ∷ []))
  exec_iff =
      subst (λ b. Holds b (Elem tool ("toolbox_exec" ∷ "shell_execute" ∷ [])))
        (last_of_two (tool == "toolbox_exec") _) (listed_iff tool _)

  abbrev DeniedQuery : Type 0
  DeniedQuery = (q : String) × Queried q × ((check_search_query u q).allowed ≡ false)

  abbrev query_of : Option String → Option String → Option String
  query_of (some q) url = some q
  query_of none url = url

  extract-query_of :
      (query url : Option String)
      → as_text "query" args ≡ query
      → as_text "url" args ≡ url
      → extract_search_like_query u as_text args ≡ query_of query url
  unfolding extract_search_like_query
  extract-query_of (some q) url e f = rw (e, extract_search_like_query) refl
  extract-query_of none url e f = rw (e, extract_search_like_query) f

  Queried-query_of :
      (query url : Option String)
      → as_text "query" args ≡ query
      → as_text "url" args ≡ url
      → (q : String) → (query_of query url ≡ some q) ↔ Queried q
  Queried-query_of (some p) url e f q = (
    λ h. Queried.by_query (e ∙ h),
    λ h. elim h [
      | Queried.by_query g ↦ sym e ∙ g
      | Queried.by_url g k ↦ let clash = sym e ∙ g in cc
    ],
  )
  Queried-query_of none url e f q = (
    λ h. Queried.by_url e (f ∙ h),
    λ h. elim h [
      | Queried.by_query g ↦ let clash = sym e ∙ g in cc
      | Queried.by_url g k ↦ sym f ∙ k
    ],
  )

  denied_query_iff :
      (o : Option String)
      → Holds
          (is_denied (denied_query u as_text o))
          ((q : String) × (o ≡ some q) × ((check_search_query u q).allowed ≡ false))
  denied_query_iff none = (λ h. cc, λ (q, e, bad). cc)
  denied_query_iff (some p) = (
    λ h. (p, refl, ground arith),
    λ (q, e, bad).
        let same : q ≡ p = cc in
        let bad' = subst (λ q. (check_search_query u q).allowed ≡ false) same bad in ground arith,
  )

  query_iff :
      Holds
        (is_denied (denied_query u as_text (extract_search_like_query u as_text args)))
        DeniedQuery
  query_iff =
      let found = extract-query_of _ _ refl refl in
      let means = Queried-query_of _ _ refl refl in
      let denied = denied_query_iff (extract_search_like_query u as_text args) in
      (
        λ h. let (q, e, bad) = denied.0 h in (q, (means q).0 (sym found ∙ e), bad),
        λ (q, e, bad). denied.1 (q, found ∙ (means q).1 e, bad),
      )

  reasons_iff :
      (e : CapabilityEnvelope)
      → Holds
          (((not e.allow_web && is_web tool || not e.allow_toolbox_exec && is_exec tool)
              || not e.allow_file_write && tool == "file_write")
            || query_denied)
          ((((e.allow_web ≡ false)
                  × Elem tool ("web_search" ∷ "perplexity_search" ∷ "web_browse" ∷ [])
                ⊎ (e.allow_toolbox_exec ≡ false)
                  × Elem tool ("toolbox_exec" ∷ "shell_execute" ∷ []))
              ⊎ (e.allow_file_write ≡ false) × (tool ≡ "file_write"))
            ⊎ Elem tool ("web_search" ∷ "perplexity_search" ∷ "web_browse" ∷ []) × DeniedQuery)
  reasons_iff e =
      or_iff _ _
        (or_iff _ _
          (or_iff _ _ (and_iff _ _ (off_iff e.allow_web) web_iff)
            (and_iff _ _ (off_iff e.allow_toolbox_exec) exec_iff))
          (and_iff _ _ (off_iff e.allow_file_write) (eq_iff _ _)))
        (and_iff _ _ web_iff query_iff)

  -- A request is denied exactly when its kind is switched off (the web, execution or the writing of
  -- files), or it is a web request and the check of searches denies its query, or its URL where it has no
  -- query.
  pub evaluate_tool_request-denies_iff :
      (e : CapabilityEnvelope)
      → ((evaluate_tool_request u as_text tool args e).allowed ≡ false) ↔ Denied e
  evaluate_tool_request-denies_iff e =
      let decision = evaluate_tool_request-allowed e in
      let reasons = reasons_iff e in
      (
        λ h. elim (reasons.0 (not-false _ (sym decision ∙ h))) [
          | inl (inl (inl (off, kind))) ↦ Denied.no_web off kind
          | inl (inl (inr (off, kind))) ↦ Denied.no_exec off kind
          | inl (inr (off, kind)) ↦ Denied.no_write off kind
          | inr (kind, (q, queried, bad)) ↦ Denied.bad_query q kind queried bad
        ],
        λ h.
            decision
            ∙ ap not (
                reasons.1 (elim h [
                  | Denied.no_web off kind ↦ inl (inl (inl (off, kind)))
                  | Denied.no_exec off kind ↦ inl (inl (inr (off, kind)))
                  | Denied.no_write off kind ↦ inl (inr (off, kind))
                  | Denied.bad_query q kind queried bad ↦ inr (kind, (q, queried, bad))
                ])),
      )
