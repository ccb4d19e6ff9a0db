-- ===== src/Policy/UrlPrecedence.antt =====
-- Which list decides about a URL, and which about the log.
use lucid_gate.Prelude.{
  ◌≡◌, ◌⊎◌, ◌↔◌, inl, inr, true, false, none, some, List, [], ◌∷◌, Bytes, String, arith, refl,
  Bool-cases,
}
use lucid_gate.Text.{is_empty}
use lucid_gate.Decision.{PolicyDecision, no_decision, block, bypass, grey, Regex, first_regex}
use lucid_gate.Policy.Lines.{MatchesRegex, first_regex-some}
use lucid_gate.Policy.Urls.{
  UrlRules, url_rule_matches, first_url, when_url, when_url_regex, decide_url, url_decision,
}

-- Some entry of a list matches the URL.
abbrev pub HasEntry : List Bytes → Bytes → Type 0
HasEntry [] url = ⊥
HasEntry (e ∷ es) url = (url_rule_matches url e ≡ true) ⊎ HasEntry es url

first_url-some :
    (es : List Bytes) (url : Bytes)
    → (((e : Bytes) × (first_url es url ≡ some e)) × HasEntry es url)
      ⊎ ((first_url es url ≡ none) × (¬ HasEntry es url))
unfolding first_url
first_url-some [] url = inr (refl, λ h. h)
first_url-some (e ∷ es) url = elim (Bool-cases (url_rule_matches url e)) [
  | inl hit ↦ rw hit (inl ((e, refl), inl refl))
  | inr miss ↦ rw miss (elim (first_url-some es url) [
    | inl (x, m) ↦ inl (x, inr m)
    | inr (x, m) ↦ inr (x, λ h. elim h [ inl y ↦ absurd (cc) | inr y ↦ m y ])
  ])
]

module _ (r : UrlRules) (url : Bytes) where
  -- The main lists are asked: no local list names the URL.
  abbrev pub NotLocal : Type 0
  NotLocal =
      (¬ HasEntry r.local_exceptions url)
      × (¬ HasEntry r.local_grey url)
      × (¬ HasEntry r.local_blocked url)

  abbrev pub IsExcepted : Type 0
  IsExcepted = HasEntry r.exceptions url ⊎ MatchesRegex r.allow_regex url

  -- The URL is to be blocked.
  abbrev pub Blocks : Type 0
  Blocks =
      ((¬ HasEntry r.local_exceptions url)
        × (¬ HasEntry r.local_grey url)
        × HasEntry r.local_blocked url)
      ⊎ (NotLocal
          × (¬ IsExcepted)
          × (¬ HasEntry r.grey url)
          × (HasEntry r.blocked url ⊎ MatchesRegex r.block_regex url))

  -- The URL is to bypass the filters.
  abbrev pub Bypasses : Type 0
  Bypasses = HasEntry r.local_exceptions url ⊎ (NotLocal × IsExcepted)

-- The two flags of a decision are right.
abbrev pub Flags : Type 0 → Type 0 → PolicyDecision → Type 0
Flags B P d = ((d.blocked ≡ true) ↔ B) × ((d.bypass_filters ≡ true) ↔ P)

module _ {B P : Type 0} (es : List Bytes) (url : Bytes) (d : Bytes → PolicyDecision)
    (rest : PolicyDecision) (hit : (e : Bytes) → HasEntry es url → Flags B P (d e))
    (miss : (¬ HasEntry es url) → Flags B P rest) where
  when_url-Flags : Flags B P (when_url (first_url es url) d rest)
  when_url-Flags = elim (first_url-some es url) [
    | inl ((e, f), m) ↦ rw f (hit e m)
    | inr (f, m) ↦ rw f (miss m)
  ]

module _ {B P : Type 0} (rxs : List Regex) (url : Bytes) (d : Bytes → PolicyDecision)
    (rest : PolicyDecision) (hit : (e : Bytes) → MatchesRegex rxs url → Flags B P (d e))
    (miss : (¬ MatchesRegex rxs url) → Flags B P rest) where
  when_url_regex-Flags : Flags B P (when_url_regex (first_regex rxs url) d rest)
  when_url_regex-Flags = elim (first_regex-some rxs url) [
    | inl ((rx, f), m) ↦ rw f (hit rx.pattern m)
    | inr (f, m) ↦ rw f (miss m)
  ]

module _ (B P : Type 0) where
  blocked_flag : (kind : String) (v : Bytes) → B → (¬ P) → Flags B P (block kind v)
  blocked_flag kind v b np = ((λ e. b, λ x. refl), (λ e. absurd (cc), λ x. absurd (np x)))

  bypass_flag : (kind : String) (v : Bytes) → (¬ B) → P → Flags B P (bypass kind v)
  bypass_flag kind v nb p = ((λ e. absurd (cc), λ x. absurd (nb x)), (λ e. p, λ x. refl))

  grey_flag : (kind : String) (v : Bytes) → (¬ B) → (¬ P) → Flags B P (grey kind v)
  grey_flag kind v nb np =
      ((λ e. absurd (cc), λ x. absurd (nb x)), (λ e. absurd (cc), λ x. absurd (np x)))

  no_flag : (¬ B) → (¬ P) → Flags B P no_decision
  no_flag nb np = ((λ e. absurd (cc), λ x. absurd (nb x)), (λ e. absurd (cc), λ x. absurd (np x)))

-- For a URL that is not empty, the URL rules' decision says: blocked exactly if a local list blocks it and no
-- local exception or grey entry matches, or if no local entry matches, no main exception, allowing
-- expression or grey entry does, and a main entry or a blocking expression does; bypassed exactly if a local
-- exception matches, or no local entry does and a main exception or an allowing expression does.
pub url_decision-Flags :
    (r : UrlRules) (url : Bytes)
    → is_empty url ≡ false
    → Flags (Blocks r url) (Bypasses r url) (url_decision (some r) url)
unfolding url_decision decide_url
url_decision-Flags r url filled =
    let B = Blocks r url in
    let P = Bypasses r url in
    rw filled (
      when_url-Flags r.local_exceptions url _ _
        (λ e m. bypass_flag B P "url_local_exception" e (λ b. ground arith) (inl m))
        λ n1.
          when_url-Flags r.local_grey url _ _
            (λ e m. grey_flag B P "url_local_grey" e (λ b. ground arith) (λ b. ground arith))
            λ n2.
              when_url-Flags r.local_blocked url _ _
                (λ e m. blocked_flag B P "url_local" e (inl (n1, n2, m)) (λ b. ground arith))
                λ n3.
                  when_url-Flags r.exceptions url _ _
                    (λ e m.
                      bypass_flag B P "url_exception" e (λ b. ground arith)
                        (inr ((n1, n2, n3), inl m)))
                    λ n4.
                      when_url_regex-Flags r.allow_regex url _ _
                        (λ e m.
                          bypass_flag B P "url_exception_regex" e (λ b. ground arith)
                            (inr ((n1, n2, n3), inr m)))
                        λ n5.
                          when_url-Flags r.grey url _ _
                            (λ e m.
                              grey_flag B P "url_grey" e (λ b. ground arith) (λ b. ground arith))
                            λ n6.
                              when_url-Flags r.blocked url _ _
                                (λ e m.
                                  blocked_flag B P "url" e
                                    (inr ((n1, n2, n3), (λ x. ground arith), n6, inl m))
                                    (λ b. ground arith))
                                λ n7.
                                  when_url_regex-Flags r.block_regex url _ _
                                    (λ e m.
                                      blocked_flag B P "url_regex" e
                                        (inr ((n1, n2, n3), (λ x. ground arith), n6, inr m))
                                        (λ b. ground arith))
                                    λ n8. no_flag B P (λ b. ground arith) (λ b. ground arith))
