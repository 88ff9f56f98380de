-- ===== src/Errors/Match.antt =====
-- The rule that is chosen is the first that matches, and an error about a case that does not exist
-- is found before any other.
use ms_integracion_smartsupe.Prelude.{
  ℕ, String, ◌≡◌, refl, ap, Bool, true, false, Option, none, some, List, [], ◌∷◌, ◌++◌, str_eq,
  eq_iff, Bool-cases, inl, inr,
}
use ms_integracion_smartsupe.Errors.{
  Rule, rule_matches, primera_coincidencia, chosen_rule, clasificar, searched, is_about_case,
  filter, has_type, unknown_type,
}

some_inj : {a b : Rule} → Path (Option Rule) (some a) (some b) → a ≡ b
some_inj e = cc

missing_text :
    (o : Option String)
    → (elim o [ none ↦ false | some t ↦ str_eq t "NOT_FOUND_ERROR" ]) ≡ true
    → (elim o [ none ↦ unknown_type | some t ↦ t ]) ≡ "NOT_FOUND_ERROR"
missing_text none h = cc
missing_text (some t) h = (eq_iff t "NOT_FOUND_ERROR").0 h

module _ (lower : String → String) where
  -- No rule of the list matches.
  abbrev pub NoneMatches : List Rule → List String → Type 0
  NoneMatches [] textos = Unit
  NoneMatches (r ∷ rs) textos = (rule_matches lower textos r ≡ false) × NoneMatches rs textos

  -- The search for a rule gives the first of the matrix that matches: it matches, and no rule
  -- before it does.
  pub primera_coincidencia-first :
      (matriz : List Rule) (textos : List String) (r : Rule)
      → primera_coincidencia lower matriz textos ≡ some r
      → (before after : List Rule) × (matriz ≡ before ++ (r ∷ after))
        × NoneMatches before textos
        × (rule_matches lower textos r ≡ true)
  unfolding primera_coincidencia
  primera_coincidencia-first [] textos r h = cc
  primera_coincidencia-first (q ∷ qs) textos r h = elim (Bool-cases (rule_matches lower textos q)) [
    | inl y ↦
        let same : q ≡ r = some_inj (rw y at h) in ([], qs, ap (λ x. x ∷ qs) same, tt, rw same at y)
    | inr n ↦
        let (before, after, e, misses, hit) = primera_coincidencia-first qs textos r (rw n at h) in
        (q ∷ before, after, ap (λ x. q ∷ x) e, (n, misses), hit)
  ]

  abbrev about_missing : Rule → Bool
  about_missing = has_type "NOT_FOUND_ERROR"

  found_missing :
      (textos : List String) (r : Rule) (after before : List Rule)
      → about_missing r ≡ true
      → rule_matches lower textos r ≡ true
      → (q : Rule) × (primera_coincidencia lower
            (filter about_missing (before ++ (r ∷ after)))
            textos
          ≡ some q)
        × (about_missing q ≡ true)
  unfolding primera_coincidencia
  found_missing textos r after [] f h = (r, rw f (rw h refl), f)
  found_missing textos r after (p ∷ ps) f h =
      let (q, e, g) = found_missing textos r after ps f h in
      elim (Bool-cases (about_missing p)) [
        | inl y ↦ elim (Bool-cases (rule_matches lower textos p)) [
          | inl z ↦ (p, simp (y, z) refl, y)
          | inr z ↦ (q, simp (y, z) e, g)
        ]
        | inr n ↦ (q, simp n e, g)
      ]

  -- An error of the SFC whose field is the code of the complaint is raised as NOT_FOUND_ERROR
  -- whenever some rule of that type matches, wherever the matrix has it and whichever other rules
  -- match too.
  pub clasificar_not_found :
      (status_code : ℕ) (response_text raw_message : String) (sfc_field : Option String)
      (before after : List Rule) (r : Rule)
      → is_about_case lower sfc_field ≡ true
      → has_type "NOT_FOUND_ERROR" r ≡ true
      → rule_matches lower (searched lower raw_message sfc_field response_text) r ≡ true
      → (clasificar lower
          (before ++ (r ∷ after))
          status_code
          response_text
          (sfc_field, raw_message)).0.error_type
        ≡ "NOT_FOUND_ERROR"
  unfolding clasificar chosen_rule
  clasificar_not_found status_code response_text raw_message sfc_field before after r about f h =
      let (q, e, g) =
        found_missing (searched lower raw_message sfc_field response_text) r after before f h in
      simp (about, e) (missing_text q.tipo g)
