-- ===== src/Momento3/Defaults.antt =====
-- What the defaults of Momento 3 do to a payload.
use ms_integracion_smartsupe.Prelude.{
  String, ◌≡◌, refl, sym, subst, ◌∙◌, Bool, true, false, ◌||◌, Option, List, [], ◌∷◌, str_eq,
  eq_iff, if◌then◌else◌, if_cases, Bool-cases, inl, inr,
}
use ms_integracion_smartsupe.Classification.{other, Payload, is_present}
use ms_integracion_smartsupe.Momento3.{
  pon, es_pipeline_fraude, sin_fraude, sfc_defaults, con_defaults, defaults_finales,
}

-- The key has no default.
abbrev pub among : String → List (String × String) → Bool
among k [] = false
among k ((c, v) ∷ ds) = str_eq k c || among k ds

pub con_defaults-other :
    (k : String) (ds : List (String × String)) (p : Payload)
    → among k ds ≡ false
    → con_defaults ds p k ≡ p k
unfolding con_defaults
con_defaults-other k [] p h = refl
con_defaults-other k ((c, v) ∷ ds) p h = elim (Bool-cases (str_eq k c)) [
  | inl y ↦ (let bad : Path Bool true false = simp y at h in cc)
  | inr n ↦
      con_defaults-other k ds (if is_present (p c) then p else pon c (other v) p) (simp n at h)
      ∙ if_cases (λ (r : Payload). r k ≡ p k) (is_present (p c)) _ _ (λ _. refl) (λ _. simp n refl)
]

-- A default leaves a field that is there, and adds no null.
step-present :
    (k c v : String) (p : Payload)
    → is_present (p k) ≡ true
    → is_present ((if is_present (p c) then p else pon c (other v) p) k) ≡ true
step-present k c v p h =
    if_cases (λ (r : Payload). is_present (r k) ≡ true) (is_present (p c)) _ _ (λ _. h)
      (λ _. elim (Bool-cases (str_eq k c)) [ inl y ↦ simp y refl | inr n ↦ simp n h ])

con_defaults-present :
    (k : String) (ds : List (String × String)) (p : Payload)
    → is_present (p k) ≡ true
    → is_present (con_defaults ds p k) ≡ true
unfolding con_defaults
con_defaults-present k [] p h = h
con_defaults-present k ((c, v) ∷ ds) p h =
    con_defaults-present k ds (if is_present (p c) then p else pon c (other v) p)
      (step-present k c v p h)

step-own :
    (c v : String) (p : Payload)
    → is_present ((if is_present (p c) then p else pon c (other v) p) c) ≡ true
step-own c v p =
    if_cases (λ (r : Payload). is_present (r c) ≡ true) (is_present (p c)) _ _ (λ y. y)
      (λ _. simp ((eq_iff c c).1 refl) refl)

con_defaults-among :
    (k : String) (ds : List (String × String)) (p : Payload)
    → among k ds ≡ true
    → is_present (con_defaults ds p k) ≡ true
unfolding con_defaults
con_defaults-among k [] p h = cc
con_defaults-among k ((c, v) ∷ ds) p h = elim (Bool-cases (str_eq k c)) [
  | inl y ↦ con_defaults-present k ds (if is_present (p c) then p else pon c (other v) p) (
      subst (λ x. is_present ((if is_present (p c) then p else pon c (other v) p) x) ≡ true)
        (sym ((eq_iff k c).0 y)) (step-own c v p))
  | inr n ↦
      con_defaults-among k ds (if is_present (p c) then p else pon c (other v) p) (simp n at h)
]

-- Each of the seven fields with a default is in the payload that the schema is given, and is not
-- null.
pub defaults_finales-present :
    (afijo : Option String) (crm p : Payload) (k : String)
    → among k sfc_defaults ≡ true
    → is_present (defaults_finales afijo crm p k) ≡ true
unfolding defaults_finales
defaults_finales-present afijo crm p k h =
    con_defaults-among k sfc_defaults (if es_pipeline_fraude afijo crm then p else sin_fraude p) h
