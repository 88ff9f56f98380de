-- ===== src/Errors/MissingCase.antt =====
-- An error that the SFC raises about the code of a complaint, from its text to its class.
use Prim.Native.Char.{code}
use Prim.Native.String.{◌++◌ as concat}
use text.Mathlib.TextLemmas.{nil-append, cons-append}
use ms_integracion_smartsupe.Prelude.{
  ℕ, String, ◌≡◌, ◌∙◌, refl, ap, Bool, true, false, ◌||◌, Option, some, List, [], ◌∷◌, ◌++◌, str_eq,
  eq_iff, Bool-cases, inl, inr,
}
use ms_integracion_smartsupe.Text.{codes}
use ms_integracion_smartsupe.Text.Search.{
  contains, after_prefix, contains-append_left, contains-append_right,
}
use ms_integracion_smartsupe.Errors.{
  Rule, has_type, rule_matches, searched, clasificar, SfcException, or_empty,
}
use ms_integracion_smartsupe.Errors.Extract.{
  JsonValue, json_object, Fields, no_fields, field, get_field, join, listed, not_skipped, joined,
  first_of, extraer_informacion_error,
}
use ms_integracion_smartsupe.Errors.Match.{clasificar_not_found}

codes-concat : (s t : String) → codes (concat s t) ≡ codes s ++ codes t
codes-concat String.[] t = ap codes (nil-append t)
codes-concat (String.◌∷◌ c s) t =
    ap codes (cons-append c s t) ∙ ap (λ cs. code c ∷ cs) (codes-concat s t)

abbrev pub case_field : String
case_field = "codigo_queja"

-- The object has the field.
abbrev pub has_field : String → Fields → Bool
has_field key no_fields = false
has_field key (field k v fs) = str_eq k key || has_field key fs

abbrev names_case : List String → Bool
names_case [] = false
names_case (k ∷ ks) = str_eq k case_field || names_case ks

same_name : (k : String) → str_eq k case_field ≡ true → contains (codes case_field) (codes k) ≡ true
unfolding contains after_prefix
same_name k h = rw ((eq_iff k case_field).0 h) refl

join-contains :
    (ks : List String)
    → names_case ks ≡ true
    → contains (codes case_field) (codes (join ", " ks)) ≡ true
join-contains [] h = cc
join-contains (k ∷ []) h = elim (Bool-cases (str_eq k case_field)) [
  | inl y ↦ same_name k y
  | inr n ↦ (let bad : false ≡ true = rw n at h in cc)
]
join-contains (k ∷ j ∷ ks) h =
    let tail : String = join ", " (j ∷ ks) in
    rw (codes-concat k (concat ", " tail), codes-concat ", " tail)
      (elim (Bool-cases (str_eq k case_field)) [
        | inl y ↦
            contains-append_left (codes case_field) (codes k) (codes ", " ++ codes tail)
              (same_name k y)
        | inr n ↦ contains-append_right (codes case_field) (codes k) (codes ", " ++ codes tail) (
            contains-append_right (codes case_field) (codes ", ") (codes tail)
              (join-contains (j ∷ ks) (rw n at h)))
      ])

module _ (text_of : JsonValue → String) (loads : String → Option JsonValue) where
  listed-names_case :
      (fs : Fields)
      → has_field case_field fs ≡ true
      → names_case (listed text_of loads (not_skipped text_of loads) fs).0 ≡ true
  unfolding listed
  listed-names_case no_fields h = cc
  listed-names_case (field k v fs) h = elim (Bool-cases (str_eq k case_field)) [
    | inl y ↦ rw y refl
    | inr n ↦ rw n (listed-names_case fs (rw n at h))
  ]

  joined-contains :
      (response_text : String) (r : List String × List String)
      → names_case r.0 ≡ true
      → contains (codes case_field) (codes (or_empty (joined text_of loads response_text r).0))
        ≡ true
  joined-contains response_text ([], ms) h = cc
  joined-contains response_text (k ∷ ks, ms) h = join-contains (k ∷ ks) h

  extraer-contains :
      (response_text : String) (body fs : Fields)
      → loads response_text ≡ some (json_object body)
      → first_of text_of loads (get_field "message" body) (get_field "messages" body)
        ≡ some (json_object fs)
      → has_field case_field fs ≡ true
      → contains
          (codes case_field)
          (codes (or_empty (extraer_informacion_error text_of loads response_text).0))
        ≡ true
  unfolding extraer_informacion_error
  extraer-contains response_text body fs e m has = rw e (
      rw m (
        joined-contains response_text (listed text_of loads (not_skipped text_of loads) fs)
          (listed-names_case fs has)))

  module _ (lower : String → String) where
    -- `procesar_y_lanzar`, with the matrix that `obtener_matriz_errores` gave.
    unfoldable pub procesar_y_lanzar : List Rule → ℕ → String → SfcException × Bool
    procesar_y_lanzar matriz status_code response_text =
        clasificar lower matriz status_code response_text
          (extraer_informacion_error text_of loads response_text)

    -- When the SFC's answer has the field of the code of the complaint in its `message` or
    -- `messages`, and some NOT_FOUND_ERROR rule matches, the exception is a NOT_FOUND_ERROR,
    -- wherever the matrix has the rule and whichever others match. `lower` keeps what is in lower
    -- case already.
    pub procesar_y_lanzar_missing :
        (status_code : ℕ) (response_text : String) (body fs : Fields) (before after : List Rule)
        (r : Rule)
        → ((s : String)
            → contains (codes case_field) (codes s) ≡ true
            → contains (codes case_field) (codes (lower s)) ≡ true)
        → loads response_text ≡ some (json_object body)
        → first_of text_of loads (get_field "message" body) (get_field "messages" body)
          ≡ some (json_object fs)
        → has_field case_field fs ≡ true
        → has_type "NOT_FOUND_ERROR" r ≡ true
        → rule_matches lower
            (searched lower
              (extraer_informacion_error text_of loads response_text).1
              (extraer_informacion_error text_of loads response_text).0
              response_text)
            r
          ≡ true
        → (procesar_y_lanzar (before ++ (r ∷ after)) status_code response_text).0.error_type
          ≡ "NOT_FOUND_ERROR"
    unfolding procesar_y_lanzar
    procesar_y_lanzar_missing status_code response_text body fs before after r keeps e m has f h =
        let (sfc_field, raw_message) = extraer_informacion_error text_of loads response_text in
        clasificar_not_found lower status_code response_text raw_message sfc_field before after r
          (keeps (or_empty sfc_field) (extraer-contains response_text body fs e m has)) f h
