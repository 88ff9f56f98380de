-- ===== src/Errors.antt =====
-- app/core/exceptions.py: how an error of the SFC is read and classified, and what the scheduler
-- takes for a failure of the infrastructure. Python's `str.lower` is a parameter, since its
-- table of Unicode is not here; so is `json.loads`, and `str` of a JSON value.
pub mod Extract
pub mod Match
pub mod MissingCase
mod Examples
use Prim.Native.String.{◌++◌ as concat}
use ms_integracion_smartsupe.Prelude.{
  ℕ, String, ◌≡◌, Bool, true, false, not, ◌&&◌, ◌||◌, Option, none, some, List, [], ◌∷◌, leb,
  str_eq, ◌==◌, if◌then◌else◌,
}
use ms_integracion_smartsupe.Text.{codes}
use ms_integracion_smartsupe.Text.Search.{contains, coincide}

-- `SfcIntegrationException`
pub record SfcException : Type 0 where
  pub status_code : ℕ
  pub error_type : String
  pub sfc_field : Option String
  pub raw_message : String
  pub crm_action : String

abbrev pub is_one_of : String → List String → Bool
is_one_of s [] = false
is_one_of s (t ∷ ts) = str_eq s t || is_one_of s ts

-- `ERROR_TYPES_TRANSITORIOS`
abbrev pub error_types_transitorios : List String
error_types_transitorios =
    "SERVER_ERROR" ∷ "SFC_DOWN" ∷ "TIMEOUT" ∷ "NETWORK_ERROR" ∷ "INFRASTRUCTURE_ERROR"
    ∷ "THROTTLED_ERROR" ∷ "RATE_LIMIT_ERROR" ∷ "RESOURCE_EXHAUSTED" ∷ []

unfoldable pub es_transitoria : SfcException → Bool
es_transitoria exc =
    leb 500 exc.status_code
    || (exc.status_code == 429 || exc.status_code == 503)
    || is_one_of exc.error_type error_types_transitorios

-- A rule of the matrix; `get` of a key that is not there is `none`.
pub record Rule : Type 0 where
  pub subcadena : Option String
  pub tipo : Option String
  pub accion : Option String

abbrev pub or_empty : Option String → String
or_empty none = ""
or_empty (some s) = s

abbrev pub unknown_type : String
unknown_type = "UNKNOWN_SFC_ERROR"

abbrev pub unknown_action : String
unknown_action = "Error no mapeado por la SFC. Por favor revisar los logs del payload."

-- `regla.get("tipo", "UNKNOWN_SFC_ERROR")` and `regla.get("accion", …)`, or no rule.
abbrev pub type_of : Option Rule → String
type_of none = unknown_type
type_of (some r) = elim r.tipo [ none ↦ unknown_type | some t ↦ t ]

abbrev pub action_of : Option Rule → String
action_of none = unknown_action
action_of (some r) = elim r.accion [ none ↦ unknown_action | some a ↦ a ]

abbrev pub has_type : String → Rule → Bool
has_type t r = elim r.tipo [ none ↦ false | some u ↦ str_eq u t ]

abbrev pub any_text : List ℕ → List String → Bool
any_text p [] = false
any_text p (t ∷ ts) = coincide p (codes t) || any_text p ts

abbrev pub any_keyword : List String → String → Bool
any_keyword [] t = false
any_keyword (k ∷ ks) t = coincide (codes k) (codes t) || any_keyword ks t

abbrev pub or_else : Option Rule → Option Rule → Option Rule
or_else none s = s
or_else (some r) s = some r

abbrev pub filter : (Rule → Bool) → List Rule → List Rule
filter f [] = []
filter f (r ∷ rs) = if f r then r ∷ filter f rs else filter f rs

-- The keywords of `_es_falla_infraestructura`.
abbrev pub infrastructure_keywords : List String
infrastructure_keywords =
    "resource_exhausted" ∷ "quota exceeded" ∷ "503" ∷ "502" ∷ "504" ∷ "429" ∷ "connecterror"
    ∷ "connect error" ∷ "timeout" ∷ "connection refused" ∷ "indisponible"
    ∷ "no se encuentra disponible" ∷ "throttled" ∷ "throttling" ∷ "name or service not known"
    ∷ "service unavailable" ∷ "bad gateway" ∷ []

module _ (lower : String → String) where
  -- `subcadena` of a rule, lowered, matches one of the texts; an empty one never does.
  unfoldable pub rule_matches : List String → Rule → Bool
  rule_matches textos r =
      let p = lower (or_empty r.subcadena) in not (str_eq p "") && any_text (codes p) textos

  -- `_buscar_primera_coincidencia`
  unfoldable pub primera_coincidencia : List Rule → List String → Option Rule
  primera_coincidencia [] textos = none
  primera_coincidencia (r ∷ rs) textos =
      if rule_matches textos r then some r else primera_coincidencia rs textos

  -- The three texts that `procesar_y_lanzar` searches.
  abbrev pub searched : String → Option String → String → List String
  searched raw_message sfc_field response_text =
      lower raw_message ∷ lower (or_empty sfc_field) ∷ lower response_text ∷ []

  abbrev pub is_about_case : Option String → Bool
  is_about_case sfc_field = contains (codes "codigo_queja") (codes (lower (or_empty sfc_field)))

  -- The rule that `procesar_y_lanzar` chooses.
  unfoldable pub chosen_rule : List Rule → Option String → List String → Option Rule
  chosen_rule matriz sfc_field textos =
      or_else
        (if is_about_case sfc_field
          then primera_coincidencia (filter (has_type "NOT_FOUND_ERROR") matriz) textos
          else none)
        (primera_coincidencia matriz textos)

  abbrev pub lanzada : ℕ → Option Rule → Option String × String → SfcException
  lanzada status_code regla (sfc_field, raw_message) = record {
    status_code = status_code;
    error_type = type_of regla;
    sfc_field = sfc_field;
    raw_message = raw_message;
    crm_action = action_of regla;
  }

  -- `procesar_y_lanzar` after the matrix is there and the error is read: the exception that it
  -- raises, and whether it sends the mail on an error that is not mapped.
  unfoldable pub clasificar : List Rule → ℕ → String → Option String × String → SfcException × Bool
  clasificar matriz status_code response_text (sfc_field, raw_message) =
      let regla = chosen_rule matriz sfc_field (searched raw_message sfc_field response_text) in
      (lanzada status_code regla (sfc_field, raw_message), str_eq (type_of regla) unknown_type)

  -- `_es_falla_infraestructura`: by its fields for an exception of the SFC, else by its text.
  unfoldable pub es_falla_infraestructura : Option SfcException → String → Bool
  es_falla_infraestructura (some exc) error_msg = es_transitoria exc
  es_falla_infraestructura none error_msg =
      not (str_eq error_msg "") && any_keyword infrastructure_keywords (lower error_msg)
