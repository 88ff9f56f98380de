-- ===== src/Classification.antt =====
-- app/core/clasificacion_operacion.py and IdempotencyService.infer_operation_type: which phase a
-- request of the CRM belongs to. A payload is a Python dict, a map from field names to JSON values.
pub mod Fields
use ms_integracion_smartsupe.Prelude.{
  ℕ, String, Bool, true, false, not, ◌&&◌, ◌||◌, Option, none, some, List, [], ◌≡◌, refl, str_eq,
  if◌then◌else◌,
}
use ms_integracion_smartsupe.Text.{codes, strip, lower, same_text}

pub data Json : Type 0 where
  null : Json
  text : String → Json
  other : String → Json

abbrev pub Payload : Type 0
Payload = String → Option Json

-- `payload.get(key) is not None`
abbrev pub is_present : Option Json → Bool
is_present none = false
is_present (some null) = false
is_present (some _) = true

-- `(status or "").strip().lower()`. The schema admits only text as `Status`.
abbrev status_text : Option Json → List ℕ
status_text (some (text s)) = codes s
status_text _ = []

pub clean_status : Option Json → List ℕ
unfolding strip lower
clean_status status = lower (strip (status_text status))

unfoldable pub es_estado_cierre : Option Json → Option Json → Option Json → Option Json → Bool
unfolding clean_status
es_estado_cierre status closed_date favorabilidad aceptacion =
    (same_text (clean_status status) (codes "closed")
      || same_text (clean_status status) (codes "cerrado"))
    || (is_present closed_date || (is_present favorabilidad || is_present aceptacion))

-- `payload.get("admision_col__c") not in (None, "No Aplica")`
abbrev pub applies : Option Json → Bool
applies (some (text s)) = not (str_eq s "No Aplica")
applies o = is_present o

unfoldable pub es_fraude : Payload → Bool
es_fraude p = is_present (p "tipo_fraude__c") || is_present (p "modalidad_fraude__c")

unfoldable pub tiene_campos_m3 : Payload → Bool
tiene_campos_m3 p =
    is_present (p "sc_genero__c")
    || (is_present (p "sc_LGBTIQ__c")
        || (is_present (p "sc_Condicion_especial__c")
            || (is_present (p "producto_digital__c") || applies (p "admision_col__c"))))

unfoldable pub es_cierre : Payload → Bool
es_cierre p =
    es_estado_cierre (p "Status") (p "ClosedDate") (p "Favorabilidad__c") (p "Aceptacion__c")

unfoldable pub es_nueva : Payload → Bool
unfolding clean_status
es_nueva p =
    same_text (clean_status (p "Status")) (codes "new")
    || same_text (clean_status (p "Status")) (codes "nuevo")

-- The ladder at the end of `infer_operation_type`, over `status_clean in ("new", "nuevo")`,
-- `tiene_campos_m3`, `es_fraude` and `es_cierre`.
abbrev pub operation_of : Bool → Bool → Bool → Bool → String
operation_of nueva m3 fraude cierre =
    if nueva && (not m3 && (not fraude && not cierre))
    then "M2_CREATION"
    else if cierre && fraude
    then "M3_FRAUD_AND_CLOSE"
    else if fraude
    then "M3_FRAUD"
    else if cierre
    then "M3_CLOSE"
    else "M3_UPDATE"

unfoldable pub infer_operation_type : Payload → String
infer_operation_type p = operation_of (es_nueva p) (tiene_campos_m3 p) (es_fraude p) (es_cierre p)

abbrev pub reports_fraud : String → Bool
reports_fraud o = str_eq o "M3_FRAUD" || str_eq o "M3_FRAUD_AND_CLOSE"

operation_of-ne-empty : (n m f c : Bool) → str_eq (operation_of n m f c) "" ≡ false
operation_of-ne-empty true true true true = refl
operation_of-ne-empty true true true false = refl
operation_of-ne-empty true true false true = refl
operation_of-ne-empty true true false false = refl
operation_of-ne-empty true false true true = refl
operation_of-ne-empty true false true false = refl
operation_of-ne-empty true false false true = refl
operation_of-ne-empty true false false false = refl
operation_of-ne-empty false true true true = refl
operation_of-ne-empty false true true false = refl
operation_of-ne-empty false true false true = refl
operation_of-ne-empty false true false false = refl
operation_of-ne-empty false false true true = refl
operation_of-ne-empty false false true false = refl
operation_of-ne-empty false false false true = refl
operation_of-ne-empty false false false false = refl

-- No operation has an empty name.
pub infer_operation_type-ne-empty : (p : Payload) → str_eq (infer_operation_type p) "" ≡ false
unfolding infer_operation_type
infer_operation_type-ne-empty p =
    operation_of-ne-empty (es_nueva p) (tiene_campos_m3 p) (es_fraude p) (es_cierre p)
