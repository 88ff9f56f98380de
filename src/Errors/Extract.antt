-- ===== src/Errors/Extract.antt =====
-- `_extraer_informacion_error`: the field and the message of an error of the SFC.
use Prim.Native.String.{◌++◌ as concat}
use ms_integracion_smartsupe.Prelude.{
  String, Bool, false, ◌||◌, Option, none, some, List, [], ◌∷◌, str_eq, if◌then◌else◌,
}

-- A decoded JSON text; a scalar is a number or a boolean.
mutual
  pub data JsonValue : Type 0 where
    json_null : JsonValue
    json_text : String → JsonValue
    json_scalar : String → JsonValue
    json_list : Elements → JsonValue
    json_object : Fields → JsonValue

  pub data Elements : Type 0 where
    no_elements : Elements
    element : JsonValue → Elements → Elements

  pub data Fields : Type 0 where
    no_fields : Fields
    field : String → JsonValue → Fields → Fields

-- `data.get(key)`, where null counts as missing.
unfoldable pub get_field : String → Fields → Option JsonValue
get_field key no_fields = none
get_field key (field k v fs) = if str_eq k key then present v else get_field key fs
  where
    present : JsonValue → Option JsonValue
    present json_null = none
    present v = some v

abbrev pub join : String → List String → String
join sep [] = ""
join sep (s ∷ []) = s
join sep (s ∷ t ∷ ts) = concat s (concat sep (join sep (t ∷ ts)))

-- `fields_list` and `messages_list`.
abbrev pub add_pair : String × String → List String × List String → List String × List String
add_pair (k, m) (ks, ms) = (k ∷ ks, m ∷ ms)

-- `text_of` is `str`; `loads` is `json.loads`, `none` where it raises.
module _ (text_of : JsonValue → String) (loads : String → Option JsonValue) where
  -- `str(value[0]) if isinstance(value, list) and value else str(value)`
  abbrev pub value_text : JsonValue → String
  value_text (json_list (element v vs)) = text_of v
  value_text v = text_of v

  unfoldable pub listed : (String → Bool) → Fields → List String × List String
  listed skipped no_fields = ([], [])
  listed skipped (field k v fs) =
      let rest = listed skipped fs in
      if skipped k then rest else add_pair (k, concat k (concat ": " (value_text v))) rest

  -- `", ".join` of the fields and `" | ".join` of the messages, `none` and the whole text where
  -- there are none.
  abbrev pub joined : String → List String × List String → Option String × String
  joined response_text ([], ms) = (none, response_text)
  joined response_text (k ∷ ks, ms) = (some (join ", " (k ∷ ks)), join " | " ms)

  abbrev pub not_skipped : String → Bool
  not_skipped k = false

  abbrev pub is_envelope : String → Bool
  is_envelope k = str_eq k "status_code" || str_eq k "detail"

  -- `"detail" in data and data["detail"] != "Error APIException"`; a null is in the object too.
  unfoldable pub specific_detail : Fields → Option String
  specific_detail no_fields = none
  specific_detail (field k v fs) =
      let rest = specific_detail fs in if str_eq k "detail" then told v else rest
    where
      told : JsonValue → Option String
      told (json_text s) =
          if str_eq s "Error APIException" then none else some (text_of (json_text s))
      told v = some (text_of v)

  abbrev pub first_of : Option JsonValue → Option JsonValue → Option JsonValue
  first_of none b = b
  first_of (some a) b = some a

  -- What `msg_obj` decides.
  abbrev pub by_detail : String → Fields → Option String → Option String × String
  by_detail response_text body (some detail) = (none, detail)
  by_detail response_text body none = joined response_text (listed is_envelope body)

  abbrev pub by_message : String → Fields → Option JsonValue → Option String × String
  by_message response_text body (some (json_object fs)) =
      joined response_text (listed not_skipped fs)
  by_message response_text body (some (json_text s)) = (none, s)
  by_message response_text body _ = by_detail response_text body (specific_detail body)

  abbrev pub of_value : String → Option JsonValue → Option String × String
  of_value response_text (some (json_object body)) =
      by_message response_text body
        (first_of (get_field "message" body) (get_field "messages" body))
  of_value response_text _ = (none, response_text)

  -- `_extraer_informacion_error`
  unfoldable pub extraer_informacion_error : String → Option String × String
  extraer_informacion_error response_text = of_value response_text (loads response_text)
