-- ===== src/Mapping.antt =====
-- app/core/mapping.py: the catalogues that translate values between the CRM and the SFC, their
-- inverse indexes, and the fields that go through them. A text is its list of code points. The
-- tables of Unicode that `_normalize_text` uses are parameters.
pub mod Cache
pub mod Index
pub mod Reception
mod Examples
use ms_integracion_smartsupe.Prelude.{
  ℕ, ◌+◌, ◌-◌, ◌*◌, String, Bool, true, false, not, ◌&&◌, ◌||◌, Option, none, some, List, [], ◌∷◌,
  ◌++◌, leb, ◌==◌, str_eq, if◌then◌else◌,
}
use ms_integracion_smartsupe.Text.{codes, strip, same_text, is_space}

abbrev pub Texto : Type 0
Texto = List ℕ

-- A catalogue: code and value, in the order of the dict.
abbrev pub Catalogo : Type 0
Catalogo = List (Texto × Texto)

-- `int(k) if str(k).isdigit() else str(k)`
pub data Codigo : Type 0 where
  entero : ℕ → Codigo
  cadena : Texto → Codigo

abbrev pub es_digito : ℕ → Bool
es_digito c = leb 48 c && leb c 57

abbrev pub todos_digitos : Texto → Bool
todos_digitos [] = true
todos_digitos (c ∷ cs) = es_digito c && todos_digitos cs

abbrev pub isdigit : Texto → Bool
isdigit [] = false
isdigit (c ∷ cs) = todos_digitos (c ∷ cs)

abbrev pub int_from : ℕ → Texto → ℕ
int_from n [] = n
int_from n (c ∷ cs) = int_from (n * 10 + (c - 48)) cs

unfoldable pub codigo_de : Texto → Codigo
codigo_de k = if isdigit k then entero (int_from 0 k) else cadena k

-- `dict.get`, and `dict[k] = v`, which keeps the place of a key that is there.
module _ {ℓ} {V : Type ℓ} where
  abbrev pub lookup : Texto → List (Texto × V) → Option V
  lookup k [] = none
  lookup k ((j, v) ∷ d) = if same_text k j then some v else lookup k d

  abbrev pub poner : Texto → V → List (Texto × V) → List (Texto × V)
  poner k v [] = (k, v) ∷ []
  poner k v ((j, w) ∷ d) = if same_text k j then (j, v) ∷ d else (j, w) ∷ poner k v d

abbrev pub Indice : Type 0
Indice = List (Texto × Codigo)

-- `dict.update`
unfoldable pub actualizar : Indice → Indice → Indice
actualizar [] d = d
actualizar ((k, v) ∷ us) d = actualizar us (poner k v d)

abbrev pub sinonimos_tipo_id : Indice
sinonimos_tipo_id =
    (codes "cc", entero 1)
    ∷ (codes "ce", entero 2)
    ∷ (codes "rut", entero 3)
    ∷ (codes "nit", entero 3)
    ∷ (codes "dni", entero 4)
    ∷ (codes "pass", entero 5)
    ∷ (codes "passport", entero 5)
    ∷ (codes "pasaporte", entero 5)
    ∷ []

abbrev pub sinonimos_punto_recepcion : Indice
sinonimos_punto_recepcion =
    (codes "activate b2c", entero 99)
    ∷ (codes "form: change data", entero 99)
    ∷ (codes "updatecom", entero 99)
    ∷ (codes "manual", entero 1)
    ∷ (codes "internet", entero 2)
    ∷ []

abbrev pub sinonimos : String → Indice
sinonimos cat_key =
    if str_eq cat_key "tipo_id"
    then sinonimos_tipo_id
    else if str_eq cat_key "punto_recepcion"
    then sinonimos_punto_recepcion
    else []

-- What `_traducir_via_catalogo_sfc` gives: a code, `None`, a rejection, or `_NO_MATCH`.
pub data Traduccion : Type 0 where
  traducido : Codigo → Traduccion
  sin_valor : Traduccion
  rechazado : String → Traduccion
  no_match : Traduccion

abbrev pub o_rechazo : String → Option Codigo → Traduccion
o_rechazo sf_key none = rechazado sf_key
o_rechazo sf_key (some c) = traducido c

abbrev pub o_nada : Option Codigo → Traduccion
o_nada none = sin_valor
o_nada (some c) = traducido c

abbrev pub get : String → List (String × String) → Option String
get k [] = none
get k ((j, v) ∷ d) = if str_eq k j then some v else get k d

abbrev pub sf_to_cat : List (String × String)
sf_to_cat =
    ("sc_genero__c", "genero")
    ∷ ("SC_id_type__c", "tipo_id")
    ∷ ("tipo_de_persona__c", "persona")
    ∷ ("sc_LGBTIQ__c", "lgbtiq")
    ∷ ("canal__c", "canal")
    ∷ ("Instancia_de_recepcion__c", "instancia_recepcion")
    ∷ ("Desistimiento__c", "desistimiento")
    ∷ ("tipo_fraude__c", "tipo_fraude")
    ∷ ("Tipo_Fraude__c", "tipo_fraude")
    ∷ ("modalidad_fraude__c", "modalidad_fraude")
    ∷ ("Modalidad_Fraude__c", "modalidad_fraude")
    ∷ ("punto_recepcion", "punto_recepcion")
    ∷ ("Categorias_COL__c", "macro_motivo")
    ∷ ("Rectificacion__c", "rectificacion")
    ∷ []

abbrev pub sf_to_cat_soft : List (String × String)
sf_to_cat_soft =
    ("sc_Condicion_especial__c", "condicion_especial")
    ∷ ("Ente_de_control__c", "ente_control")
    ∷ ("admision_col__c", "admision")
    ∷ ("Favorabilidad__c", "favorabilidad")
    ∷ ("Aceptacion__c", "aceptacion")
    ∷ []

-- `key_to_cat` of `_traducir_via_catalogo_crm`
abbrev pub key_to_cat : List (String × String)
key_to_cat =
    ("sexo", "genero")
    ∷ ("tipo_id_CF", "tipo_id")
    ∷ ("tipo_persona", "persona")
    ∷ ("lgbtiq", "lgbtiq")
    ∷ ("sc_LGBTIQ__c", "lgbtiq")
    ∷ ("condicion_especial", "condicion_especial")
    ∷ ("canal_cod", "canal")
    ∷ ("ente_control", "ente_control")
    ∷ ("insta_recepcion", "instancia_recepcion")
    ∷ ("admision", "admision")
    ∷ ("a_favor_de", "favorabilidad")
    ∷ ("aceptacion_queja", "aceptacion")
    ∷ ("rectificacion_queja", "rectificacion")
    ∷ ("desistimiento_queja", "desistimiento")
    ∷ ("tipo_fraude", "tipo_fraude")
    ∷ ("modalidad_fraude", "modalidad_fraude")
    ∷ ("punto_recepcion", "punto_recepcion")
    ∷ ("macro_motivo_cod", "macro_motivo")
    ∷ ("Categorias_COL__c", "macro_motivo")
    ∷ []

-- `str(sfc_value)` of a code, with Python's `str` of a number as a parameter, and `str_key` of
-- `_translate_value_to_crm`.
abbrev pub str_of : (ℕ → Texto) → Codigo → Texto
str_of str_int (entero n) = str_int n
str_of str_int (cadena s) = s

abbrev pub texto_de : (ℕ → Texto) → Codigo → Texto
texto_de str_int c = strip (str_of str_int c)

abbrev pub catalogo_o_vacio : Option Catalogo → Catalogo
catalogo_o_vacio none = []
catalogo_o_vacio (some c) = c

abbrev pub o_si_mismo : Texto → Option Texto → Texto
o_si_mismo s none = s
o_si_mismo s (some v) = v

-- `str(int(str_key) + 900)`, with Python's `str` of a number as a parameter.
abbrev pub con_offset : (ℕ → Texto) → String → Texto → Catalogo → Texto
con_offset str_int cat_key s c =
    if str_eq cat_key "macro_motivo" && isdigit s
    then o_si_mismo s (lookup (str_int (int_from 0 s + 900)) c)
    else s

abbrev pub o_offset : (ℕ → Texto) → String → Texto → Catalogo → Option Texto → Texto
o_offset str_int cat_key s c none = con_offset str_int cat_key s c
o_offset str_int cat_key s c (some v) = v

abbrev pub del_catalogo : (ℕ → Texto) → String → Texto → Catalogo → Texto
del_catalogo str_int cat_key s c = o_offset str_int cat_key s c (lookup s c)

abbrev pub por_clave :
    (ℕ → Texto) → (String → Option Catalogo) → Texto → Option String → Option Texto
por_clave str_int catalogos s none = none
por_clave str_int catalogos s (some cat_key) =
    some (del_catalogo str_int cat_key s (catalogo_o_vacio (catalogos cat_key)))

-- `_traducir_via_catalogo_crm`; `none` is `_NO_MATCH`.
unfoldable pub traducir_via_catalogo_crm :
    (ℕ → Texto) → (String → Option Catalogo) → String → Texto → Option Texto
traducir_via_catalogo_crm str_int catalogos sfc_key s =
    por_clave str_int catalogos s (get sfc_key key_to_cat)

-- Python's NFD without the marks, `\w`, and `str.lower`.
module _ (sin_tildes : Texto → Texto) (es_palabra : ℕ → Bool) (lower : Texto → Texto) where
  -- `re.sub(r'[^\w\s]', '', text)`
  abbrev pub sin_signos : Texto → Texto
  sin_signos [] = []
  sin_signos (c ∷ cs) =
      let resto = sin_signos cs in if es_palabra c || is_space c then c ∷ resto else resto

  -- `_normalize_text`
  unfoldable pub normalize_text : Texto → Texto
  normalize_text s = strip (lower (sin_signos (sin_tildes s)))

  -- The loop of `_construir_indices_inversos` over a catalogue.
  unfoldable pub indice_inverso : Catalogo → Indice → Indice
  indice_inverso [] d = d
  indice_inverso ((k, v) ∷ c) d =
      indice_inverso c (poner k (codigo_de k) (poner (normalize_text v) (codigo_de k) d))

  -- The index of a catalogue, with its synonyms.
  unfoldable pub indice_de : String → Catalogo → Indice
  indice_de cat_key c = actualizar (sinonimos cat_key) (indice_inverso c [])

  -- The catalogues by name; `none` is one that is not there.
  module _ (catalogos : String → Option Catalogo) where
    abbrev pub indice_o_vacio : String → Option Catalogo → Indice
    indice_o_vacio cat_key none = []
    indice_o_vacio cat_key (some c) = indice_de cat_key c

    -- `_lookup_or_fail` in a catalogue
    unfoldable pub lookup_or_fail : String → Texto → String → Traduccion
    lookup_or_fail cat_key normalized sf_key =
        o_rechazo sf_key (lookup normalized (indice_o_vacio cat_key (catalogos cat_key)))

    abbrev pub suave : String → Texto → Option String → Traduccion
    suave sf_key normalized none = no_match
    suave sf_key normalized (some cat) =
        o_nada (lookup normalized (indice_o_vacio cat (catalogos cat)))

    abbrev pub por_catalogo : String → Texto → Option String → Traduccion
    por_catalogo sf_key normalized (some cat) = lookup_or_fail cat normalized sf_key
    por_catalogo sf_key normalized none = suave sf_key normalized (get sf_key sf_to_cat_soft)

    -- `_traducir_via_catalogo_sfc`, but for the two fields of DIVIPOLA.
    unfoldable pub traducir_via_catalogo_sfc : String → Texto → Traduccion
    traducir_via_catalogo_sfc sf_key sf_value =
        por_catalogo sf_key (normalize_text sf_value) (get sf_key sf_to_cat)
