-- ===== src/Webhook/Contract.antt =====
-- The contract of a confirmation.
use ms_integracion_smartsupe.Prelude.{
  ◌≡◌, ◌≢◌, ◌↔◌, ◌⊎◌, ℕ, refl, ap, sym, subst, arith, Bool-cases, inl, inr, String, Bool, true,
  false, not, Option, eq_iff, str_eq, none, some,
}
use ms_integracion_smartsupe.Text.{codes}
use ms_integracion_smartsupe.Text.Search.{contains}
use ms_integracion_smartsupe.Errors.Extract.{
  JsonValue, json_null, json_text, json_scalar, json_list, json_object, Fields, get_field,
}
use ms_integracion_smartsupe.Webhook.{
  Response, Detalle, error_http, content_type_inesperado, es_true, es_el_caso, correlaciona,
  con_cuerpo, es_json, validar_respuesta_exitosa, aceptado, tras_respuesta, notificar_resolucion,
}

-- An answer that confirms the case: 200, 201 or 202 with a JSON object, `success` that is `true`,
-- and the case that was told, which is not empty.
pub record Confirms (r : Response) (case_id_crm : String) : Type 0 where
  pub campos : Fields
  pub estado : (r.status_code ≡ 200) ⊎ ((r.status_code ≡ 201) ⊎ (r.status_code ≡ 202))
  pub json : contains (codes "application/json") (codes r.content_type) ≡ true
  pub objeto : r.cuerpo ≡ some (json_object campos)
  pub exito : get_field "success" campos ≡ some (json_scalar "True")
  pub caso : get_field "case_number" campos ≡ some (json_text case_id_crm)
  pub hay_caso : case_id_crm ≢ ""

aceptado-true : (s : ℕ) → aceptado s ≡ true → (s ≡ 200) ⊎ ((s ≡ 201) ⊎ (s ≡ 202))
aceptado-true s h = ground arith

true-aceptado : (s : ℕ) → (s ≡ 200) ⊎ ((s ≡ 201) ⊎ (s ≡ 202)) → aceptado s ≡ true
true-aceptado s h = ground arith

es_true-some : (o : Option JsonValue) → es_true o ≡ true → o ≡ some (json_scalar "True")
es_true-some none h = cc
es_true-some (some (json_scalar s)) h = ap (λ t. some (json_scalar t)) ((eq_iff s "True").0 h)
es_true-some (some json_null) h = cc
es_true-some (some (json_text s)) h = cc
es_true-some (some (json_list es)) h = cc
es_true-some (some (json_object cs)) h = cc

es_el_caso-some :
    (o : Option JsonValue) (c : String) → es_el_caso o c ≡ true → o ≡ some (json_text c)
es_el_caso-some none c h = cc
es_el_caso-some (some (json_text s)) c h = ap (λ t. some (json_text t)) ((eq_iff s c).0 h)
es_el_caso-some (some json_null) c h = cc
es_el_caso-some (some (json_scalar s)) c h = cc
es_el_caso-some (some (json_list es)) c h = cc
es_el_caso-some (some (json_object cs)) c h = cc

correlaciona-caso :
    (c : String) (cs : Fields)
    → correlaciona c cs ≡ true
    → (c ≢ "") × (get_field "case_number" cs ≡ some (json_text c))
correlaciona-caso c cs h =
    let named : not (str_eq c "") ≡ true = ground arith in
    let same : es_el_caso (get_field "case_number" cs) c ≡ true = ground arith in
    (
      λ e. (let k = (eq_iff c "").1 e in let bad : Path Bool false true = simp k at named in cc),
      es_el_caso-some (get_field "case_number" cs) c same,
    )

caso-correlaciona :
    (c : String) (cs : Fields)
    → c ≢ ""
    → get_field "case_number" cs ≡ some (json_text c)
    → correlaciona c cs ≡ true
caso-correlaciona c cs named e =
    let same : str_eq c c ≡ true = (eq_iff c c).1 refl in
    elim (Bool-cases (str_eq c "")) [
      | inl y ↦ absurd (named ((eq_iff c "").0 y))
      | inr n ↦ simp (e, n, same) refl
    ]

contrato-object :
    (v : JsonValue) (c : String)
    → con_cuerpo c (some v) ≡ none
    → (cs : Fields) × (v ≡ json_object cs)
      × (es_true (get_field "success" cs) ≡ true)
      × (correlaciona c cs ≡ true)
contrato-object json_null c h = cc
contrato-object (json_text s) c h = cc
contrato-object (json_scalar s) c h = cc
contrato-object (json_list es) c h = cc
contrato-object (json_object cs) c h = (cs, refl, ground arith, ground arith)

cuerpo-object :
    (o : Option JsonValue) (c : String)
    → con_cuerpo c o ≡ none
    → (cs : Fields) × (o ≡ some (json_object cs))
      × (es_true (get_field "success" cs) ≡ true)
      × (correlaciona c cs ≡ true)
cuerpo-object none c h = cc
cuerpo-object (some v) c h =
    let (cs, e, s, k) = contrato-object v c h in (cs, ap (λ w. some w) e, s, k)

validar-cuerpo :
    (r : Response) (c : String)
    → validar_respuesta_exitosa r c ≡ none
    → (es_json r ≡ true) × (con_cuerpo c r.cuerpo ≡ none)
unfolding validar_respuesta_exitosa
validar-cuerpo r c h = elim (Bool-cases (es_json r)) [
  | inl y ↦ (y, simp y at h)
  | inr n ↦
      (let bad : Path (Option Detalle) (some content_type_inesperado) none = simp n at h in cc)
]

respuesta-Confirms : (r : Response) (c : String) → tras_respuesta (some r) c ≡ none → Confirms r c
respuesta-Confirms r c h = elim (Bool-cases (aceptado r.status_code)) [
  | inl y ↦
      let (json, body) = validar-cuerpo r c (simp y at h) in
      let (cs, e, s, k) = cuerpo-object r.cuerpo c body in
      let (named, same) = correlaciona-caso c cs k in
      record {
        campos = cs;
        estado = aceptado-true r.status_code y;
        json = json;
        objeto = e;
        exito = es_true-some (get_field "success" cs) s;
        caso = same;
        hay_caso = named;
      }
  | inr n ↦
      (let bad : Path (Option Detalle) (some (error_http r.status_code)) none = simp n at h in cc)
]

Confirms-respuesta : (r : Response) (c : String) → Confirms r c → tras_respuesta (some r) c ≡ none
unfolding validar_respuesta_exitosa
Confirms-respuesta r c h =
    let accepted = true-aceptado r.status_code h.estado in
    let same = caso-correlaciona c h.campos h.hay_caso h.caso in
    simp (accepted, h.json, h.objeto, h.exito, same) refl

-- The CRM counts as told exactly when the URL is configured and the CRM answered with a
-- confirmation of this case.
pub notificar_resolucion_iff :
    (con_url : Bool) (o : Option Response) (case_id_crm : String)
    → (notificar_resolucion con_url o case_id_crm ≡ none)
      ↔ ((con_url ≡ true) × ((r : Response) × (o ≡ some r) × Confirms r case_id_crm))
unfolding notificar_resolucion validar_respuesta_exitosa
notificar_resolucion_iff false o c = (λ h. cc, λ h. (let bad : Path Bool false true = h.0 in cc))
notificar_resolucion_iff true none c =
    (λ h. cc, λ h. (let bad : Path (Option Response) none (some h.1.0) = h.1.1 in cc))
notificar_resolucion_iff true (some r) c = (
  λ h. (refl, (r, refl, respuesta-Confirms r c h)),
  λ h. subst (λ o. tras_respuesta o c ≡ none) (sym h.1.1) (Confirms-respuesta h.1.0 c h.1.2),
)
