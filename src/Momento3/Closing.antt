-- ===== src/Momento3/Closing.antt =====
-- What Momento 3 tells the SFC of the final answer.
use ms_integracion_smartsupe.Prelude.{
  String, ◌≡◌, refl, sym, ◌∙◌, ap, Bool, true, false, not, ◌||◌, Option, none, some, List, [], ◌∷◌,
  if◌then◌else◌, if_cases,
}
use ms_integracion_smartsupe.Classification.{Json, other, Payload}
use ms_integracion_smartsupe.Momento2.{Desenlace, hecho, rechazo, invalido, excepcion}
use ms_integracion_smartsupe.Momento4.{is_nil}
use ms_integracion_smartsupe.Momento3.{
  no_si, bool_json, es_falsy, Operacion, Peticion, estado_inicial, es_pipeline_fraude, sin_fraude,
  sfc_defaults, defaults_finales, Salida, pdf_enviado, lote_enviado, put, Servicios, Corrida,
  es_hecho, y_luego, payload_final, actualizar_queja, enviar_lote, con_cuerpo, enviar_pdf,
  tras_mapeo, pipeline,
}
use ms_integracion_smartsupe.Momento3.Defaults.{among, con_defaults-other}

abbrev pub sent_pdf : List Salida → Bool
sent_pdf [] = false
sent_pdf (pdf_enviado c returned ∷ h) = returned || sent_pdf h
sent_pdf (_ ∷ h) = sent_pdf h

abbrev pub sent_lote : List Salida → Bool
sent_lote [] = false
sent_lote (lote_enviado a f m returned ∷ h) = returned || sent_lote h
sent_lote (_ ∷ h) = sent_lote h

abbrev pub estado_of : Bool → Json
estado_of true = other "4"
estado_of false = other "2"

-- An update says that the final answer was delivered exactly when the PDF was sent before it and
-- returned, has the state of its operation, and comes after a batch that returned where there are
-- files.
abbrev pub Truthful : Operacion → Peticion → Salida → List Salida → Type 0
Truthful o q (put c p) before =
    (p "documentacion_rta_final" ≡ some (bool_json (sent_pdf before)))
    × (p "estado_cod" ≡ some (estado_of o.generar_pdf_cierre))
    × (sent_lote before ≡ not (is_nil q.archivos_s3))
Truthful o q _ before = Unit

abbrev pub AllTruthful : Operacion → Peticion → List Salida → Type 0
AllTruthful o q [] = Unit
AllTruthful o q (e ∷ h) = Truthful o q e h × AllTruthful o q h

-- The payload between the steps.
abbrev Initial : Operacion → Payload → Type 0
Initial o p =
    (p "documentacion_rta_final" ≡ some no_si)
    × (p "estado_cod" ≡ some (estado_of o.generar_pdf_cierre))

estado_inicial-Initial :
    (ahora : String) (cierre : Bool) (p : Payload)
    → (estado_inicial ahora cierre p "documentacion_rta_final" ≡ some no_si)
      × (estado_inicial ahora cierre p "estado_cod" ≡ some (estado_of cierre))
unfolding estado_inicial
estado_inicial-Initial ahora true p =
    if_cases
      (λ (r : Payload).
        (r "documentacion_rta_final" ≡ some no_si) × (r "estado_cod" ≡ some (estado_of true)))
      (es_falsy (p "fecha_cierre")) _ _ (λ _. (refl, refl)) (λ _. (refl, refl))
estado_inicial-Initial ahora false p = (refl, refl)

finales-other :
    (afijo : Option String) (crm p : Payload) (k : String)
    → among k sfc_defaults ≡ false
    → sin_fraude p k ≡ p k
    → defaults_finales afijo crm p k ≡ p k
unfolding defaults_finales
finales-other afijo crm p k h same =
    con_defaults-other k sfc_defaults (if es_pipeline_fraude afijo crm then p else sin_fraude p) h
    ∙ if_cases (λ (r : Payload). r k ≡ p k) (es_pipeline_fraude afijo crm) _ _ (λ _. refl)
        (λ _. same)

module _ (s : Servicios) (ahora : String) (o : Operacion) (q : Peticion) where
  payload_final-says :
      (pdf : Bool) (p : Payload)
      → Initial o p
      → (payload_final s ahora o q pdf p "documentacion_rta_final" ≡ some (bool_json pdf))
        × (payload_final s ahora o q pdf p "estado_cod" ≡ some (estado_of o.generar_pdf_cierre))
  unfolding payload_final
  payload_final-says true p (doc, estado) = (
    finales-other o.afijo_regulatorio q.crm _ "documentacion_rta_final" refl refl,
    finales-other o.afijo_regulatorio q.crm _ "estado_cod" refl refl ∙ estado,
  )
  payload_final-says false p (doc, estado) = (
    finales-other o.afijo_regulatorio q.crm _ "documentacion_rta_final" refl refl ∙ doc,
    finales-other o.afijo_regulatorio q.crm _ "estado_cod" refl refl ∙ estado,
  )

  luego-AllTruthful :
      (d : Desenlace (Unit {0})) (h : List Salida) (resto : List Salida → Corrida)
      → AllTruthful o q h
      → (es_hecho d ≡ true → AllTruthful o q (resto h).1)
      → AllTruthful o q (y_luego s ahora d h resto).1
  luego-AllTruthful (hecho x) h resto a b = b refl
  luego-AllTruthful (rechazo e) h resto a b = a
  luego-AllTruthful (invalido e) h resto a b = a
  luego-AllTruthful (excepcion e) h resto a b = a

  actualizar-AllTruthful :
      (pdf : Bool) (p : Payload) (h : List Salida)
      → Initial o p
      → sent_pdf h ≡ pdf
      → sent_lote h ≡ not (is_nil q.archivos_s3)
      → AllTruthful o q h
      → AllTruthful o q (actualizar_queja s ahora o q pdf p h).1
  unfolding actualizar_queja
  actualizar-AllTruthful pdf p h i sent lote a =
      let (doc, estado) = payload_final-says pdf p i in
      luego-AllTruthful (s.validar (payload_final s ahora o q pdf p)) h _ a
        (λ _. ((doc ∙ ap (λ b. some (bool_json b)) (sym sent), estado, lote), a))

  lote-AllTruthful :
      (pdf : Bool) (p : Payload) (h : List Salida)
      → Initial o p
      → sent_pdf h ≡ pdf
      → sent_lote h ≡ false
      → AllTruthful o q h
      → AllTruthful o q (enviar_lote s ahora o q pdf p h).1
  unfolding enviar_lote
  lote-AllTruthful pdf p h i sent lote a =
      let d = s.lote h q.archivos_s3 in
      let h' = lote_enviado q.archivos_s3 o.afijo_regulatorio o.afijo_masivo (es_hecho d) ∷ h in
      if_cases (λ (r : Corrida). AllTruthful o q r.1) (is_nil q.archivos_s3) _ _
        (λ nil. actualizar-AllTruthful pdf p h i sent (lote ∙ sym (ap not nil)) a)
        (λ full.
          luego-AllTruthful d h' (actualizar_queja s ahora o q pdf p) (tt, a)
            (λ ok.
              actualizar-AllTruthful pdf p h' i sent
                (ap (λ b. b || sent_lote h) ok ∙ sym (ap not full)) (tt, a)))

  cuerpo-AllTruthful :
      (p : Payload) (c : Option String)
      → Initial o p
      → AllTruthful o q (con_cuerpo s ahora o q p c).1
  cuerpo-AllTruthful p none i = lote-AllTruthful false p [] i refl refl tt
  cuerpo-AllTruthful p (some cuerpo) i =
      let d = s.pdf [] cuerpo in
      let h = pdf_enviado cuerpo (es_hecho d) ∷ [] in
      luego-AllTruthful d h (enviar_lote s ahora o q true p) (tt, tt)
        (λ ok. lote-AllTruthful true p h i (ap (λ b. b || false) ok) refl (tt, tt))

  mapeo-AllTruthful : (d : Desenlace Payload) → AllTruthful o q (tras_mapeo s ahora o q d).1
  unfolding enviar_pdf
  mapeo-AllTruthful (rechazo e) = tt
  mapeo-AllTruthful (invalido e) = tt
  mapeo-AllTruthful (excepcion e) = tt
  mapeo-AllTruthful (hecho p) =
      let i = estado_inicial-Initial ahora o.generar_pdf_cierre p in
      let p' = estado_inicial ahora o.generar_pdf_cierre p in
      if_cases (λ (r : Corrida). AllTruthful o q r.1) o.generar_pdf_cierre _ _
        (λ _. cuerpo-AllTruthful p' q.cuerpo_respuesta_final i)
        (λ _. lote-AllTruthful false p' [] i refl refl tt)

  -- Whatever the services answer, an update that is sent says that the final answer was delivered
  -- exactly when its PDF was sent before without an exception, has state 4 for a closing and 2
  -- otherwise, and comes after a batch of the files without an exception exactly when there are
  -- files.
  pub pipeline-AllTruthful : AllTruthful o q (pipeline s ahora o q).1
  unfolding pipeline
  pipeline-AllTruthful = mapeo-AllTruthful (s.mapear q.crm)
