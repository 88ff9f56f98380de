-- ===== src/Orchestrator/Recovery.antt =====
-- How a dispatch of a case that the SFC has closed already ends.
use ms_integracion_smartsupe.Prelude.{
  String, ◌≡◌, refl, Bool, true, false, ◌&&◌, List, ◌∷◌, str_eq, inl, inr, Bool-cases,
}
use ms_integracion_smartsupe.Classification.{es_cierre, es_fraude}
use ms_integracion_smartsupe.Errors.{SfcException}
use ms_integracion_smartsupe.Orchestrator.{
  Queja, Resultado, Respuesta, resultado, rechazo, Llamada, actualizacion_tramite, envio_m2,
  sin_adjuntos, Listado, es_caso_no_encontrado, es_m2_puro, is_empty, ya_cerrado,
  exito_si_ya_cerrado, paso_tramite, pasos_momento_3, limpiar_si_cierre, momento_3, tras_creacion,
  recuperar, intento, despachar, resultado_por_cierre_confirmado,
}

module _ (lower : String → String) (responde : List Llamada → Llamada → Respuesta)
    (listar : String → String → Listado) where
  -- An update of a case that the SFC has closed already, whatever its status code and type, makes
  -- that one call and ends as "noop": it is neither reported as applied nor retried, and no case is
  -- created for it.
  pub closed_update_is_noop :
      (q : Queja) (l : Bool) (h : List Llamada) (exc : SfcException)
      → es_fraude q.fields ≡ false
      → es_cierre q.fields ≡ false
      → es_m2_puro q.fields ≡ false
      → responde h (actualizacion_tramite q) ≡ rechazo exc
      → ya_cerrado lower responde listar exc ≡ true
      → despachar lower responde listar q l h ≡ (
        resultado (resultado_por_cierre_confirmado q.smart_code false),
        actualizacion_tramite q ∷ h,
      )
  unfolding despachar intento momento_3 pasos_momento_3 paso_tramite exito_si_ya_cerrado
      limpiar_si_cierre recuperar
  closed_update_is_noop q l h exc fraud closing m2 e closed = elim (Bool-cases l) [
    | inl y ↦ simp (fraud, m2, closing, e, closed, y) refl
    | inr n ↦ simp (fraud, m2, closing, e, closed, n) refl
  ]

  recuperar-missing :
      (q : Queja) (l : Bool) (answer : Respuesta) (h : List Llamada) (exc : SfcException)
      (r : Resultado)
      → answer ≡ rechazo exc
      → es_caso_no_encontrado exc ≡ true
      → responde h (envio_m2 (sin_adjuntos q)) ≡ resultado r
      → str_eq r.status "success" ≡ true
      → recuperar lower responde listar q l (answer, h)
        ≡ momento_3 lower responde listar q l (envio_m2 (sin_adjuntos q) ∷ h)
  unfolding recuperar tras_creacion
  recuperar-missing q l answer h exc r e missing e' done =
      simp (e, missing) (simp e' (simp done refl))

  -- A case that the SFC does not have is created without its files, and then the pipeline of
  -- Momento 3 is run once more with them; its answer is the answer.
  pub missing_is_recovered :
      (q : Queja) (l : Bool) (h : List Llamada) (exc : SfcException) (r : Resultado)
      → (es_fraude q.fields && is_empty q.archivos_s3) ≡ false
      → es_m2_puro q.fields ≡ false
      → (momento_3 lower responde listar q l h).0 ≡ rechazo exc
      → es_caso_no_encontrado exc ≡ true
      → responde (momento_3 lower responde listar q l h).1 (envio_m2 (sin_adjuntos q)) ≡ resultado r
      → str_eq r.status "success" ≡ true
      → despachar lower responde listar q l h
        ≡ momento_3 lower responde listar q l
            (envio_m2 (sin_adjuntos q) ∷ (momento_3 lower responde listar q l h).1)
  unfolding despachar intento
  missing_is_recovered q l h exc r documents m2 e missing e' done =
      let (answer, h') = momento_3 lower responde listar q l h in
      simp (documents, m2) (recuperar-missing q l answer h' exc r e missing e' done)
