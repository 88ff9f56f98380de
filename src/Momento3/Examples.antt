-- ===== src/Momento3/Examples.antt =====
-- A closing whose PDF is sent, and instances of the theorems about it.
use ms_integracion_smartsupe.Prelude.{◌≡◌, refl, true, none, some, []}
use ms_integracion_smartsupe.Momento2.{hecho}
use ms_integracion_smartsupe.Momento3.{
  cierre_definitivo, Peticion, Servicios, pipeline, enviar_pdf, enviar_lote, actualizar_queja,
}
use ms_integracion_smartsupe.Momento3.Closing.{sent_pdf, AllTruthful, pipeline-AllTruthful}

abbrev services : Servicios
services = record {
  mapear = λ p. hecho p;
  pdf = λ h c. hecho tt;
  lote = λ h a. hecho tt;
  validar = λ p. hecho tt;
  actualizar = λ h p. hecho tt;
}

abbrev closing : Peticion
closing = record {
  crm = λ k. none;
  smart_code = "1286";
  archivos_s3 = [];
  cuerpo_respuesta_final = some "<p>Respuesta</p>";
}

sends_pdf : sent_pdf (pipeline services "2026-01-01T00:00:00" cierre_definitivo closing).1 ≡ true
unfolding pipeline enviar_pdf enviar_lote actualizar_queja cierre_definitivo
sends_pdf = refl

pipeline-AllTruthful_example :
    AllTruthful cierre_definitivo closing
      (pipeline services "2026-01-01T00:00:00" cierre_definitivo closing).1
pipeline-AllTruthful_example =
    pipeline-AllTruthful services "2026-01-01T00:00:00" cierre_definitivo closing
