-- ===== src/Storage/Examples.antt =====
-- Keys of one case, and instances of the theorems about them.
use ms_integracion_smartsupe.Prelude.{◌≡◌, ◌↔◌, ◌++◌, refl, true, false, none, some, [], ◌∷◌}
use ms_integracion_smartsupe.Text.{codes}
use ms_integracion_smartsupe.Storage
use ms_integracion_smartsupe.Storage.Ownership.{tras_carpeta, validar_ownership_iff}
use ms_integracion_smartsupe.Storage.Retry.{retry_sends_rest}

-- A shared folder on the way does not let its name in.
shared_folder : Storage.validar_ownership_key (codes "caso/500/a.pdf") (some (codes "caso")) ≡ false
unfolding Storage.validar_ownership_key
shared_folder = refl

own_folder : Storage.validar_ownership_key (codes "caso/500/a.pdf") (some (codes "500")) ≡ true
unfolding Storage.validar_ownership_key
own_folder = refl

validar_ownership_iff_example :
    ((Storage.validar_ownership_key
          (tras_carpeta none (codes "500" ++ (47 ∷ codes "a.pdf")))
          (some (codes "500"))
        ≡ true)
      ↔ (codes "500" ≡ codes "500"))
    × (Storage.validar_ownership_key (codes "a.pdf") (some (codes "500")) ≡ false)
validar_ownership_iff_example =
    validar_ownership_iff 53 (codes "00") 97 (codes ".pdf") none 53 (codes "00") refl refl

abbrev letter : Storage.Adjunto
letter = record {
  s3_key = some (codes "caso/500/a.pdf");
  nombre_archivo = none;
  contenido_hash = none;
}

abbrev accepts : Storage.Adjunto → Storage.Respuesta
accepts a = Storage.aceptado

abbrev refuses : Storage.Adjunto → Storage.Respuesta
refuses a = Storage.excepcion

retry_sends_rest_example :
    Storage.procesar_envio refuses
      (Storage.transferir_lote accepts (λ i. true) [] [] (letter ∷ [])).1
      letter
    ≡ Storage.already_confirmed
unfolding Storage.procesar_envio Storage.original_name Storage.identificador_archivo
retry_sends_rest_example =
    retry_sends_rest accepts (λ i. true) [] [] (λ i. refl) refuses [] letter [] refl
