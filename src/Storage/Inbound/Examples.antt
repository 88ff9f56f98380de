-- ===== src/Storage/Inbound/Examples.antt =====
-- A file of the SFC's storage, and an instance of the theorem about it.
use ms_integracion_smartsupe.Prelude.{
  ◌≡◌, refl, Bool, true, false, String, Option, none, some, [], ◌∷◌, if◌then◌else◌,
}
use ms_integracion_smartsupe.Text.{
  codes, lower, lower_code, strip, strip_left, strip_right, is_space, same_text,
}
use ms_integracion_smartsupe.Text.Search.{after_prefix}
use ms_integracion_smartsupe.Storage.{Key, limpiar_key}
use ms_integracion_smartsupe.Storage.FileType.{sin_texto, normalizar_tipo_archivo}
use ms_integracion_smartsupe.Storage.Inbound.{
  Bytes, fin, trozo, Descarga, respuesta, recorrer, descargar_streaming, extension_de,
  validar_integridad, AdjuntoSfc, es_host_permitido, subir_stream, procesar_adjunto,
  transferir_lote_sfc,
}
use ms_integracion_smartsupe.Storage.Inbound.Safe.{AllSafe, guardados, transferir_lote_sfc-AllSafe}

-- The host of the one URL, and of another that only ends in the same letters.
abbrev host_of : Key → Option Key
host_of url =
    if same_text url (codes "https://evil")
    then some (codes "evilstorage.googleapis.com")
    else some (codes "files.storage.googleapis.com")

abbrev answer : Key → Descarga
answer url = respuesta none (trozo (codes "%PDF-") (trozo (codes "1.7") fin))

abbrev stored : Key → Bytes → Key → Bool
stored k b t = true

abbrev file_at : String → AdjuntoSfc
file_at u = record {
  url = some (codes u);
  id = some (codes "7");
  raw_type = codes "application/vnd.x-PDF";
}

-- The first is stored; the second, whose host only ends like the domain, is not asked for.
one_stored :
    (transferir_lote_sfc lower host_of [] false "production" answer stored
      (codes "500")
      (file_at "https://good" ∷ file_at "https://evil" ∷ [])).0
    ≡ record { nombre_archivo = codes "7.pdf"; s3_key = codes "quejas/500/7.pdf" } ∷ []
unfolding transferir_lote_sfc procesar_adjunto es_host_permitido descargar_streaming recorrer
    validar_integridad extension_de subir_stream limpiar_key after_prefix lower lower_code strip
    strip_left strip_right is_space normalizar_tipo_archivo sin_texto
one_stored = refl

transferir_lote_sfc-AllSafe_example :
    AllSafe lower host_of [] answer
      (transferir_lote_sfc lower host_of [] false "production" answer stored
        (codes "500")
        (file_at "https://good" ∷ [])).1
    × ((transferir_lote_sfc lower host_of [] false "production" answer stored
          (codes "500")
          (file_at "https://good" ∷ [])).0
        ≡ guardados
            (transferir_lote_sfc lower host_of [] false "production" answer stored
              (codes "500")
              (file_at "https://good" ∷ [])).1)
transferir_lote_sfc-AllSafe_example =
    transferir_lote_sfc-AllSafe lower host_of [] "production" answer stored (codes "500") refl
      (file_at "https://good" ∷ [])
