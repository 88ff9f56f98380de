-- ===== src/Storage/Inbound/Safe.antt =====
-- What a file of the SFC must be to be stored, and which files the batch returns.
use ms_integracion_smartsupe.Prelude.{
  ◌≤◌, ◌≡◌, ◌≢◌, refl, ap, sym, ◌∙◌, String, Bool, true, false, Option, none, some, List, [], ◌∷◌,
  ◌++◌, append-nil, append_assoc, length, if◌then◌else◌, if_cases, Option-cases, inl, inr,
}
use ms_integracion_smartsupe.Storage.{Key, limpiar_key}
use ms_integracion_smartsupe.Storage.Inbound.{
  Bytes, admite_locales, Descarga, Paso, listo, rechazado, roto, max_bytes, descargar_streaming,
  magic_headers, firma_de, extension_de, validar_integridad, AdjuntoSfc, Archivo, Subida, Proceso,
  es_host_permitido, archivo_of, tipo_of, subir_stream, tras_integridad, tras_descarga, con_url,
  procesar_adjunto, transferir_lote_sfc,
}
use ms_integracion_smartsupe.Storage.Inbound.Checks.{
  OfSfc, permitido-OfSfc, descargar-size, StartsWith, integridad-StartsWith,
}

module _ (lower : Key → Key) (hostname : Key → Option Key) (base : Key)
    (pedir : Key → Descarga) where
  -- A call of S3 with what the SFC's side gave: its URL is of a host that the allowlist names, and
  -- its content is what was downloaded from there, not empty, within the limit, and with the
  -- signature of the extension of its name.
  pub record IsSafe (u : Subida) : Type 0 where
    pub host : Key
    pub origen : hostname u.url ≡ some host
    pub permitido : OfSfc base (lower host)
    pub recibido : descargar_streaming (pedir u.url) ≡ listo u.contenido
    pub cabe : length u.contenido ≤ max_bytes
    pub no_vacio : u.contenido ≢ []
    pub firmado :
        StartsWith
          (firma_de (extension_de lower u.archivo.nombre_archivo) magic_headers)
          u.contenido

  abbrev pub AllSafe : List Subida → Type 0
  AllSafe [] = Unit
  AllSafe (u ∷ us) = IsSafe u × AllSafe us

  AllSafe-append : (us vs : List Subida) → AllSafe us → AllSafe vs → AllSafe (us ++ vs)
  AllSafe-append [] vs h k = k
  AllSafe-append (u ∷ us) vs (h, hs) k = (h, AllSafe-append us vs hs k)

-- The files whose call returned.
abbrev pub guardados : List Subida → List Archivo
guardados [] = []
guardados (u ∷ us) = (if u.guardado then u.archivo ∷ [] else []) ++ guardados us

guardados-append : (us vs : List Subida) → guardados (us ++ vs) ≡ guardados us ++ guardados vs
guardados-append [] vs = refl
guardados-append (u ∷ us) vs =
    let these = if u.guardado then u.archivo ∷ [] else [] in
    ap (λ t. these ++ t) (guardados-append us vs)
    ∙ sym (append_assoc these (guardados us) (guardados vs))

module _ (lower : Key → Key) (hostname : Key → Option Key) (base : Key) (entorno : String)
    (pedir : Key → Descarga) (upload : Key → Bytes → Key → Bool) (codigo : Key)
    (productivo : admite_locales false entorno ≡ false) where
  -- What a file gives: its calls are safe, and it counts exactly where its call returned.
  abbrev Good : Proceso → Type 0
  Good p = AllSafe lower hostname base pedir p.1 × (p.0 ≡ guardados p.1)

  nothing-Good : Good ([], [])
  nothing-Good = (tt, refl)

  integridad-Good :
      (a : AdjuntoSfc) (url host : Key) (b : Bytes) (o : Option String)
      → hostname url ≡ some host
      → OfSfc base (lower host)
      → descargar_streaming (pedir url) ≡ listo b
      → validar_integridad lower b
          (archivo_of lower hostname base false entorno pedir upload codigo a).nombre_archivo
        ≡ o
      → Good (tras_integridad lower hostname base false entorno pedir upload codigo a url b o)
  unfolding subir_stream
  integridad-Good a url host b (some e) from allowed got valid = nothing-Good
  integridad-Good a url host b none from allowed got valid =
      let archivo = archivo_of lower hostname base false entorno pedir upload codigo a in
      let (there, signed) = integridad-StartsWith lower b archivo.nombre_archivo valid in
      let files =
        if upload (limpiar_key archivo.s3_key) b
          (tipo_of lower hostname base false entorno pedir upload codigo a).1
        then archivo ∷ []
        else [] in
      (
        (
          record {
            host = host;
            origen = from;
            permitido = allowed;
            recibido = got;
            cabe = descargar-size (pedir url) b got;
            no_vacio = there;
            firmado = signed;
          },
          tt,
        ),
        sym (append-nil files),
      )

  descarga-Good :
      (a : AdjuntoSfc) (url host : Key) (p : Paso Bytes)
      → hostname url ≡ some host
      → OfSfc base (lower host)
      → descargar_streaming (pedir url) ≡ p
      → Good (tras_descarga lower hostname base false entorno pedir upload codigo a url p)
  descarga-Good a url host (rechazado e) from allowed got = nothing-Good
  descarga-Good a url host roto from allowed got = nothing-Good
  descarga-Good a url host (listo b) from allowed got =
      integridad-Good a url host b
        (validar_integridad lower b
          (archivo_of lower hostname base false entorno pedir upload codigo a).nombre_archivo)
        from allowed got refl

  hostname-OfSfc :
      (url : Key)
      → es_host_permitido lower hostname base false entorno pedir upload codigo url ≡ true
      → (host : Key) × (hostname url ≡ some host) × OfSfc base (lower host)
  unfolding es_host_permitido
  hostname-OfSfc url h = elim (Option-cases (hostname url)) [
    | inl none_there ↦ (let bad : Path Bool false true = simp none_there at h in cc)
    | inr (host, e) ↦ (host, e, permitido-OfSfc base (lower host) (simp (e, productivo) at h))
  ]

  url-Good :
      (a : AdjuntoSfc) (o : Option Key)
      → Good (con_url lower hostname base false entorno pedir upload codigo a o)
  url-Good a none = nothing-Good
  url-Good a (some url) =
      if_cases Good (es_host_permitido lower hostname base false entorno pedir upload codigo url) _
        _
        (λ y.
          (let (host, e, allowed) = hostname-OfSfc url y in
            descarga-Good a url host (descargar_streaming (pedir url)) e allowed refl))
        (λ _. nothing-Good)

  -- Away from a local environment, each file that goes from the SFC to S3 is of a host that the
  -- allowlist names, which is that domain or has it behind a dot, is what was downloaded from
  -- there, is not empty and 30 MB at most, and begins with the signature of its extension if it
  -- has one; and the batch returns exactly the files that S3 took, in their order.
  pub transferir_lote_sfc-AllSafe :
      (adjuntos : List AdjuntoSfc)
      → AllSafe lower hostname base pedir
          (transferir_lote_sfc lower hostname base false entorno pedir upload codigo adjuntos).1
        × ((transferir_lote_sfc lower hostname base false entorno pedir upload codigo adjuntos).0
            ≡ guardados
                (transferir_lote_sfc lower hostname base false entorno pedir upload codigo
                  adjuntos).1)
  unfolding transferir_lote_sfc procesar_adjunto
  transferir_lote_sfc-AllSafe [] = nothing-Good
  transferir_lote_sfc-AllSafe (a ∷ resto) =
      let (safe, same) = url-Good a a.url in
      let (rest_safe, rest_same) = transferir_lote_sfc-AllSafe resto in
      let p = con_url lower hostname base false entorno pedir upload codigo a a.url in
      let q = transferir_lote_sfc lower hostname base false entorno pedir upload codigo resto in
      (
        AllSafe-append lower hostname base pedir p.1 q.1 safe rest_safe,
        ap (λ t. t ++ q.0) same
            ∙ (ap (λ t. guardados p.1 ++ t) rest_same ∙ sym (guardados-append p.1 q.1)),
      )
