-- ===== src/Momento2/Delivered.antt =====
-- What a success of Momento 2 means: the SFC has the complaint and its files.
use ms_integracion_smartsupe.Prelude.{
  String, ◌≡◌, ◌⊎◌, inl, inr, refl, true, Option, none, some, List, [], ◌∷◌, sym, ◌∙◌, Bool-cases,
  eq_iff, str_eq, Bool, false,
}
use ms_integracion_smartsupe.Text.{codes}
use ms_integracion_smartsupe.Errors.{SfcException}
use ms_integracion_smartsupe.Storage.{
  Key, Adjunto, Envio, Respuesta, sin_identidad, already_confirmed, enviado, duplicate_omitted,
  fallido, add_envio, enviar_todos, reunir,
}
use ms_integracion_smartsupe.Momento2.{
  Desenlace, hecho, rechazo, invalido, excepcion, ◌>>=◌, es_error_queja_ya_existe, any_in,
  frases_colision_funcional, frases_ya_existe, tolerar_duplicado, Peticion, or_text, Servicios,
  archivos_de, enviar_archivos, con_payload, con_archivos, con_crudo, con_codigo, enviar,
  ejecutar_envio_momento_2,
}

>>=-eq-hecho :
    {A B : Type 0} (m : Desenlace A) (f : A → Desenlace B) (b : B)
    → (m >>= f) ≡ hecho b
    → (a : A) × (m ≡ hecho a) × (f a ≡ hecho b)
>>=-eq-hecho (hecho a) f b h = (a, refl, h)
>>=-eq-hecho (rechazo e) f b h = cc
>>=-eq-hecho (invalido e) f b h = cc
>>=-eq-hecho (excepcion e) f b h = cc

-- No file failed: the SFC took it, says that it has it, or confirmed it in an earlier batch; or it
-- has neither key nor name.
abbrev pub AllDelivered : List Envio → Type 0
AllDelivered [] = Unit
AllDelivered (fallido ∷ es) = ⊥
AllDelivered (e ∷ es) = AllDelivered es

add_envio-some :
    (e : Envio) (o : Option (List Envio)) (es : List Envio)
    → add_envio e o ≡ some es
    → (r : List Envio) × (o ≡ some r)
add_envio-some e none es h = cc
add_envio-some e (some r) es h = (r, refl)

reunir-AllDelivered : (xs es : List Envio) → reunir xs ≡ some es → AllDelivered xs
unfolding reunir
reunir-AllDelivered [] es h = tt
reunir-AllDelivered (sin_identidad ∷ xs) es h = reunir-AllDelivered xs es h
reunir-AllDelivered (fallido ∷ xs) es h = cc
reunir-AllDelivered (already_confirmed ∷ xs) es h =
    let (r, e) = add_envio-some already_confirmed (reunir xs) es h in reunir-AllDelivered xs r e
reunir-AllDelivered (enviado i ∷ xs) es h =
    let (r, e) = add_envio-some (enviado i) (reunir xs) es h in reunir-AllDelivered xs r e
reunir-AllDelivered (duplicate_omitted i ∷ xs) es h =
    let (r, e) = add_envio-some (duplicate_omitted i) (reunir xs) es h in reunir-AllDelivered xs r e

-- The outcome of `transferir_lote_s3_a_sfc`, with the exception that it raises.
abbrev pub de_lote : Desenlace (List Envio) → Option (List Envio) → Desenlace (List Envio)
de_lote fallo none = fallo
de_lote fallo (some es) = hecho es

module _ {P S V : Type 0} (lower : Key → Key) (s : Servicios P S V) where
  -- A rejection of the type ALREADY_EXISTS, or one whose message has a phrase for a complaint that
  -- exists and none for a functional collision.
  abbrev pub SaysExists : SfcException → Type 0
  SaysExists exc =
      (exc.error_type ≡ "ALREADY_EXISTS")
      ⊎ ((any_in frases_colision_funcional (lower (codes exc.raw_message)) ≡ false)
          × (any_in frases_ya_existe (lower (codes exc.raw_message)) ≡ true))

  existe-SaysExists :
      (exc : SfcException) → es_error_queja_ya_existe lower exc ≡ true → SaysExists exc
  unfolding es_error_queja_ya_existe
  existe-SaysExists exc h =
      let msg = lower (codes exc.raw_message) in
      elim (Bool-cases (str_eq exc.error_type "ALREADY_EXISTS")) [
        | inl y ↦ inl ((eq_iff exc.error_type "ALREADY_EXISTS").0 y)
        | inr n ↦ elim (Bool-cases (any_in frases_colision_funcional msg)) [
          | inl y ↦ (let bad : Path Bool false true = simp (n, y) at h in cc)
          | inr m ↦ inr (m, simp (n, m) at h)
        ]
      ]

  -- The SFC took the creation, or rejected it as one that exists.
  abbrev pub IsCreated : V → Type 0
  IsCreated payload =
      (s.post_nueva_queja payload ≡ hecho tt)
      ⊎ ((exc : SfcException) × (s.post_nueva_queja payload ≡ rechazo exc) × SaysExists exc)

  tolerated :
      (d : Desenlace (Unit {0}))
      → tolerar_duplicado lower d ≡ hecho tt
      → (d ≡ hecho tt) ⊎ ((exc : SfcException) × (d ≡ rechazo exc) × SaysExists exc)
  unfolding tolerar_duplicado
  tolerated (hecho tt) h = inl refl
  tolerated (rechazo exc) h = elim (Bool-cases (es_error_queja_ya_existe lower exc)) [
    | inl y ↦ inr (exc, refl, existe-SaysExists exc y)
    | inr n ↦ (let bad : Path (Desenlace (Unit {0})) (rechazo exc) (hecho tt) = simp n at h in cc)
  ]
  tolerated (invalido e) h = cc
  tolerated (excepcion e) h = cc

  archivos-delivered :
      (responder : Adjunto → Respuesta) (leido : List Key) (fallo : Desenlace (List Envio))
      (q : Peticion P) (code : String) (archivos : List Adjunto) (es : List Envio)
      → ((xs : List Envio) → fallo ≡ hecho xs → ⊥)
      → ((c : String) (as' : List Adjunto) (k : Option String)
          → s.transferir c as' k ≡ de_lote fallo (reunir (enviar_todos responder leido as')))
      → enviar_archivos lower s q code archivos ≡ hecho es
      → AllDelivered (enviar_todos responder leido archivos)
  unfolding enviar_todos
  archivos-delivered responder leido fallo q code [] es bad lote h = tt
  archivos-delivered responder leido fallo q code (a ∷ l) es bad lote h =
      from_lote (reunir (enviar_todos responder leido (a ∷ l))) refl
        (sym (lote code (a ∷ l) (or_text q.case_id code)) ∙ h)
    where
      from_lote :
          (o : Option (List Envio))
          → reunir (enviar_todos responder leido (a ∷ l)) ≡ o
          → de_lote fallo o ≡ hecho es
          → AllDelivered (enviar_todos responder leido (a ∷ l))
      from_lote none e k = absurd (bad es k)
      from_lote (some xs) e k = reunir-AllDelivered (enviar_todos responder leido (a ∷ l)) xs e

  module _ (responder : Adjunto → Respuesta) (leido : List Key) where
    -- What the SFC has of a case with this code: the complaint that the mapper and the schema give,
    -- and its files.
    abbrev pub HasCase : Peticion P → String → Type 0
    HasCase q code =
        ((crudo : S) × ((payload : V) × (s.mapear q.crm ≡ hecho crudo)
            × (s.validar code crudo ≡ hecho payload)
            × IsCreated payload))
        × ((archivos : List Adjunto) × (archivos_de lower s q code q.directorio_s3 ≡ hecho archivos)
            × AllDelivered (enviar_todos responder leido archivos))

  module _ (responder : Adjunto → Respuesta) (leido : List Key) (fallo : Desenlace (List Envio))
      (bad : (xs : List Envio) → fallo ≡ hecho xs → ⊥)
      (lote : (c : String) (adjuntos : List Adjunto) (k : Option String)
        → s.transferir c adjuntos k
          ≡ de_lote fallo (reunir (enviar_todos responder leido adjuntos))) where
    enviar-HasCase :
        (q : Peticion P) (code : String) (es : List Envio)
        → enviar lower s q code ≡ hecho es
        → HasCase responder leido q code
    unfolding enviar
    enviar-HasCase q code es h =
        let (crudo, mapped, h1) = >>=-eq-hecho (s.mapear q.crm) (con_crudo lower s q code) es h in
        let (archivos, e, h2) =
          >>=-eq-hecho (archivos_de lower s q code q.directorio_s3)
            (con_archivos lower s q code crudo) es h1 in
        let (payload, valid, h3) =
          >>=-eq-hecho (s.validar code crudo) (con_payload lower s q code archivos) es h2 in
        let (_, created, h4) =
          >>=-eq-hecho (tolerar_duplicado lower (s.post_nueva_queja payload))
            (λ _. enviar_archivos lower s q code archivos) es h3 in
        (
          (crudo, (payload, mapped, valid, tolerated (s.post_nueva_queja payload) created)),
          (archivos, e, archivos-delivered responder leido fallo q code archivos es bad lote h4),
        )

    codigo-HasCase :
        (q : Peticion P) (o : Option String) (es : List Envio)
        → con_codigo lower s q o ≡ hecho es
        → (code : String) × (o ≡ some code) × HasCase responder leido q code
    codigo-HasCase q none es h = cc
    codigo-HasCase q (some code) es h = (code, refl, enviar-HasCase q code es h)

    -- A success of Momento 2 means that the case has a code, the SFC took the creation that the
    -- mapper and the schema give, or rejected it with the type ALREADY_EXISTS or a message of that
    -- meaning, and no file of the payload, or of its folder where the payload names none, failed in
    -- the batch; given that the batch is the one of the S3 service.
    pub envio_delivers :
        (q : Peticion P) (es : List Envio)
        → ejecutar_envio_momento_2 lower s q ≡ hecho es
        → (code : String) × (q.smart_code ≡ some code) × HasCase responder leido q code
    unfolding ejecutar_envio_momento_2
    envio_delivers q es h = codigo-HasCase q q.smart_code es h
