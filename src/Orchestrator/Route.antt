-- ===== src/Orchestrator/Route.antt =====
-- The orchestrator sends a complaint by the operation that `infer_operation_type` gives it.
use ms_integracion_smartsupe.Prelude.{
  String, ◌≡◌, ◌∙◌, ap, sym, refl, Bool, true, false, not, ◌&&◌, Option, none, some, List, [], ◌∷◌,
  str_eq, Bool-cases, inl, inr, if◌then◌else◌,
}
use ms_integracion_smartsupe.Classification.{
  text, Payload, es_cierre, es_fraude, es_nueva, tiene_campos_m3, infer_operation_type,
  operation_of, reports_fraud,
}
use ms_integracion_smartsupe.Orchestrator.{
  Queja, Respuesta, resultado, rechazo, invalido, excepcion, Llamada, envio_m2, gestion_fraude,
  cierre_definitivo, actualizacion_tramite, limpieza, Listado, es_caso_no_encontrado, con_campos_m3,
  es_m2_puro, is_empty, sin_adjuntos, ya_cerrado, exito_si_ya_cerrado, paso_cierre, paso_tramite,
  tras_fraude, pasos_momento_3, limpiar_si_cierre, momento_3, tras_creacion, recuperar, intento,
  despachar,
}

-- The first call of a trace.
abbrev pub oldest : List Llamada → Option Llamada
oldest [] = none
oldest (c ∷ []) = some c
oldest (c ∷ d ∷ h) = oldest (d ∷ h)

-- The call that an operation begins with.
abbrev pub first_call : Queja → String → Llamada
first_call q o =
    if str_eq o "M2_CREATION"
    then envio_m2 q
    else if reports_fraud o
    then gestion_fraude q
    else if str_eq o "M3_CLOSE"
    then cierre_definitivo q
    else actualizacion_tramite q

first_call-operation_of :
    (q : Queja) (n m f c : Bool)
    → first_call q (operation_of n m f c) ≡ (
        if n && (not m && (not f && not c))
        then envio_m2 q
        else if f
        then gestion_fraude q
        else if c
        then cierre_definitivo q
        else actualizacion_tramite q)
first_call-operation_of q true true true true = refl
first_call-operation_of q true true true false = refl
first_call-operation_of q true true false true = refl
first_call-operation_of q true true false false = refl
first_call-operation_of q true false true true = refl
first_call-operation_of q true false true false = refl
first_call-operation_of q true false false true = refl
first_call-operation_of q true false false false = refl
first_call-operation_of q false m true true = refl
first_call-operation_of q false m true false = refl
first_call-operation_of q false m false true = refl
first_call-operation_of q false m false false = refl

oldest-push : (d c : Llamada) (h : List Llamada) → oldest h ≡ some c → oldest (d ∷ h) ≡ some c
oldest-push d c [] e = cc
oldest-push d c (x ∷ h) e = e

-- With an `admision_col__c`, which the schema always gives, both read the later fields alike.
same_fields :
    (p : Payload) (s : String)
    → p "admision_col__c" ≡ some (text s)
    → con_campos_m3 p ≡ tiene_campos_m3 p
unfolding con_campos_m3 tiene_campos_m3
same_fields p s e = rw e refl

module _ (lower : String → String) (responde : List Llamada → Llamada → Respuesta)
    (listar : String → String → Listado) where
  abbrev Starts : Llamada → Respuesta × List Llamada → Type 0
  Starts c (r, h) = oldest h ≡ some c

  exito-Starts :
      (c : Llamada) (s : String) (b : Bool) (r : Respuesta × List Llamada)
      → Starts c r
      → Starts c (exito_si_ya_cerrado lower responde listar s b r)
  unfolding exito_si_ya_cerrado
  exito-Starts c s b (resultado r, h) e = e
  exito-Starts c s b (invalido m, h) e = e
  exito-Starts c s b (excepcion m, h) e = e
  exito-Starts c s b (rechazo exc, h) e = elim (Bool-cases (ya_cerrado lower responde listar exc)) [
    | inl y ↦ rw y e
    | inr n ↦ rw n e
  ]

  paso_cierre-Starts :
      (c : Llamada) (q : Queja) (h : List Llamada)
      → oldest h ≡ some c
      → Starts c (paso_cierre lower responde listar q h)
  unfolding paso_cierre
  paso_cierre-Starts c q h e =
      exito-Starts c q.smart_code true (responde h (cierre_definitivo q), cierre_definitivo q ∷ h)
        (oldest-push (cierre_definitivo q) c h e)

  tras_fraude-Starts :
      (c : Llamada) (q : Queja) (b : Bool) (r : Respuesta) (h : List Llamada)
      → oldest h ≡ some c
      → Starts c (tras_fraude lower responde listar q b (r, h))
  unfolding tras_fraude
  tras_fraude-Starts c q b (invalido m) h e = e
  tras_fraude-Starts c q b (excepcion m) h e = e
  tras_fraude-Starts c q b (resultado r) h e = elim (Bool-cases (str_eq r.status "error")) [
    | inl y ↦ simp y e
    | inr n ↦ elim (Bool-cases b) [
      | inl y ↦ simp (n, y) (paso_cierre-Starts c q h e)
      | inr m ↦ simp (n, m) e
    ]
  ]
  tras_fraude-Starts c q b (rechazo exc) h e =
      elim (Bool-cases (b && ya_cerrado lower responde listar exc)) [
        | inl y ↦ simp y (paso_cierre-Starts c q h e)
        | inr n ↦ simp n e
      ]

  limpiar-Starts :
      (c : Llamada) (s : String) (b l : Bool) (r : Respuesta × List Llamada)
      → Starts c r
      → Starts c (limpiar_si_cierre lower responde listar s b l r)
  unfolding limpiar_si_cierre
  limpiar-Starts c s b l (rechazo exc, h) e = e
  limpiar-Starts c s b l (invalido m, h) e = e
  limpiar-Starts c s b l (excepcion m, h) e = e
  limpiar-Starts c s b l (resultado r, h) e =
      elim (Bool-cases (l && (b && str_eq r.status "success"))) [
        | inl y ↦ simp y (oldest-push (limpieza s) c h e)
        | inr m ↦ simp m e
      ]

  -- The call that Momento 3 begins with.
  abbrev first_m3 : Queja → Bool → Bool → Llamada
  first_m3 q f b =
      if f then gestion_fraude q else if b then cierre_definitivo q else actualizacion_tramite q

  pasos-Starts :
      (q : Queja) (f b : Bool)
      → Starts (first_m3 q f b) (pasos_momento_3 lower responde listar q f b [])
  unfolding pasos_momento_3 paso_cierre paso_tramite
  pasos-Starts q true b =
      tras_fraude-Starts (gestion_fraude q) q b (responde [] (gestion_fraude q)) _ refl
  pasos-Starts q false true =
      exito-Starts (cierre_definitivo q) q.smart_code true
        (responde [] (cierre_definitivo q), cierre_definitivo q ∷ []) refl
  pasos-Starts q false false =
      exito-Starts (actualizacion_tramite q) q.smart_code false
        (responde [] (actualizacion_tramite q), actualizacion_tramite q ∷ []) refl

  pasos-keeps :
      (c : Llamada) (q : Queja) (f b : Bool) (h : List Llamada)
      → oldest h ≡ some c
      → Starts c (pasos_momento_3 lower responde listar q f b h)
  unfolding pasos_momento_3 paso_tramite
  pasos-keeps c q true b h e =
      tras_fraude-Starts c q b (responde h (gestion_fraude q)) (gestion_fraude q ∷ h)
        (oldest-push (gestion_fraude q) c h e)
  pasos-keeps c q false true h e = paso_cierre-Starts c q h e
  pasos-keeps c q false false h e =
      exito-Starts c q.smart_code false
        (responde h (actualizacion_tramite q), actualizacion_tramite q ∷ h)
        (oldest-push (actualizacion_tramite q) c h e)

  tras_creacion-Starts :
      (c : Llamada) (q : Queja) (l : Bool) (r : Respuesta) (h : List Llamada)
      → oldest h ≡ some c
      → Starts c (tras_creacion lower responde listar q l (r, h))
  unfolding tras_creacion momento_3
  tras_creacion-Starts c q l (rechazo exc) h e = e
  tras_creacion-Starts c q l (invalido m) h e = e
  tras_creacion-Starts c q l (excepcion m) h e = e
  tras_creacion-Starts c q l (resultado r) h e = elim (Bool-cases (str_eq r.status "success")) [
    | inl y ↦ simp y (
        limpiar-Starts c q.smart_code (es_cierre q.fields) l
          (pasos_momento_3 lower responde listar q (es_fraude q.fields) (es_cierre q.fields) h)
          (pasos-keeps c q (es_fraude q.fields) (es_cierre q.fields) h e))
    | inr n ↦ simp n e
  ]

  recuperar-Starts :
      (c : Llamada) (q : Queja) (l : Bool) (r : Respuesta × List Llamada)
      → Starts c r
      → Starts c (recuperar lower responde listar q l r)
  unfolding recuperar
  recuperar-Starts c q l (resultado r, h) e = e
  recuperar-Starts c q l (invalido m, h) e = e
  recuperar-Starts c q l (excepcion m, h) e = e
  recuperar-Starts c q l (rechazo exc, h) e = elim (Bool-cases (es_caso_no_encontrado exc)) [
    | inl y ↦ simp y (
        tras_creacion-Starts c q l (responde h (envio_m2 (sin_adjuntos q)))
          (envio_m2 (sin_adjuntos q) ∷ h) (oldest-push (envio_m2 (sin_adjuntos q)) c h e))
    | inr n ↦ simp n e
  ]

  intento-Starts :
      (q : Queja) (l : Bool)
      → Starts
          (if es_m2_puro q.fields
            then envio_m2 q
            else first_m3 q (es_fraude q.fields) (es_cierre q.fields))
          (intento lower responde listar q l [])
  unfolding intento momento_3
  intento-Starts q l = elim (Bool-cases (es_m2_puro q.fields)) [
    | inl y ↦ simp y refl
    | inr n ↦ simp n (
        limpiar-Starts (first_m3 q (es_fraude q.fields) (es_cierre q.fields)) q.smart_code
          (es_cierre q.fields) l
          (pasos_momento_3 lower responde listar q (es_fraude q.fields) (es_cierre q.fields) [])
          (pasos-Starts q (es_fraude q.fields) (es_cierre q.fields)))
  ]

  by_operation :
      (q : Queja) (s : String)
      → q.fields "admision_col__c" ≡ some (text s)
      → (if es_m2_puro q.fields
          then envio_m2 q
          else first_m3 q (es_fraude q.fields) (es_cierre q.fields))
        ≡ first_call q (infer_operation_type q.fields)
  unfolding es_m2_puro infer_operation_type
  by_operation q s e = rw (same_fields q.fields s e) (
      sym (
        first_call-operation_of q (es_nueva q.fields) (tiene_campos_m3 q.fields)
          (es_fraude q.fields) (es_cierre q.fields)))

  -- The first call of a dispatch is the one of the operation that `infer_operation_type` gives to
  -- the complaint, so the key of idempotency and the orchestrator agree. A fraud has its documents,
  -- and `admision_col__c` is a text, as the schema makes it.
  pub despachar_by_operation :
      (q : Queja) (l : Bool) (s : String)
      → (es_fraude q.fields && is_empty q.archivos_s3) ≡ false
      → q.fields "admision_col__c" ≡ some (text s)
      → oldest (despachar lower responde listar q l []).1
        ≡ some (first_call q (infer_operation_type q.fields))
  unfolding despachar
  despachar_by_operation q l s documents admision =
      let c : Llamada =
        if es_m2_puro q.fields
        then envio_m2 q
        else first_m3 q (es_fraude q.fields) (es_cierre q.fields) in
      simp documents (
        recuperar-Starts c q l (intento lower responde listar q l []) (intento-Starts q l)
        ∙ ap some (by_operation q s admision))
