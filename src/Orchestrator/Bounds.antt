-- ===== src/Orchestrator/Bounds.antt =====
-- How many calls a dispatch makes, and when it creates a case.
use ms_integracion_smartsupe.Prelude.{
  ℕ, ◌+◌, ◌≤◌, ◌<◌, String, ◌≡◌, refl, Bool, true, false, ◌&&◌, List, [], ◌∷◌, str_eq, ◌==◌, ==_iff,
  eq_iff, ◌⊎◌, ◌↔◌, Bool-cases, inl, inr, arith,
}
use ms_integracion_smartsupe.Classification.{es_cierre, es_fraude}
use ms_integracion_smartsupe.Errors.{SfcException}
use ms_integracion_smartsupe.Orchestrator.{
  Queja, Respuesta, resultado, rechazo, invalido, excepcion, Llamada, envio_m2, gestion_fraude,
  limpieza, Listado, es_caso_no_encontrado, es_m2_puro, is_empty, sin_adjuntos, ya_cerrado,
  exito_si_ya_cerrado, paso_cierre, paso_tramite, tras_fraude, pasos_momento_3, limpiar_si_cierre,
  momento_3, tras_creacion, recuperar, intento, despachar,
}

-- The calls that reach the SFC.
abbrev pub envios : List Llamada → ℕ
envios [] = 0
envios (limpieza c ∷ h) = envios h
envios (_ ∷ h) = envios h + 1

-- The calls of Momento 2.
abbrev pub creaciones : List Llamada → ℕ
creaciones [] = 0
creaciones (envio_m2 q ∷ h) = creaciones h + 1
creaciones (_ ∷ h) = creaciones h

impossible :
    {A : Type 0} (h h0 : List Llamada)
    → creaciones h ≡ creaciones h0
    → creaciones h0 < creaciones h
    → A
impossible h h0 same more_now = ground (arith, same, more_now)

-- A rejection that the code takes for a missing case.
abbrev pub LooksMissing : SfcException → Type 0
LooksMissing exc = (exc.status_code ≡ 404) ⊎ (exc.error_type ≡ "NOT_FOUND_ERROR")

es_caso-LooksMissing : (exc : SfcException) → es_caso_no_encontrado exc ≡ true → LooksMissing exc
es_caso-LooksMissing exc h = elim (Bool-cases (exc.status_code == 404)) [
  | inl y ↦ inl ((==_iff exc.status_code 404).0 y)
  | inr n ↦ inr ((eq_iff exc.error_type "NOT_FOUND_ERROR").0 (simp n at h))
]

LooksMissing-es_caso : (exc : SfcException) → LooksMissing exc → es_caso_no_encontrado exc ≡ true
LooksMissing-es_caso exc (inl e) = simp ((==_iff exc.status_code 404).1 e) refl
LooksMissing-es_caso exc (inr e) =
    let same = (eq_iff exc.error_type "NOT_FOUND_ERROR").1 e in
    elim (Bool-cases (exc.status_code == 404)) [ inl y ↦ simp y refl | inr n ↦ simp (n, same) refl ]

module _ (lower : String → String) (responde : List Llamada → Llamada → Respuesta)
    (listar : String → String → Listado) where
  -- A step adds at most `n` calls and no creation.
  abbrev Adds : ℕ → List Llamada → Respuesta × List Llamada → Type 0
  Adds n h (r, h') = (envios h' ≤ envios h + n) × (creaciones h' ≡ creaciones h)

  exito-Adds :
      (c : String) (b : Bool) (n : ℕ) (h : List Llamada) (r : Respuesta × List Llamada)
      → Adds n h r
      → Adds n h (exito_si_ya_cerrado lower responde listar c b r)
  unfolding exito_si_ya_cerrado
  exito-Adds c b n h (resultado r, h') a = a
  exito-Adds c b n h (invalido m, h') a = a
  exito-Adds c b n h (excepcion m, h') a = a
  exito-Adds c b n h (rechazo exc, h') a =
      elim (Bool-cases (ya_cerrado lower responde listar exc)) [ inl y ↦ rw y a | inr y ↦ rw y a ]

  paso_cierre-Adds :
      (q : Queja) (h : List Llamada) → Adds 1 h (paso_cierre lower responde listar q h)
  unfolding paso_cierre
  paso_cierre-Adds q h = exito-Adds q.smart_code true 1 h _ (omega arith, refl)

  paso_tramite-Adds :
      (q : Queja) (h : List Llamada) → Adds 1 h (paso_tramite lower responde listar q h)
  unfolding paso_tramite
  paso_tramite-Adds q h = exito-Adds q.smart_code false 1 h _ (omega arith, refl)

  more :
      (m n : ℕ) (h : List Llamada) (r : Respuesta × List Llamada) → m ≤ n → Adds m h r → Adds n h r
  more m n h (r, h') le (few, none_new) = (omega (arith, le, few), none_new)

  tras_fraude-Adds :
      (q : Queja) (c : Bool) (r : Respuesta) (h : List Llamada)
      → Adds 1 h (tras_fraude lower responde listar q c (r, h))
  unfolding tras_fraude
  tras_fraude-Adds q c (invalido m) h = (omega arith, refl)
  tras_fraude-Adds q c (excepcion m) h = (omega arith, refl)
  tras_fraude-Adds q c (resultado r) h = elim (Bool-cases (str_eq r.status "error")) [
    | inl y ↦ simp y (omega arith, refl)
    | inr n ↦ elim (Bool-cases c) [
      | inl y ↦ simp (n, y) (paso_cierre-Adds q h)
      | inr m ↦ simp (n, m) (omega arith, refl)
    ]
  ]
  tras_fraude-Adds q c (rechazo exc) h =
      elim (Bool-cases (c && ya_cerrado lower responde listar exc)) [
        | inl y ↦ simp y (paso_cierre-Adds q h)
        | inr n ↦ simp n (omega arith, refl)
      ]

  pasos_momento_3-Adds :
      (q : Queja) (f c : Bool) (h : List Llamada)
      → Adds 2 h (pasos_momento_3 lower responde listar q f c h)
  unfolding pasos_momento_3
  pasos_momento_3-Adds q true c h =
      let (few, none_new) =
        tras_fraude-Adds q c (responde h (gestion_fraude q)) (gestion_fraude q ∷ h) in
      (omega (arith, few), none_new)
  pasos_momento_3-Adds q false true h =
      more 1 2 h (paso_cierre lower responde listar q h) (omega arith) (paso_cierre-Adds q h)
  pasos_momento_3-Adds q false false h =
      more 1 2 h (paso_tramite lower responde listar q h) (omega arith) (paso_tramite-Adds q h)

  limpiar-Adds :
      (c : String) (b l : Bool) (n : ℕ) (h : List Llamada) (r : Respuesta × List Llamada)
      → Adds n h r
      → Adds n h (limpiar_si_cierre lower responde listar c b l r)
  unfolding limpiar_si_cierre
  limpiar-Adds c b l n h (rechazo exc, h') a = a
  limpiar-Adds c b l n h (invalido m, h') a = a
  limpiar-Adds c b l n h (excepcion m, h') a = a
  limpiar-Adds c b l n h (resultado r, h') a =
      elim (Bool-cases (l && (b && str_eq r.status "success"))) [
        | inl y ↦ simp y a
        | inr m ↦ simp m a
      ]

  momento_3-Adds :
      (q : Queja) (l : Bool) (h : List Llamada) → Adds 2 h (momento_3 lower responde listar q l h)
  unfolding momento_3
  momento_3-Adds q l h =
      limpiar-Adds q.smart_code (es_cierre q.fields) l 2 h _
        (pasos_momento_3-Adds q (es_fraude q.fields) (es_cierre q.fields) h)

  tras_creacion-few :
      (q : Queja) (l : Bool) (r : Respuesta) (h : List Llamada)
      → envios (tras_creacion lower responde listar q l (r, h)).1 ≤ envios h + 2
  unfolding tras_creacion
  tras_creacion-few q l (rechazo exc) h = omega arith
  tras_creacion-few q l (invalido m) h = omega arith
  tras_creacion-few q l (excepcion m) h = omega arith
  tras_creacion-few q l (resultado r) h = elim (Bool-cases (str_eq r.status "success")) [
    | inl y ↦ simp y (momento_3-Adds q l h).0
    | inr n ↦ simp n (omega arith)
  ]

  recuperar-few :
      (q : Queja) (l : Bool) (r : Respuesta) (h : List Llamada)
      → envios (recuperar lower responde listar q l (r, h)).1 ≤ envios h + 3
  unfolding recuperar
  recuperar-few q l (resultado r) h = omega arith
  recuperar-few q l (invalido m) h = omega arith
  recuperar-few q l (excepcion m) h = omega arith
  recuperar-few q l (rechazo exc) h = elim (Bool-cases (es_caso_no_encontrado exc)) [
    | inl y ↦
        let few =
          tras_creacion-few q l (responde h (envio_m2 (sin_adjuntos q)))
            (envio_m2 (sin_adjuntos q) ∷ h) in
        simp y (omega (arith, few))
    | inr n ↦ simp n (omega arith)
  ]

  intento-few :
      (q : Queja) (l : Bool) (h : List Llamada)
      → envios (intento lower responde listar q l h).1 ≤ envios h + 2
  unfolding intento
  intento-few q l h = elim (Bool-cases (es_m2_puro q.fields)) [
    | inl y ↦ simp y (omega arith)
    | inr n ↦ simp n (momento_3-Adds q l h).0
  ]

  -- A dispatch reaches the SFC's services at most five times, the recovery included, whatever they
  -- answer: it does not recover twice.
  pub despachar_at_most_five :
      (q : Queja) (l : Bool) (h : List Llamada)
      → envios (despachar lower responde listar q l h).1 ≤ envios h + 5
  unfolding despachar
  despachar_at_most_five q l h = elim (Bool-cases (es_fraude q.fields && is_empty q.archivos_s3)) [
    | inl y ↦ simp y (omega arith)
    | inr n ↦
        let few = intento-few q l h in
        let (r, h') = intento lower responde listar q l h in
        let few' = recuperar-few q l r h' in simp n (omega (arith, few, few'))
  ]

  recuperar-creates :
      (q : Queja) (l : Bool) (r : Respuesta) (h h0 : List Llamada)
      → creaciones h ≡ creaciones h0
      → creaciones h0 < creaciones (recuperar lower responde listar q l (r, h)).1
      → (exc : SfcException) × (r ≡ rechazo exc) × (es_caso_no_encontrado exc ≡ true)
  unfolding recuperar
  recuperar-creates q l (resultado r) h h0 same more_now = impossible h h0 same more_now
  recuperar-creates q l (invalido m) h h0 same more_now = impossible h h0 same more_now
  recuperar-creates q l (excepcion m) h h0 same more_now = impossible h h0 same more_now
  recuperar-creates q l (rechazo exc) h h0 same more_now =
      elim (Bool-cases (es_caso_no_encontrado exc)) [
        | inl y ↦ (exc, refl, y)
        | inr n ↦ impossible h h0 same (simp n at more_now)
      ]

  recovers :
      (q : Queja) (l : Bool) (h : List Llamada)
      → (es_fraude q.fields && is_empty q.archivos_s3) ≡ false
      → es_m2_puro q.fields ≡ false
      → despachar lower responde listar q l h
        ≡ recuperar lower responde listar q l (momento_3 lower responde listar q l h)
  unfolding despachar intento
  recovers q l h n m2 = simp (n, m2) refl

  tras_creacion-same :
      (q : Queja) (l : Bool) (r : Respuesta) (h : List Llamada)
      → creaciones (tras_creacion lower responde listar q l (r, h)).1 ≡ creaciones h
  unfolding tras_creacion
  tras_creacion-same q l (rechazo exc) h = refl
  tras_creacion-same q l (invalido m) h = refl
  tras_creacion-same q l (excepcion m) h = refl
  tras_creacion-same q l (resultado r) h = elim (Bool-cases (str_eq r.status "success")) [
    | inl y ↦ simp y (momento_3-Adds q l h).1
    | inr n ↦ simp n refl
  ]

  recuperar-one :
      (q : Queja) (l : Bool) (r : Respuesta) (h : List Llamada) (exc : SfcException)
      → r ≡ rechazo exc
      → es_caso_no_encontrado exc ≡ true
      → creaciones (recuperar lower responde listar q l (r, h)).1 ≡ creaciones h + 1
  unfolding recuperar
  recuperar-one q l r h exc e y =
      simp (e, y)
        (tras_creacion-same q l (responde h (envio_m2 (sin_adjuntos q)))
          (envio_m2 (sin_adjuntos q) ∷ h))

  recuperar-at_most_one :
      (q : Queja) (l : Bool) (r : Respuesta) (h : List Llamada)
      → creaciones (recuperar lower responde listar q l (r, h)).1 ≤ creaciones h + 1
  unfolding recuperar
  recuperar-at_most_one q l (resultado r) h = omega arith
  recuperar-at_most_one q l (invalido m) h = omega arith
  recuperar-at_most_one q l (excepcion m) h = omega arith
  recuperar-at_most_one q l (rechazo exc) h = elim (Bool-cases (es_caso_no_encontrado exc)) [
    | inl y ↦
        let same =
          tras_creacion-same q l (responde h (envio_m2 (sin_adjuntos q)))
            (envio_m2 (sin_adjuntos q) ∷ h) in
        simp y (omega (arith, same))
    | inr n ↦ simp n (omega arith)
  ]

  -- A complaint that is not purely new, and has documents if it reports a fraud, is created by
  -- Momento 2 exactly when its pipeline of Momento 3 ends in a rejection with the status 404 or the
  -- type NOT_FOUND_ERROR, whichever service it is from; and then once.
  pub creation_iff_not_found :
      (q : Queja) (l : Bool) (h : List Llamada)
      → es_m2_puro q.fields ≡ false
      → (es_fraude q.fields && is_empty q.archivos_s3) ≡ false
      → ((creaciones h < creaciones (despachar lower responde listar q l h).1) ↔ (
          (exc : SfcException) × ((momento_3 lower responde listar q l h).0 ≡ rechazo exc)
          × LooksMissing exc))
        × (creaciones (despachar lower responde listar q l h).1 ≤ creaciones h + 1)
  creation_iff_not_found q l h m2 documents =
      let (r, h') = momento_3 lower responde listar q l h in
      let none_new : creaciones h' ≡ creaciones h = (momento_3-Adds q l h).1 in
      let e = recovers q l h documents m2 in
      (
        (
          λ more_now.
              (let (exc, e', y) = recuperar-creates q l r h' h none_new (rw e at more_now) in
                (exc, e', es_caso-LooksMissing exc y)),
          λ (exc, e', m).
              (let one = recuperar-one q l r h' exc e' (LooksMissing-es_caso exc m) in
                rw e (omega (arith, one, none_new))),
        ),
        (let few = recuperar-at_most_one q l r h' in rw e (omega (arith, few, none_new))),
      )
