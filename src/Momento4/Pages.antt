-- ===== src/Momento4/Pages.antt =====
-- The pages come to an end, and each user of them is accounted for.
use ms_integracion_smartsupe.Prelude.{
  ℕ, zero, suc, ◌+◌, ◌≤◌, String, ◌≡◌, ap, refl, Bool, true, false, not, ◌&&◌, Option, none, some,
  List, [], ◌∷◌, length, length-append, Bool-cases, Option-cases, inl, inr, arith,
}
use ms_integracion_smartsupe.Text.{same_text}
use ms_integracion_smartsupe.Momento4.{
  ItemId, member, is_nil, Usuario, Pagina, desconocido, num_id, Acumulado, inicial, con_traduccion,
  procesar_usuario, procesar_pagina, next_url, con_pagina, paginar, terminado, sincronizar_usuarios,
}

module _ {T : Type 0} where
  -- Users that are reported are at most those that were seen.
  abbrev pub IsCounted : Acumulado T → Type 0
  IsCounted acc = length acc.exitosos + length acc.fallidos ≤ acc.total

  con_traduccion-grows :
      (id : ItemId) (o : Option T) (acc : Acumulado T)
      → length (con_traduccion id o acc).exitosos + length (con_traduccion id o acc).fallidos
        ≤ length acc.exitosos + length acc.fallidos + 1
  con_traduccion-grows id none acc =
      let more = length-append acc.fallidos (id ∷ []) in omega (arith, more)
  con_traduccion-grows id (some t) acc =
      let more = length-append acc.exitosos (t ∷ []) in omega (arith, more)

  con_traduccion-total :
      (id : ItemId) (o : Option T) (acc : Acumulado T) → (con_traduccion id o acc).total ≡ acc.total
  con_traduccion-total id none acc = refl
  con_traduccion-total id (some t) acc = refl

  procesar_usuario-IsCounted :
      (u : Usuario T) (acc : Acumulado T)
      → IsCounted acc
      → IsCounted (procesar_usuario u (record acc { total = acc.total + 1 }))
  unfolding procesar_usuario
  procesar_usuario-IsCounted u acc h =
      let more = length-append acc.fallidos (num_id u ∷ []) in
      elim (Bool-cases u.es_dict) [
        | inr n ↦ simp n (omega (arith, h, more))
        | inl y ↦
            elim (Bool-cases
              (not (same_text (num_id u) desconocido) && member (num_id u) acc.vistos)) [
                | inl seen ↦ simp (y, seen) (omega (arith, h))
                | inr fresh ↦
                    let few =
                      con_traduccion-grows (num_id u) u.traducido
                        (record acc { total = acc.total + 1 }) in
                    let same =
                      con_traduccion-total (num_id u) u.traducido
                        (record acc { total = acc.total + 1 }) in
                    simp (y, fresh) (omega (arith, h, few, same))
              ]
      ]

  procesar_pagina-IsCounted :
      (us : List (Usuario T)) (acc : Acumulado T)
      → IsCounted acc
      → IsCounted (procesar_pagina us acc)
  unfolding procesar_pagina
  procesar_pagina-IsCounted [] acc h = h
  procesar_pagina-IsCounted (u ∷ us) acc h =
      procesar_pagina-IsCounted us (procesar_usuario u (record acc { total = acc.total + 1 }))
        (procesar_usuario-IsCounted u acc h)

  module _ (fetch : ℕ → Option String → Option (Pagina T)) (en_tiempo : ℕ → Bool) where
    -- Every page has users and a link to a next one.
    abbrev pub IsEndless : Type 0
    IsEndless =
        (n : ℕ) (url : Option String)
        → (p : Pagina T) × (u : String) × (fetch n url ≡ some p)
          × (is_nil p.usuarios ≡ false)
          × (next_url p.siguiente ≡ some u)

    paginar-endless :
        (n pagina : ℕ) (url : Option String) (acc : Acumulado T)
        → IsEndless
        → (acc' : Acumulado T) × (paginar fetch en_tiempo n pagina url acc ≡ some (acc', true))
    unfolding paginar
    paginar-endless zero pagina url acc endless = (acc, refl)
    paginar-endless (suc n) pagina url acc endless =
        let (p, u, e, full, next) = endless pagina url in
        let (acc', rest) =
          paginar-endless n (pagina + 1) (some u) (procesar_pagina p.usuarios acc) endless in
        elim (Bool-cases (en_tiempo pagina)) [
          | inl y ↦ (acc', simp (y, e, full, next) rest)
          | inr late ↦ (acc, simp late refl)
        ]

    -- When every page of the SFC links to a next one, the synchronisation still ends, at the page
    -- limit or out of time, with the status "partial" and its mark that pages are missing.
    pub endless_is_cut :
        (max_paginas : ℕ)
        → IsEndless
        → (acc : Acumulado T) × (sincronizar_usuarios fetch en_tiempo max_paginas
            ≡ some ("partial", (acc, true)))
    unfolding sincronizar_usuarios
    endless_is_cut max_paginas endless =
        let (acc, e) = paginar-endless max_paginas 1 none inicial endless in
        (acc, ap (terminado fetch en_tiempo) e)

    abbrev Counted : Option (Acumulado T × Bool) → Type 0
    Counted none = Unit
    Counted (some (acc, b)) = IsCounted acc

    con_pagina-Counted :
        (o : Option (Pagina T)) (acc : Acumulado T)
        (seguir : Option String → Acumulado T → Option (Acumulado T × Bool))
        → IsCounted acc
        → ((u : Option String) (d : Acumulado T) → IsCounted d → Counted (seguir u d))
        → Counted (con_pagina o acc seguir)
    con_pagina-Counted none acc seguir h k = tt
    con_pagina-Counted (some p) acc seguir h k =
        let page = procesar_pagina-IsCounted p.usuarios acc h in
        elim (Bool-cases (is_nil p.usuarios)) [
          | inl y ↦ simp y h
          | inr n ↦ elim (Option-cases (next_url p.siguiente)) [
            | inl e ↦ simp (n, e) page
            | inr (u, e) ↦ simp (n, e) (k (some u) (procesar_pagina p.usuarios acc) page)
          ]
        ]

    paginar-Counted :
        (n pagina : ℕ) (url : Option String) (acc : Acumulado T)
        → IsCounted acc
        → Counted (paginar fetch en_tiempo n pagina url acc)
    unfolding paginar
    paginar-Counted zero pagina url acc h = h
    paginar-Counted (suc n) pagina url acc h = elim (Bool-cases (en_tiempo pagina)) [
      | inl y ↦ simp y (
          con_pagina-Counted (fetch pagina url) acc (paginar fetch en_tiempo n (pagina + 1)) h
            (λ u d g. paginar-Counted n (pagina + 1) u d g))
      | inr late ↦ simp late h
    ]

    terminado-Counted :
        (o : Option (Acumulado T × Bool)) (s : String) (acc : Acumulado T) (b : Bool)
        → Counted o
        → terminado fetch en_tiempo o ≡ some (s, (acc, b))
        → IsCounted acc
    terminado-Counted none s acc b h e = cc
    terminado-Counted (some (d, b')) s acc b h e = let same : d ≡ acc = cc in rw (← same) h

    -- A synchronisation that returns reports no more users, as translated or as failed, than the
    -- pages had: a duplicate is left out, none is made up.
    pub sincronizar_usuarios-IsCounted :
        (max_paginas : ℕ) (s : String) (acc : Acumulado T) (b : Bool)
        → sincronizar_usuarios fetch en_tiempo max_paginas ≡ some (s, (acc, b))
        → IsCounted acc
    unfolding sincronizar_usuarios
    sincronizar_usuarios-IsCounted max_paginas s acc b e =
        terminado-Counted (paginar fetch en_tiempo max_paginas 1 none inicial) s acc b
          (paginar-Counted max_paginas 1 none inicial (omega arith)) e
