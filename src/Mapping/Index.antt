-- ===== src/Mapping/Index.antt =====
-- A value of a catalogue goes to the SFC as its own code, and comes back as that value.
use ms_integracion_smartsupe.Prelude.{
  true, ℕ, ◌≡◌, refl, sym, subst, ap, ◌∙◌, String, Bool, false, Option, some, List, [], ◌∷◌, ◌++◌,
  Bool-cases, inl, inr,
}
use ms_integracion_smartsupe.Text.{strip, same_text}
use ms_integracion_smartsupe.Text.Strip.{same_text-eq, same_text_refl}
use ms_integracion_smartsupe.Mapping.{
  Texto, Catalogo, Indice, codigo_de, Codigo, str_of, texto_de, isdigit, int_from, lookup, poner,
  actualizar, normalize_text, indice_inverso, sinonimos, indice_de, get, sf_to_cat, key_to_cat,
  o_offset, traducido, lookup_or_fail, traducir_via_catalogo_sfc, traducir_via_catalogo_crm,
}

pub lookup-poner_self {ℓ} :
    {V : Type ℓ} (k : Texto) (v : V) (d : List (Texto × V)) → lookup k (poner k v d) ≡ some v
lookup-poner_self k v [] = simp (same_text_refl k) refl
lookup-poner_self k v ((j, w) ∷ d) = elim (Bool-cases (same_text k j)) [
  | inl y ↦ simp y refl
  | inr n ↦ simp n (lookup-poner_self k v d)
]

pub lookup-poner_other {ℓ} :
    {V : Type ℓ} (k j : Texto) (v : V) (d : List (Texto × V))
    → same_text k j ≡ false
    → lookup k (poner j v d) ≡ lookup k d
lookup-poner_other k j v [] h = simp h refl
lookup-poner_other k j v ((i, w) ∷ d) h = elim (Bool-cases (same_text j i)) [
  | inl y ↦
      let h' : same_text k i ≡ false = subst (λ x. same_text k x ≡ false) (same_text-eq j i y) h in
      simp (y, h') refl
  | inr n ↦ elim (Bool-cases (same_text k i)) [
    | inl y ↦ simp (n, y) refl
    | inr m ↦ simp (n, m) (lookup-poner_other k j v d h)
  ]
]

-- None of the keys is this one.
abbrev pub Absent {ℓ} : {V : Type ℓ} → Texto → List (Texto × V) → Type 0
Absent k [] = Unit
Absent k ((j, v) ∷ d) = (same_text k j ≡ false) × Absent k d

pub lookup-actualizar_other :
    (k : Texto) (us d : Indice) → Absent k us → lookup k (actualizar us d) ≡ lookup k d
unfolding actualizar
lookup-actualizar_other k [] d h = refl
lookup-actualizar_other k ((j, v) ∷ us) d (h, hs) =
    lookup-actualizar_other k us (poner j v d) hs ∙ lookup-poner_other k j v d h

module _ (sin_tildes : Texto → Texto) (es_palabra : ℕ → Bool) (lower : Texto → Texto) where
  -- No entry of the catalogue has this text as its code or as its normalized value.
  abbrev pub Fresh : Texto → Catalogo → Type 0
  Fresh n [] = Unit
  Fresh n ((k, v) ∷ c) =
      (same_text n k ≡ false)
      × (same_text n (normalize_text sin_tildes es_palabra lower v) ≡ false)
      × Fresh n c

  pub lookup-indice_other :
      (n : Texto) (c : Catalogo) (d : Indice)
      → Fresh n c
      → lookup n (indice_inverso sin_tildes es_palabra lower c d) ≡ lookup n d
  unfolding indice_inverso
  lookup-indice_other n [] d h = refl
  lookup-indice_other n ((k, v) ∷ c) d (hk, hv, hc) =
      let w = normalize_text sin_tildes es_palabra lower v in
      lookup-indice_other n c (poner k (codigo_de k) (poner w (codigo_de k) d)) hc
      ∙ lookup-poner_other n k (codigo_de k) (poner w (codigo_de k) d) hk
      ∙ lookup-poner_other n w (codigo_de k) d hv

  -- The value of an entry, whatever its code.
  lookup-entry :
      (k v : Texto) (d : Indice)
      → lookup (normalize_text sin_tildes es_palabra lower v) (
          poner k
            (codigo_de k)
            (poner (normalize_text sin_tildes es_palabra lower v) (codigo_de k) d))
        ≡ some (codigo_de k)
  lookup-entry k v d =
      let w = normalize_text sin_tildes es_palabra lower v in
      elim (Bool-cases (same_text w k)) [
        | inl y ↦
            subst
              (λ x. lookup x (poner k (codigo_de k) (poner w (codigo_de k) d)) ≡ some (codigo_de k))
              (sym (same_text-eq w k y))
              (lookup-poner_self k (codigo_de k) (poner w (codigo_de k) d))
        | inr n ↦
            lookup-poner_other w k (codigo_de k) (poner w (codigo_de k) d) n
            ∙ lookup-poner_self w (codigo_de k) d
      ]

  indice_inverso-entry :
      (pre : Catalogo) (k v : Texto) (post : Catalogo) (d : Indice)
      → Fresh (normalize_text sin_tildes es_palabra lower v) post
      → lookup
          (normalize_text sin_tildes es_palabra lower v)
          (indice_inverso sin_tildes es_palabra lower (pre ++ ((k, v) ∷ post)) d)
        ≡ some (codigo_de k)
  unfolding indice_inverso
  indice_inverso-entry [] k v post d h =
      let w = normalize_text sin_tildes es_palabra lower v in
      lookup-indice_other w post (poner k (codigo_de k) (poner w (codigo_de k) d)) h
      ∙ lookup-entry k v d
  indice_inverso-entry ((j, u) ∷ pre) k v post d h =
      indice_inverso-entry pre k v post
        (poner j (codigo_de j)
          (poner (normalize_text sin_tildes es_palabra lower u) (codigo_de j) d))
        h

  lookup-catalogo :
      (pre : Catalogo) (k v : Texto) (post : Catalogo)
      → Absent k pre
      → lookup k (pre ++ ((k, v) ∷ post)) ≡ some v
  lookup-catalogo [] k v post h = simp (same_text_refl k) refl
  lookup-catalogo ((j, u) ∷ pre) k v post (h, hs) = simp h (lookup-catalogo pre k v post hs)

  str_of-codigo :
      (str_int : ℕ → Texto) (k : Texto)
      → (isdigit k ≡ true → str_int (int_from 0 k) ≡ k)
      → str_of str_int (codigo_de k) ≡ k
  unfolding codigo_de
  str_of-codigo str_int k written = elim (Bool-cases (isdigit k)) [
    | inl y ↦ simp y (written y)
    | inr n ↦ simp n refl
  ]

  -- An entry of a catalogue, whose code no entry before it has and is trimmed and written as
  -- Python writes it (a number has no leading zero), and whose normalized value no later entry and
  -- no synonym has: in the two fields that the catalogue is for, its value is translated to a code,
  -- and the text of that code is translated back to the value.
  pub catalogo_roundtrip :
      (str_int : ℕ → Texto) (catalogos : String → Option Catalogo) (sf_key sfc_key cat_key : String)
      (pre : Catalogo) (k v : Texto) (post : Catalogo)
      → get sf_key sf_to_cat ≡ some cat_key
      → get sfc_key key_to_cat ≡ some cat_key
      → catalogos cat_key ≡ some (pre ++ ((k, v) ∷ post))
      → Absent k pre
      → Fresh (normalize_text sin_tildes es_palabra lower v) post
      → Absent (normalize_text sin_tildes es_palabra lower v) (sinonimos cat_key)
      → strip k ≡ k
      → (isdigit k ≡ true → str_int (int_from 0 k) ≡ k)
      → (c : Codigo) × (traducir_via_catalogo_sfc sin_tildes es_palabra lower catalogos sf_key v
          ≡ traducido c)
        × (traducir_via_catalogo_crm str_int catalogos sfc_key (texto_de str_int c) ≡ some v)
  unfolding traducir_via_catalogo_sfc traducir_via_catalogo_crm lookup_or_fail indice_de
  catalogo_roundtrip str_int catalogos sf_key sfc_key cat_key pre k v post to_sfc to_crm named once
        fresh plain trimmed written =
      let w = normalize_text sin_tildes es_palabra lower v in
      let there =
        lookup-actualizar_other w (sinonimos cat_key)
          (indice_inverso sin_tildes es_palabra lower (pre ++ ((k, v) ∷ post)) []) plain
        ∙ indice_inverso-entry pre k v post [] fresh in
      let back = lookup-catalogo pre k v post once in
      let again = ap strip (str_of-codigo str_int k written) ∙ trimmed in
      (
        codigo_de k,
        simp (to_sfc, named, there) refl,
        simp (again, to_crm, named)
            (ap (λ o. some (o_offset str_int cat_key k (pre ++ ((k, v) ∷ post)) o)) back),
      )
