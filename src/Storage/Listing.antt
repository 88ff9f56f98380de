-- ===== src/Storage/Listing.antt =====
-- How far the listing of a folder goes.
use ms_integracion_smartsupe.Prelude.{
  ◌+◌, ◌≤◌, ◌≡◌, refl, arith, true, false, Option, none, some, List, [], ◌∷◌, ◌++◌, length, ltb,
  Bool-cases, inl, inr,
}
use ms_integracion_smartsupe.Storage.{
  Key, limpiar_key, validar_prefijo, max_archivos, termina_en_barra, listar_objetos, Listado,
  objetos, no_existe, sin_acceso, con_listado, con_barra, listar_archivos_en_directorio,
}
use ms_integracion_smartsupe.Momento4.{is_nil}

length-snoc : (xs : List Key) (k : Key) → length (xs ++ (k ∷ [])) ≡ length xs + 1
length-snoc [] k = refl
length-snoc (x ∷ xs) k = (let ih = length-snoc xs k in omega arith)

listar_objetos-bounded :
    (ks archivos fs : List Key)
    → length archivos ≤ max_archivos
    → listar_objetos ks archivos ≡ some fs
    → length fs ≤ max_archivos
unfolding listar_objetos
listar_objetos-bounded [] archivos fs few h = ground (arith, few, h)
listar_objetos-bounded (k ∷ ks) archivos fs few h = elim (Bool-cases (termina_en_barra k)) [
  | inl y ↦ listar_objetos-bounded ks archivos fs few (simp y at h)
  | inr n ↦ elim (Bool-cases (ltb (length archivos) max_archivos)) [
    | inl room ↦
        let e = length-snoc archivos k in
        listar_objetos-bounded ks (archivos ++ (k ∷ [])) fs (ground (arith, room, e))
          (simp (n, room) at h)
    | inr full ↦ (let bad : Path (Option (List Key)) none (some fs) = simp (n, full) at h in cc)
  ]
]

con_listado-bounded :
    (l : Listado) (fs : List Key) → con_listado l ≡ some fs → length fs ≤ max_archivos
con_listado-bounded (objetos ks) fs h = listar_objetos-bounded ks [] fs (omega arith) h
con_listado-bounded no_existe fs h = ground (arith, h)
con_listado-bounded sin_acceso fs h = cc

-- A listing that returns is of the case's own folder, never of the bucket's root, and gives fifty
-- files at most, whatever S3 answers.
pub listing_is_own :
    (listar : Key → Listado) (prefix : Key) (caso : Option Key) (fs : List Key)
    → listar_archivos_en_directorio listar prefix caso ≡ some fs
    → (is_nil (limpiar_key prefix) ≡ false)
      × (validar_prefijo (limpiar_key prefix) caso ≡ true)
      × (length fs ≤ 50)
unfolding listar_archivos_en_directorio
listing_is_own listar prefix caso fs h = elim (Bool-cases (is_nil (limpiar_key prefix))) [
  | inl y ↦ (let bad : Path (Option (List Key)) none (some fs) = simp y at h in cc)
  | inr n ↦ elim (Bool-cases (validar_prefijo (limpiar_key prefix) caso)) [
    | inl own ↦ (
      n,
      own,
      con_listado-bounded (listar (con_barra (limpiar_key prefix))) fs (simp (n, own) at h),
    )
    | inr other ↦ (let bad : Path (Option (List Key)) none (some fs) = simp (n, other) at h in cc)
  ]
]
