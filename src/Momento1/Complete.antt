-- ===== src/Momento1/Complete.antt =====
-- All or nothing: a complaint reaches the CRM with every file that the SFC lists, or not at all.
use ms_integracion_smartsupe.Prelude.{
  ◌≤◌, ◌≡◌, refl, true, Option, none, some, List, [], ◌∷◌, length, Bool-cases, inl, inr, arith,
  if◌then◌else◌,
}
use ms_integracion_smartsupe.Momento4.{ItemId}
use ms_integracion_smartsupe.Momento1.{
  Queja1, transferidos, tras_listar, archivos_de, con_archivos, procesar_queja,
}

module _ {Q A B E : Type 0} (listar : Option ItemId → Option (List A))
    (transferir : Option ItemId → List A → Option (List B)) (traducir : Queja1 Q → Option E) where
  transferidos_complete :
      (adjuntos : List A) (o : Option (List B)) (archivos : List B)
      → transferidos listar transferir traducir adjuntos o ≡ some archivos
      → length adjuntos ≤ length archivos
  transferidos_complete adjuntos none archivos h = cc
  transferidos_complete adjuntos (some procesados) archivos h = ground (arith, h)

  tras_listar_complete :
      (c : Option ItemId) (o : Option (List A)) (archivos : List B)
      → tras_listar listar transferir traducir c o ≡ some archivos
      → (adjuntos : List A) × (o ≡ some adjuntos) × (length adjuntos ≤ length archivos)
  tras_listar_complete c none archivos h = cc
  tras_listar_complete c (some []) archivos h = ([], refl, omega arith)
  tras_listar_complete c (some (a ∷ l)) archivos h =
      (a ∷ l, refl, transferidos_complete (a ∷ l) (transferir c (a ∷ l)) archivos h)

  con_archivos-parts :
      (o : Option (List B)) (t : Option E) (e : E) (archivos : List B)
      → con_archivos listar transferir traducir o t ≡ some (e, archivos)
      → (o ≡ some archivos) × (t ≡ some e)
  con_archivos-parts none none e archivos h = cc
  con_archivos-parts none (some t) e archivos h = cc
  con_archivos-parts (some l) none e archivos h = cc
  con_archivos-parts (some l) (some t) e archivos h = (cc, cc)

  -- A complaint with files that is delivered to the CRM has at least as many files in S3 as the
  -- SFC listed for it: a listing that fails, or a file that is not transferred, leaves it out.
  pub delivered_is_complete :
      (q : Queja1 Q) (e : E) (archivos : List B)
      → q.anexo_queja ≡ true
      → procesar_queja listar transferir traducir q ≡ some (e, archivos)
      → (adjuntos : List A) × (listar q.codigo_queja ≡ some adjuntos)
        × (length adjuntos ≤ length archivos)
  unfolding procesar_queja archivos_de
  delivered_is_complete q e archivos anexo h = elim (Bool-cases q.es_dict) [
    | inl y ↦
        let (files, _) =
          con_archivos-parts
            (if q.anexo_queja
              then tras_listar listar transferir traducir q.codigo_queja (listar q.codigo_queja)
              else some [])
            (traducir q) e archivos (simp y at h) in
        tras_listar_complete q.codigo_queja (listar q.codigo_queja) archivos (rw anexo at files)
    | inr n ↦ (let bad : Path (Option (E × List B)) none (some (e, archivos)) = simp n at h in cc)
  ]
