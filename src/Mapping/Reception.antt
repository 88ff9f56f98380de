-- ===== src/Mapping/Reception.antt =====
-- The synonyms of the point of reception.
use ms_integracion_smartsupe.Prelude.{ℕ, ◌≡◌, refl, ◌∙◌, String, Bool, Option, none, some, []}
use ms_integracion_smartsupe.Text.{codes}
use ms_integracion_smartsupe.Mapping.{
  Texto, Catalogo, entero, lookup, poner, actualizar, normalize_text, indice_inverso, sinonimos,
  indice_de, traducido, rechazado, lookup_or_fail, traducir_via_catalogo_sfc,
}
use ms_integracion_smartsupe.Mapping.Index.{
  lookup-poner_self, lookup-poner_other, Fresh, Absent, lookup-actualizar_other,
  lookup-indice_other,
}

module _ (sin_tildes : Texto → Texto) (es_palabra : ℕ → Bool) (lower : Texto → Texto)
    (catalogos : String → Option Catalogo) (c : Catalogo)
    (named : catalogos "punto_recepcion" ≡ some c) where
  -- Where the catalogue of the points of reception is loaded, the value Manual is sent as 1,
  -- whatever code the catalogue has for it.
  pub manual_is_one :
      (v : Texto)
      → normalize_text sin_tildes es_palabra lower v ≡ codes "manual"
      → traducir_via_catalogo_sfc sin_tildes es_palabra lower catalogos "punto_recepcion" v
        ≡ traducido (entero 1)
  unfolding traducir_via_catalogo_sfc lookup_or_fail indice_de actualizar
  manual_is_one v e =
      let d = indice_inverso sin_tildes es_palabra lower c [] in
      let d3 = poner (codes "updatecom") (entero 99) (
        poner (codes "form: change data") (entero 99)
          (poner (codes "activate b2c") (entero 99) d)) in
      let there : lookup (codes "manual")
            (poner (codes "internet") (entero 2) (poner (codes "manual") (entero 1) d3))
          ≡ some (entero 1) =
        lookup-poner_other (codes "manual") (codes "internet") (entero 2)
          (poner (codes "manual") (entero 1) d3) refl
        ∙ lookup-poner_self (codes "manual") (entero 1) d3 in
      simp (e, named, there) refl

  -- The synonym with a colon is never met, since the normalized value has none: where the
  -- catalogue has no such value itself, it is rejected.
  pub change_data_is_rejected :
      (v : Texto)
      → normalize_text sin_tildes es_palabra lower v ≡ codes "form change data"
      → Fresh sin_tildes es_palabra lower (codes "form change data") c
      → traducir_via_catalogo_sfc sin_tildes es_palabra lower catalogos "punto_recepcion" v
        ≡ rechazado "punto_recepcion"
  unfolding traducir_via_catalogo_sfc lookup_or_fail indice_de
  change_data_is_rejected v e fresh =
      let w = codes "form change data" in
      let d = indice_inverso sin_tildes es_palabra lower c [] in
      let absent : Absent w (sinonimos "punto_recepcion") =
        (refl, (refl, (refl, (refl, (refl, tt))))) in
      let missing : lookup w (actualizar (sinonimos "punto_recepcion") d) ≡ none =
        lookup-actualizar_other w (sinonimos "punto_recepcion") d absent
        ∙ lookup-indice_other sin_tildes es_palabra lower w c [] fresh in
      simp (e, named, missing) refl
