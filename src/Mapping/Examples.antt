-- ===== src/Mapping/Examples.antt =====
-- Catalogues of one value, and instances of the theorems about them.
use ms_integracion_smartsupe.Prelude.{
  ℕ, ◌+◌, ◌<◌, ◌≡◌, ◌↔◌, refl, Bool, true, ◌&&◌, ◌||◌, leb, if◌then◌else◌, String, Option, none,
  some, [], ◌∷◌, str_eq,
}
use ms_integracion_smartsupe.Text.{
  codes, lower, lower_code, strip, strip_left, strip_right, is_space,
}
use ms_integracion_smartsupe.Mapping.{
  Texto, Catalogo, entero, Codigo, texto_de, traducir_via_catalogo_sfc, traducir_via_catalogo_crm,
  normalize_text, traducido,
}
use ms_integracion_smartsupe.Mapping.Cache.{
  Estado, error_de_red, sin_datos, nuevos, con_hojas, obtener_catalogos, llamadas, max_stale_ttl,
}
use ms_integracion_smartsupe.Mapping.Cache.Stale.{alerta_iff}
use ms_integracion_smartsupe.Mapping.Index.{catalogo_roundtrip}
use ms_integracion_smartsupe.Mapping.Reception.{manual_is_one}

abbrev same : Texto → Texto
same s = s

-- A letter, for the texts here.
abbrev letter : ℕ → Bool
letter c = leb 48 c && leb c 57 || leb 65 c && leb c 122

abbrev ascii : Texto → Texto
ascii = lower

abbrev reception : Catalogo
reception = (codes "1", codes "Web") ∷ (codes "4", codes "Manual") ∷ []

abbrev catalogues : String → Option Catalogo
catalogues k = if str_eq k "punto_recepcion" then some reception else none

-- `str` of a number below ten.
abbrev digits : ℕ → Texto
digits n = (48 + n) ∷ []

catalogo_roundtrip_example :
    (c : Codigo) × (traducir_via_catalogo_sfc same letter ascii catalogues "punto_recepcion"
        (codes "Web")
      ≡ traducido c)
    × (traducir_via_catalogo_crm digits catalogues "punto_recepcion" (texto_de digits c)
        ≡ some (codes "Web"))
unfolding normalize_text lower lower_code strip strip_left strip_right is_space
catalogo_roundtrip_example =
    catalogo_roundtrip same letter ascii digits catalogues "punto_recepcion" "punto_recepcion"
      "punto_recepcion" [] (codes "1") (codes "Web") ((codes "4", codes "Manual") ∷ []) refl refl
      refl tt (refl, refl, tt) (refl, (refl, (refl, (refl, (refl, tt))))) refl (λ e. refl)

-- The catalogue has 4 for Manual, and 1 is the code of Web.
manual_is_one_example :
    traducir_via_catalogo_sfc same letter ascii catalogues "punto_recepcion" (codes "Manual")
    ≡ traducido (entero 1)
unfolding normalize_text lower lower_code strip strip_left strip_right is_space
manual_is_one_example =
    manual_is_one same letter ascii catalogues reception refl (codes "Manual") refl

abbrev loaded : Estado String
loaded = record { catalogos = some "old"; ultima_actualizacion = 1; ultimo_exito = 1 }

alerta_iff_example :
    ((obtener_catalogos 100000000 true none error_de_red (
        llamadas none
          ((50000000, sin_datos) ∷ [])
          (con_hojas 5 none (nuevos "new") loaded).estado)).alerta
      ≡ true)
    ↔ (5 + max_stale_ttl < 100000000)
unfolding llamadas obtener_catalogos
alerta_iff_example =
    alerta_iff 100000000 5 none "new" loaded ((50000000, sin_datos) ∷ []) (λ e. cc) (tt, tt) refl
