-- ===== src/Sanitizer/Examples.antt =====
-- Bodies as the logs show them, and instances of the theorems about them.
use ms_integracion_smartsupe.Prelude.{◌≡◌, refl, [], ◌∷◌}
use ms_integracion_smartsupe.Text.{
  codes, lower, lower_code, strip, strip_left, strip_right, is_space,
}
use ms_integracion_smartsupe.Sanitizer.{
  Valor, texto, lista, objeto, sin_campos, campo, mask_value, campos_loggeables, loggeable,
  sanitizar_payload, sanitizar_campos, sanitizar_campo, sanitizar_headers, ignored_log_headers,
  sensitive_headers,
}
use ms_integracion_smartsupe.Sanitizer.Masking.{AllHidden, sanitizar_payload-AllHidden}
use ms_integracion_smartsupe.Sanitizer.Nested.{textos, list_in_clear}

abbrev body : Valor
body = objeto (
    campo (codes "Case_id") (texto (codes "500"))
      (campo (codes "SuppliedPhone") (texto (codes "3001234567")) sin_campos))

masked_phone :
    sanitizar_payload lower body
    ≡ objeto (
        campo
          (codes "Case_id")
          (texto (codes "500"))
          (campo (codes "SuppliedPhone") (texto (codes "30***67")) sin_campos))
unfolding sanitizar_payload sanitizar_campos sanitizar_campo loggeable campos_loggeables mask_value
    lower lower_code strip strip_left strip_right is_space
masked_phone = refl

masked_header :
    sanitizar_headers lower
      ((codes "Host", codes "h") ∷ (codes "Authorization", codes "Bearer 0123456789") ∷ [])
    ≡ (codes "Authorization", codes "Bear***6789") ∷ []
unfolding sanitizar_headers ignored_log_headers sensitive_headers mask_value lower lower_code strip
    strip_left strip_right is_space
masked_header = refl

sanitizar_payload-AllHidden_example : AllHidden lower (sanitizar_payload lower body)
sanitizar_payload-AllHidden_example = sanitizar_payload-AllHidden lower body

list_in_clear_example :
    sanitizar_payload lower
      (objeto (campo (codes "telefonos") (lista (textos (codes "3001234567" ∷ []))) sin_campos))
    ≡ objeto (campo (codes "telefonos") (lista (textos (codes "3001234567" ∷ []))) sin_campos)
list_in_clear_example = list_in_clear lower (codes "telefonos") (codes "3001234567" ∷ [])
