-- ===== src/Sanitizer/Nested.antt =====
-- What the logs show of a list of texts.
use ms_integracion_smartsupe.Prelude.{◌≡◌, refl, ap, List, [], ◌∷◌}
use ms_integracion_smartsupe.Sanitizer.{
  Texto, texto, lista, objeto, Elementos, sin_elementos, elemento, sin_campos, campo,
  sanitizar_payload, sanitizar_elementos, sanitizar_campos, sanitizar_campo,
}

abbrev pub textos : List Texto → Elementos
textos [] = sin_elementos
textos (s ∷ ss) = elemento (texto s) (textos ss)

module _ (lower : Texto → Texto) where
  elementos-textos : (ss : List Texto) → sanitizar_elementos lower (textos ss) ≡ textos ss
  unfolding sanitizar_elementos sanitizar_payload
  elementos-textos [] = refl
  elementos-textos (s ∷ ss) = ap (elemento (texto s)) (elementos-textos ss)

  -- A list of texts is logged as it is, under any key, also one that the allowlist does not name.
  pub list_in_clear :
      (k : Texto) (ss : List Texto)
      → sanitizar_payload lower (objeto (campo k (lista (textos ss)) sin_campos))
        ≡ objeto (campo k (lista (textos ss)) sin_campos)
  unfolding sanitizar_payload sanitizar_campos sanitizar_campo
  list_in_clear k ss = ap (λ es. objeto (campo k (lista es) sin_campos)) (elementos-textos ss)
