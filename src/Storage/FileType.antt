-- ===== src/Storage/FileType.antt =====
-- app/services/s3_service.py, `normalizar_tipo_archivo`: the extension and the content type of a
-- file of the SFC, from its type or else its URL.
use ms_integracion_smartsupe.Prelude.{
  ℕ, zero, suc, ◌-◌, String, Bool, false, ◌||◌, Option, none, some, List, [], ◌∷◌, ◌++◌, length,
  leb, ◌==◌, if◌then◌else◌,
}
use ms_integracion_smartsupe.Text.{codes, strip, same_text}
use ms_integracion_smartsupe.Text.Search.{after_prefix}
use ms_integracion_smartsupe.Storage.{Key, slash, tras_barra}

abbrev pub punto : ℕ
punto = 46

-- `name.split(".")[-1]`, and `sep in name`
abbrev pub tras_punto : Key → Key → Key
tras_punto acc [] = acc
tras_punto acc (c ∷ cs) = if c == punto then tras_punto [] cs else tras_punto (acc ++ (c ∷ [])) cs

abbrev pub tiene : ℕ → Key → Bool
tiene sep [] = false
tiene sep (c ∷ cs) = c == sep || tiene sep cs

-- `s.replace(p, "")` of a `p` that is not empty, with what is left of a match to skip.
unfoldable pub sin_texto : Key → ℕ → Key → Key
sin_texto p n [] = []
sin_texto p (suc n) (c ∷ cs) = sin_texto p n cs
sin_texto p zero (c ∷ cs) = elim (after_prefix p (c ∷ cs)) [
  | none ↦ c ∷ sin_texto p zero cs
  | some resto ↦ sin_texto p (length p - 1) cs
]

abbrev pub mime_map : List (String × (String × String))
mime_map =
    ("application/pdf", ("pdf", "application/pdf"))
    ∷ ("pdf", ("pdf", "application/pdf"))
    ∷ ("image/png", ("png", "image/png"))
    ∷ ("png", ("png", "image/png"))
    ∷ ("image/jpeg", ("jpg", "image/jpeg"))
    ∷ ("jpg", ("jpg", "image/jpeg"))
    ∷ ("text/plain", ("txt", "text/plain"))
    ∷ ("txt", ("txt", "text/plain"))
    ∷ ("application/zip", ("zip", "application/zip"))
    ∷ ("zip", ("zip", "application/zip"))
    ∷ []

abbrev pub en_mapa : Key → List (String × (String × String)) → Option (Key × Key)
en_mapa val [] = none
en_mapa val ((k, (e, t)) ∷ ms) =
    if same_text val (codes k) then some (codes e, codes t) else en_mapa val ms

abbrev pub de_aplicacion : Key → Key × Key
de_aplicacion e = (e, codes "application/" ++ e)

abbrev pub o_pdf : Key → Key
o_pdf [] = codes "pdf"
o_pdf (c ∷ cs) = c ∷ cs

module _ (lower : Key → Key) where
  abbrev pub de_url : Key → Key → Key × Key
  de_url val file_url =
      let ultimo = tras_barra [] file_url in
      let possible_ext = lower (tras_punto [] ultimo) in
      if tiene punto ultimo
      then (if leb (length possible_ext) 4
          then de_aplicacion possible_ext
          else de_aplicacion (o_pdf val))
      else de_aplicacion (o_pdf val)

  abbrev pub sin_mapa : Key → Key → Option (Key × Key) → Key × Key
  sin_mapa val file_url (some r) = r
  sin_mapa val file_url none =
      if tiene slash val
      then (sin_texto (codes "x-") 0 (sin_texto (codes "vnd.") 0 (tras_barra [] val)), val)
      else de_url val file_url

  -- `normalizar_tipo_archivo`, with an empty text where an argument is falsy.
  unfoldable pub normalizar_tipo_archivo : Key → Key → Key × Key
  normalizar_tipo_archivo raw_type file_url =
      let val = strip (lower raw_type) in sin_mapa val file_url (en_mapa val mime_map)
