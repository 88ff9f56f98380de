-- ===== src/Storage/Inbound/Checks.antt =====
-- What each check on a file of the SFC lets pass: its host, its size, and its first bytes.
use ms_integracion_smartsupe.Prelude.{
  ℕ, ◌+◌, ◌≤◌, ◌≡◌, ◌≢◌, ◌⊎◌, refl, ap, ◌∙◌, arith, String, Bool, true, false, Option, none, some,
  [], ◌∷◌, ◌++◌, append_assoc, length-append, length, ltb, Bool-cases, Option-cases, inl, inr, zero,
  suc,
}
use ms_integracion_smartsupe.Text.{codes, same_text}
use ms_integracion_smartsupe.Text.Strip.{same_text-eq}
use ms_integracion_smartsupe.Text.Search.{after_prefix, after_prefix-some}
use ms_integracion_smartsupe.Sanitizer.{take}
use ms_integracion_smartsupe.Storage.{Key}
use ms_integracion_smartsupe.Storage.FileType.{punto}
use ms_integracion_smartsupe.Storage.Inbound.{
  Bytes, endswith, en_dominio, allowed_domains, en_alguno, host_permitido, Flujo, fin, corte, trozo,
  Descarga, sin_respuesta, respuesta, Paso, listo, rechazado, roto, max_bytes, antepuesto, recorrer,
  declara_mas, descargar_streaming, magic_headers, firma_de, empieza_con, extension_de,
  validar_integridad,
}

-- The host is the domain, or a name before a dot and the domain.
abbrev pub OfDomain : Key → Key → Type 0
OfDomain h d = (h ≡ d) ⊎ ((sub : Key) × (h ≡ sub ++ (punto ∷ d)))

endswith-some : (h d : Key) → endswith h d ≡ true → (sub : Key) × (h ≡ sub ++ d)
endswith-some [] [] e = ([], refl)
endswith-some [] (x ∷ d) e = cc
endswith-some (c ∷ cs) d e = elim (Bool-cases (same_text (c ∷ cs) d)) [
  | inl y ↦ ([], same_text-eq (c ∷ cs) d y)
  | inr n ↦ let (sub, k) = endswith-some cs d (rw n at e) in (c ∷ sub, ap (λ t. c ∷ t) k)
]

en_dominio-OfDomain : (h d : Key) → en_dominio h d ≡ true → OfDomain h d
en_dominio-OfDomain h d e = elim (Bool-cases (same_text h d)) [
  | inl y ↦ inl (same_text-eq h d y)
  | inr n ↦ inr (endswith-some h (punto ∷ d) (rw n at e))
]

-- A host that the allowlist names: of the SFC's own URL, of the SFC, or of its storage.
abbrev pub OfSfc : Key → Key → Type 0
OfSfc base h =
    ((base ≢ []) × OfDomain h base)
    ⊎ (OfDomain h (codes "superfinanciera.gov.co") ⊎ OfDomain h (codes "storage.googleapis.com"))

en_alguno-OfSfc : (base h : Key) → en_alguno h allowed_domains ≡ true → OfSfc base h
en_alguno-OfSfc base h e = elim (Bool-cases (en_dominio h (codes "superfinanciera.gov.co"))) [
  | inl y ↦ inr (inl (en_dominio-OfDomain h (codes "superfinanciera.gov.co") y))
  | inr n ↦ elim (Bool-cases (en_dominio h (codes "storage.googleapis.com"))) [
    | inl y ↦ inr (inr (en_dominio-OfDomain h (codes "storage.googleapis.com") y))
    | inr m ↦ (let bad : Path Bool false true = simp (n, m) at e in cc)
  ]
]

pub permitido-OfSfc : (base h : Key) → host_permitido base false h ≡ true → OfSfc base h
permitido-OfSfc [] h e = en_alguno-OfSfc [] h (ground arith)
permitido-OfSfc (b ∷ bs) h e = elim (Bool-cases (en_dominio h (b ∷ bs))) [
  | inl y ↦ inl (λ k. cc, en_dominio-OfDomain h (b ∷ bs) y)
  | inr n ↦ en_alguno-OfSfc (b ∷ bs) h (ground arith)
]

rest-size :
    (n : ℕ) (t b : Bytes) (p : Paso Bytes)
    → ((r : Bytes) → p ≡ listo r → (n + length t) + length r ≤ max_bytes)
    → antepuesto t p ≡ listo b
    → n + length b ≤ max_bytes
rest-size n t b (rechazado e) rest h = cc
rest-size n t b roto rest h = cc
rest-size n t b (listo r) rest h =
    let same : t ++ r ≡ b = cc in omega (arith, ap length same, length-append t r, rest r refl)

recorrer-size :
    (n : ℕ) (f : Flujo) (b : Bytes)
    → n ≤ max_bytes
    → recorrer n f ≡ listo b
    → n + length b ≤ max_bytes
unfolding recorrer
recorrer-size n fin [] room h = omega arith
recorrer-size n fin (c ∷ b) room h = cc
recorrer-size n corte b room h = cc
recorrer-size n (trozo t f) b room h = elim (Bool-cases (ltb max_bytes (n + length t))) [
  | inl y ↦ (let bad : rechazado "FILE_SIZE_EXCEEDED" ≡ listo b = simp y at h in cc)
  | inr small ↦
      let fits : n + length t ≤ max_bytes = ground arith in
      rest-size n t b (recorrer (n + length t) f) (λ r e. recorrer-size (n + length t) f r fits e)
        (simp small at h)
]

pub descargar-size :
    (d : Descarga) (b : Bytes) → descargar_streaming d ≡ listo b → length b ≤ max_bytes
unfolding descargar_streaming
descargar-size sin_respuesta b h = cc
descargar-size (respuesta n f) b h = elim (Bool-cases (declara_mas n)) [
  | inl y ↦ (let bad : rechazado "FILE_SIZE_EXCEEDED" ≡ listo b = simp y at h in cc)
  | inr fits ↦ let size = recorrer-size 0 f b (omega arith) (simp fits at h) in omega (arith, size)
]

-- A content that begins with the signature of its extension, where the extension has one.
abbrev pub StartsWith : Option Bytes → Bytes → Type 0
StartsWith none b = Unit
StartsWith (some firma) b = (resto : Bytes) × (b ≡ firma ++ resto)

take-prefix : (n : ℕ) (s : Bytes) → (resto : Bytes) × (s ≡ take n s ++ resto)
take-prefix zero s = (s, refl)
take-prefix (suc n) [] = ([], refl)
take-prefix (suc n) (c ∷ s) = let (r, e) = take-prefix n s in (r, ap (λ t. c ∷ t) e)

empieza-StartsWith :
    (o : Option Bytes) (n : ℕ) (b : Bytes) → empieza_con o (take n b) ≡ true → StartsWith o b
empieza-StartsWith none n b h = tt
empieza-StartsWith (some firma) n b h = elim (Option-cases (after_prefix firma (take n b))) [
  | inl none_there ↦ (let bad : Path Bool false true = simp none_there at h in cc)
  | inr (r, e) ↦
      let (resto, k) = take-prefix n b in
      (
        r ++ resto,
        k
            ∙ (ap (λ t. t ++ resto) (after_prefix-some firma (take n b) r e)
                ∙ append_assoc firma r resto),
      )
]

module _ (lower : Key → Key) where
  pub integridad-StartsWith :
      (b : Bytes) (nombre : Key)
      → validar_integridad lower b nombre ≡ none
      → (b ≢ []) × StartsWith (firma_de (extension_de lower nombre) magic_headers) b
  unfolding validar_integridad
  integridad-StartsWith [] nombre h = cc
  integridad-StartsWith (c ∷ b) nombre h =
      elim (Bool-cases
        (empieza_con (firma_de (extension_de lower nombre) magic_headers) (take 1024 (c ∷ b)))) [
          | inl y ↦ (
            λ k. cc,
            empieza-StartsWith (firma_de (extension_de lower nombre) magic_headers) 1024 (c ∷ b) y,
          )
          | inr long ↦
              (let bad : Path (Option String) (some "CORRUPTED_OR_INVALID_FILE") none =
                  simp long at h in
                cc)
        ]
