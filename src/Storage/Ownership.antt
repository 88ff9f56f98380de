-- ===== src/Storage/Ownership.antt =====
-- A key is accepted for the case whose folder holds the file and for no other.
use ms_integracion_smartsupe.Prelude.{
  ℕ, ◌≡◌, ◌∙◌, ap, sym, refl, Bool, true, false, not, ◌&&◌, Option, none, some, List, [], ◌∷◌, ◌++◌,
  append-nil, append_assoc, ◌==◌, Bool-cases, inl, inr, ◌↔◌,
}
use ms_integracion_smartsupe.Text.{same_text}
use ms_integracion_smartsupe.Text.Strip.{same_text-eq, same_text_refl}
use ms_integracion_smartsupe.Storage.{
  Key, slash, cerrar, segmentos_desde, penultimo, es_caso, validar_ownership_key,
}

-- A segment of a key, without a slash.
abbrev pub sin_slash : Key → Bool
sin_slash [] = true
sin_slash (c ∷ cs) = not (c == slash) && sin_slash cs

cerrar-append : (acc : Key) (xs ys : List Key) → cerrar acc (xs ++ ys) ≡ cerrar acc xs ++ ys
cerrar-append [] xs ys = refl
cerrar-append (c ∷ cs) xs ys = refl

segmentos-prefix :
    (acc p rest : Key)
    → segmentos_desde acc (p ++ (slash ∷ rest)) ≡ segmentos_desde acc p ++ segmentos_desde [] rest
segmentos-prefix acc [] rest = cerrar-append acc [] (segmentos_desde [] rest)
segmentos-prefix acc (c ∷ p) rest = elim (Bool-cases (c == slash)) [
  | inl y ↦ simp y (
      ap (cerrar acc) (segmentos-prefix [] p rest)
      ∙ cerrar-append acc (segmentos_desde [] p) (segmentos_desde [] rest))
  | inr n ↦ simp n (segmentos-prefix (acc ++ (c ∷ [])) p rest)
]

segmentos-name : (acc n : Key) → sin_slash n ≡ true → segmentos_desde acc n ≡ cerrar (acc ++ n) []
segmentos-name acc [] h = ap (λ a. cerrar a []) (sym (append-nil acc))
segmentos-name acc (c ∷ n) h = elim (Bool-cases (c == slash)) [
  | inl y ↦ (let bad : Path Bool false true = simp y at h in cc)
  | inr other ↦ simp other (
      segmentos-name (acc ++ (c ∷ [])) n (simp other at h)
      ∙ ap (λ a. cerrar a []) (append_assoc acc (c ∷ []) n))
]

penultimo-append : (xs : List Key) (a b : Key) → penultimo (xs ++ (a ∷ b ∷ [])) ≡ some a
penultimo-append [] a b = refl
penultimo-append (x ∷ []) a b = refl
penultimo-append (x ∷ y ∷ []) a b = refl
penultimo-append (x ∷ y ∷ z ∷ r) a b = penultimo-append (y ∷ z ∷ r) a b

-- What follows a folder, or stands at the root of the bucket.
abbrev pub tras_carpeta : Option Key → Key → Key
tras_carpeta none k = k
tras_carpeta (some p) k = p ++ (slash ∷ k)

abbrev carpetas : Option Key → List Key
carpetas none = []
carpetas (some p) = segmentos_desde [] p

module _ (c : ℕ) (cs : Key) (n : ℕ) (ns : Key) where
  segmentos-pair :
      sin_slash (c ∷ cs) ≡ true
      → sin_slash (n ∷ ns) ≡ true
      → segmentos_desde [] ((c ∷ cs) ++ (slash ∷ (n ∷ ns))) ≡ (c ∷ cs) ∷ (n ∷ ns) ∷ []
  segmentos-pair folder name =
      segmentos-prefix [] (c ∷ cs) (n ∷ ns)
      ∙ ap (λ x. x ++ segmentos_desde [] (n ∷ ns)) (segmentos-name [] (c ∷ cs) folder)
      ∙ ap (λ y. (c ∷ cs) ∷ y) (segmentos-name [] (n ∷ ns) name)

  -- The segments of a key that ends with a folder and a name.
  segmentos-file :
      (o : Option Key)
      → sin_slash (c ∷ cs) ≡ true
      → sin_slash (n ∷ ns) ≡ true
      → segmentos_desde [] (tras_carpeta o ((c ∷ cs) ++ (slash ∷ (n ∷ ns))))
        ≡ carpetas o ++ ((c ∷ cs) ∷ (n ∷ ns) ∷ [])
  segmentos-file none folder name = segmentos-pair folder name
  segmentos-file (some p) folder name =
      segmentos-prefix [] p ((c ∷ cs) ++ (slash ∷ (n ∷ ns)))
      ∙ ap (λ r. segmentos_desde [] p ++ r) (segmentos-pair folder name)

  -- A key `folder/name`, at the root of the bucket or in any folders, is accepted for a case exactly
  -- when that case is the folder that holds the file, so that no name on the way lets another case
  -- in; and a key that is only a name is accepted for no case.
  pub validar_ownership_iff :
      (o : Option Key) (d : ℕ) (ds : Key)
      → sin_slash (c ∷ cs) ≡ true
      → sin_slash (n ∷ ns) ≡ true
      → ((validar_ownership_key (tras_carpeta o ((c ∷ cs) ++ (slash ∷ (n ∷ ns)))) (some (d ∷ ds))
            ≡ true)
          ↔ (c ∷ cs ≡ d ∷ ds))
        × (validar_ownership_key (n ∷ ns) (some (d ∷ ds)) ≡ false)
  unfolding validar_ownership_key
  validar_ownership_iff o d ds folder name =
      let e =
        ap penultimo (segmentos-file o folder name)
        ∙ penultimo-append (carpetas o) (c ∷ cs) (n ∷ ns) in
      (
        (
          λ h. same_text-eq (c ∷ cs) (d ∷ ds) (sym (ap (λ o. es_caso o (d ∷ ds)) e) ∙ h),
          λ h.
              ap (λ o. es_caso o (d ∷ ds)) e
              ∙ ap (same_text (c ∷ cs)) (sym h)
              ∙ same_text_refl (c ∷ cs),
        ),
        ap (λ l. es_caso (penultimo l) (d ∷ ds)) (segmentos-name [] (n ∷ ns) name),
      )
