-- ===== src/Sanitizer/Masking.antt =====
-- No text, number or Boolean of a field outside the allowlist is logged in clear, however deep the
-- field stands. The texts that stand in a list are no field's.
use ms_integracion_smartsupe.Prelude.{
  ℕ, zero, suc, ◌+◌, ◌-◌, ◌≤◌, ◌≡◌, refl, arith, Bool, true, false, [], ◌∷◌, ◌++◌, append-nil,
  length, leb, ◌⊎◌, ◌≢◌, inl, inr, if_cases, sym,
}
use ms_integracion_smartsupe.Text.{strip}
use ms_integracion_smartsupe.Sanitizer.{
  Texto, Valor, nulo, texto, escalar, lista, objeto, Elementos, sin_elementos, elemento, Campos,
  sin_campos, campo, asterisco, take, drop, asteriscos, tres_asteriscos, mask_clean, mask_value,
  redacted, loggeable, enmascarado, sanitizar_payload, sanitizar_elementos, sanitizar_campos,
  sanitizar_campo,
}

abbrev AreStars : Texto → Type 0
AreStars [] = Unit
AreStars (c ∷ s) = (c ≡ asterisco) × AreStars s

-- Asterisks, one at least in a text that is not empty, with at most `n` characters before and
-- after them.
pub record IsMasked (n : ℕ) (t : Texto) : Type 0 where
  pub inicio : Texto
  pub medio : Texto
  pub fin : Texto
  pub partes : t ≡ inicio ++ (medio ++ fin)
  pub ocultos : AreStars medio
  pub tapado : (t ≡ []) ⊎ (medio ≢ [])
  pub inicio_corto : length inicio ≤ n
  pub fin_corto : length fin ≤ n

asteriscos-AreStars : (s : Texto) → AreStars (asteriscos s)
asteriscos-AreStars [] = tt
asteriscos-AreStars (c ∷ s) = (refl, asteriscos-AreStars s)

length-take-le : (n : ℕ) (s : Texto) → length (take n s) ≤ n
length-take-le zero s = omega arith
length-take-le (suc n) [] = omega arith
length-take-le (suc n) (c ∷ s) = omega (arith, length-take-le n s)

length-drop : (n : ℕ) (s : Texto) → length (drop n s) ≡ length s - n
length-drop zero s = omega arith
length-drop (suc n) [] = omega arith
length-drop (suc n) (c ∷ s) = omega (arith, length-drop n s)

nil_or : (t : Texto) → (t ≡ []) ⊎ (t ≢ [])
nil_or [] = inl refl
nil_or (c ∷ s) = inr (λ e. cc)

only_stars : (n : ℕ) (t : Texto) → AreStars t → IsMasked n t
only_stars n t h = record {
  inicio = [];
  medio = t;
  tapado = nil_or t;
  fin = [];
  partes = sym (append-nil t);
  ocultos = h;
  inicio_corto = omega arith;
  fin_corto = omega arith;
}

mask_clean-IsMasked : (n : ℕ) (s : Texto) → IsMasked n (mask_clean n s)
mask_clean-IsMasked n s =
    if_cases (IsMasked n) (leb (length s) (n + n)) _ _
      (λ _. only_stars n (asteriscos s) (asteriscos-AreStars s))
      (λ long. record {
        inicio = take n s;
        medio = tres_asteriscos;
        fin = drop (length s - n) s;
        partes = refl;
        ocultos = (refl, (refl, (refl, tt)));
        tapado = inr (λ e. cc);
        inicio_corto = length-take-le n s;
        fin_corto = ground (arith, length-drop (length s - n) s);
      })

pub mask_value-IsMasked : (n : ℕ) (s : Texto) → IsMasked n (mask_value n s)
unfolding mask_value
mask_value-IsMasked n [] = only_stars n tres_asteriscos (refl, (refl, (refl, tt)))
mask_value-IsMasked n (c ∷ s) = mask_clean-IsMasked n (strip (c ∷ s))

module _ (lower : Texto → Texto) where
  -- A field outside the allowlist: a masked text, the placeholder, or null.
  abbrev pub IsHidden : Valor → Type 0
  IsHidden (texto t) = IsMasked 2 t ⊎ (texto t ≡ redacted)
  IsHidden nulo = Unit
  IsHidden _ = ⊥

  -- The fields of a value. What stands in a list has no field of its own.
  abbrev mutual
    pub AllHidden : Valor → Type 0
    AllHidden (objeto cs) = FieldsHidden cs
    AllHidden (lista es) = ElementsHidden es
    AllHidden _ = Unit

    pub ElementsHidden : Elementos → Type 0
    ElementsHidden sin_elementos = Unit
    ElementsHidden (elemento v es) = AllHidden v × ElementsHidden es

    pub FieldsHidden : Campos → Type 0
    FieldsHidden sin_campos = Unit
    FieldsHidden (campo k v cs) = FieldHidden k v × FieldsHidden cs

    pub FieldHidden : Texto → Valor → Type 0
    FieldHidden k (objeto cs) = FieldsHidden cs
    FieldHidden k (lista es) = ElementsHidden es
    FieldHidden k v = loggeable lower k ≡ false → IsHidden v

  abbrev IsPlain : Valor → Type 0
  IsPlain (objeto cs) = ⊥
  IsPlain (lista es) = ⊥
  IsPlain _ = Unit

  masked-FieldHidden :
      (k : Texto) (v : Valor) (b : Bool)
      → IsPlain v
      → loggeable lower k ≡ b
      → FieldHidden k (enmascarado lower b v)
  masked-FieldHidden k (objeto cs) b p e = absurd p
  masked-FieldHidden k (lista es) b p e = absurd p
  masked-FieldHidden k nulo true p e = λ h. tt
  masked-FieldHidden k nulo false p e = λ h. tt
  masked-FieldHidden k (texto s) true p e = λ h. cc
  masked-FieldHidden k (texto s) false p e = λ h. inl (mask_value-IsMasked 2 s)
  masked-FieldHidden k (escalar s) true p e = λ h. cc
  masked-FieldHidden k (escalar s) false p e = λ h. inr refl

  mutual
    unfolding sanitizar_payload sanitizar_elementos sanitizar_campos sanitizar_campo

    payload-AllHidden : (v : Valor) → AllHidden (sanitizar_payload lower v)
    payload-AllHidden (objeto cs) = campos-FieldsHidden cs
    payload-AllHidden (lista es) = elementos-ElementsHidden es
    payload-AllHidden nulo = tt
    payload-AllHidden (texto s) = tt
    payload-AllHidden (escalar s) = tt

    elementos-ElementsHidden : (es : Elementos) → ElementsHidden (sanitizar_elementos lower es)
    elementos-ElementsHidden sin_elementos = tt
    elementos-ElementsHidden (elemento v es) = (payload-AllHidden v, elementos-ElementsHidden es)

    campos-FieldsHidden : (cs : Campos) → FieldsHidden (sanitizar_campos lower cs)
    campos-FieldsHidden sin_campos = tt
    campos-FieldsHidden (campo k v cs) = (campo-FieldHidden v k, campos-FieldsHidden cs)

    campo-FieldHidden : (v : Valor) (k : Texto) → FieldHidden k (sanitizar_campo lower k v)
    campo-FieldHidden (objeto cs) k = campos-FieldsHidden cs
    campo-FieldHidden (lista es) k = elementos-ElementsHidden es
    campo-FieldHidden nulo k = masked-FieldHidden k nulo (loggeable lower k) tt refl
    campo-FieldHidden (texto s) k = masked-FieldHidden k (texto s) (loggeable lower k) tt refl
    campo-FieldHidden (escalar s) k = masked-FieldHidden k (escalar s) (loggeable lower k) tt refl

  -- In what is logged, each field that the allowlist does not name and whose value is no dict or
  -- list, at any depth of the dicts and lists, is null, the placeholder, an empty text, or asterisks
  -- with at most two characters before and two after them. Values that stand in a list themselves
  -- are not spoken of.
  pub sanitizar_payload-AllHidden : (v : Valor) → AllHidden (sanitizar_payload lower v)
  sanitizar_payload-AllHidden v = payload-AllHidden v
