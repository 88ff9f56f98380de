-- ===== src/Auth/Waiting.antt =====
-- The loop that waits for another instance's renewal ends, and what holds of each way in which a
-- turn can end holds of the token's renewal.
use ms_integracion_smartsupe.Prelude.{
  ℕ, zero, suc, ◌+◌, ◌*◌, ◌≤◌, ◌<◌, ◌≡◌, refl, arith, String, Bool, true, false, not, Option, none,
  some, leb, if_cases, subst,
}
use ms_integracion_smartsupe.Auth.{
  Tokens, is_access_token_valid, load_from_redis, Paso, renovar, Vuelta, sin_pasos, con_lock,
  vuelta, espera_maxima, renovar_coordinado, Lectura, Respuestas, vueltas_maximas,
  get_valid_token_unlocked,
}

abbrev pub AllOf : (Paso → Type 0) → Option Paso → Type 0
AllOf Q none = Unit
AllOf Q (some p) = Q p

pub AllOf-some : (Q : Paso → Type 0) (o : Option Paso) (p : Paso) → o ≡ some p → AllOf Q o → Q p
AllOf-some Q o p e h = subst (AllOf Q) e h

module _ (jwt_decode : String → Option (Option ℕ)) where
  -- The ways in which a turn ends.
  pub vuelta_cases :
      (Q : Option Paso → Type 0) (inicio : ℕ) (v : Vuelta) (m : Tokens)
      (seguir : Tokens → Option Paso)
      → Q (some (renovar jwt_decode false v.ahora v.respuestas m))
      → Q (some (con_lock jwt_decode v m))
      → (is_access_token_valid v.luego (load_from_redis v.tras_espera m) ≡ true
          → Q (some (sin_pasos (load_from_redis v.tras_espera m))))
      → (v.ahora < inicio + espera_maxima → Q (seguir (load_from_redis v.tras_espera m)))
      → Q (vuelta jwt_decode inicio v m seguir)
  vuelta_cases Q inicio v m seguir direct locked found next =
      if_cases Q (not v.conectado) _ _ (λ _. direct)
        (λ _.
          if_cases Q v.adquirido _ _ (λ _. locked)
            (λ _.
              if_cases Q (leb (inicio + espera_maxima) v.ahora) _ _ (λ _. direct)
                (λ early.
                  if_cases Q (is_access_token_valid v.luego (load_from_redis v.tras_espera m)) _ _
                    found (λ _. next (ground arith)))))

  module _ (vueltas : ℕ → Vuelta) (inicio : ℕ) where
    -- What the readings keep of the cache, and each way to end then gives, the whole loop gives.
    pub coordinado_cases :
        (I : Tokens → Type 0) (Q : Paso → Type 0)
        → ((m : Tokens) (i : ℕ) → I m → I (load_from_redis (vueltas i).tras_espera m))
        → ((m : Tokens) (i : ℕ)
            → I m
            → Q (renovar jwt_decode false (vueltas i).ahora (vueltas i).respuestas m))
        → ((m : Tokens) (i : ℕ) → I m → Q (con_lock jwt_decode (vueltas i) m))
        → ((m : Tokens) (ahora : ℕ) → is_access_token_valid ahora m ≡ true → I m → Q (sin_pasos m))
        → (n i : ℕ) (m : Tokens) → I m
        → AllOf Q (renovar_coordinado jwt_decode vueltas inicio n i m)
    unfolding renovar_coordinado
    coordinado_cases I Q keep direct locked found zero i m h = tt
    coordinado_cases I Q keep direct locked found (suc n) i m h =
        vuelta_cases (AllOf Q) inicio (vueltas i) m
          (renovar_coordinado jwt_decode vueltas inicio n (suc i)) (direct m i h) (locked m i h)
          (λ valid.
            found (load_from_redis (vueltas i).tras_espera m) (vueltas i).luego valid (keep m i h))
          (λ _.
            coordinado_cases I Q keep direct locked found n (suc i)
              (load_from_redis (vueltas i).tras_espera m) (keep m i h))

    -- Each turn of the loop before the last sleeps 250 ms, so turn 40 is past the deadline.
    pub renovar_coordinado_ends :
        ((i : ℕ) → inicio + 250 * i ≤ (vueltas i).ahora)
        → (n i : ℕ) (m : Tokens) → 41 ≤ n + i
        → i ≤ 40
        → (p : Paso) × (renovar_coordinado jwt_decode vueltas inicio n i m ≡ some p)
    unfolding renovar_coordinado
    renovar_coordinado_ends tiempo zero i m h k = absurd (omega arith)
    renovar_coordinado_ends tiempo (suc n) i m h k =
        vuelta_cases (λ o. (p : Paso) × (o ≡ some p)) inicio (vueltas i) m
          (renovar_coordinado jwt_decode vueltas inicio n (suc i))
          (renovar jwt_decode false (vueltas i).ahora (vueltas i).respuestas m, refl)
          (con_lock jwt_decode (vueltas i) m, refl)
          (λ _. (sin_pasos (load_from_redis (vueltas i).tras_espera m), refl))
          (λ early.
            renovar_coordinado_ends tiempo n (suc i) (load_from_redis (vueltas i).tras_espera m)
              (omega arith) (omega (arith, tiempo i)))

    -- A call of `get_valid_token` returns or raises, it does not wait for ever.
    pub unlocked_ends :
        ((i : ℕ) → inicio + 250 * i ≤ (vueltas i).ahora)
        → (hay_redis : Bool) (l : Lectura) (rs : Respuestas) (ahora : ℕ) (m : Tokens)
        → (p : Paso) × (get_valid_token_unlocked jwt_decode vueltas inicio hay_redis l rs ahora m
            ≡ some p)
    unfolding get_valid_token_unlocked
    unlocked_ends tiempo hay_redis l rs ahora m =
        if_cases (λ o. (p : Paso) × (o ≡ some p)) (is_access_token_valid ahora m) _ _
          (λ _. (sin_pasos m, refl))
          (λ _.
            if_cases (λ o. (p : Paso) × (o ≡ some p)) hay_redis _ _
              (λ _.
                if_cases (λ o. (p : Paso) × (o ≡ some p))
                  (is_access_token_valid ahora (load_from_redis l m)) _ _
                  (λ _. (sin_pasos (load_from_redis l m), refl))
                  (λ _.
                    renovar_coordinado_ends tiempo vueltas_maximas 0 (load_from_redis l m)
                      (omega arith) (omega arith)))
              (λ _. (renovar jwt_decode false ahora rs m, refl)))

    -- The same of a whole call.
    pub unlocked_cases :
        (I : Tokens → Type 0) (Q : Paso → Type 0)
        → ((m : Tokens) (i : ℕ) → I m → I (load_from_redis (vueltas i).tras_espera m))
        → ((m : Tokens) (i : ℕ)
            → I m
            → Q (renovar jwt_decode false (vueltas i).ahora (vueltas i).respuestas m))
        → ((m : Tokens) (i : ℕ) → I m → Q (con_lock jwt_decode (vueltas i) m))
        → ((m : Tokens) (ahora : ℕ) → is_access_token_valid ahora m ≡ true → I m → Q (sin_pasos m))
        → (hay_redis : Bool) (l : Lectura) (rs : Respuestas) (ahora : ℕ) (m : Tokens) → I m
        → I (load_from_redis l m)
        → Q (renovar jwt_decode false ahora rs m)
        → AllOf Q (get_valid_token_unlocked jwt_decode vueltas inicio hay_redis l rs ahora m)
    unfolding get_valid_token_unlocked
    unlocked_cases I Q keep direct locked found hay_redis l rs ahora m h h' alone =
        if_cases (AllOf Q) (is_access_token_valid ahora m) _ _ (λ valid. found m ahora valid h)
          (λ _.
            if_cases (AllOf Q) hay_redis _ _
              (λ _.
                if_cases (AllOf Q) (is_access_token_valid ahora (load_from_redis l m)) _ _
                  (λ valid. found (load_from_redis l m) ahora valid h')
                  (λ _.
                    coordinado_cases I Q keep direct locked found vueltas_maximas 0
                      (load_from_redis l m) h'))
              (λ _. alone))
