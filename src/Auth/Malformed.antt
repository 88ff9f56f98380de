-- ===== src/Auth/Malformed.antt =====
-- What a token that cannot be decoded does to the cache.
use ms_integracion_smartsupe.Prelude.{
  ℕ, ◌+◌, ◌<◌, Bool, ◌≡◌, refl, arith, String, true, false, Option, none, some, str_eq, eq_iff, ltb,
}
use ms_integracion_smartsupe.Auth.{
  Tokens, vigente, un_minuto, is_access_token_valid, is_refresh_token_valid, Lectura, registro,
  emision, Paso, save_tokens_local, hacer_login, Respuestas, renovar, Vuelta, sin_pasos,
  renovar_coordinado, vacio, get_valid_token_unlocked, recuperar_401, get_valid_token,
}

-- A cache with these fields.
abbrev pub holding : Option String → Option String → ℕ → Option ℕ → Tokens
holding t r exp rexp = record {
  access_token = t;
  refresh_token = r;
  access_exp = some exp;
  refresh_exp = rexp;
}

module _ (jwt_decode : String → Option (Option ℕ)) (vueltas : ℕ → Vuelta) (inicio : ℕ) where
  -- A 401 to the shared token, whose expiry is more than a minute ahead, with no valid refresh
  -- token: the record is invalidated, the lock is taken, and the login answers a token that cannot
  -- be decoded. The recovery fails, but it leaves that token in the cache with the expiry of the
  -- rejected one, and the next call of `get_valid_token` before that expiry returns it without
  -- asking Redis or the SFC.
  pub malformed_is_served :
      (t a : String) (r rt : Option String) (exp : ℕ) (rexp : Option ℕ) (rs : Respuestas)
      (ahora luego : ℕ)
      → luego + un_minuto < exp
      → vigente (vueltas 0).ahora rt rexp ≡ false
      → (vueltas 0).conectado ≡ true
      → (vueltas 0).adquirido ≡ true
      → (vueltas 0).tras_lock ≡ vacio
      → (vueltas 0).respuestas.a_login ≡ emision (some a) r
      → jwt_decode a ≡ none
      → (p : Paso) × (recuperar_401 jwt_decode vueltas inicio t true true
            (registro (holding (some t) rt exp rexp))
            rs
            ahora
            (holding (some t) rt exp rexp)
          ≡ some p)
        × (p.exito ≡ false)
        × (p.cache.access_token ≡ some a)
        × ((hay_redis : Bool) (l' : Lectura) (rs' : Respuestas) (luego' : ℕ)
            → get_valid_token jwt_decode vueltas inicio hay_redis l' rs' luego luego' p.cache
              ≡ some (sin_pasos p.cache))
  unfolding recuperar_401 get_valid_token_unlocked get_valid_token renovar hacer_login
      save_tokens_local is_access_token_valid is_refresh_token_valid renovar_coordinado
  malformed_is_served t a r rt exp rexp rs ahora luego early expired con lock empty answer bad =
      let same : str_eq t t ≡ true = (eq_iff t t).1 refl in
      let late : ltb (luego + un_minuto) exp ≡ true = ground arith in
      (
        renovar jwt_decode true (vueltas 0).ahora (vueltas 0).respuestas (holding none rt exp rexp),
        simp (same, con, lock, empty) refl,
        simp (expired, answer, bad) refl,
        simp (expired, answer, bad) refl,
        λ hay_redis l' rs' luego'. simp (expired, answer, bad, late) refl,
      )
