-- ===== src/Auth/Success.antt =====
-- A renewal that succeeds leaves a token, and one whose login works succeeds.
use ms_integracion_smartsupe.Prelude.{
  ℕ, ◌+◌, ◌*◌, ◌≤◌, ◌≡◌, refl, String, Bool, true, false, Option, none, some, if_cases,
}
use ms_integracion_smartsupe.Auth.{
  Tokens, vigente, is_access_token_valid, is_refresh_token_valid, Lectura, load_from_redis,
  Respuesta, rechazo, emision, Paso, con_expiraciones, decodificado, save_tokens_local, hacer_login,
  refresh_access_token, or_else, Respuestas, y_guardar, renovar, Vuelta, sin_pasos, con_lock,
  get_valid_token_unlocked, invalidar_si_coincide, olvidar, recuperar_401,
}
use ms_integracion_smartsupe.Auth.Waiting.{AllOf, AllOf-some, unlocked_cases, unlocked_ends}

-- A step that succeeded has a token.
abbrev pub HasToken : Paso → Type 0
HasToken p = p.exito ≡ true → (s : String) × (p.cache.access_token ≡ some s)

abbrev Succeeds : Paso → Type 0
Succeeds p = p.exito ≡ true

valid-token :
    (ahora : ℕ) (token : Option String) (exp : Option ℕ)
    → vigente ahora token exp ≡ true
    → (s : String) × (token ≡ some s)
valid-token ahora none exp h = cc
valid-token ahora (some s) exp h = (s, refl)

valid-HasToken :
    (m : Tokens) (ahora : ℕ) → is_access_token_valid ahora m ≡ true → HasToken (sin_pasos m)
unfolding is_access_token_valid
valid-HasToken m ahora h = λ _. valid-token ahora m.access_token m.access_exp h

module _ (jwt_decode : String → Option (Option ℕ)) where
  expiraciones-token :
      (a r : Option (Option ℕ)) (m : Tokens)
      → (con_expiraciones jwt_decode a r m).cache.access_token ≡ m.access_token
  expiraciones-token none r m = refl
  expiraciones-token (some a) none m = refl
  expiraciones-token (some none) (some r) m = refl
  expiraciones-token (some (some a)) (some none) m = refl
  expiraciones-token (some (some a)) (some (some r)) m = refl

  save-HasToken :
      (access refresh' : Option String) (m : Tokens)
      → HasToken (save_tokens_local jwt_decode access refresh' m)
  unfolding save_tokens_local
  save-HasToken none refresh' m = λ h. cc
  save-HasToken (some a) refresh' m = λ _. (
    a,
    expiraciones-token (jwt_decode a) (decodificado jwt_decode refresh')
        (record m { access_token = some a; refresh_token = refresh' }),
  )

  login-HasToken : (r : Respuesta) (m : Tokens) → HasToken (hacer_login jwt_decode r m)
  unfolding hacer_login
  login-HasToken rechazo m = λ h. cc
  login-HasToken (emision access refresh') m = save-HasToken access refresh' m

  refresh-HasToken : (r : Respuesta) (m : Tokens) → HasToken (refresh_access_token jwt_decode r m)
  unfolding refresh_access_token
  refresh-HasToken rechazo m = λ h. cc
  refresh-HasToken (emision access refresh') m =
      save-HasToken access (or_else refresh' m.refresh_token) m

  guardar-HasToken : (compartido : Bool) (p : Paso) → HasToken p → HasToken (y_guardar compartido p)
  guardar-HasToken compartido p h = if_cases HasToken _ _ _ (λ _. h) (λ _. h)

  renovar-HasToken :
      (compartido : Bool) (ahora : ℕ) (rs : Respuestas) (m : Tokens)
      → HasToken (renovar jwt_decode compartido ahora rs m)
  unfolding renovar
  renovar-HasToken compartido ahora rs m =
      let p = y_guardar compartido (refresh_access_token jwt_decode rs.a_refresh m) in
      if_cases HasToken (is_refresh_token_valid ahora m) _ _
        (λ _.
          if_cases HasToken p.exito _ _
            (λ _. guardar-HasToken compartido _ (refresh-HasToken rs.a_refresh m))
            (λ _. guardar-HasToken compartido _ (login-HasToken rs.a_login p.cache)))
        (λ _. guardar-HasToken compartido _ (login-HasToken rs.a_login m))

  con_lock-HasToken : (v : Vuelta) (m : Tokens) → HasToken (con_lock jwt_decode v m)
  con_lock-HasToken v m =
      let m' = load_from_redis v.tras_lock m in
      if_cases HasToken (is_access_token_valid v.ahora m') _ _ (valid-HasToken m' v.ahora)
        (λ _. renovar-HasToken true v.ahora v.respuestas m')

  -- The login answers with two tokens that can be decoded and expire.
  abbrev pub LoginWorks : Respuestas → Type 0
  LoginWorks rs =
      (a : String) × ((r : String) × ((ea : ℕ) × ((er : ℕ) × ((rs.a_login
                ≡ emision (some a) (some r))
              × ((jwt_decode a ≡ some (some ea)) × (jwt_decode r ≡ some (some er)))))))

  login-Succeeds :
      (rs : Respuestas) (m : Tokens)
      → LoginWorks rs
      → Succeeds (hacer_login jwt_decode rs.a_login m)
  unfolding hacer_login save_tokens_local
  login-Succeeds rs m (a, (r, (ea, (er, (answer, (da, dr)))))) = simp (answer, da, dr) refl

  guardar-Succeeds : (compartido : Bool) (p : Paso) → Succeeds p → Succeeds (y_guardar compartido p)
  guardar-Succeeds compartido p h = if_cases Succeeds _ _ _ (λ _. h) (λ _. h)

  renovar-Succeeds :
      (compartido : Bool) (ahora : ℕ) (rs : Respuestas) (m : Tokens)
      → LoginWorks rs
      → Succeeds (renovar jwt_decode compartido ahora rs m)
  unfolding renovar
  renovar-Succeeds compartido ahora rs m works =
      let p = y_guardar compartido (refresh_access_token jwt_decode rs.a_refresh m) in
      if_cases Succeeds (is_refresh_token_valid ahora m) _ _
        (λ _.
          if_cases Succeeds p.exito _ _ (λ y. y)
            (λ _. guardar-Succeeds compartido _ (login-Succeeds rs p.cache works)))
        (λ _. guardar-Succeeds compartido _ (login-Succeeds rs m works))

  con_lock-Succeeds :
      (v : Vuelta) (m : Tokens) → LoginWorks v.respuestas → Succeeds (con_lock jwt_decode v m)
  con_lock-Succeeds v m works =
      let m' = load_from_redis v.tras_lock m in
      if_cases Succeeds (is_access_token_valid v.ahora m') _ _ (λ _. refl)
        (λ _. renovar-Succeeds true v.ahora v.respuestas m' works)

  module _ (vueltas : ℕ → Vuelta) (inicio : ℕ) where
    pub unlocked-HasToken :
        (hay_redis : Bool) (l : Lectura) (rs : Respuestas) (ahora : ℕ) (m : Tokens)
        → AllOf HasToken (get_valid_token_unlocked jwt_decode vueltas inicio hay_redis l rs ahora m)
    unlocked-HasToken hay_redis l rs ahora m =
        unlocked_cases jwt_decode vueltas inicio (λ _. Unit) HasToken (λ m i k. tt)
          (λ m i k. renovar-HasToken false (vueltas i).ahora (vueltas i).respuestas m)
          (λ m i k. con_lock-HasToken (vueltas i) m) (λ m a v k. valid-HasToken m a v) hay_redis l
          rs ahora m tt tt (renovar-HasToken false ahora rs m)

    -- A recovery whose logins work ends and succeeds.
    pub recuperar_401_succeeds :
        ((i : ℕ) → inicio + 250 * i ≤ (vueltas i).ahora)
        → (t : String) (hay_redis : Bool) (l : Lectura) (rs : Respuestas) (ahora : ℕ) (m : Tokens)
        → LoginWorks rs
        → ((i : ℕ) → LoginWorks (vueltas i).respuestas)
        → (p : Paso) × (recuperar_401 jwt_decode vueltas inicio t true hay_redis l rs ahora m
            ≡ some p)
          × (p.exito ≡ true)
    unfolding recuperar_401
    recuperar_401_succeeds tiempo t hay_redis l rs ahora m works all_work =
        let l' = invalidar_si_coincide t l in
        let (p, e) =
          unlocked_ends jwt_decode vueltas inicio tiempo hay_redis l' rs ahora (olvidar t m) in
        (
          p,
          e,
          AllOf-some Succeeds _ p e (
              unlocked_cases jwt_decode vueltas inicio (λ _. Unit) Succeeds (λ m i k. tt)
                (λ m i k.
                  renovar-Succeeds false (vueltas i).ahora (vueltas i).respuestas m (all_work i))
                (λ m i k. con_lock-Succeeds (vueltas i) m (all_work i)) (λ m a v k. refl) hay_redis
                l' rs ahora (olvidar t m) tt tt
                (renovar-Succeeds false ahora rs (olvidar t m) works)),
        )
