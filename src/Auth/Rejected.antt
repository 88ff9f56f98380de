-- ===== src/Auth/Rejected.antt =====
-- Where a token comes from: the recovery from a 401 never sends the rejected token again.
use ms_integracion_smartsupe.Prelude.{
  str_eq, ℕ, ◌+◌, ◌*◌, ◌≤◌, ◌≡◌, refl, String, Bool, true, false, Option, none, some, if_cases,
  Bool-cases, inl, inr,
}
use ms_integracion_smartsupe.Auth.{
  Tokens, is_access_token_valid, is_refresh_token_valid, Lectura, ilegible, vacio, registro,
  load_from_redis, Respuesta, rechazo, emision, Paso, con_access_exp, con_expiraciones,
  decodificado, save_tokens_local, hacer_login, refresh_access_token, Respuestas, y_guardar,
  renovar, Vuelta, con_lock, get_valid_token_unlocked, same_token, invalidar_si_coincide, olvidar,
  recuperar_401,
}
use ms_integracion_smartsupe.Auth.Waiting.{AllOf, AllOf-some, unlocked_cases}
use ms_integracion_smartsupe.Auth.Success.{
  HasToken, unlocked-HasToken, LoginWorks, recuperar_401_succeeds,
}

-- The SFC does not issue the token, and a reading does not show it.
abbrev pub NotIssued : String → Respuesta → Type 0
NotIssued t rechazo = Unit
NotIssued t (emision access refresh') = same_token access t ≡ false

abbrev pub NotRead : String → Lectura → Type 0
NotRead t (registro r) = same_token r.access_token t ≡ false
NotRead t _ = Unit

abbrev pub NeverIssued : String → Respuestas → Type 0
NeverIssued t rs = NotIssued t rs.a_refresh × NotIssued t rs.a_login

module _ (jwt_decode : String → Option (Option ℕ)) (t : String) where
  abbrev Other : Paso → Type 0
  Other p = same_token p.cache.access_token t ≡ false

  con_access_exp-Other :
      (a r : Option ℕ) (m : Tokens)
      → same_token m.access_token t ≡ false
      → Other (con_access_exp jwt_decode a r m)
  con_access_exp-Other none r m h = h
  con_access_exp-Other (some a) none m h = h
  con_access_exp-Other (some a) (some r) m h = h

  con_expiraciones-Other :
      (a r : Option (Option ℕ)) (m : Tokens)
      → same_token m.access_token t ≡ false
      → Other (con_expiraciones jwt_decode a r m)
  con_expiraciones-Other none r m h = h
  con_expiraciones-Other (some a) none m h = h
  con_expiraciones-Other (some a) (some r) m h = con_access_exp-Other a r m h

  save-Other :
      (access refresh' : Option String) (m : Tokens)
      → same_token access t ≡ false
      → Other (save_tokens_local jwt_decode access refresh' m)
  unfolding save_tokens_local
  save-Other access refresh' m h =
      con_expiraciones-Other (decodificado jwt_decode access) (decodificado jwt_decode refresh')
        (record m { access_token = access; refresh_token = refresh' }) h

  login-Other :
      (r : Respuesta) (m : Tokens)
      → NotIssued t r
      → same_token m.access_token t ≡ false
      → Other (hacer_login jwt_decode r m)
  unfolding hacer_login
  login-Other rechazo m n h = h
  login-Other (emision access refresh') m n h = save-Other access refresh' m n

  refresh-Other :
      (r : Respuesta) (m : Tokens)
      → NotIssued t r
      → same_token m.access_token t ≡ false
      → Other (refresh_access_token jwt_decode r m)
  unfolding refresh_access_token
  refresh-Other rechazo m n h = h
  refresh-Other (emision access refresh') m n h = save-Other access _ m n

  guardar-Other : (compartido : Bool) (p : Paso) → Other p → Other (y_guardar compartido p)
  guardar-Other compartido p h = if_cases Other _ _ _ (λ _. h) (λ _. h)

  renovar-Other :
      (compartido : Bool) (ahora : ℕ) (rs : Respuestas) (m : Tokens)
      → NeverIssued t rs
      → same_token m.access_token t ≡ false
      → Other (renovar jwt_decode compartido ahora rs m)
  unfolding renovar
  renovar-Other compartido ahora rs m (nr, nl) h =
      let p = y_guardar compartido (refresh_access_token jwt_decode rs.a_refresh m) in
      let first : Other p = guardar-Other compartido _ (refresh-Other rs.a_refresh m nr h) in
      if_cases Other (is_refresh_token_valid ahora m) _ _
        (λ _.
          if_cases Other p.exito _ _ (λ _. first)
            (λ _. guardar-Other compartido _ (login-Other rs.a_login p.cache nl first)))
        (λ _. guardar-Other compartido _ (login-Other rs.a_login m nl h))

  load-Other :
      (l : Lectura) (m : Tokens)
      → NotRead t l
      → same_token m.access_token t ≡ false
      → same_token (load_from_redis l m).access_token t ≡ false
  load-Other ilegible m n h = h
  load-Other vacio m n h = h
  load-Other (registro r) m n h = n

  con_lock-Other :
      (v : Vuelta) (m : Tokens)
      → NotRead t v.tras_lock
      → NeverIssued t v.respuestas
      → same_token m.access_token t ≡ false
      → Other (con_lock jwt_decode v m)
  con_lock-Other v m n i h =
      let h' = load-Other v.tras_lock m n h in
      if_cases Other (is_access_token_valid v.ahora (load_from_redis v.tras_lock m)) _ _ (λ _. h')
        (λ _. renovar-Other true v.ahora v.respuestas (load_from_redis v.tras_lock m) i h')

  invalidar-NotRead : (l : Lectura) → NotRead t (invalidar_si_coincide t l)
  invalidar-NotRead ilegible = tt
  invalidar-NotRead vacio = tt
  invalidar-NotRead (registro r) = elim (Bool-cases (same_token r.access_token t)) [
    | inl y ↦ simp y tt
    | inr n ↦ simp n refl
  ]

  olvidar-Other : (m : Tokens) → same_token (olvidar t m).access_token t ≡ false
  olvidar-Other m = elim (Bool-cases (same_token m.access_token t)) [
    | inl y ↦ simp y refl
    | inr n ↦ simp n refl
  ]

  module _ (vueltas : ℕ → Vuelta) (inicio : ℕ)
      (unread : (i : ℕ) → NotRead t (vueltas i).tras_lock × NotRead t (vueltas i).tras_espera)
      (unissued : (i : ℕ) → NeverIssued t (vueltas i).respuestas) where
    unlocked-Other :
        (hay_redis : Bool) (l : Lectura) (rs : Respuestas) (ahora : ℕ) (m : Tokens)
        → NotRead t l
        → NeverIssued t rs
        → same_token m.access_token t ≡ false
        → AllOf Other (get_valid_token_unlocked jwt_decode vueltas inicio hay_redis l rs ahora m)
    unlocked-Other hay_redis l rs ahora m nl ni h =
        unlocked_cases jwt_decode vueltas inicio (λ m. same_token m.access_token t ≡ false) Other
          (λ m i k. load-Other (vueltas i).tras_espera m (unread i).1 k)
          (λ m i k. renovar-Other false (vueltas i).ahora (vueltas i).respuestas m (unissued i) k)
          (λ m i k. con_lock-Other (vueltas i) m (unread i).0 (unissued i) k) (λ m a v k. k)
          hay_redis l rs ahora m h (load-Other l m nl h) (renovar-Other false ahora rs m ni h)

    -- A recovery from a 401 that succeeds has a token, which the retry sends, and it is not the one
    -- that the SFC rejected: if the script that invalidates it runs, and neither other instances
    -- write it again nor the SFC issues it again.
    pub recuperar_401_changes :
        (hay_redis : Bool) (l : Lectura) (rs : Respuestas) (ahora : ℕ) (m : Tokens) (p : Paso)
        → NeverIssued t rs
        → recuperar_401 jwt_decode vueltas inicio t true hay_redis l rs ahora m ≡ some p
        → p.exito ≡ true
        → (s : String) × (p.cache.access_token ≡ some s) × (str_eq s t ≡ false)
    unfolding recuperar_401
    recuperar_401_changes hay_redis l rs ahora m p ni e done =
        let other = AllOf-some Other _ p e (
          unlocked-Other hay_redis (invalidar_si_coincide t l) rs ahora (olvidar t m)
            (invalidar-NotRead l) ni (olvidar-Other m)) in
        let (s, k) =
          AllOf-some HasToken _ p e
            (unlocked-HasToken jwt_decode vueltas inicio hay_redis (invalidar_si_coincide t l) rs
              ahora (olvidar t m))
            done in
        (s, k, rw k at other)

    -- The recovery from a 401 ends and succeeds, with a token that is not the one that the SFC
    -- rejected: if the login answers with two tokens that can be decoded and expire, the turns of
    -- the wait take 250 ms at least, the script that invalidates the token runs, and neither other
    -- instances write it again nor the SFC issues it again.
    pub recuperar_401_recovers :
        (hay_redis : Bool) (l : Lectura) (rs : Respuestas) (ahora : ℕ) (m : Tokens)
        → ((i : ℕ) → inicio + 250 * i ≤ (vueltas i).ahora)
        → NeverIssued t rs
        → LoginWorks jwt_decode rs
        → ((i : ℕ) → LoginWorks jwt_decode (vueltas i).respuestas)
        → (p : Paso) × (recuperar_401 jwt_decode vueltas inicio t true hay_redis l rs ahora m
            ≡ some p)
          × (p.exito ≡ true)
          × ((s : String) × (p.cache.access_token ≡ some s) × (str_eq s t ≡ false))
    recuperar_401_recovers hay_redis l rs ahora m tiempo ni works all_work =
        let (p, e, done) =
          recuperar_401_succeeds jwt_decode vueltas inicio tiempo t hay_redis l rs ahora m works
            all_work in
        (p, e, done, recuperar_401_changes hay_redis l rs ahora m p ni e done)
