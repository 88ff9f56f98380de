-- ===== src/Auth/Contacts.antt =====
-- How often a process asks the SFC for a token.
use ms_integracion_smartsupe.Prelude.{
  ℕ, ◌+◌, ◌≤◌, ◌≡◌, refl, ap, ◌∙◌, arith, String, Bool, true, false, ◌&&◌, Option, none, some, List,
  [], ◌∷◌, ◌++◌, if◌then◌else◌, if_cases,
}
use ms_integracion_smartsupe.Auth.{
  Tokens, is_access_token_valid, is_refresh_token_valid, Lectura, load_from_redis, Respuesta,
  rechazo, emision, Envio, login, refresh, guardado, contactos, Paso, con_expiraciones,
  decodificado, save_tokens_local, hacer_login, refresh_access_token, or_else, Respuestas,
  y_guardar, renovar, Vuelta, con_lock, get_valid_token_unlocked, recuperar_401, olvidar,
  invalidar_si_coincide,
}
use ms_integracion_smartsupe.Auth.Waiting.{AllOf, AllOf-some, unlocked_cases}

contactos-append : (xs ys : List Envio) → contactos (xs ++ ys) ≡ contactos xs + contactos ys
contactos-append [] ys = omega arith
contactos-append (login ∷ xs) ys = omega (arith, contactos-append xs ys)
contactos-append (refresh ∷ xs) ys = omega (arith, contactos-append xs ys)
contactos-append (guardado r ∷ xs) ys = contactos-append xs ys

module _ (jwt_decode : String → Option (Option ℕ)) where
  expiraciones-silent :
      (a r : Option (Option ℕ)) (m : Tokens) → (con_expiraciones jwt_decode a r m).envios ≡ []
  expiraciones-silent none r m = refl
  expiraciones-silent (some a) none m = refl
  expiraciones-silent (some none) (some r) m = refl
  expiraciones-silent (some (some a)) (some none) m = refl
  expiraciones-silent (some (some a)) (some (some r)) m = refl

  login-once : (r : Respuesta) (m : Tokens) → (hacer_login jwt_decode r m).envios ≡ login ∷ []
  unfolding hacer_login save_tokens_local
  login-once rechazo m = refl
  login-once (emision a r) m =
      ap (λ es. login ∷ es)
        (expiraciones-silent (decodificado jwt_decode a) (decodificado jwt_decode r)
          (record m { access_token = a; refresh_token = r }))

  refresh-once :
      (r : Respuesta) (m : Tokens) → (refresh_access_token jwt_decode r m).envios ≡ refresh ∷ []
  unfolding refresh_access_token save_tokens_local
  refresh-once rechazo m = refl
  refresh-once (emision a r) m =
      ap (λ es. refresh ∷ es)
        (expiraciones-silent (decodificado jwt_decode a)
          (decodificado jwt_decode (or_else r m.refresh_token))
          (record m { access_token = a; refresh_token = or_else r m.refresh_token }))

  guardar-contactos :
      (compartido : Bool) (p : Paso)
      → contactos (y_guardar compartido p).envios ≡ contactos p.envios
  guardar-contactos compartido p =
      if_cases (λ (q : Paso). contactos q.envios ≡ contactos p.envios) (compartido && p.exito) _ _
        (λ _. omega (arith, contactos-append p.envios (guardado p.cache ∷ []))) (λ _. refl)

  -- One refresh and one login at most.
  renovar-few :
      (compartido : Bool) (ahora : ℕ) (rs : Respuestas) (m : Tokens)
      → contactos (renovar jwt_decode compartido ahora rs m).envios ≤ 2
  unfolding renovar
  renovar-few compartido ahora rs m =
      let few = λ (q : Paso). contactos q.envios ≤ 2 in
      let first = refresh_access_token jwt_decode rs.a_refresh m in
      let p = y_guardar compartido first in
      let again = hacer_login jwt_decode rs.a_login p.cache in
      let whole = hacer_login jwt_decode rs.a_login m in
      let one : contactos p.envios ≡ 1 =
        guardar-contactos compartido first ∙ ap contactos (refresh-once rs.a_refresh m) in
      let two : contactos (y_guardar compartido again).envios ≡ 1 =
        guardar-contactos compartido again ∙ ap contactos (login-once rs.a_login p.cache) in
      let only : contactos (y_guardar compartido whole).envios ≡ 1 =
        guardar-contactos compartido whole ∙ ap contactos (login-once rs.a_login m) in
      if_cases few (is_refresh_token_valid ahora m) _ _
        (λ _.
          if_cases few p.exito _ _ (λ _. omega (arith, one))
            (λ _.
              omega
                (arith, one, two, contactos-append p.envios (y_guardar compartido again).envios)))
        (λ _. omega (arith, only))

  con_lock-few : (v : Vuelta) (m : Tokens) → contactos (con_lock jwt_decode v m).envios ≤ 2
  con_lock-few v m =
      if_cases (λ (q : Paso). contactos q.envios ≤ 2)
        (is_access_token_valid v.ahora (load_from_redis v.tras_lock m)) _ _ (λ _. omega arith)
        (λ _. renovar-few true v.ahora v.respuestas (load_from_redis v.tras_lock m))

  -- The recovery from a 401 asks the SFC at most twice, once for a refresh and once for a login,
  -- however long it waits for other instances and whatever they and Redis do.
  pub recuperar_401_few :
      (vueltas : ℕ → Vuelta) (inicio : ℕ) (t : String) (invalidado hay_redis : Bool) (l : Lectura)
      (rs : Respuestas) (ahora : ℕ) (m : Tokens) (p : Paso)
      → recuperar_401 jwt_decode vueltas inicio t invalidado hay_redis l rs ahora m ≡ some p
      → contactos p.envios ≤ 2
  unfolding recuperar_401
  recuperar_401_few vueltas inicio t invalidado hay_redis l rs ahora m p h =
      let Few = λ (q : Paso). contactos q.envios ≤ 2 in
      let l' = if invalidado then invalidar_si_coincide t l else l in
      let m' = olvidar t m in
      let all : AllOf Few
          (get_valid_token_unlocked jwt_decode vueltas inicio hay_redis l' rs ahora m') =
        unlocked_cases jwt_decode vueltas inicio (λ _. Unit {0}) Few (λ m i k. tt)
          (λ m i k. renovar-few false (vueltas i).ahora (vueltas i).respuestas m)
          (λ m i k. con_lock-few (vueltas i) m) (λ m a v k. omega arith) hay_redis l' rs ahora m' tt
          tt (renovar-few false ahora rs m') in
      AllOf-some Few _ p h all
