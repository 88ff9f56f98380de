-- ===== src/Auth/Examples.antt =====
-- Runs of the renewal of the token, and instances of the theorems about it.
use ms_integracion_smartsupe.Prelude.{
  ℕ, ◌*◌, ◌+◌, ◌≡◌, refl, arith, String, Bool, true, false, Option, none, some, str_eq,
  if◌then◌else◌,
}
use ms_integracion_smartsupe.Auth.{
  Tokens, Lectura, vacio, registro, rechazo, emision, Paso, Respuestas, Vuelta, sin_pasos,
  is_access_token_valid, is_refresh_token_valid, renovar, hacer_login, save_tokens_local,
  renovar_coordinado, get_valid_token_unlocked, recuperar_401, get_valid_token,
}
use ms_integracion_smartsupe.Auth.Success.{LoginWorks}
use ms_integracion_smartsupe.Auth.Rejected.{recuperar_401_changes, recuperar_401_recovers}
use ms_integracion_smartsupe.Auth.Malformed.{holding, malformed_is_served}

-- A token that cannot be decoded, and others that expire at a time.
abbrev decode : String → Option (Option ℕ)
decode t = if str_eq t "garbage" then none else some (some 2000000)

abbrev answers : String → Respuestas
answers t = record { a_refresh = rechazo; a_login = emision (some t) (some "refresh") }

abbrev locked : String → ℕ → Vuelta
locked t i = record {
  conectado = true;
  adquirido = true;
  tras_lock = vacio;
  ahora = 1000 + 250 * i;
  respuestas = answers t;
  tras_espera = vacio;
  luego = 1000 + 250 * i;
}

abbrev cached : Tokens
cached = holding (some "old") none 500000 none

-- The token that a login issues is returned and shared.
renewed :
    (p : Paso) × (recuperar_401 decode
        (locked "new")
        1000
        "old"
        true
        true
        (registro cached)
        (answers "new")
        1000
        cached
      ≡ some p)
    × (p.cache.access_token ≡ some "new")
unfolding recuperar_401 get_valid_token_unlocked renovar_coordinado renovar hacer_login
    save_tokens_local is_access_token_valid is_refresh_token_valid
renewed = (renovar decode true 1000 (answers "new") (holding none none 500000 none), refl, refl)

abbrev new_works : LoginWorks decode (answers "new")
new_works = ("new", ("refresh", (2000000, (2000000, (refl, (refl, refl))))))

recuperar_401_recovers_example :
    (p : Paso) × (recuperar_401 decode
        (locked "new")
        1000
        "old"
        true
        true
        (registro cached)
        (answers "new")
        1000
        cached
      ≡ some p)
    × (p.exito ≡ true)
    × ((s : String) × (p.cache.access_token ≡ some s) × (str_eq s "old" ≡ false))
recuperar_401_recovers_example =
    recuperar_401_recovers decode "old" (locked "new") 1000 (λ i. (tt, tt)) (λ i. (tt, refl)) true
      (registro cached) (answers "new") 1000 cached (λ i. omega arith) (tt, refl) new_works
      (λ i. new_works)

recuperar_401_changes_example :
    (s : String) × ((renovar decode true 1000
        (answers "new")
        (holding none none 500000 none)).cache.access_token
      ≡ some s)
    × (str_eq s "old" ≡ false)
unfolding recuperar_401 get_valid_token_unlocked renovar_coordinado renovar hacer_login
    save_tokens_local is_access_token_valid is_refresh_token_valid
recuperar_401_changes_example =
    recuperar_401_changes decode "old" (locked "new") 1000 (λ i. (tt, tt)) (λ i. (tt, refl)) true
      (registro cached) (answers "new") 1000 cached
      (renovar decode true 1000 (answers "new") (holding none none 500000 none)) (tt, refl) refl
      refl

malformed_is_served_example :
    (p : Paso) × (recuperar_401 decode
        (locked "garbage")
        1000
        "old"
        true
        true
        (registro cached)
        (answers "garbage")
        1000
        cached
      ≡ some p)
    × (p.exito ≡ false)
    × (p.cache.access_token ≡ some "garbage")
    × ((hay_redis : Bool) (l' : Lectura) (rs' : Respuestas) (luego' : ℕ)
        → get_valid_token decode (locked "garbage") 1000 hay_redis l' rs' 400000 luego' p.cache
          ≡ some (sin_pasos p.cache))
malformed_is_served_example =
    malformed_is_served decode (locked "garbage") 1000 "old" "garbage" (some "refresh") none 500000
      none (answers "garbage") 1000 400000 (omega arith) refl refl refl refl refl refl
