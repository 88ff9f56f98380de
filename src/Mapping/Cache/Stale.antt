-- ===== src/Mapping/Cache/Stale.antt =====
-- How old the catalogues are is measured from the last success, however many tries failed since.
use ms_integracion_smartsupe.Prelude.{
  ℕ, ◌+◌, ◌-◌, ◌<◌, ◌≡◌, ◌≢◌, ◌∙◌, ◌↔◌, refl, arith, true, false, ◌&&◌, Option, List, [], ◌∷◌, ltb,
  if_cases,
}
use ms_integracion_smartsupe.Mapping.Cache.{
  cache_ttl, max_stale_ttl, Estado, Hojas, error_de_red, sin_datos, nuevos, hay, fresca,
  alerta_stale, Llamada, con_hojas, obtener_catalogos, llamadas,
}

stale_iff :
    (ahora exito : ℕ)
    → exito ≢ 0
    → ((ltb 0 exito && ltb max_stale_ttl (ahora - exito)) ≡ true) ↔ (exito + max_stale_ttl < ahora)
stale_iff ahora exito h = ground (arith, h)

module _ {C : Type 0} where
  abbrev pub Fails : Hojas C → Type 0
  Fails (nuevos c) = ⊥
  Fails _ = Unit

  abbrev pub AllFail : List (ℕ × Hojas C) → Type 0
  AllFail [] = Unit
  AllFail ((ahora, h) ∷ hs) = Fails h × AllFail hs

  failure-ultimo_exito :
      (ahora : ℕ) (respaldo : Option C) (h : Hojas C) (e : Estado C)
      → Fails h
      → (obtener_catalogos ahora true respaldo h e).estado.ultimo_exito ≡ e.ultimo_exito
  unfolding obtener_catalogos
  failure-ultimo_exito ahora respaldo (nuevos c) e f = absurd f
  failure-ultimo_exito ahora respaldo sin_datos e f =
      if_cases (λ (l : Llamada C). l.estado.ultimo_exito ≡ e.ultimo_exito) (fresca ahora e) _ _
        (λ _. refl) (λ _. refl)
  failure-ultimo_exito ahora respaldo error_de_red e f =
      if_cases (λ (l : Llamada C). l.estado.ultimo_exito ≡ e.ultimo_exito) (fresca ahora e) _ _
        (λ _. refl) (λ _. refl)

  failures-ultimo_exito :
      (respaldo : Option C) (hs : List (ℕ × Hojas C)) (e : Estado C)
      → AllFail hs
      → (llamadas respaldo hs e).ultimo_exito ≡ e.ultimo_exito
  unfolding llamadas
  failures-ultimo_exito respaldo [] e f = refl
  failures-ultimo_exito respaldo ((ahora, h) ∷ hs) e (f, fs) =
      failures-ultimo_exito respaldo hs (obtener_catalogos ahora true respaldo h e).estado fs
      ∙ failure-ultimo_exito ahora respaldo h e f

  -- After a success and any failed tries, a try that is made and fails by an exception calls the
  -- notifier exactly when the success is more than 24 hours past: the failed tries between do not
  -- make the catalogues younger. Whether the notifier then sends is not spoken of.
  pub alerta_iff :
      (ahora exito : ℕ) (respaldo : Option C) (c : C) (e0 : Estado C) (hs : List (ℕ × Hojas C))
      → exito ≢ 0
      → AllFail hs
      → fresca ahora (llamadas respaldo hs (con_hojas exito respaldo (nuevos c) e0).estado) ≡ false
      → ((obtener_catalogos ahora true respaldo error_de_red
            (llamadas respaldo hs (con_hojas exito respaldo (nuevos c) e0).estado)).alerta
          ≡ true)
        ↔ (exito + max_stale_ttl < ahora)
  unfolding obtener_catalogos alerta_stale
  alerta_iff ahora exito respaldo c e0 hs some_time fails old =
      let e = llamadas respaldo hs (con_hojas exito respaldo (nuevos c) e0).estado in
      let since : e.ultimo_exito ≡ exito =
        failures-ultimo_exito respaldo hs (con_hojas exito respaldo (nuevos c) e0).estado fails in
      simp (old, since) (stale_iff ahora exito some_time)

  hojas-ultima :
      (ahora : ℕ) (respaldo : Option C) (h : Hojas C) (e : Estado C)
      → (con_hojas ahora respaldo h e).estado.ultima_actualizacion ≡ ahora
  hojas-ultima ahora respaldo (nuevos c) e = refl
  hojas-ultima ahora respaldo sin_datos e = refl
  hojas-ultima ahora respaldo error_de_red e = refl

  consulta-ultima :
      (ahora : ℕ) (respaldo : Option C) (h : Hojas C) (e : Estado C)
      → (obtener_catalogos ahora true respaldo h e).consulta ≡ true
      → (obtener_catalogos ahora true respaldo h e).estado.ultima_actualizacion ≡ ahora
  unfolding obtener_catalogos
  consulta-ultima ahora respaldo h e =
      if_cases (λ (l : Llamada C). l.consulta ≡ true → l.estado.ultima_actualizacion ≡ ahora)
        (fresca ahora e) _ _ (λ _ asked. cc) (λ _ asked. hojas-ultima ahora respaldo h e)

  fresca-silent :
      (ahora : ℕ) (respaldo : Option C) (h : Hojas C) (e : Estado C)
      → fresca ahora e ≡ true
      → (obtener_catalogos ahora true respaldo h e).consulta ≡ false
  unfolding obtener_catalogos
  fresca-silent ahora respaldo h e fresh = simp fresh refl

  fresh_again :
      (ahora luego : ℕ) (e : Estado C)
      → ahora ≢ 0
      → hay e.catalogos ≡ true
      → luego < ahora + cache_ttl
      → e.ultima_actualizacion ≡ ahora
      → fresca luego e ≡ true
  fresh_again ahora luego e nz there soon tried =
      simp there (window ahora luego e.ultima_actualizacion nz soon tried)
    where
      window :
          (ahora luego u : ℕ)
          → ahora ≢ 0
          → luego < ahora + cache_ttl
          → u ≡ ahora
          → (ltb 0 u && ltb (luego - u) cache_ttl) ≡ true
      window ahora luego u nz soon tried = ground (arith, nz, soon, tried)

  -- A call that asked Google Sheets and left catalogues is not followed by another question within
  -- ten minutes, whether it succeeded or failed.
  pub consulta_backoff :
      (ahora luego : ℕ) (respaldo : Option C) (h h' : Hojas C) (e : Estado C)
      → ahora ≢ 0
      → (obtener_catalogos ahora true respaldo h e).consulta ≡ true
      → hay (obtener_catalogos ahora true respaldo h e).estado.catalogos ≡ true
      → luego < ahora + cache_ttl
      → (obtener_catalogos luego true respaldo h'
          (obtener_catalogos ahora true respaldo h e).estado).consulta
        ≡ false
  consulta_backoff ahora luego respaldo h h' e nz asked there soon =
      let e' = (obtener_catalogos ahora true respaldo h e).estado in
      let tried : e'.ultima_actualizacion ≡ ahora = consulta-ultima ahora respaldo h e asked in
      fresca-silent luego respaldo h' e' (fresh_again ahora luego e' nz there soon tried)
