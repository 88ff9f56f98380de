-- ===== src/Alerts/Examples.antt =====
-- Alerts of one key, and instances of the theorems about the table.
use ms_integracion_smartsupe.Prelude.{◌≡◌, refl, arith, inl, inr, true, false, some, List, [], ◌∷◌}
use ms_integracion_smartsupe.Alerts.{
  Evento, aviso, fin, tras, aplicar, deberia_enviar, hacer_lugar, purgar_expiradas,
  liberar_si_fallo,
}
use ms_integracion_smartsupe.Alerts.Window.{deberia_enviar_once}

abbrev others : List Evento
others =
    aviso 2000 (some "cola") ∷ fin false "cola" ∷ aviso 3000 (some "redis") ∷ fin true "redis" ∷ []

-- A send that fails frees its key.
retried :
    (deberia_enviar 2000
      (some "redis")
      (tras (fin false "redis" ∷ []) (deberia_enviar 1000 (some "redis") []).1)).0
    ≡ true
unfolding deberia_enviar tras aplicar liberar_si_fallo hacer_lugar purgar_expiradas
retried = refl

deberia_enviar_once_example :
    (deberia_enviar 500000 (some "redis") (tras others (deberia_enviar 1000 (some "redis") []).1)).0
    ≡ false
unfolding deberia_enviar hacer_lugar purgar_expiradas
deberia_enviar_once_example =
    deberia_enviar_once 1000 500000 "redis" [] others refl
      (omega arith, (inl refl, (omega arith, (inr refl, tt)))) (omega arith) (omega arith)
