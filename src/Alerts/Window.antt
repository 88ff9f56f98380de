-- ===== src/Alerts/Window.antt =====
-- An alert that was sent is not sent again within its window.
use ms_integracion_smartsupe.Prelude.{
  ℕ, ◌+◌, ◌-◌, ◌≤◌, ◌<◌, ◌≡◌, refl, subst, ◌∙◌, ◌⊎◌, arith, String, Bool, true, false, Option, none,
  some, List, [], ◌∷◌, length, ltb, str_eq, eq_iff, if_cases, Bool-cases, inl, inr,
}
use ms_integracion_smartsupe.Alerts.{
  Tabla, ventana, max_entradas, lookup, poner, quitar, lleno, hacer_lugar, reciente, deberia_enviar,
  liberar_si_fallo, Evento, aviso, fin, aplicar, tras,
}
use ms_integracion_smartsupe.Alerts.Bounded.{length-poner-le, length-quitar-le}

lookup-poner_self : (k : String) (ts : ℕ) (t : Tabla) → lookup k (poner k ts t) ≡ some ts
lookup-poner_self k ts [] = simp ((eq_iff k k).1 refl) refl
lookup-poner_self k ts ((j, us) ∷ t) = elim (Bool-cases (str_eq k j)) [
  | inl y ↦ simp y refl
  | inr n ↦ simp n (lookup-poner_self k ts t)
]

lookup-poner_other :
    (k j : String) (ts : ℕ) (t : Tabla) → str_eq k j ≡ false → lookup k (poner j ts t) ≡ lookup k t
lookup-poner_other k j ts [] h = simp h refl
lookup-poner_other k j ts ((i, us) ∷ t) h = elim (Bool-cases (str_eq j i)) [
  | inl y ↦
      let e = (eq_iff j i).0 y in
      let h' : str_eq k i ≡ false = subst (λ x. str_eq k x ≡ false) e h in simp (y, h') refl
  | inr n ↦ elim (Bool-cases (str_eq k i)) [
    | inl y ↦ simp (n, y) refl
    | inr m ↦ simp (n, m) (lookup-poner_other k j ts t h)
  ]
]

lookup-quitar_other :
    (k j : String) (t : Tabla) → str_eq k j ≡ false → lookup k (quitar j t) ≡ lookup k t
lookup-quitar_other k j [] h = refl
lookup-quitar_other k j ((i, us) ∷ t) h = elim (Bool-cases (str_eq j i)) [
  | inl y ↦
      let e = (eq_iff j i).0 y in
      let h' : str_eq k i ≡ false = subst (λ x. str_eq k x ≡ false) e h in simp (y, h') refl
  | inr n ↦ elim (Bool-cases (str_eq k i)) [
    | inl y ↦ simp (n, y) refl
    | inr m ↦ simp (n, m) (lookup-quitar_other k j t h)
  ]
]

-- What happens after a send of the key: alerts at later times, and ends of sends, of which none of
-- the key is a failure.
abbrev pub After : ℕ → String → List Evento → Type 0
After ahora k [] = Unit
After ahora k (aviso luego j ∷ es) = (ahora ≤ luego) × After ahora k es
After ahora k (fin exito j ∷ es) = ((str_eq k j ≡ false) ⊎ (exito ≡ true)) × After ahora k es

-- The key was sent at this time or later.
abbrev SentSince : ℕ → String → Tabla → Type 0
SentSince ahora k t = (ts : ℕ) × (lookup k t ≡ some ts) × (ahora ≤ ts)

no_room_needed : (ahora : ℕ) (t : Tabla) → length t < max_entradas → hacer_lugar ahora t ≡ t
unfolding hacer_lugar
no_room_needed ahora t h = let open' : lleno t ≡ false = ground arith in simp open' refl

poner-SentSince :
    (ahora luego : ℕ) (k j : String) (t : Tabla)
    → ahora ≤ luego
    → SentSince ahora k t
    → SentSince ahora k (poner j luego t)
poner-SentSince ahora luego k j t le (ts, e, h) = elim (Bool-cases (str_eq k j)) [
  | inl y ↦ (
    luego,
    subst (λ x. lookup k (poner x luego t) ≡ some luego) ((eq_iff k j).0 y)
        (lookup-poner_self k luego t),
    le,
  )
  | inr n ↦ (ts, lookup-poner_other k j luego t n ∙ e, h)
]

aviso-SentSince :
    (ahora luego : ℕ) (k : String) (j : Option String) (t : Tabla)
    → ahora ≤ luego
    → length t < max_entradas
    → SentSince ahora k t
    → SentSince ahora k (deberia_enviar luego j t).1
      × (length (deberia_enviar luego j t).1 ≤ length t + 1)
unfolding deberia_enviar
aviso-SentSince ahora luego k none t le room sent = (sent, omega arith)
aviso-SentSince ahora luego k (some j) t le room sent =
    if_cases (λ (r : Bool × Tabla). SentSince ahora k r.1 × (length r.1 ≤ length t + 1))
      (reciente luego (lookup j t)) _ _ (λ _. (sent, omega arith))
      (λ _.
        rw (no_room_needed luego t room)
          (poner-SentSince ahora luego k j t le sent, length-poner-le j luego t))

fin-SentSince :
    (ahora : ℕ) (exito : Bool) (k j : String) (t : Tabla)
    → (str_eq k j ≡ false) ⊎ (exito ≡ true)
    → SentSince ahora k t
    → SentSince ahora k (liberar_si_fallo exito j t)
unfolding liberar_si_fallo
fin-SentSince ahora exito k j t (inr done) sent = simp done sent
fin-SentSince ahora exito k j t (inl h) (ts, e, le) =
    if_cases (SentSince ahora k) exito _ _ (λ _. (ts, e, le))
      (λ _. (ts, lookup-quitar_other k j t h ∙ e, le))

length-liberar-le :
    (exito : Bool) (j : String) (t : Tabla) → length (liberar_si_fallo exito j t) ≤ length t
unfolding liberar_si_fallo
length-liberar-le exito j t =
    if_cases (λ (r : Tabla). length r ≤ length t) exito _ _ (λ _. omega arith)
      (λ _. length-quitar-le j t)

tras-SentSince :
    (ahora : ℕ) (k : String) (es : List Evento) (t : Tabla)
    → After ahora k es
    → length t + length es ≤ max_entradas
    → SentSince ahora k t
    → SentSince ahora k (tras es t)
unfolding tras aplicar
tras-SentSince ahora k [] t a room sent = sent
tras-SentSince ahora k (aviso luego j ∷ es) t (le, a) room sent =
    let (sent', small) = aviso-SentSince ahora luego k j t le (omega arith) sent in
    tras-SentSince ahora k es (deberia_enviar luego j t).1 a (omega (arith, small)) sent'
tras-SentSince ahora k (fin exito j ∷ es) t (h, a) room sent =
    tras-SentSince ahora k es (liberar_si_fallo exito j t) a
      (omega (arith, length-liberar-le exito j t)) (fin-SentSince ahora exito k j t h sent)

sent-SentSince :
    (ahora : ℕ) (k : String) (t : Tabla)
    → (deberia_enviar ahora (some k) t).0 ≡ true
    → SentSince ahora k (deberia_enviar ahora (some k) t).1
unfolding deberia_enviar
sent-SentSince ahora k t h = elim (Bool-cases (reciente ahora (lookup k t))) [
  | inl y ↦ (let bad : Path Bool false true = simp y at h in cc)
  | inr n ↦ simp n (ahora, lookup-poner_self k ahora (hacer_lugar ahora t), omega arith)
]

SentSince-refused :
    (ahora luego : ℕ) (k : String) (t : Tabla)
    → SentSince ahora k t
    → luego < ahora + ventana
    → (deberia_enviar luego (some k) t).0 ≡ false
unfolding deberia_enviar
SentSince-refused ahora luego k t (ts, e, le) soon =
    let still : ltb (luego - ts) ventana ≡ true = ground arith in simp (e, still) refl

-- After an alert with a key is sent, no other with that key is sent within fifteen minutes,
-- whatever alerts and ends of sends come between at later times, if no send of the key fails and
-- the table and the events between are 500 at most.
pub deberia_enviar_once :
    (ahora luego : ℕ) (k : String) (t : Tabla) (es : List Evento)
    → (deberia_enviar ahora (some k) t).0 ≡ true
    → After ahora k es
    → length (deberia_enviar ahora (some k) t).1 + length es ≤ 500
    → luego < ahora + ventana
    → (deberia_enviar luego (some k) (tras es (deberia_enviar ahora (some k) t).1)).0 ≡ false
deberia_enviar_once ahora luego k t es sent a room soon =
    SentSince-refused ahora luego k (tras es (deberia_enviar ahora (some k) t).1)
      (tras-SentSince ahora k es (deberia_enviar ahora (some k) t).1 a room
        (sent-SentSince ahora k t sent))
      soon
