-- ===== src/Alerts/Bounded.antt =====
-- The table of sends never grows past its bound.
use ms_integracion_smartsupe.Prelude.{
  ℕ, suc, ◌+◌, ◌-◌, ◌≤◌, ◌<◌, ◌≡◌, refl, arith, String, Bool, true, false, none, some, List, [],
  ◌∷◌, length, ltb, leb, str_eq, eq_iff, if◌then◌else◌, if_cases, Bool-cases, inl, inr,
}
use ms_integracion_smartsupe.Alerts.{
  Tabla, ventana, max_entradas, lookup, poner, quitar, purgar_expiradas, mas_vieja,
  quitar_mas_vieja, lleno, hacer_lugar, reciente, deberia_enviar, liberar_si_fallo, Evento, aviso,
  fin, aplicar, tras,
}

pub length-poner-le : (k : String) (ts : ℕ) (t : Tabla) → length (poner k ts t) ≤ length t + 1
length-poner-le k ts [] = omega arith
length-poner-le k ts ((j, us) ∷ t) =
    if_cases (λ (r : Tabla). length r ≤ suc (length t) + 1) (str_eq k j) _ _ (λ _. omega arith)
      (λ _. omega (arith, length-poner-le k ts t))

pub length-quitar-le : (k : String) (t : Tabla) → length (quitar k t) ≤ length t
length-quitar-le k [] = omega arith
length-quitar-le k ((j, us) ∷ t) =
    if_cases (λ (r : Tabla). length r ≤ suc (length t)) (str_eq k j) _ _ (λ _. omega arith)
      (λ _. omega (arith, length-quitar-le k t))

length-purgar-le : (ahora : ℕ) (t : Tabla) → length (purgar_expiradas ahora t) ≤ length t
unfolding purgar_expiradas
length-purgar-le ahora [] = omega arith
length-purgar-le ahora ((j, ts) ∷ t) =
    if_cases (λ (r : Tabla). length r ≤ suc (length t)) (leb ventana (ahora - ts)) _ _
      (λ _. omega (arith, length-purgar-le ahora t)) (λ _. omega (arith, length-purgar-le ahora t))

-- A key of the table.
abbrev has : String → Tabla → Bool
has k [] = false
has k ((j, ts) ∷ t) = if str_eq k j then true else has k t

length-quitar-lt : (k : String) (t : Tabla) → has k t ≡ true → length (quitar k t) < length t
length-quitar-lt k [] h = cc
length-quitar-lt k ((j, us) ∷ t) h = elim (Bool-cases (str_eq k j)) [
  | inl y ↦ simp y (omega arith)
  | inr n ↦ simp n (omega (arith, length-quitar-lt k t (simp n at h)))
]

-- The least of the entries is among them.
has-mas_vieja :
    (k : String) (ts : ℕ) (t : Tabla) (whole : Tabla)
    → has k whole ≡ true
    → ((j : String) → has j t ≡ true → has j whole ≡ true)
    → has (mas_vieja k ts t) whole ≡ true
has-mas_vieja k ts [] whole h all = h
has-mas_vieja k ts ((j, us) ∷ t) whole h all =
    has-mas_vieja (if ltb us ts then j else k) (if ltb us ts then us else ts) t whole
      (if_cases (λ (x : String). has x whole ≡ true) (ltb us ts) _ _
        (λ _. all j (simp ((eq_iff j j).1 refl) refl)) (λ _. h))
      (λ i hi. all i (if_cases (λ (b : Bool). b ≡ true) (str_eq i j) _ _ (λ _. refl) (λ _. hi)))

length-quitar_mas_vieja :
    (t : Tabla) → max_entradas ≤ length t → length (quitar_mas_vieja t) < length t
unfolding quitar_mas_vieja
length-quitar_mas_vieja [] h = absurd (omega arith)
length-quitar_mas_vieja ((k, ts) ∷ t) h = length-quitar-lt (mas_vieja k ts t) ((k, ts) ∷ t) (
    has-mas_vieja k ts t ((k, ts) ∷ t) (simp ((eq_iff k k).1 refl) refl)
      (λ i hi. if_cases (λ (b : Bool). b ≡ true) (str_eq i k) _ _ (λ _. refl) (λ _. hi)))

length-hacer_lugar :
    (ahora : ℕ) (t : Tabla) → length t ≤ max_entradas → length (hacer_lugar ahora t) < max_entradas
unfolding hacer_lugar
length-hacer_lugar ahora t h =
    let t' = purgar_expiradas ahora t in
    let le = length-purgar-le ahora t in
    if_cases (λ (r : Tabla). length r < max_entradas) (lleno t) _ _
      (λ _.
        if_cases (λ (r : Tabla). length r < max_entradas) (lleno t') _ _
          (λ full. omega (arith, le, length-quitar_mas_vieja t' (ground arith)))
          (λ room. ground (arith, room)))
      (λ room. ground (arith, room))

aplicar-bounded :
    (e : Evento) (t : Tabla) → length t ≤ max_entradas → length (aplicar e t) ≤ max_entradas
unfolding aplicar deberia_enviar liberar_si_fallo
aplicar-bounded (aviso ahora none) t h = h
aplicar-bounded (aviso ahora (some k)) t h =
    if_cases (λ (r : Bool × Tabla). length r.1 ≤ max_entradas) (reciente ahora (lookup k t)) _ _
      (λ _. h)
      (λ _.
        omega (arith, length-hacer_lugar ahora t h, length-poner-le k ahora (hacer_lugar ahora t)))
aplicar-bounded (fin exito k) t h =
    if_cases (λ (r : Tabla). length r ≤ max_entradas) exito _ _ (λ _. h)
      (λ _. omega (arith, length-quitar-le k t))

-- Whatever alerts arrive with whatever keys, and however their sends end, the table has 500
-- entries at most.
pub tras-bounded : (es : List Evento) (t : Tabla) → length t ≤ 500 → length (tras es t) ≤ 500
unfolding tras
tras-bounded [] t h = h
tras-bounded (e ∷ es) t h = tras-bounded es (aplicar e t) (aplicar-bounded e t h)
