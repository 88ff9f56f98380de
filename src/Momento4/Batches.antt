-- ===== src/Momento4/Batches.antt =====
-- The acknowledgement reaches every id once, in batches of at most a hundred.
use ms_integracion_smartsupe.Prelude.{
  ℕ, zero, suc, ◌+◌, ◌≤◌, ◌≡◌, ◌∙◌, sym, ap, refl, true, false, Option, none, some, List, [], ◌∷◌,
  ◌++◌, map, length, Bool-cases, inl, inr, arith, if◌then◌else◌,
}
use ms_integracion_smartsupe.Text.{strip, same_text}
use ms_integracion_smartsupe.Text.Strip.{strip_idem, same_text-eq}
use ms_integracion_smartsupe.Momento4.{
  ItemId, member, is_nil, limpios, sin_repetir, ids_unicos, tamano_lote, take_n, drop_n, cortar,
  lotes, repartir, con_lote, Ack, enviar_lotes, confirmar_recepcion,
}

abbrev pub joined : List (List ItemId) → List ItemId
joined [] = []
joined (l ∷ ls) = l ++ joined ls

take_n-drop_n : (n : ℕ) (xs : List ItemId) → take_n n xs ++ drop_n n xs ≡ xs
take_n-drop_n zero xs = refl
take_n-drop_n (suc n) [] = refl
take_n-drop_n (suc n) (x ∷ xs) = ap (λ ys. x ∷ ys) (take_n-drop_n n xs)

length-drop_n : (n : ℕ) (xs : List ItemId) → length (drop_n n xs) ≤ length xs
length-drop_n zero xs = omega arith
length-drop_n (suc n) [] = omega arith
length-drop_n (suc n) (x ∷ xs) =
    let shorter : length (drop_n n xs) ≤ length xs = length-drop_n n xs in omega (arith, shorter)

length-take_n : (n : ℕ) (xs : List ItemId) → length (take_n n xs) ≤ n
length-take_n zero xs = omega arith
length-take_n (suc n) [] = omega arith
length-take_n (suc n) (x ∷ xs) =
    let shorter : length (take_n n xs) ≤ n = length-take_n n xs in omega (arith, shorter)

joined-cortar : (n : ℕ) (xs : List ItemId) → length xs ≤ n → joined (cortar n xs) ≡ xs
unfolding cortar
joined-cortar zero [] h = refl
joined-cortar zero (x ∷ xs) h = ground (arith, h)
joined-cortar (suc n) [] h = refl
joined-cortar (suc n) (x ∷ xs) h =
    let shorter : length (drop_n tamano_lote (x ∷ xs)) ≤ length xs = length-drop_n 99 xs in
    ap (λ ys. take_n tamano_lote (x ∷ xs) ++ ys)
      (joined-cortar n (drop_n tamano_lote (x ∷ xs)) (omega (arith, shorter, h)))
    ∙ take_n-drop_n tamano_lote (x ∷ xs)

-- The batches, one after the other, are the ids: none is lost or sent out of order.
pub joined-lotes : (xs : List ItemId) → joined (lotes xs) ≡ xs
joined-lotes xs = joined-cortar (length xs) xs (omega arith)

abbrev pub AllSmall : List (List ItemId) → Type 0
AllSmall [] = Unit
AllSmall (l ∷ ls) = (length l ≤ tamano_lote) × AllSmall ls

cortar-AllSmall : (n : ℕ) (xs : List ItemId) → AllSmall (cortar n xs)
unfolding cortar
cortar-AllSmall zero xs = tt
cortar-AllSmall (suc n) [] = tt
cortar-AllSmall (suc n) (x ∷ xs) =
    (length-take_n tamano_lote (x ∷ xs), cortar-AllSmall n (drop_n tamano_lote (x ∷ xs)))

-- How often an id stands in a list.
abbrev pub times : ItemId → List ItemId → ℕ
times t [] = 0
times t (x ∷ xs) = (if same_text t x then 1 else 0) + times t xs

times-append : (t : ItemId) (xs ys : List ItemId) → times t (xs ++ ys) ≡ times t xs + times t ys
times-append t [] ys = omega arith
times-append t (x ∷ xs) ys =
    let rest : times t (xs ++ ys) ≡ times t xs + times t ys = times-append t xs ys in
    omega (arith, rest)

-- In both lists together.
abbrev pub in_both : ItemId → List ItemId × List ItemId → ℕ
in_both t (xs, ys) = times t xs + times t ys

repartir-times :
    (t : ItemId) (errores lote : List ItemId) (acc : List ItemId × List ItemId)
    → in_both t (repartir errores lote acc) ≡ in_both t acc + times t (map strip lote)
unfolding repartir
repartir-times t errores [] (xs, ys) = omega arith
repartir-times t errores (u ∷ us) (xs, ys) = elim (Bool-cases (member (strip u) errores)) [
  | inl y ↦
      let rest = repartir-times t errores us (xs, ys ++ (strip u ∷ [])) in
      let more = times-append t ys (strip u ∷ []) in simp y (omega (arith, rest, more))
  | inr n ↦
      let rest = repartir-times t errores us (xs ++ (strip u ∷ []), ys) in
      let more = times-append t xs (strip u ∷ []) in simp n (omega (arith, rest, more))
]

con_lote-times :
    (t : ItemId) (r : Option (List ItemId)) (lote : List ItemId) (acc : List ItemId × List ItemId)
    → in_both t (con_lote r lote acc) ≡ in_both t acc + times t (map strip lote)
con_lote-times t none lote (xs, ys) =
    let more = times-append t ys (map strip lote) in omega (arith, more)
con_lote-times t (some errores) lote (xs, ys) = repartir-times t (map strip errores) lote (xs, ys)

map-append : (f : ItemId → ItemId) (xs ys : List ItemId) → map f (xs ++ ys) ≡ map f xs ++ map f ys
map-append f [] ys = refl
map-append f (x ∷ xs) ys = ap (λ zs. f x ∷ zs) (map-append f xs ys)

enviar_lotes-times :
    (enviar : ℕ → List ItemId → Option (List ItemId)) (t : ItemId) (i : ℕ) (ls : List (List ItemId))
    (acc : List ItemId × List ItemId)
    → in_both t (enviar_lotes enviar i ls acc) ≡ in_both t acc + times t (map strip (joined ls))
unfolding enviar_lotes
enviar_lotes-times enviar t i [] acc = omega arith
enviar_lotes-times enviar t i (l ∷ ls) acc =
    let rest = enviar_lotes-times enviar t (i + 1) ls (con_lote (enviar i l) l acc) in
    let here = con_lote-times t (enviar i l) l acc in
    let parts =
      ap (times t) (map-append strip l (joined ls))
      ∙ times-append t (map strip l) (map strip (joined ls)) in
    omega (arith, rest, here, parts)

member-swap : (t x : ItemId) (ys : List ItemId) → same_text t x ≡ true → member x ys ≡ member t ys
member-swap t x ys h = rw (same_text-eq t x h) refl

times-sin_repetir :
    (t : ItemId) (xs vistos : List ItemId)
    → times t (sin_repetir vistos xs)
      ≡ (if member t vistos then 0 else if member t xs then 1 else 0)
unfolding sin_repetir
times-sin_repetir t [] vistos = elim (Bool-cases (member t vistos)) [
  | inl y ↦ simp y refl
  | inr n ↦ simp n refl
]
times-sin_repetir t (x ∷ xs) vistos = elim (Bool-cases (same_text t x)) [
  | inl e ↦ elim (Bool-cases (member x vistos)) [
    | inl b ↦
        let seen : member t vistos ≡ true = sym (member-swap t x vistos e) ∙ b in
        simp (b, seen) (times-sin_repetir t xs vistos ∙ simp seen refl)
    | inr b ↦
        let fresh : member t vistos ≡ false = sym (member-swap t x vistos e) ∙ b in
        let rest : times t (sin_repetir (x ∷ vistos) xs) ≡ 0 =
          times-sin_repetir t xs (x ∷ vistos) ∙ simp e refl in
        simp (b, fresh, e) (omega (arith, rest))
  ]
  | inr e ↦ elim (Bool-cases (member x vistos)) [
    | inl b ↦ simp (b, e) (times-sin_repetir t xs vistos)
    | inr b ↦
        let rest : times t (sin_repetir (x ∷ vistos) xs)
            ≡ (if member t vistos then 0 else if member t xs then 1 else 0) =
          times-sin_repetir t xs (x ∷ vistos) ∙ simp e refl in
        simp (b, e) (omega (arith, rest))
  ]
]

abbrev AllStripped : List ItemId → Type 0
AllStripped [] = Unit
AllStripped (x ∷ xs) = (strip x ≡ x) × AllStripped xs

limpios-AllStripped : (xs : List ItemId) → AllStripped (limpios xs)
unfolding limpios
limpios-AllStripped [] = tt
limpios-AllStripped (x ∷ xs) = elim (Bool-cases (is_nil (strip x))) [
  | inl y ↦ simp y (limpios-AllStripped xs)
  | inr n ↦ simp n (strip_idem x, limpios-AllStripped xs)
]

sin_repetir-AllStripped :
    (xs vistos : List ItemId) → AllStripped xs → AllStripped (sin_repetir vistos xs)
unfolding sin_repetir
sin_repetir-AllStripped [] vistos h = tt
sin_repetir-AllStripped (x ∷ xs) vistos h = elim (Bool-cases (member x vistos)) [
  | inl y ↦ simp y (sin_repetir-AllStripped xs vistos h.1)
  | inr n ↦ simp n (h.0, sin_repetir-AllStripped xs (x ∷ vistos) h.1)
]

map-strip : (xs : List ItemId) → AllStripped xs → map strip xs ≡ xs
map-strip [] h = refl
map-strip (x ∷ xs) h = ap (λ y. y ∷ map strip xs) h.0 ∙ ap (λ ys. x ∷ ys) (map-strip xs h.1)

is_nil-eq : (xs : List ItemId) → is_nil xs ≡ true → xs ≡ []
is_nil-eq [] h = refl
is_nil-eq (x ∷ xs) h = cc

abbrev pub answered : Ack → List ItemId × List ItemId
answered a = (a.ids_procesados, a.ids_error)

confirmar-times :
    (enviar : ℕ → List ItemId → Option (List ItemId)) (numeros : List ItemId) (t : ItemId)
    → in_both t (answered (confirmar_recepcion enviar numeros)) ≡ times t (ids_unicos numeros)
unfolding confirmar_recepcion
confirmar-times enviar numeros t =
    let xs : List ItemId = ids_unicos numeros in
    elim (Bool-cases (is_nil xs)) [
      | inl y ↦ simp y (sym (ap (times t) (is_nil-eq xs y)))
      | inr n ↦
          let stripped : map strip xs ≡ xs =
            map-strip xs
              (sin_repetir-AllStripped (limpios numeros) [] (limpios-AllStripped numeros)) in
          let total = enviar_lotes-times enviar t 0 (lotes xs) ([], []) in
          let same : times t (map strip (joined (lotes xs))) ≡ times t xs =
            ap (λ ys. times t (map strip ys)) (joined-lotes xs) ∙ ap (times t) stripped in
          simp n (omega (arith, total, same))
    ]

-- Whatever the SFC answers and whichever calls fail, the acknowledgement reports each id that was
-- given, trimmed, exactly once, as processed or as an error, and no other id.
pub confirmar_recepcion_reports_once :
    (enviar : ℕ → List ItemId → Option (List ItemId)) (numeros : List ItemId) (t : ItemId)
    → times t (confirmar_recepcion enviar numeros).ids_procesados
        + times t (confirmar_recepcion enviar numeros).ids_error
      ≡ (if member t (limpios numeros) then 1 else 0)
confirmar_recepcion_reports_once enviar numeros t =
    confirmar-times enviar numeros t ∙ times-sin_repetir t (limpios numeros) []

-- The batches that are sent are the distinct ids in their order, cut into parts of at most a
-- hundred: joined again, they give the ids back.
pub lotes_roundtrip :
    (numeros : List ItemId)
    → (joined (lotes (ids_unicos numeros)) ≡ ids_unicos numeros)
      × AllSmall (lotes (ids_unicos numeros))
lotes_roundtrip numeros =
    let xs : List ItemId = ids_unicos numeros in (joined-lotes xs, cortar-AllSmall (length xs) xs)
