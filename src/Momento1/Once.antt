-- ===== src/Momento1/Once.antt =====
-- No complaint is delivered twice, whatever the pages repeat.
use ms_integracion_smartsupe.Prelude.{
  ℕ, zero, suc, ◌+◌, ◌≤◌, String, ◌≡◌, ◌∙◌, ap, refl, Bool, false, Option, none, some, List, [],
  ◌∷◌, ◌++◌, Bool-cases, Option-cases, inl, inr, arith, if◌then◌else◌,
}
use ms_integracion_smartsupe.Text.{same_text}
use ms_integracion_smartsupe.Text.Strip.{same_text-eq}
use ms_integracion_smartsupe.Momento4.{ItemId, member, is_nil, next_url}
use ms_integracion_smartsupe.Momento1.{
  Queja1, PaginaQuejas, codigo_de, seen_before, now_seen, filtrar_duplicados, archivos_de,
  con_archivos, procesar_queja, add_result, procesar_todas, con_pagina_quejas, recorrer, momento_1,
}

abbrev pub is_code : ItemId → Option ItemId → ℕ
is_code t none = 0
is_code t (some c) = if same_text t c then 1 else 0

abbrev pub was_seen : ItemId → List ItemId → ℕ
was_seen t vistos = if member t vistos then 1 else 0

was_seen-le : (t : ItemId) (vistos : List ItemId) → was_seen t vistos ≤ 1
was_seen-le t vistos = elim (Bool-cases (member t vistos)) [
  | inl y ↦ simp y (omega arith)
  | inr n ↦ simp n (omega arith)
]

new_code :
    (t : ItemId) (o : Option ItemId) (vistos : List ItemId)
    → seen_before o vistos ≡ false
    → is_code t o + was_seen t vistos ≤ was_seen t (now_seen o vistos)
new_code t none vistos h = omega arith
new_code t (some c) vistos h = elim (Bool-cases (same_text t c)) [
  | inl y ↦
      let fresh : member t vistos ≡ false = ap (λ x. member x vistos) (same_text-eq t c y) ∙ h in
      simp (y, fresh) (omega arith)
  | inr n ↦ simp n (omega arith)
]

module _ {Q : Type 0} (t : ItemId) where
  abbrev left_times : List (Queja1 Q) → ℕ
  left_times [] = 0
  left_times (q ∷ qs) = is_code t (codigo_de q) + left_times qs

  filtrar-times :
      (qs : List (Queja1 Q)) (vistos : List ItemId)
      → left_times (filtrar_duplicados qs vistos).0 + was_seen t vistos
        ≤ was_seen t (filtrar_duplicados qs vistos).1
  unfolding filtrar_duplicados
  filtrar-times [] vistos = omega arith
  filtrar-times (q ∷ qs) vistos = elim (Bool-cases (seen_before (codigo_de q) vistos)) [
    | inl y ↦ simp y (filtrar-times qs vistos)
    | inr n ↦
        let rest = filtrar-times qs (now_seen (codigo_de q) vistos) in
        let here = new_code t (codigo_de q) vistos n in simp n (omega (arith, rest, here))
  ]

module _ {Q A B E : Type 0} (listar : Option ItemId → Option (List A))
    (transferir : Option ItemId → List A → Option (List B)) (traducir : Queja1 Q → Option E)
    (code_of : E → Option ItemId)
    (carries : (q : Queja1 Q) (e : E) → traducir q ≡ some e → code_of e ≡ q.codigo_queja)
    (t : ItemId) where
  -- How often the code is among the results.
  abbrev pub delivered : List (E × List B) → ℕ
  delivered [] = 0
  delivered ((e, archivos) ∷ rs) = is_code t (code_of e) + delivered rs

  delivered-append :
      (rs ss : List (E × List B)) → delivered (rs ++ ss) ≡ delivered rs + delivered ss
  delivered-append [] ss = omega arith
  delivered-append ((e, archivos) ∷ rs) ss =
      let rest : delivered (rs ++ ss) ≡ delivered rs + delivered ss = delivered-append rs ss in
      omega (arith, rest)

  add_result-delivered :
      (q : Queja1 Q) (o : Option (List B)) (tr : Option E) (rs : List (E × List B))
      → ((e : E) → tr ≡ some e → code_of e ≡ q.codigo_queja)
      → delivered
          (add_result listar transferir traducir (con_archivos listar transferir traducir o tr) rs)
        ≤ is_code t q.codigo_queja + delivered rs
  add_result-delivered q none none rs k = omega arith
  add_result-delivered q none (some e) rs k = omega arith
  add_result-delivered q (some l) none rs k = omega arith
  add_result-delivered q (some l) (some e) rs k =
      let same = ap (is_code t) (k e refl) in omega (arith, same)

  procesar_todas-delivered :
      (qs : List (Queja1 Q))
      → delivered (procesar_todas listar transferir traducir qs) ≤ left_times t qs
  unfolding procesar_todas procesar_queja
  procesar_todas-delivered [] = omega arith
  procesar_todas-delivered (q ∷ qs) =
      let rest = procesar_todas-delivered qs in
      let here =
        add_result-delivered q (archivos_de listar transferir traducir q) (traducir q)
          (procesar_todas listar transferir traducir qs) (carries q) in
      elim (Bool-cases q.es_dict) [
        | inl y ↦ simp y (omega (arith, rest, here))
        | inr n ↦ simp n (omega (arith, rest))
      ]

  abbrev AtMostOnce : Option (List (E × List B)) → Type 0
  AtMostOnce none = Unit
  AtMostOnce (some rs) = delivered rs ≤ 1

  con_pagina-AtMostOnce :
      (o : Option (PaginaQuejas Q)) (vistos : List ItemId) (acc : List (E × List B))
      (seguir : Option String → List ItemId → List (E × List B) → Option (List (E × List B)))
      → delivered acc ≤ was_seen t vistos
      → ((u : Option String) (v : List ItemId) (d : List (E × List B))
          → delivered d ≤ was_seen t v
          → AtMostOnce (seguir u v d))
      → AtMostOnce (con_pagina_quejas listar transferir traducir o vistos acc seguir)
  con_pagina-AtMostOnce none vistos acc seguir h k = tt
  con_pagina-AtMostOnce (some p) vistos acc seguir h k =
      let (unicas, v) = filtrar_duplicados p.quejas vistos in
      let kept = filtrar-times t p.quejas vistos in
      let new = procesar_todas-delivered unicas in
      let both = delivered-append acc (procesar_todas listar transferir traducir unicas) in
      let few : delivered (acc ++ procesar_todas listar transferir traducir unicas) ≤ was_seen t v =
        omega (arith, kept, new, both, h) in
      let before = was_seen-le t vistos in
      let after = was_seen-le t v in
      elim (Bool-cases (is_nil p.quejas)) [
        | inl y ↦ simp y (omega (arith, h, before))
        | inr n ↦ elim (Option-cases (next_url p.siguiente)) [
          | inl e ↦ simp (n, e) (omega (arith, few, after))
          | inr (u, e) ↦ simp (n, e) (k (some u) v _ few)
        ]
      ]

  module _ (fetch : ℕ → Option String → Option (PaginaQuejas Q)) (en_tiempo : ℕ → Bool) where
    recorrer-AtMostOnce :
        (n pagina : ℕ) (url : Option String) (vistos : List ItemId) (acc : List (E × List B))
        → delivered acc ≤ was_seen t vistos
        → AtMostOnce (recorrer listar transferir traducir fetch en_tiempo n pagina url vistos acc)
    unfolding recorrer
    recorrer-AtMostOnce zero pagina url vistos acc h =
        let before = was_seen-le t vistos in omega (arith, h, before)
    recorrer-AtMostOnce (suc n) pagina url vistos acc h = elim (Bool-cases (en_tiempo pagina)) [
      | inl y ↦ simp y (
          con_pagina-AtMostOnce (fetch pagina url) vistos acc
            (recorrer listar transferir traducir fetch en_tiempo n (pagina + 1)) h
            (λ u v d g. recorrer-AtMostOnce n (pagina + 1) u v d g))
      | inr late ↦ (let before = was_seen-le t vistos in simp late (omega (arith, h, before)))
    ]

    -- However often the pages of the SFC repeat a complaint, within a page or across pages, a run
    -- that returns delivers each code at most once, when the mapper carries the code into the
    -- entity.
    pub momento_1_delivers_once :
        (max_paginas : ℕ) (rs : List (E × List B))
        → momento_1 listar transferir traducir fetch en_tiempo max_paginas ≡ some rs
        → delivered rs ≤ 1
    unfolding momento_1
    momento_1_delivers_once max_paginas rs e =
        rw e at (recorrer-AtMostOnce max_paginas 1 none [] [] (omega arith))
