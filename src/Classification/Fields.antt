-- ===== src/Classification/Fields.antt =====
-- Which operation a payload is, in terms of its fields.
use ms_integracion_smartsupe.Prelude.{
  String, ◌≡◌, ◌≢◌, ◌⊎◌, ◌↔◌, inl, inr, refl, sym, ◌∙◌, ap, Bool, true, false, not, ◌&&◌, ◌||◌,
  Option, none, some, str_eq, eq_iff, Bool-cases,
}
use ms_integracion_smartsupe.Text.{codes, same_text}
use ms_integracion_smartsupe.Text.Strip.{same_text-eq, same_text_refl}
use ms_integracion_smartsupe.Classification.{
  Json, null, text, other, Payload, is_present, clean_status, es_estado_cierre, applies, es_fraude,
  tiene_campos_m3, es_cierre, es_nueva, operation_of, infer_operation_type,
}

-- The field is there and is not null.
abbrev pub Given : Option Json → Type 0
Given o = (o ≢ none) × (o ≢ some null)

abbrev pub Status : Payload → String → Type 0
Status p w = clean_status (p "Status") ≡ codes w

-- One of the two fields of a fraud is given.
abbrev pub IsFraud : Payload → Type 0
IsFraud p = Given (p "tipo_fraude__c") ⊎ Given (p "modalidad_fraude__c")

-- The status is closed, or one of the fields of a closing is given.
abbrev pub IsClosing : Payload → Type 0
IsClosing p =
    (Status p "closed" ⊎ Status p "cerrado")
    ⊎ (Given (p "ClosedDate") ⊎ (Given (p "Favorabilidad__c") ⊎ Given (p "Aceptacion__c")))

-- A field of the later phase is given; the admission counts unless it is the text No Aplica.
abbrev pub HasLater : Payload → Type 0
HasLater p =
    Given (p "sc_genero__c")
    ⊎ (Given (p "sc_LGBTIQ__c")
        ⊎ (Given (p "sc_Condicion_especial__c")
            ⊎ (Given (p "producto_digital__c")
                ⊎ (Given (p "admision_col__c") × (p "admision_col__c" ≢ some (text "No Aplica"))))))

abbrev pub IsNew : Payload → Type 0
IsNew p = Status p "new" ⊎ Status p "nuevo"

-- A test that decides a proposition, and what the connectives make of such tests.
abbrev Decides : Bool → Type 0 → Type 0
Decides b P = (b ≡ true) ↔ P

or_Decides : (a b : Bool) (P Q : Type 0) → Decides a P → Decides b Q → Decides (a || b) (P ⊎ Q)
or_Decides true b P Q da db = (λ h. inl (da.0 refl), λ h. refl)
or_Decides false b P Q da db = (
  λ h. inr (db.0 h),
  λ h. elim h [ inl p ↦ (let bad : Path Bool false true = da.1 p in cc) | inr q ↦ db.1 q ],
)

and_Decides : (a b : Bool) (P Q : Type 0) → Decides a P → Decides b Q → Decides (a && b) (P × Q)
and_Decides true b P Q da db = (λ h. (da.0 refl, db.0 h), λ h. db.1 h.1)
and_Decides false b P Q da db = (λ h. cc, λ h. da.1 h.0)

not_Decides : (a : Bool) (P : Type 0) → Decides a P → Decides (not a) (P → ⊥)
not_Decides true P da = (λ h. cc, λ n. absurd (n (da.0 refl)))
not_Decides false P da = (λ h p. (let bad : Path Bool false true = da.1 p in cc), λ n. refl)

present_Decides : (o : Option Json) → Decides (is_present o) (Given o)
present_Decides none = (λ h. cc, λ h. absurd (h.0 refl))
present_Decides (some null) = (λ h. cc, λ h. absurd (h.1 refl))
present_Decides (some (text s)) = (λ h. (λ e. cc, λ e. cc), λ h. refl)
present_Decides (some (other s)) = (λ h. (λ e. cc, λ e. cc), λ h. refl)

applies_Decides : (o : Option Json) → Decides (applies o) (Given o × (o ≢ some (text "No Aplica")))
applies_Decides none = (λ h. cc, λ h. absurd (h.0.0 refl))
applies_Decides (some null) = (λ h. cc, λ h. absurd (h.0.1 refl))
applies_Decides (some (other s)) = (λ h. ((λ e. cc, λ e. cc), λ e. cc), λ h. refl)
applies_Decides (some (text s)) = elim (Bool-cases (str_eq s "No Aplica")) [
  | inl y ↦ (
    λ h. (let bad : Path Bool false true = simp y at h in cc),
    λ h. absurd (h.1 (ap (λ t. some (text t)) ((eq_iff s "No Aplica").0 y))),
  )
  | inr n ↦ (
    λ h. (
      (λ e. cc, λ e. cc),
      λ e.
          (let k : s ≡ "No Aplica" = cc in
            let y = (eq_iff s "No Aplica").1 k in let bad : Path Bool false true = sym n ∙ y in cc),
    ),
    λ h. simp n refl,
  )
]

Status-Decides :
    (p : Payload) (w : String)
    → Decides (same_text (clean_status (p "Status")) (codes w)) (Status p w)
Status-Decides p w = (
  λ h. same_text-eq (clean_status (p "Status")) (codes w) h,
  λ e. ap (λ t. same_text t (codes w)) e ∙ same_text_refl (codes w),
)

fraude_Decides : (p : Payload) → Decides (es_fraude p) (IsFraud p)
unfolding es_fraude
fraude_Decides p =
    or_Decides _ _ _ _ (present_Decides (p "tipo_fraude__c"))
      (present_Decides (p "modalidad_fraude__c"))

cierre_Decides : (p : Payload) → Decides (es_cierre p) (IsClosing p)
unfolding es_cierre es_estado_cierre
cierre_Decides p =
    or_Decides _ _ _ _ (or_Decides _ _ _ _ (Status-Decides p "closed") (Status-Decides p "cerrado"))
      (or_Decides _ _ _ _ (present_Decides (p "ClosedDate")) (
        or_Decides _ _ _ _ (present_Decides (p "Favorabilidad__c"))
          (present_Decides (p "Aceptacion__c"))))

m3_Decides : (p : Payload) → Decides (tiene_campos_m3 p) (HasLater p)
unfolding tiene_campos_m3
m3_Decides p = or_Decides _ _ _ _ (present_Decides (p "sc_genero__c")) (
    or_Decides _ _ _ _ (present_Decides (p "sc_LGBTIQ__c")) (
      or_Decides _ _ _ _ (present_Decides (p "sc_Condicion_especial__c")) (
        or_Decides _ _ _ _ (present_Decides (p "producto_digital__c"))
          (applies_Decides (p "admision_col__c")))))

nueva_Decides : (p : Payload) → Decides (es_nueva p) (IsNew p)
unfolding es_nueva
nueva_Decides p = or_Decides _ _ _ _ (Status-Decides p "new") (Status-Decides p "nuevo")

-- A name that the ladder gives exactly where a test holds.
named : (s t : String) (b : Bool) (P : Type 0) → str_eq s t ≡ b → Decides b P → (s ≡ t) ↔ P
named s t b P e d = (λ h. d.0 (sym e ∙ (eq_iff s t).1 h), λ h. (eq_iff s t).0 (e ∙ d.1 h))

ladder :
    (n m f c : Bool)
    → (str_eq (operation_of n m f c) "M2_CREATION" ≡ n && (not m && (not f && not c)))
      × (str_eq (operation_of n m f c) "M3_FRAUD_AND_CLOSE" ≡ f && c)
      × (str_eq (operation_of n m f c) "M3_FRAUD" ≡ f && not c)
      × (str_eq (operation_of n m f c) "M3_CLOSE" ≡ not f && c)
      × (str_eq (operation_of n m f c) "M3_UPDATE" ≡ (not n || m) && (not f && not c))
ladder true true true true = (refl, refl, refl, refl, refl)
ladder true true true false = (refl, refl, refl, refl, refl)
ladder true true false true = (refl, refl, refl, refl, refl)
ladder true true false false = (refl, refl, refl, refl, refl)
ladder true false true true = (refl, refl, refl, refl, refl)
ladder true false true false = (refl, refl, refl, refl, refl)
ladder true false false true = (refl, refl, refl, refl, refl)
ladder true false false false = (refl, refl, refl, refl, refl)
ladder false m true true = (refl, refl, refl, refl, cc)
ladder false m true false = (refl, refl, refl, refl, cc)
ladder false m false true = (refl, refl, refl, refl, cc)
ladder false m false false = (refl, refl, refl, refl, cc)

-- The operation of a payload by its fields: a creation is new with no field of the later phase, no
-- fraud and no closing; a fraud and a closing together, each alone, and an update with neither that
-- is not new or has a field of the later phase.
pub infer_operation_type_iff :
    (p : Payload)
    → ((infer_operation_type p ≡ "M2_CREATION")
        ↔ (IsNew p × ((HasLater p → ⊥) × ((IsFraud p → ⊥) × (IsClosing p → ⊥)))))
      × ((infer_operation_type p ≡ "M3_FRAUD_AND_CLOSE") ↔ (IsFraud p × IsClosing p))
      × ((infer_operation_type p ≡ "M3_FRAUD") ↔ (IsFraud p × (IsClosing p → ⊥)))
      × ((infer_operation_type p ≡ "M3_CLOSE") ↔ ((IsFraud p → ⊥) × IsClosing p))
      × ((infer_operation_type p ≡ "M3_UPDATE")
          ↔ (((IsNew p → ⊥) ⊎ HasLater p) × ((IsFraud p → ⊥) × (IsClosing p → ⊥))))
unfolding infer_operation_type
infer_operation_type_iff p =
    let s = infer_operation_type p in
    let f = fraude_Decides p in
    let c = cierre_Decides p in
    let no_f = not_Decides _ _ f in
    let no_c = not_Decides _ _ c in
    let neither = and_Decides _ _ _ _ no_f no_c in
    let no_m = not_Decides _ _ (m3_Decides p) in
    let no_n = not_Decides _ _ (nueva_Decides p) in
    let (creation, both, fraud, closing, update) =
      ladder (es_nueva p) (tiene_campos_m3 p) (es_fraude p) (es_cierre p) in
    (
      named s "M2_CREATION" _ _ creation
          (and_Decides _ _ _ _ (nueva_Decides p) (and_Decides _ _ _ _ no_m neither)),
      named s "M3_FRAUD_AND_CLOSE" _ _ both (and_Decides _ _ _ _ f c),
      named s "M3_FRAUD" _ _ fraud (and_Decides _ _ _ _ f no_c),
      named s "M3_CLOSE" _ _ closing (and_Decides _ _ _ _ no_f c),
      named s "M3_UPDATE" _ _ update
          (and_Decides _ _ _ _ (or_Decides _ _ _ _ no_n (m3_Decides p)) neither),
    )
