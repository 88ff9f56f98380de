-- ===== src/Momento1/Examples.antt =====
-- Complaints that the SFC delivers, and instances of the theorems about them.
use ms_integracion_smartsupe.Prelude.{◌≤◌, String, ◌≡◌, refl, true, Option, some, List, [], ◌∷◌}
use ms_integracion_smartsupe.Text.{codes}
use ms_integracion_smartsupe.Momento4.{ItemId}
use ms_integracion_smartsupe.Momento1.{
  Queja1, PaginaQuejas, filtrar_duplicados, archivos_de, procesar_queja, procesar_todas, recorrer,
  momento_1,
}
use ms_integracion_smartsupe.Momento1.Once.{delivered, momento_1_delivers_once}

some_inj : {a b : Option ItemId} → Path (Option (Option ItemId)) (some a) (some b) → b ≡ a
some_inj e = cc

abbrev complaint : Queja1 String
complaint = record {
  es_dict = true;
  codigo_queja = some (codes "1286");
  anexo_queja = true;
  contenido = "{}";
}

-- One file is listed and transferred; the entity is the code.
abbrev listing : Option ItemId → Option (List String)
listing c = some ("a.pdf" ∷ [])

abbrev files : List String
files = "a.pdf" ∷ []

abbrev transfer : Option ItemId → List String → Option (List String)
transfer c files = some files

abbrev translate : Queja1 String → Option (Option ItemId)
translate q = some q.codigo_queja

abbrev code : Option ItemId → Option ItemId
code c = c

-- A page with the complaint twice, which links to itself.
abbrev page : PaginaQuejas String
page = record { quejas = complaint ∷ complaint ∷ []; siguiente = some "https://next" }

abbrev result : List (Option ItemId × List String)
result = (some (codes "1286"), "a.pdf" ∷ []) ∷ []

momento_1_delivers_once_example :
    delivered listing transfer translate code (λ q e h. some_inj h) (codes "1286") result ≤ 1
unfolding momento_1 recorrer filtrar_duplicados procesar_todas procesar_queja archivos_de
momento_1_delivers_once_example =
    momento_1_delivers_once listing transfer translate code (λ q e h. some_inj h) (codes "1286")
      (λ n u. some page) (λ n. true) 2 result refl
