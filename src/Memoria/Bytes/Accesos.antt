-- ===== src/Memoria/Bytes/Accesos.antt =====
-- memoria/src/memoria-utils/memoria.c: reading and writing for a process, through its page table.
use tp_sistemas_operativos_c.Common.{
  ℕ, suc, ◌+◌, ◌*◌, ◌/◌, ◌%◌, ◌≤◌, ◌==◌, ==_iff, ◌≡◌, refl, ap, ◌∙◌, Bool, true, false, ◌||◌, List,
  [], ◌∷◌, Option, none, some, length, if◌then◌else◌, arith, inl, inr, Bool-cases, Option-cases,
  get, nat_eq, pos,
}
use tp_sistemas_operativos_c.Memoria.Procesos.{
  Proceso, Memoria, proceso_por_pid, buscar_direccion_fisica_en_tabla_de_paginas,
}
use tp_sistemas_operativos_c.Memoria.Bytes.{
  hecho, ◌>>=◌, escribir_desde, leer_desde, buscar_en_claves, buscar_pagina_por_pid_y_marco,
  tras_pagina, escribir_memoria, obtener_dato_memoria,
}

-- The frames of a process are in the memory, and each is of one page.
pub record IsMapa (tam_pagina tam_memoria : ℕ) (t : List (ℕ × ℕ)) : Type 0 where
  pub dentro : (i k : ℕ) → get i t ≡ some k → k * tam_pagina + tam_pagina ≤ tam_memoria
  pub distintas : (i j k : ℕ) → get i t ≡ some k → get j t ≡ some k → i ≡ j

abbrev pub esta_en : ℕ → List ℕ → Bool
esta_en n [] = false
esta_en n (x ∷ xs) = (x == n) || esta_en n xs

-- `dictionary_keys` lists every key.
abbrev pub AreClaves : (List (ℕ × ℕ) → List ℕ) → List (ℕ × ℕ) → Type 0
AreClaves claves t = (i k : ℕ) → get i t ≡ some k → esta_en i (claves t) ≡ true

module _ (t : List (ℕ × ℕ)) (marco : ℕ) where
  -- A page that the loop finds has that frame.
  buscar-get :
      (ps : List ℕ) (r : Option ℕ) (pagina : ℕ)
      → ((i : ℕ) → r ≡ some i → get i t ≡ some marco)
      → buscar_en_claves t marco ps r ≡ some pagina
      → get pagina t ≡ some marco
  unfolding buscar_en_claves
  buscar-get [] r pagina h e = h pagina e
  buscar-get (p ∷ ps) r pagina h e = elim (Option-cases (get p t)) [
    | inl x ↦ buscar-get ps r pagina h (ground (arith, e, x))
    | inr (k, x) ↦ elim (Bool-cases (k == marco)) [
      | inl y ↦
          buscar-get ps (some p) pagina (λ i g. ground (arith, g, x, y)) (ground (arith, e, x, y))
      | inr y ↦ buscar-get ps r pagina h (ground (arith, e, x, y))
    ]
  ]

  buscar-none :
      (p : ℕ) (ps : List ℕ) (r : Option ℕ)
      → get p t ≡ none
      → buscar_en_claves t marco (p ∷ ps) r ≡ buscar_en_claves t marco ps r
  unfolding buscar_en_claves
  buscar-none p ps r x = rw (buscar_en_claves, x) refl

  buscar-some :
      (p k : ℕ) (ps : List ℕ) (r : Option ℕ)
      → get p t ≡ some k
      → buscar_en_claves t marco (p ∷ ps) r
        ≡ buscar_en_claves t marco ps (if k == marco then some p else r)
  unfolding buscar_en_claves
  buscar-some p k ps r x = rw (buscar_en_claves, x) refl

  module _ (pagina : ℕ) (g : get pagina t ≡ some marco)
      (u : (i : ℕ) → get i t ≡ some marco → i ≡ pagina) where
    -- The page is found, and stays found, whatever the order of the keys.
    buscar-queda : (ps : List ℕ) → buscar_en_claves t marco ps (some pagina) ≡ some pagina
    unfolding buscar_en_claves
    buscar-queda [] = refl
    buscar-queda (p ∷ ps) = elim (Option-cases (get p t)) [
      | inl x ↦ buscar-none p ps (some pagina) x ∙ buscar-queda ps
      | inr (k, x) ↦
          let e : (if k == marco then some p else some pagina) ≡ some pagina =
            ground (arith, u p, x, ==_iff k marco) in
          buscar-some p k ps (some pagina) x ∙ ap (buscar_en_claves t marco ps) e ∙ buscar-queda ps
    ]

    pub buscar-esta :
        (ps : List ℕ) (r : Option ℕ)
        → esta_en pagina ps ≡ true
        → buscar_en_claves t marco ps r ≡ some pagina
    buscar-esta [] r h = cc
    buscar-esta (p ∷ ps) r h = elim (Bool-cases (p == pagina)) [
      | inl y ↦
          let e : p ≡ pagina = (==_iff p pagina).0 y in
          let z : (if marco == marco then some p else r) ≡ some pagina = ground (arith, e) in
          buscar-some p marco ps r (ap (λ i. get i t) e ∙ g)
          ∙ ap (buscar_en_claves t marco ps) z
          ∙ buscar-queda ps
      | inr y ↦
          let h' : esta_en pagina ps ≡ true = ground (arith, h, y) in
          elim (Option-cases (get p t)) [
            | inl x ↦ buscar-none p ps r x ∙ buscar-esta ps r h'
            | inr (k, x) ↦ buscar-some p k ps r x ∙ buscar-esta ps _ h'
          ]
    ]

module _ {B : Type 0} (claves : List (ℕ × ℕ) → List ℕ) (tam_pagina tam_memoria : ℕ) where
  pub marcos-tabla :
      (pid n : ℕ) (m : Memoria B) (p : Proceso)
      → proceso_por_pid pid m.procesos ≡ some p
      → buscar_direccion_fisica_en_tabla_de_paginas pid (pos n) m ≡ get n p.tabla_de_paginas
  unfolding buscar_direccion_fisica_en_tabla_de_paginas
  marcos-tabla pid n m p e = rw (buscar_direccion_fisica_en_tabla_de_paginas, e) refl

  pub escribir_memoria-desde :
      (pid dir pagina : ℕ) (datos : List ℕ) (m : Memoria B) (f : ℕ → ℕ) (p : Proceso)
      → proceso_por_pid pid m.procesos ≡ some p
      → buscar_pagina_por_pid_y_marco claves p (dir / tam_pagina) ≡ some pagina
      → escribir_memoria tam_pagina tam_memoria claves pid dir datos m f
        ≡ escribir_desde tam_pagina tam_memoria
            (λ n. buscar_direccion_fisica_en_tabla_de_paginas pid (pos n) m)
            (length datos)
            (dir / tam_pagina)
            (dir % tam_pagina)
            (suc pagina)
            datos
            f
  unfolding escribir_memoria
  escribir_memoria-desde pid dir pagina datos m f p e b = rw (escribir_memoria, e) (rw b refl)

  pub obtener-desde :
      (pid dir n : ℕ) (m : Memoria B) (f : ℕ → ℕ) (p : Proceso)
      → proceso_por_pid pid m.procesos ≡ some p
      → obtener_dato_memoria tam_pagina tam_memoria claves pid dir n m f ≡ (
          leer_desde tam_pagina tam_memoria
            (λ n. buscar_direccion_fisica_en_tabla_de_paginas pid (pos n) m)
            n
            (dir / tam_pagina)
            (dir % tam_pagina)
            (tras_pagina (buscar_pagina_por_pid_y_marco claves p (dir / tam_pagina)))
            n
            f
          >>= λ bs. hecho (some bs))
  unfolding obtener_dato_memoria
  obtener-desde pid dir n m f p e = rw (obtener_dato_memoria, e) refl

  pub escribir_memoria-nada :
      (pid dir : ℕ) (datos : List ℕ) (m : Memoria B) (f : ℕ → ℕ) (p : Proceso)
      → proceso_por_pid pid m.procesos ≡ some p
      → buscar_pagina_por_pid_y_marco claves p (dir / tam_pagina) ≡ none
      → escribir_memoria tam_pagina tam_memoria claves pid dir datos m f ≡ hecho f
  unfolding escribir_memoria
  escribir_memoria-nada pid dir datos m f p e b = rw (escribir_memoria, e) (rw b refl)

  pub escribir_memoria-sin_proceso :
      (pid dir : ℕ) (datos : List ℕ) (m : Memoria B) (f : ℕ → ℕ)
      → proceso_por_pid pid m.procesos ≡ none
      → escribir_memoria tam_pagina tam_memoria claves pid dir datos m f ≡ hecho f
  unfolding escribir_memoria
  escribir_memoria-sin_proceso pid dir datos m f e = rw (escribir_memoria, e) refl

  pub obtener-sin_proceso :
      (pid dir n : ℕ) (m : Memoria B) (f : ℕ → ℕ)
      → proceso_por_pid pid m.procesos ≡ none
      → obtener_dato_memoria tam_pagina tam_memoria claves pid dir n m f ≡ hecho none
  unfolding obtener_dato_memoria
  obtener-sin_proceso pid dir n m f e = rw (obtener_dato_memoria, e) refl

pub pagina-get :
    (claves : List (ℕ × ℕ) → List ℕ) (p : Proceso) (marco pagina : ℕ)
    → buscar_pagina_por_pid_y_marco claves p marco ≡ some pagina
    → get pagina p.tabla_de_paginas ≡ some marco
unfolding buscar_pagina_por_pid_y_marco
pagina-get claves p marco pagina b =
    buscar-get p.tabla_de_paginas marco (claves p.tabla_de_paginas) none pagina (λ i h. cc) b
