-- ===== src/Memoria/Reparto.antt =====
-- procesos.c: RESIZE when a process grows. No frame is given twice and none is lost, and a request
-- that fails leaves the memory as it was.
pub mod Resize
use mathlib.Core.Path.{subst}
use tp_sistemas_operativos_c.Common.{
  ℕ, zero, suc, ◌+◌, ◌-◌, ◌*◌, ◌/◌, ◌<◌, ◌≤◌, ◌==◌, ◌≡◌, ◌≢◌, refl, ap, sym, ◌∙◌, Bool, true, false,
  ◌||◌, List, [], ◌∷◌, ◌++◌, Option, none, some, length, length-append, if◌then◌else◌, ltb, leb, ℤ,
  pos, negsuc, get, put, nat_eq, arith, ==_iff, Bool-cases, Option-cases, inl, inr, ◌⊎◌,
}
use tp_sistemas_operativos_c.Memoria.Marcos.{
  Bitarray, contar_desde, buscar_desde, cantidad_marcos_libres, buscar_marco_libre,
}
use tp_sistemas_operativos_c.Memoria.Marcos.Busqueda.{Primero, buscar_desde_lem, contar_desde-menos}
use tp_sistemas_operativos_c.Memoria.Procesos.{
  Proceso, Memoria, Redimension, menos_1, sin_cambio, resize_success, agregar_paginas,
  redimensionar_en, redimensionar_proceso, proceso_por_pid, con_tabla, quitar_paginas,
}

-- How often a frame stands in a page table.
unfoldable pub veces : ℕ → List (ℕ × ℕ) → ℕ
veces f [] = 0
veces f ((pagina, marco) ∷ t) = (if marco == f then 1 else 0) + veces f t

-- How often a frame stands in the page tables.
unfoldable pub veces_en : ℕ → List Proceso → ℕ
unfolding veces
veces_en f [] = 0
veces_en f (p ∷ ps) = veces f p.tabla_de_paginas + veces_en f ps

-- The pages of a table are those before its length.
abbrev pub IsDensa : List (ℕ × ℕ) → Type 0
IsDensa t = (j : ℕ) → length t ≤ j → get j t ≡ none

put-nueva :
    (pagina marco : ℕ) (t : List (ℕ × ℕ))
    → get pagina t ≡ none
    → put pagina marco t ≡ t ++ ((pagina, marco) ∷ [])
unfolding get put
put-nueva pagina marco [] h = refl
put-nueva pagina marco ((j, w) ∷ t) h = elim (Bool-cases (j == pagina)) [
  | inl e ↦ ground (arith, e)
  | inr e ↦ rw e (
      ap (λ x. (j, w) ∷ x)
        (put-nueva pagina marco t (subst (λ b. (if b then some w else get pagina t) ≡ none) e h)))
]

veces-append : (f : ℕ) (t u : List (ℕ × ℕ)) → veces f (t ++ u) ≡ veces f t + veces f u
unfolding veces
veces-append f [] u = omega arith
veces-append f ((p, m) ∷ t) u = rw (veces-append f t u) (omega arith)

get-append :
    (j pagina marco : ℕ) (t : List (ℕ × ℕ))
    → get j t ≡ none
    → (pagina == j) ≡ false
    → get j (t ++ ((pagina, marco) ∷ [])) ≡ none
unfolding get
get-append j pagina marco [] h n = rw n
get-append j pagina marco ((i, w) ∷ t) h n = elim (Bool-cases (i == j)) [
  | inl e ↦ ground (arith, e)
  | inr e ↦
      rw e (get-append j pagina marco t (subst (λ b. (if b then some w else get j t) ≡ none) e h) n)
]

IsDensa-append :
    (marco : ℕ) (t : List (ℕ × ℕ)) → IsDensa t → IsDensa (t ++ ((length t, marco) ∷ []))
IsDensa-append marco t d j l =
    let c : suc (length t) ≤ j = omega (arith, length-append t ((length t, marco) ∷ [])) in
    get-append j (length t) marco t (d j (omega arith)) (ground arith)

module _ (a : Bitarray) where
  -- The free bit of a frame as a number.
  abbrev pub libre : a.B → ℕ → ℕ
  libre b f = if a.test_bit b f then 1 else 0

  -- What the loop that adds `n` pages does when there are frames for them.
  abbrev pub Crecida : ℕ → List (ℕ × ℕ) → a.B → (Bool × List (ℕ × ℕ) × a.B) → Type 0
  Crecida n t b r =
      (r.0 ≡ true)
      × (length r.1 ≡ n + length t)
      × (cantidad_marcos_libres a r.2 + n ≡ cantidad_marcos_libres a b)
      × IsDensa r.1
      × ((f : ℕ) → veces f r.1 + libre r.2 f ≡ veces f t + libre b f)

  -- One page more: the frame found was free, is in bounds, and is the only bit that changes.
  toma_marco :
      (b : a.B) (f : ℕ)
      → buscar_marco_libre a b ≡ some f
      → (f < a.max_bit b)
        × (a.test_bit b f ≡ true)
        × (cantidad_marcos_libres a b ≡ suc (cantidad_marcos_libres a (a.clean_bit b f)))
  unfolding buscar_marco_libre cantidad_marcos_libres
  toma_marco b f h =
      let p =
        subst (λ o. Primero (a.test_bit b) 0 (a.max_bit b) o) h
          (buscar_desde_lem (a.test_bit b) 0 (a.max_bit b)) in
      let c : f < a.max_bit b = omega (arith, p.1) in
      (
        c,
        p.2,
        contar_desde-menos (a.test_bit b) (a.test_bit (a.clean_bit b f)) 0 (a.max_bit b) f
              (λ j. a.test_bit-clean_bit b f j c) (p.2) (omega arith) (omega (arith, p.1))
            ∙ ap (λ x. suc (contar_desde (a.test_bit (a.clean_bit b f)) 0 x))
                (sym (a.max_bit-clean_bit b f)),
      )

  sin_marcos : (b : a.B) → buscar_marco_libre a b ≡ none → cantidad_marcos_libres a b ≡ 0
  unfolding buscar_marco_libre cantidad_marcos_libres
  sin_marcos b h =
      subst (λ o. Primero (a.test_bit b) 0 (a.max_bit b) o) h
        (buscar_desde_lem (a.test_bit b) 0 (a.max_bit b))

  mueve_marco :
      (b : a.B) (pagina marco : ℕ) (t : List (ℕ × ℕ)) (f : ℕ)
      → marco < a.max_bit b
      → a.test_bit b marco ≡ true
      → veces f (t ++ ((pagina, marco) ∷ [])) + libre (a.clean_bit b marco) f
        ≡ veces f t + libre b f
  unfolding veces
  mueve_marco b pagina marco t f c h =
      rw (veces-append f t ((pagina, marco) ∷ []), a.test_bit-clean_bit b marco f c)
        (elim (Bool-cases (marco == f)) [
          | inl e ↦
              rw (e, subst (λ x. a.test_bit b x ≡ true) ((==_iff marco f).0 e) h) (omega arith)
          | inr e ↦ rw e (omega arith)
        ])

  Crecida-suc :
      (n marco : ℕ) (t : List (ℕ × ℕ)) (b : a.B) (r : Bool × List (ℕ × ℕ) × a.B)
      → buscar_marco_libre a b ≡ some marco
      → Crecida n (t ++ ((length t, marco) ∷ [])) (a.clean_bit b marco) r
      → Crecida (suc n) t b r
  Crecida-suc n marco t b r h k =
      let m = toma_marco b marco h in
      (
        k.0,
        omega (arith, k.1, length-append t ((length t, marco) ∷ [])),
        omega (arith, k.2, m.2),
        k.3,
        λ f. k.4 f ∙ mueve_marco b (length t) marco t f (m.0) (m.1),
      )

  un_paso :
      (n marco : ℕ) (t : List (ℕ × ℕ)) (b : a.B)
      → IsDensa t
      → buscar_marco_libre a b ≡ some marco
      → let u = t ++ ((length t, marco) ∷ []) in
        agregar_paginas a n (length u) u (a.clean_bit b marco)
        ≡ agregar_paginas a (suc n) (length t) t b
  unfolding agregar_paginas
  un_paso n marco t b d h =
      let u = t ++ ((length t, marco) ∷ []) in
      let q : length u ≡ suc (length t) = omega (arith, length-append t ((length t, marco) ∷ [])) in
      rw (agregar_paginas, h, put-nueva (length t) marco t (d (length t) (omega arith)))
        (ap (λ x. agregar_paginas a n x u (a.clean_bit b marco)) q)

  pub agregar_paginas_lem :
      (n : ℕ) (t : List (ℕ × ℕ)) (b : a.B)
      → IsDensa t
      → n ≤ cantidad_marcos_libres a b
      → Crecida n t b (agregar_paginas a n (length t) t b)
  unfolding agregar_paginas
  agregar_paginas_lem zero t b d l = (refl, omega arith, omega arith, d, λ f. refl)
  agregar_paginas_lem (suc n) t b d l = elim (Option-cases (buscar_marco_libre a b)) [
    | inl h ↦ absurd (omega (arith, sin_marcos b h))
    | inr (marco, h) ↦
        let u = t ++ ((length t, marco) ∷ []) in
        subst (Crecida (suc n) t b) (un_paso n marco t b d h) (
          Crecida-suc n marco t b (agregar_paginas a n (length u) u (a.clean_bit b marco)) h (
            agregar_paginas_lem n u (a.clean_bit b marco) (IsDensa-append marco t d)
              (omega (arith, (toma_marco b marco h).2))))
  ]
