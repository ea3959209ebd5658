-- ===== src/Cpu/Mmu/Coherencia.antt =====
-- mmu.c and TLB.c: the cache holds what the page tables say, and no more entries than it may.
use tp_sistemas_operativos_c.Common.{
  ℕ, zero, suc, ◌==◌, ◌≡◌, ◌≤◌, refl, ap, Bool, true, false, String, List, [], ◌∷◌, ◌++◌, Option,
  length, ltb, ℤ, negsuc, eqb_ℤ, eqb_ℤ_iff, arith, length-append, ◌⊎◌, inl, inr, Bool-cases,
  Option-cases,
}
use tp_sistemas_operativos_c.Cpu.Tlb.{
  TlbEntry, Tlb, sin_primera, tlb_agregar_fifo, anotar_peticion, agregar_entrada_tlb,
  encontrar_pag_en_tlb, tlb_llena,
}
use tp_sistemas_operativos_c.Cpu.Mmu.{
  buscar_en_tlb, buscar_en_tabla_de_paginas, al_final, acierto, fallo_tlb, obtener_marco,
  direccion_fisica, numero_pagina, calcular_direccion_fisica,
}

-- Every entry holds the answer of the memory for its page.
abbrev pub IsCoherente : (ℕ → ℤ → Option ℤ) → List TlbEntry → Type 0
IsCoherente mem [] = Unit
IsCoherente mem (e ∷ es) =
    (e.marco ≡ buscar_en_tabla_de_paginas mem e.pid e.pagina) × IsCoherente mem es

pub append-IsCoherente :
    (mem : ℕ → ℤ → Option ℤ) (a b : List TlbEntry)
    → IsCoherente mem a
    → IsCoherente mem b
    → IsCoherente mem (a ++ b)
append-IsCoherente mem [] b ha hb = hb
append-IsCoherente mem (e ∷ a) b ha hb = (ha.0, append-IsCoherente mem a b ha.1 hb)

sin_primera-IsCoherente :
    (mem : ℕ → ℤ → Option ℤ) (a : List TlbEntry)
    → IsCoherente mem a
    → IsCoherente mem (sin_primera a)
sin_primera-IsCoherente mem [] h = h
sin_primera-IsCoherente mem (e ∷ a) h = h.1

al_final-IsCoherente :
    (mem : ℕ → ℤ → Option ℤ) (i : ℕ) (a : List TlbEntry)
    → IsCoherente mem a
    → IsCoherente mem (al_final i a)
unfolding al_final
al_final-IsCoherente mem i [] h = h
al_final-IsCoherente mem zero (e ∷ a) h = append-IsCoherente mem a (e ∷ []) h.1 (h.0, tt)
al_final-IsCoherente mem (suc i) (e ∷ a) h = (h.0, al_final-IsCoherente mem i a h.1)

-- A hit in a coherent cache is the frame of the page tables.
pub buscar_en_tlb-IsCoherente :
    (mem : ℕ → ℤ → Option ℤ) (pid : ℕ) (pagina : ℤ) (es : List TlbEntry)
    → IsCoherente mem es
    → (buscar_en_tlb pid pagina es ≡ negsuc 0)
      ⊎ (buscar_en_tlb pid pagina es ≡ buscar_en_tabla_de_paginas mem pid pagina)
unfolding buscar_en_tlb
buscar_en_tlb-IsCoherente mem pid pagina [] h = inl refl
buscar_en_tlb-IsCoherente mem pid pagina (e ∷ es) h =
    let ih = buscar_en_tlb-IsCoherente mem pid pagina es h.1 in
    ground (arith, eqb_ℤ_iff e.pagina pagina, h.0, ih)

length-al_final : (i : ℕ) (es : List TlbEntry) → length (al_final i es) ≡ length es
unfolding al_final
length-al_final i [] = refl
length-al_final zero (e ∷ es) = ground (arith, length-append es (e ∷ []))
length-al_final (suc i) (e ∷ es) = ap suc (length-al_final i es)

length-reemplazo :
    {n : ℕ} (e : TlbEntry) (es : List TlbEntry)
    → ltb 0 n ≡ true
    → length es ≤ n
    → length (sin_primera es ++ (e ∷ [])) ≤ n
length-reemplazo e [] c h = ground arith
length-reemplazo e (x ∷ es) c h = ground (arith, length-append es (e ∷ []))

module _ (eq_ic : String → String → Bool) (tlb_max_size : ℕ) (algoritmo : String) where
  anotar_peticion-entradas :
      (ahora : ℕ) (e : TlbEntry) (t : Tlb)
      → (anotar_peticion eq_ic tlb_max_size algoritmo ahora e t).entradas ≡ t.entradas
  unfolding anotar_peticion
  anotar_peticion-entradas ahora e t = elim (Bool-cases (eq_ic algoritmo "LRU")) [
    | inl h ↦ rw h refl
    | inr h ↦ rw h refl
  ]

  pub agregar_entrada_tlb-entradas :
      (ahora : ℕ) (e : TlbEntry) (t : Tlb)
      → ((agregar_entrada_tlb eq_ic tlb_max_size algoritmo ahora e t).entradas ≡ t.entradas)
        ⊎ ((agregar_entrada_tlb eq_ic tlb_max_size algoritmo ahora e t).entradas
            ≡ sin_primera t.entradas ++ (e ∷ []))
        ⊎ ((length t.entradas == tlb_max_size) ≡ false)
          × ((agregar_entrada_tlb eq_ic tlb_max_size algoritmo ahora e t).entradas
              ≡ t.entradas ++ (e ∷ []))
  unfolding agregar_entrada_tlb tlb_llena tlb_agregar_fifo
  agregar_entrada_tlb-entradas ahora e t =
      let p = anotar_peticion-entradas ahora e in
      elim (Bool-cases (length t.entradas == tlb_max_size)) [
        | inl llena ↦ elim (Bool-cases (eq_ic algoritmo "FIFO")) [
          | inl f ↦
              inr (inl (rw (llena, f) (p (record t { entradas = tlb_agregar_fifo e t.entradas }))))
          | inr f ↦ elim (Bool-cases (eq_ic algoritmo "LRU")) [
            | inl l ↦ inr (inl (rw (llena, f, l)))
            | inr l ↦ inl (rw (llena, f, l))
          ]
        ]
        | inr c ↦ inr (inr (c, rw c (p (record t { entradas = t.entradas ++ (e ∷ []) }))))
      ]

module _ (eq_ic : String → String → Bool) (tlb_max_size : ℕ) (algoritmo : String)
    (memoria : ℕ → ℤ → Option ℤ) where
  fallo_tlb-IsCoherente :
      (ahora pid : ℕ) (pagina : ℤ) (t : Tlb)
      → IsCoherente memoria t.entradas
      → IsCoherente memoria
          (fallo_tlb eq_ic tlb_max_size algoritmo memoria ahora pid pagina
            (buscar_en_tabla_de_paginas memoria pid pagina)
            t).entradas
  unfolding fallo_tlb
  fallo_tlb-IsCoherente ahora pid pagina t h =
      let e : TlbEntry = record {
        pid = pid;
        pagina = pagina;
        marco = buscar_en_tabla_de_paginas memoria pid pagina;
      } in
      elim (Bool-cases (ltb 0 tlb_max_size)) [
        | inl c ↦ rw c (elim (agregar_entrada_tlb-entradas eq_ic tlb_max_size algoritmo ahora e t) [
          | inl q ↦ rw q h
          | inr (inl q) ↦ rw q (
              append-IsCoherente memoria (sin_primera t.entradas) (e ∷ [])
                (sin_primera-IsCoherente memoria t.entradas h) (refl, tt))
          | inr (inr q) ↦ rw (q.1) (append-IsCoherente memoria t.entradas (e ∷ []) h (refl, tt))
        ])
        | inr c ↦ rw c h
      ]

  acierto-IsCoherente :
      (pid : ℕ) (pagina : ℤ) (t : Tlb)
      → IsCoherente memoria t.entradas
      → IsCoherente memoria (acierto eq_ic tlb_max_size algoritmo memoria pid pagina t).entradas
  unfolding acierto
  acierto-IsCoherente pid pagina t h = elim (Bool-cases (eq_ic algoritmo "LRU")) [
    | inl l ↦ elim (Option-cases (encontrar_pag_en_tlb pid pagina t.entradas)) [
      | inl n ↦ rw (l, n) h
      | inr (i, s) ↦ rw (l, s) (al_final-IsCoherente memoria i t.entradas h)
    ]
    | inr l ↦ rw l h
  ]

  -- With a coherent TLB a translation gives the address of the page tables and leaves the TLB
  -- coherent.
  pub calcular_direccion_fisica-IsCoherente :
      (tam_pagina ahora pid : ℕ) (dir : ℤ) (t : Tlb)
      → IsCoherente memoria t.entradas
      → let s =
          calcular_direccion_fisica eq_ic tlb_max_size algoritmo memoria tam_pagina ahora pid dir
            t in
        (s.0
          ≡ direccion_fisica tam_pagina
              (buscar_en_tabla_de_paginas memoria pid (numero_pagina tam_pagina dir))
              dir)
        × IsCoherente memoria s.1.entradas
  unfolding calcular_direccion_fisica obtener_marco
  calcular_direccion_fisica-IsCoherente tam_pagina ahora pid dir t h =
      let pagina = numero_pagina tam_pagina dir in
      let m = buscar_en_tlb pid pagina t.entradas in
      elim (Bool-cases (eqb_ℤ m (negsuc 0))) [
        | inl c ↦ rw c (refl, fallo_tlb-IsCoherente ahora pid pagina t h)
        | inr c ↦ elim (buscar_en_tlb-IsCoherente memoria pid pagina t.entradas h) [
          | inl q ↦ ground (arith, eqb_ℤ_iff m (negsuc 0))
          | inr q ↦
              rw c
                (ap (λ x. direccion_fisica tam_pagina x dir) q, acierto-IsCoherente pid pagina t h)
        ]
      ]

  length-fallo_tlb :
      (ahora pid : ℕ) (pagina marco : ℤ) (t : Tlb)
      → length t.entradas ≤ tlb_max_size
      → length (fallo_tlb eq_ic tlb_max_size algoritmo memoria ahora pid pagina marco t).entradas
        ≤ tlb_max_size
  unfolding fallo_tlb
  length-fallo_tlb ahora pid pagina marco t h =
      let e : TlbEntry = record { pid = pid; pagina = pagina; marco = marco } in
      elim (Bool-cases (ltb 0 tlb_max_size)) [
        | inl c ↦ rw c (elim (agregar_entrada_tlb-entradas eq_ic tlb_max_size algoritmo ahora e t) [
          | inl q ↦ rw q h
          | inr (inl q) ↦ rw q (length-reemplazo e t.entradas c h)
          | inr (inr q) ↦ rw (q.1) (ground (arith, length-append t.entradas (e ∷ []), q.0))
        ])
        | inr c ↦ rw c h
      ]

  length-acierto :
      (pid : ℕ) (pagina : ℤ) (t : Tlb)
      → length (acierto eq_ic tlb_max_size algoritmo memoria pid pagina t).entradas
        ≡ length t.entradas
  unfolding acierto
  length-acierto pid pagina t = elim (Bool-cases (eq_ic algoritmo "LRU")) [
    | inl l ↦ elim (Option-cases (encontrar_pag_en_tlb pid pagina t.entradas)) [
      | inl n ↦ rw (l, n) refl
      | inr (i, s) ↦ rw (l, s) (length-al_final i t.entradas)
    ]
    | inr l ↦ rw l refl
  ]

  -- A cache within its size stays within it when an address is translated, under any algorithm and
  -- for any answer of the memory.
  pub length-calcular_direccion_fisica :
      (tam_pagina ahora pid : ℕ) (dir : ℤ) (t : Tlb)
      → length t.entradas ≤ tlb_max_size
      → length
          (calcular_direccion_fisica eq_ic tlb_max_size algoritmo memoria tam_pagina ahora pid dir
            t).1.entradas
        ≤ tlb_max_size
  unfolding calcular_direccion_fisica obtener_marco
  length-calcular_direccion_fisica tam_pagina ahora pid dir t h =
      let pagina = numero_pagina tam_pagina dir in
      elim (Bool-cases (eqb_ℤ (buscar_en_tlb pid pagina t.entradas) (negsuc 0))) [
        | inl c ↦
            rw c (
              length-fallo_tlb ahora pid pagina (buscar_en_tabla_de_paginas memoria pid pagina) t h)
        | inr c ↦ rw (c, length-acierto pid pagina t) h
      ]
