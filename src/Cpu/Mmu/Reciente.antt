-- ===== src/Cpu/Mmu/Reciente.antt =====
-- mmu.c and TLB.c: under LRU the last entry of the cache is the page asked for.
use tp_sistemas_operativos_c.Common.{
  ℕ, suc, ◌==◌, ◌≡◌, ◌≤◌, refl, ap, Bool, true, String, List, [], ◌∷◌, ◌++◌, Option, none, some,
  length, ltb, ℤ, negsuc, eqb_ℤ, eqb_ℤ_iff, ==_iff, arith, ◌⊎◌, inl, inr, Bool-cases,
}
use tp_sistemas_operativos_c.Cpu.Tlb.{
  TlbEntry, Tlb, sin_primera, encontrar_pag_en_tlb, agregar_entrada_tlb, tlb_llena,
  tlb_agregar_fifo, anotar_peticion,
}
use tp_sistemas_operativos_c.Cpu.Mmu.{buscar_en_tlb, al_final, acierto, fallo_tlb, obtener_marco}

-- The two searches agree: neither finds the page, or its first entry can be moved to the end.
abbrev pub Hallada : ℕ → ℤ → List TlbEntry → Option ℕ → ℤ → Type 0
Hallada pid pagina es o m =
    ((o ≡ none) × (m ≡ negsuc 0))
    ⊎ ((i : ℕ) × (viejas : List TlbEntry) × (o ≡ some i)
        × (al_final i es ≡ viejas ++ (record { pid = pid; pagina = pagina; marco = m } ∷ [])))

ltb-1 : {n : ℕ} → 1 ≤ n → ltb 0 n ≡ true
ltb-1 h = ground arith

mas_adelante :
    (pid : ℕ) (pagina : ℤ) (e : TlbEntry) (es : List TlbEntry)
    → Hallada pid pagina es (encontrar_pag_en_tlb pid pagina es) (buscar_en_tlb pid pagina es)
    → Hallada pid pagina
        (e ∷ es)
        (elim (encontrar_pag_en_tlb pid pagina es) [ none ↦ none | some i ↦ some (suc i) ])
        (buscar_en_tlb pid pagina es)
unfolding al_final
mas_adelante pid pagina e es (inl n) = inl (rw (n.0) refl, n.1)
mas_adelante pid pagina e es (inr (i, viejas, q, r)) =
    inr (suc i, e ∷ viejas, rw q refl, ap (λ x. e ∷ x) r)

-- What is found by the index is what the first search found, and it goes to the end.
pub al_final-encontrar :
    (pid : ℕ) (pagina : ℤ) (es : List TlbEntry)
    → Hallada pid pagina es (encontrar_pag_en_tlb pid pagina es) (buscar_en_tlb pid pagina es)
unfolding encontrar_pag_en_tlb buscar_en_tlb al_final
al_final-encontrar pid pagina [] = inl (refl, refl)
al_final-encontrar pid pagina (e ∷ es) =
    let despues = mas_adelante pid pagina e es (al_final-encontrar pid pagina es) in
    elim (Bool-cases (e.pid == pid)) [
      | inl p ↦ elim (Bool-cases (eqb_ℤ e.pagina pagina)) [
        | inl q ↦ inr (
          0,
          es,
          rw (p, q) refl,
          rw (p, q)
              (λ i.
                es
                ++ (record {
                  pid = (==_iff e.pid pid).0 p i;
                  pagina = (eqb_ℤ_iff e.pagina pagina).0 q i;
                  marco = e.marco;
                }
                    ∷ [])),
        )
        | inr q ↦ rw (p, q) despues
      ]
      | inr p ↦ elim (Bool-cases (eqb_ℤ e.pagina pagina)) [
        | inl q ↦ rw (p, q) despues
        | inr q ↦ rw (p, q) despues
      ]
    ]

-- Under LRU, with room for an entry, the last entry after a translation is the page asked for with
-- the frame answered.
pub obtener_marco-reciente :
    (eq_ic : String → String → Bool) (tlb_max_size : ℕ) (algoritmo : String)
    (memoria : ℕ → ℤ → Option ℤ) (ahora pid : ℕ) (pagina : ℤ) (t : Tlb)
    → eq_ic algoritmo "LRU" ≡ true
    → 1 ≤ tlb_max_size
    → let s = obtener_marco eq_ic tlb_max_size algoritmo memoria ahora pid pagina t in
      (viejas : List TlbEntry) × (s.1.entradas
        ≡ viejas ++ (record { pid = pid; pagina = pagina; marco = s.0 } ∷ []))
unfolding obtener_marco acierto fallo_tlb agregar_entrada_tlb tlb_llena tlb_agregar_fifo
    anotar_peticion
obtener_marco-reciente eq_ic tlb_max_size algoritmo memoria ahora pid pagina t l h =
    let m = buscar_en_tlb pid pagina t.entradas in
    elim (Bool-cases (eqb_ℤ m (negsuc 0))) [
      | inl c ↦ elim (Bool-cases (length t.entradas == tlb_max_size)) [
        | inl f ↦ elim (Bool-cases (eq_ic algoritmo "FIFO")) [
          | inl g ↦ (sin_primera t.entradas, rw (c, ltb-1 h, f, g, l) refl)
          | inr g ↦ (sin_primera t.entradas, rw (c, ltb-1 h, f, g, l) refl)
        ]
        | inr f ↦ (t.entradas, rw (c, ltb-1 h, f, l) refl)
      ]
      | inr c ↦ elim (al_final-encontrar pid pagina t.entradas) [
        | inl n ↦ ground (arith, n.1)
        | inr (i, viejas, q, r) ↦ (viejas, rw (c, l, q) r)
      ]
    ]
