-- ===== src/Memoria/Reparto/Resize.antt =====
-- procesos.c: `redimensionarProceso` on every branch.
use tp_sistemas_operativos_c.Common.{
  ℕ, ◌+◌, ◌-◌, ◌*◌, ◌/◌, ◌<◌, ◌≤◌, ◌==◌, ◌≡◌, ◌≢◌, refl, ap, sym, ◌∙◌, Bool, true, false, List, [],
  ◌∷◌, some, length, if◌then◌else◌, ltb, ℤ, pos, negsuc, arith, Bool-cases, Option-cases, inl, inr,
  ◌⊎◌, suc, zero, get_elem?, get, nat_eq,
}
use mathlib.Core.Path.{subst}
use tp_sistemas_operativos_c.Memoria.Marcos.{Bitarray, cantidad_marcos_libres}
use tp_sistemas_operativos_c.Memoria.Procesos.{
  Proceso, Memoria, menos_1, resize_success, agregar_paginas, redimensionar_en,
  redimensionar_proceso, proceso_por_pid, con_tabla, obtener_tamano_proceso, quitar_paginas,
  buscar_direccion_fisica_en_tabla_de_paginas,
}
use tp_sistemas_operativos_c.Memoria.Reparto.{veces, veces_en, IsDensa, libre, agregar_paginas_lem}

pub proceso_por_pid-pid :
    (pid : ℕ) (ps : List Proceso) (p : Proceso) → proceso_por_pid pid ps ≡ some p → p.pid ≡ pid
unfolding proceso_por_pid
proceso_por_pid-pid pid [] p h = ground arith
proceso_por_pid-pid pid (q ∷ ps) p h = ground (arith, proceso_por_pid-pid pid ps p)

proceso_por_pid-con_tabla :
    (pid : ℕ) (t : List (ℕ × ℕ)) (ps : List Proceso) (p : Proceso)
    → proceso_por_pid pid ps ≡ some p
    → proceso_por_pid pid (con_tabla pid t ps) ≡ some (record p { tabla_de_paginas = t })
unfolding proceso_por_pid con_tabla
proceso_por_pid-con_tabla pid t [] p h = ground arith
proceso_por_pid-con_tabla pid t (q ∷ ps) p h = ground (arith, proceso_por_pid-con_tabla pid t ps p)

veces_en-con_tabla :
    (f pid : ℕ) (t : List (ℕ × ℕ)) (ps : List Proceso) (p : Proceso)
    → proceso_por_pid pid ps ≡ some p
    → veces_en f (con_tabla pid t ps) + veces f p.tabla_de_paginas ≡ veces_en f ps + veces f t
unfolding proceso_por_pid con_tabla veces_en
veces_en-con_tabla f pid t [] p h = ground arith
veces_en-con_tabla f pid t (q ∷ ps) p h = ground (arith, veces_en-con_tabla f pid t ps p)

-- The pages that a size takes.
abbrev pub paginas : ℕ → ℕ → ℕ
paginas tam_pagina tam = (tam + (tam_pagina - 1)) / tam_pagina

module _ (a : Bitarray) (elementos : List (ℕ × ℕ) → List ℕ) (tam_pagina tam_memoria : ℕ) where
  -- The page table and the frames after the loop that adds pages.
  abbrev crecido : ℕ → List (ℕ × ℕ) → a.B → (Bool × List (ℕ × ℕ) × a.B)
  crecido n t b = agregar_paginas a (paginas tam_pagina n - length t) (length t) t b

  abbrev tras_crecer : ℕ → ℕ → Proceso → Memoria a.B → Memoria a.B
  tras_crecer pid n p m = record m {
    procesos = con_tabla pid (crecido n p.tabla_de_paginas m.marcos_libres).1 m.procesos;
    marcos_libres = (crecido n p.tabla_de_paginas m.marcos_libres).2;
  }

  crece :
      (n : ℕ) (p : Proceso) (m : Memoria a.B)
      → length p.tabla_de_paginas < paginas tam_pagina n
      → paginas tam_pagina n - length p.tabla_de_paginas ≤ cantidad_marcos_libres a m.marcos_libres
      → IsDensa p.tabla_de_paginas
      → redimensionar_en a elementos tam_pagina n p m ≡ (resize_success, tras_crecer p.pid n p m)
  unfolding redimensionar_en
  crece n p m c l d =
      let t = p.tabla_de_paginas in
      let k = agregar_paginas_lem a (paginas tam_pagina n - length t) t m.marcos_libres d l in
      let e1 : (length t == paginas tam_pagina n) ≡ false = ground arith in
      let e2 : ltb (cantidad_marcos_libres a m.marcos_libres) (paginas tam_pagina n - length t)
          ≡ false =
        ground arith in
      let e3 : ltb 0 (paginas tam_pagina n - length t) ≡ true = ground arith in rw (e1, e2, e3, k.0)

  con_proceso :
      (pid n : ℕ) (p : Proceso) (m : Memoria a.B)
      → proceso_por_pid pid m.procesos ≡ some p
      → redimensionar_proceso a elementos tam_pagina tam_memoria pid (pos n) m ≡ (
          if ltb tam_memoria n then (menos_1, m) else redimensionar_en a elementos tam_pagina n p m)
  unfolding redimensionar_proceso
  con_proceso pid n p m h = rw (redimensionar_proceso, h)

  tamano :
      (pid : ℕ) (t : List (ℕ × ℕ)) (p : Proceso) (m : Memoria a.B)
      → proceso_por_pid pid m.procesos ≡ some p
      → (b : a.B)
      → obtener_tamano_proceso tam_pagina pid
          (record m { procesos = con_tabla pid t m.procesos; marcos_libres = b })
        ≡ pos (length t * tam_pagina)
  unfolding obtener_tamano_proceso
  tamano pid t p m h b = rw (obtener_tamano_proceso, proceso_por_pid-con_tabla pid t m.procesos p h)

  -- A process whose pages are numbered in order and that asks for more, within the memory and the
  -- free frames, gets
  -- them: RESIZE succeeds, its size is that number of pages, as many frames fewer are free, and
  -- no frame is lost or given twice: each is free or in the page tables as often as before.
  pub redimensionar_proceso-crece :
      (pid n : ℕ) (p : Proceso) (m : Memoria a.B)
      → proceso_por_pid pid m.procesos ≡ some p
      → IsDensa p.tabla_de_paginas
      → n ≤ tam_memoria
      → length p.tabla_de_paginas < paginas tam_pagina n
      → paginas tam_pagina n - length p.tabla_de_paginas ≤ cantidad_marcos_libres a m.marcos_libres
      → let r = redimensionar_proceso a elementos tam_pagina tam_memoria pid (pos n) m in
        (r.0 ≡ resize_success)
        × (obtener_tamano_proceso tam_pagina pid r.1 ≡ pos (paginas tam_pagina n * tam_pagina))
        × (cantidad_marcos_libres a r.1.marcos_libres
              + (paginas tam_pagina n - length p.tabla_de_paginas)
            ≡ cantidad_marcos_libres a m.marcos_libres)
        × ((f : ℕ)
            → veces_en f r.1.procesos + libre a r.1.marcos_libres f
              ≡ veces_en f m.procesos + libre a m.marcos_libres f)
  redimensionar_proceso-crece pid n p m h d l c s =
      let t = p.tabla_de_paginas in
      let k = agregar_paginas_lem a (paginas tam_pagina n - length t) t m.marcos_libres d s in
      let e : ltb tam_memoria n ≡ false = ground arith in
      rw (con_proceso pid n p m h, e, crece n p m c s d, proceso_por_pid-pid pid m.procesos p h)
        (
          refl,
          tamano pid (crecido n t m.marcos_libres).1 p m h (crecido n t m.marcos_libres).2
              ∙ ap (λ x. pos (x * tam_pagina)) (k.1 ∙ (omega arith)),
          k.2,
          λ f. omega (
            arith,
            veces_en-con_tabla f pid (crecido n t m.marcos_libres).1 m.procesos p h,
            k.4 f,
          ),
        )

  rechaza_en :
      (n : ℕ) (p : Proceso) (m : Memoria a.B)
      → IsDensa p.tabla_de_paginas
      → ((redimensionar_en a elementos tam_pagina n p m).0 ≢ menos_1)
        ⊎ (redimensionar_en a elementos tam_pagina n p m ≡ (menos_1, m))
  unfolding redimensionar_en
  rechaza_en n p m d =
      let t = p.tabla_de_paginas in
      let q = paginas tam_pagina n in
      elim (Bool-cases (length t == q)) [
        | inl e ↦ inl (rw (redimensionar_en, e) (ground arith))
        | inr e ↦
            elim (Bool-cases (ltb (cantidad_marcos_libres a m.marcos_libres) (q - length t))) [
              | inl l ↦ inr (rw (redimensionar_en, e, l))
              | inr l ↦ elim (Bool-cases (ltb 0 (q - length t))) [
                | inl c ↦ inl (rw (crece n p m (ground arith) (ground arith) d) (ground arith))
                | inr c ↦ inl (rw (redimensionar_en, e, l, c) (ground arith))
              ]
            ]
      ]

  -- A RESIZE that fails, of a process whose pages are numbered in order, leaves the processes,
  -- their page tables and the frames as they were.
  pub redimensionar_proceso-falla :
      (pid : ℕ) (n : ℤ) (m : Memoria a.B)
      → ((p : Proceso) → proceso_por_pid pid m.procesos ≡ some p → IsDensa p.tabla_de_paginas)
      → (redimensionar_proceso a elementos tam_pagina tam_memoria pid n m).0 ≡ menos_1
      → (redimensionar_proceso a elementos tam_pagina tam_memoria pid n m).1 ≡ m
  unfolding redimensionar_proceso
  redimensionar_proceso-falla pid (negsuc n) m d h = refl
  redimensionar_proceso-falla pid (pos n) m d h =
      elim (Option-cases (proceso_por_pid pid m.procesos)) [
        | inl e ↦ rw (redimensionar_proceso, e)
        | inr (p, e) ↦ elim (Bool-cases (ltb tam_memoria n)) [
          | inl c ↦ rw (con_proceso pid n p m e, c)
          | inr c ↦
              let q : redimensionar_proceso a elementos tam_pagina tam_memoria pid (pos n) m
                  ≡ redimensionar_en a elementos tam_pagina n p m =
                rw (con_proceso pid n p m e, c) in
              elim (rechaza_en n p m (d p e)) [
                | inl ne ↦ absurd (ne (sym (ap (λ r. r.0) q) ∙ h))
                | inr r ↦ ap (λ x. x.1) (q ∙ r)
              ]
        ]
      ]

  -- Each turn of the loop that frees sets the same bit.
  quitar-bit :
      (k n j : ℕ) (b : a.B)
      → k < a.max_bit b
      → a.test_bit (quitar_paginas a (some k) (suc n) b) j
        ≡ (if k == j then true else a.test_bit b j)
  unfolding quitar_paginas
  quitar-bit k zero j b h = a.test_bit-set_bit b k j h
  quitar-bit k (suc n) j b h =
      quitar-bit k n j (a.set_bit b k) (subst (λ x. k < x) (sym (a.max_bit-set_bit b k)) h)
      ∙ ap (λ x. if k == j then true else x) (a.test_bit-set_bit b k j h)
      ∙ dos (k == j) (a.test_bit b j)
    where
      dos : (x y : Bool) → (if x then true else (if x then true else y)) ≡ (if x then true else y)
      dos true y = refl
      dos false y = refl

  achicado :
      (pid n k : ℕ) (p : Proceso) (m : Memoria a.B)
      → proceso_por_pid pid m.procesos ≡ some p
      → n ≤ tam_memoria
      → paginas tam_pagina n < length p.tabla_de_paginas
      → get_elem? (elementos p.tabla_de_paginas) 0 ≡ some k
      → redimensionar_proceso a elementos tam_pagina tam_memoria pid (pos n) m ≡ (
        resize_success,
        record m {
          marcos_libres =
              quitar_paginas a
                (some k)
                (suc (length p.tabla_de_paginas - paginas tam_pagina n - 1))
                m.marcos_libres;
        },
      )
  unfolding redimensionar_en
  achicado pid n k p m h l c g =
      let t = p.tabla_de_paginas in
      let e : ltb tam_memoria n ≡ false = ground arith in
      let e1 : (length t == paginas tam_pagina n) ≡ false = ground arith in
      let z : paginas tam_pagina n - length t ≡ 0 = omega arith in
      let e2 : ltb (cantidad_marcos_libres a m.marcos_libres) 0 ≡ false = ground arith in
      let e3 : length t - paginas tam_pagina n ≡ suc (length t - paginas tam_pagina n - 1) =
        omega arith in
      rw (con_proceso pid n p m h, e, redimensionar_en, e1, z, e2, g)
        (ap
          (λ i. (
            resize_success,
            record m { marcos_libres = quitar_paginas a (some k) i m.marcos_libres },
          ))
          e3)

  -- A RESIZE to fewer pages than a process has, within the memory, whose first listed frame is
  -- that of a page of it, reports success, whatever number of pages it gives up, with that one
  -- frame free and all others as they were, while the process still has the page in that frame and
  -- the size that it had.
  pub redimensionar_proceso-achica :
      (pid n k pagina : ℕ) (p : Proceso) (m : Memoria a.B)
      → proceso_por_pid pid m.procesos ≡ some p
      → n ≤ tam_memoria
      → paginas tam_pagina n < length p.tabla_de_paginas
      → get_elem? (elementos p.tabla_de_paginas) 0 ≡ some k
      → get pagina p.tabla_de_paginas ≡ some k
      → k < a.max_bit m.marcos_libres
      → let r = redimensionar_proceso a elementos tam_pagina tam_memoria pid (pos n) m in
        (r.0 ≡ resize_success)
        × (a.test_bit r.1.marcos_libres k ≡ true)
        × (buscar_direccion_fisica_en_tabla_de_paginas pid (pos pagina) r.1 ≡ some k)
        × ((j : ℕ) → k ≢ j → a.test_bit r.1.marcos_libres j ≡ a.test_bit m.marcos_libres j)
        × (obtener_tamano_proceso tam_pagina pid r.1 ≡ pos (length p.tabla_de_paginas * tam_pagina))
  unfolding obtener_tamano_proceso buscar_direccion_fisica_en_tabla_de_paginas
  redimensionar_proceso-achica pid n k pagina p m h l c g f d =
      let i = length p.tabla_de_paginas - paginas tam_pagina n - 1 in
      rw (achicado pid n k p m h l c g) (
        refl,
        (let e : (k == k) ≡ true = ground arith in quitar-bit k i k m.marcos_libres d ∙ rw e refl),
        rw (buscar_direccion_fisica_en_tabla_de_paginas, h, f) refl,
        λ j ne.
            let e : (k == j) ≡ false = ground arith in
            quitar-bit k i j m.marcos_libres d ∙ rw e refl,
        rw (obtener_tamano_proceso, h) refl,
      )
