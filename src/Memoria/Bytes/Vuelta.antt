-- ===== src/Memoria/Bytes/Vuelta.antt =====
-- memoria/src/memoria-utils/memoria.c: the loop that writes and then the loop that reads.
use native.Mathlib.Nat.{mul-le-mul_right}
use tp_sistemas_operativos_c.Common.{
  ℕ, zero, suc, ◌+◌, ◌-◌, ◌*◌, ◌≤◌, ◌<◌, ◌≡◌, ◌≢◌, refl, ap, sym, ◌∙◌, false, List, [], ◌∷◌, Option,
  none, some, length, take, drop, ltb, ltb→lt, arith, inl, inr, Bool-cases, Option-cases,
}
use tp_sistemas_operativos_c.Memoria.Bytes.{
  hecho, copiar, leer, de_un_turno, escribir_desde, leer_desde,
}
use tp_sistemas_operativos_c.Memoria.Bytes.Recorrido.{
  length-take, length-drop, take-drop, leer-copiar, leer-cong, TrasAcceso, TrasAcceso-all,
  TrasAcceso-zip, IsFuera, escribir_desde-fuera,
}

take-length : (xs : List ℕ) → take (length xs) xs ≡ xs
take-length [] = refl
take-length (x ∷ xs) = ap (◌∷◌ x) (take-length xs)

IsFuera-otro : (tam k l a : ℕ) → k ≢ l → k * tam ≤ a → a < k * tam + tam → IsFuera tam l a
IsFuera-otro tam k l a ne lo hi = elim (Bool-cases (ltb k l)) [
  | inl c ↦ inl (omega (arith, lo, hi, mul-le-mul_right tam (ltb→lt k l c)))
  | inr c ↦ inr (omega (arith, lo, mul-le-mul_right tam (ltb→lt l k (ground (arith, ne, c)))))
]

module _ (tam_pagina tam_memoria : ℕ) (marcos : ℕ → Option ℕ) where
  abbrev pub HayPaginas : ℕ → ℕ → ℕ → Type 0
  HayPaginas offset siguiente n =
      (j : ℕ)
      → j * tam_pagina + (tam_pagina - offset) < n
      → (k : ℕ) × (marcos (siguiente + j) ≡ some k)

  abbrev pub AreDistintas : ℕ → Type 0
  AreDistintas n = (i j k l : ℕ) → n ≤ i → i < j → marcos i ≡ some k → marcos j ≡ some l → k ≢ l

  -- One turn of the loop that reads, with what the rest of it reads.
  juntar :
      (turnos marco marco' offset siguiente : ℕ) (b : ℕ) (bs : List ℕ) (f : ℕ → ℕ)
      → let n = de_un_turno (length (b ∷ bs)) (tam_pagina - offset) in
        ltb tam_memoria (marco * tam_pagina + offset + n) ≡ false
        → marcos siguiente ≡ some marco'
        → leer (marco * tam_pagina + offset) n f ≡ take n (b ∷ bs)
        → leer_desde tam_pagina tam_memoria marcos turnos marco' 0
            (suc siguiente)
            (length (drop n (b ∷ bs)))
            f
          ≡ hecho (drop n (b ∷ bs))
        → leer_desde tam_pagina tam_memoria marcos
            (suc turnos)
            marco
            offset
            siguiente
            (length (b ∷ bs))
            f
          ≡ hecho (b ∷ bs)
  unfolding leer_desde
  juntar turnos marco marco' offset siguiente b bs f t x e1 e2 =
      let n = de_un_turno (length (b ∷ bs)) (tam_pagina - offset) in
      let e3 : leer_desde tam_pagina tam_memoria marcos turnos marco' 0 (suc siguiente)
            (suc (length bs) - n) f
          ≡ hecho (drop n (b ∷ bs)) =
        ap (λ m. leer_desde tam_pagina tam_memoria marcos turnos marco' 0 (suc siguiente) m f)
          (sym (length-drop n (b ∷ bs)))
        ∙ e2 in
      rw (leer_desde, t) (rw (leer_desde, x) (rw (e1) (rw e3 (ap hecho (take-drop n (b ∷ bs))))))

  -- The last turn: no page follows.
  ultimo :
      (turnos marco offset siguiente : ℕ) (b : ℕ) (bs : List ℕ) (f : ℕ → ℕ)
      → let n = de_un_turno (length (b ∷ bs)) (tam_pagina - offset) in
        let d = marco * tam_pagina + offset in
        ltb tam_memoria (d + n) ≡ false
        → marcos siguiente ≡ none
        → length (b ∷ bs) ≤ tam_pagina - offset
        → leer_desde tam_pagina tam_memoria marcos
            (suc turnos)
            marco
            offset
            siguiente
            (length (b ∷ bs))
            (copiar d (take n (b ∷ bs)) f)
          ≡ hecho (b ∷ bs)
  unfolding leer_desde
  ultimo turnos marco offset siguiente b bs f t x le =
      let xs = b ∷ bs in
      let n = de_un_turno (length xs) (tam_pagina - offset) in
      let d = marco * tam_pagina + offset in
      let all : n ≡ length xs = ground arith in
      let tk : take n xs ≡ xs = ap (λ m. take m xs) all ∙ take-length xs in
      let e : leer d n (copiar d (take n xs) f) ≡ xs =
        ap (λ m. leer d m (copiar d (take n xs) f)) (all ∙ ap length (sym tk))
        ∙ leer-copiar d (take n xs) f
        ∙ tk in
      rw (leer_desde, t) (rw (leer_desde, x) (ap hecho e))

  pub vuelta :
      (turnos marco offset siguiente : ℕ) (datos : List ℕ) (f : ℕ → ℕ)
      → offset < tam_pagina
      → HayPaginas offset siguiente (length datos)
      → AreDistintas siguiente
      → ((i k : ℕ) → siguiente ≤ i → marcos i ≡ some k → marco ≢ k)
      → TrasAcceso
          (λ f'.
            leer_desde tam_pagina tam_memoria marcos turnos marco offset siguiente (length datos) f'
            ≡ hecho datos)
          (escribir_desde tam_pagina tam_memoria marcos turnos marco offset siguiente datos f)
  unfolding escribir_desde leer_desde
  vuelta turnos marco offset siguiente [] f o h d e = refl
  vuelta zero marco offset siguiente (b ∷ bs) f o h d e = tt
  vuelta (suc turnos) marco offset siguiente (b ∷ bs) f o h d e =
      let xs = b ∷ bs in
      let n = de_un_turno (length xs) (tam_pagina - offset) in
      let dir = marco * tam_pagina + offset in
      let f1 = copiar dir (take n xs) f in
      elim (Bool-cases (ltb tam_memoria (dir + n))) [
        | inl t ↦ rw (escribir_desde, t) tt
        | inr t ↦ elim (Option-cases (marcos siguiente)) [
          | inl x ↦
              rw (escribir_desde, t)
                (rw (escribir_desde, x) (ultimo turnos marco offset siguiente b bs f t x (cabe x)))
          | inr (marco', x) ↦
              rw (escribir_desde, t)
                (rw (escribir_desde, x)
                  (TrasAcceso-zip _ _ _ _
                    (λ f' p q.
                      juntar turnos marco marco' offset siguiente b bs f' t x
                        (leer-cong dir n f' f1 (λ a l u. p (a, l, u)) ∙ trozo) q)
                    (intacto marco' x)
                    (vuelta turnos marco' 0 (suc siguiente) (drop n xs) f1 (omega (arith, o))
                      (mas marco' x) (λ i j k l c. d i j k l (omega (arith, c)))
                      (λ i k c g. d siguiente i marco' k (omega arith) (omega (arith, c)) x g))))
        ]
      ]
    where
      cabe : marcos siguiente ≡ none → length (b ∷ bs) ≤ tam_pagina - offset
      cabe x = elim (Bool-cases (ltb (tam_pagina - offset) (length (b ∷ bs)))) [
        | inl c ↦
            let (k, g) = h 0 (omega (arith, ltb→lt _ _ c)) in
            let g' : marcos siguiente ≡ some k = ap marcos (omega arith) ∙ g in cc
        | inr c ↦ ground (arith, c)
      ]

      trozo :
          let n = de_un_turno (length (b ∷ bs)) (tam_pagina - offset) in
          let dir = marco * tam_pagina + offset in
          leer dir n (copiar dir (take n (b ∷ bs)) f) ≡ take n (b ∷ bs)
      trozo =
          let n = de_un_turno (length (b ∷ bs)) (tam_pagina - offset) in
          let dir = marco * tam_pagina + offset in
          ap (λ m. leer dir m (copiar dir (take n (b ∷ bs)) f))
            (sym (length-take n (b ∷ bs) (ground arith)))
          ∙ leer-copiar dir (take n (b ∷ bs)) f

      intacto :
          (marco' : ℕ)
          → marcos siguiente ≡ some marco'
          → let n = de_un_turno (length (b ∷ bs)) (tam_pagina - offset) in
            let dir = marco * tam_pagina + offset in
            let f1 = copiar dir (take n (b ∷ bs)) f in
            TrasAcceso
              (λ f'. (i : (a : ℕ) × (dir ≤ a) × (a < dir + n)) → f' i.0 ≡ f1 i.0)
              (escribir_desde tam_pagina tam_memoria marcos turnos marco' 0
                (suc siguiente)
                (drop n (b ∷ bs))
                f1)
      intacto marco' x =
          let n = de_un_turno (length (b ∷ bs)) (tam_pagina - offset) in
          let dir = marco * tam_pagina + offset in
          let f1 = copiar dir (take n (b ∷ bs)) f in
          TrasAcceso-all (λ (i : (a : ℕ) × (dir ≤ a) × (a < dir + n)) (f' : ℕ → ℕ). f' i.0 ≡ f1 i.0)
            _
            (λ i.
              let en : i.0 < marco * tam_pagina + tam_pagina = ground (arith, i.2, o) in
              escribir_desde-fuera tam_pagina tam_memoria marcos turnos marco' 0 (suc siguiente)
                (drop n (b ∷ bs)) f1 i.0 (omega (arith, o))
                (IsFuera-otro tam_pagina marco marco' i.0 (e siguiente marco' (omega arith) x)
                  (omega (arith, i.1)) en)
                (λ j k l g.
                  IsFuera-otro tam_pagina marco k i.0 (e j k (omega (arith, l)) g)
                    (omega (arith, i.1)) en))

      mas :
          (marco' : ℕ)
          → marcos siguiente ≡ some marco'
          → HayPaginas 0
              (suc siguiente)
              (length (drop (de_un_turno (length (b ∷ bs)) (tam_pagina - offset)) (b ∷ bs)))
      mas marco' x j c =
          let n = de_un_turno (length (b ∷ bs)) (tam_pagina - offset) in
          let (k, g) = h (suc j) (ground (arith, c, length-drop n (b ∷ bs), o)) in
          (k, ap marcos (omega arith) ∙ g)
