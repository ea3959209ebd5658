-- ===== src/Entradasalida/Bitmap/Tramos.antt =====
-- bitmap.c: what the loops over a stretch of blocks do to each bit.
use mathlib.Core.Path.{subst}
use tp_sistemas_operativos_c.Common.{
  ℕ, zero, suc, ◌+◌, ◌-◌, ◌≤◌, ◌<◌, ◌==◌, ◌≡◌, refl, ◌∙◌, Bool, true, false, ◌&&◌, not, some, arith,
  if◌then◌else◌, leb, ltb, Bool-cases, Option-cases, inl, inr,
}
use tp_sistemas_operativos_c.Memoria.Marcos.{Bitarray, contar_desde}
use tp_sistemas_operativos_c.Memoria.Marcos.Busqueda.{Primero, buscar_desde_lem}
use tp_sistemas_operativos_c.Entradasalida.Bitmap.{
  limpiar_desde, limpiar_hasta, marcar_desde, todos_libres, get_bit,
}

-- Whether a block lies in the `n` from `i` on.
abbrev pub en_tramo : ℕ → ℕ → ℕ → Bool
en_tramo i n j = leb i j && ltb j (i + n)

not-eq_true : (x : Bool) → not x ≡ true → x ≡ false
not-eq_true true h = cc
not-eq_true false h = refl

not-eq_false : (x : Bool) → not x ≡ false → x ≡ true
not-eq_false true h = refl
not-eq_false false h = cc

contar_desde-ninguno :
    (test : ℕ → Bool) (i n j : ℕ)
    → contar_desde test i n ≡ 0
    → i ≤ j
    → j < i + n
    → test j ≡ true
    → ⊥
unfolding contar_desde
contar_desde-ninguno test i zero j h l u t = omega arith
contar_desde-ninguno test i (suc n) j h l u t = elim (Bool-cases (i == j)) [
  | inl e ↦ ground arith
  | inr e ↦ contar_desde-ninguno test (suc i) n j (omega arith) (ground arith) (omega arith) t
]

module _ (a : Bitarray) where
  pub limpiar_desde-max : (b : a.B) (i n : ℕ) → a.max_bit (limpiar_desde a b i n) ≡ a.max_bit b
  unfolding limpiar_desde
  limpiar_desde-max b i zero = refl
  limpiar_desde-max b i (suc n) =
      limpiar_desde-max (a.clean_bit b i) (suc i) n ∙ a.max_bit-clean_bit b i

  pub marcar_desde-max : (b : a.B) (i n : ℕ) → a.max_bit (marcar_desde a b i n) ≡ a.max_bit b
  unfolding marcar_desde
  marcar_desde-max b i zero = refl
  marcar_desde-max b i (suc n) = marcar_desde-max (a.set_bit b i) (suc i) n ∙ a.max_bit-set_bit b i

  pub limpiar_hasta-max : (b : a.B) (i n : ℕ) → a.max_bit (limpiar_hasta a b i n) ≡ a.max_bit b
  unfolding limpiar_hasta
  limpiar_hasta-max b i zero = refl
  limpiar_hasta-max b i (suc n) =
      limpiar_hasta-max (a.clean_bit b i) (i - 1) n ∙ a.max_bit-clean_bit b i

  pub limpiar_desde-test :
      (b : a.B) (i n j : ℕ)
      → i + n ≤ a.max_bit b
      → a.test_bit (limpiar_desde a b i n) j ≡ (if en_tramo i n j then false else a.test_bit b j)
  unfolding limpiar_desde
  limpiar_desde-test b i zero j h = ground arith
  limpiar_desde-test b i (suc n) j h = ground (
    arith,
    a.max_bit-clean_bit b i,
    limpiar_desde-test (a.clean_bit b i) (suc i) n j,
    a.test_bit-clean_bit b i j,
  )

  pub marcar_desde-test :
      (b : a.B) (i n j : ℕ)
      → i + n ≤ a.max_bit b
      → a.test_bit (marcar_desde a b i n) j ≡ (if en_tramo i n j then true else a.test_bit b j)
  unfolding marcar_desde
  marcar_desde-test b i zero j h = ground arith
  marcar_desde-test b i (suc n) j h = ground (
    arith,
    a.max_bit-set_bit b i,
    marcar_desde-test (a.set_bit b i) (suc i) n j,
    a.test_bit-set_bit b i j,
  )

  -- Downwards from the last block of a stretch.
  pub limpiar_hasta-test :
      (b : a.B) (i n j : ℕ)
      → n ≤ suc i
      → i < a.max_bit b
      → a.test_bit (limpiar_hasta a b i n) j
        ≡ (if en_tramo (suc i - n) n j then false else a.test_bit b j)
  unfolding limpiar_hasta
  limpiar_hasta-test b i zero j h m = ground arith
  limpiar_hasta-test b zero (suc zero) j h m = ground (arith, a.test_bit-clean_bit b 0 j)
  limpiar_hasta-test b zero (suc (suc n)) j h m = absurd (omega arith)
  limpiar_hasta-test b (suc i) (suc n) j h m = ground (
    arith,
    a.max_bit-clean_bit b (suc i),
    limpiar_hasta-test (a.clean_bit b (suc i)) i n j,
    a.test_bit-clean_bit b (suc i) j,
  )

  pub todos_libres-test :
      (b : a.B) (i n j : ℕ)
      → todos_libres a b i n ≡ true
      → i ≤ j
      → j < i + n
      → a.test_bit b j ≡ false
  unfolding todos_libres
  todos_libres-test b i zero j h l u = absurd (omega arith)
  todos_libres-test b i (suc n) j h l u = elim (Bool-cases (i == j)) [
    | inl e ↦ ground arith
    | inr e ↦ ground (arith, todos_libres-test b (suc i) n j)
  ]

  pub todos_libres_de_test :
      (b : a.B) (i n : ℕ)
      → ((j : ℕ) → i ≤ j → j < i + n → a.test_bit b j ≡ false)
      → todos_libres a b i n ≡ true
  unfolding todos_libres
  todos_libres_de_test b i zero h = refl
  todos_libres_de_test b i (suc n) h =
      rw (h i (omega arith) (omega arith))
        (todos_libres_de_test b (suc i) n (λ j l u. h j (omega arith) (omega arith)))

  module _ (block_count : ℕ) where
    -- The block that get_bit answers is the first free one.
    pub get_bit-some :
        (b : a.B) (i : ℕ)
        → get_bit a block_count b ≡ some i
        → (i < block_count) × (a.test_bit b i ≡ false) × ((j : ℕ) → j < i → a.test_bit b j ≡ true)
    unfolding get_bit
    get_bit-some b i e =
        let (l, u, libre, antes) =
          subst (Primero (λ j. not (a.test_bit b j)) 0 block_count) e
            (buscar_desde_lem (λ j. not (a.test_bit b j)) 0 block_count) in
        (omega (arith, u), not-eq_true _ libre, λ j h. not-eq_false _ (antes j (omega arith) h))

    -- It answers one whenever there is a free block.
    pub get_bit-libre :
        (b : a.B) (i : ℕ)
        → i < block_count
        → a.test_bit b i ≡ false
        → (j : ℕ) × (get_bit a block_count b ≡ some j)
    unfolding get_bit
    get_bit-libre b i h libre = elim (Option-cases (get_bit a block_count b)) [
      | inr x ↦ x
      | inl e ↦ absurd (
          contar_desde-ninguno (λ j. not (a.test_bit b j)) 0 block_count i
            (subst (Primero (λ j. not (a.test_bit b j)) 0 block_count) e
              (buscar_desde_lem (λ j. not (a.test_bit b j)) 0 block_count))
            (omega arith) (omega (arith, h)) (rw libre refl))
    ]
