-- ===== src/Entradasalida/Compactacion/Bits.antt =====
-- bloques.c: the loops over the bits, and the free bits that there are.
use tp_sistemas_operativos_c.Common.{
  ℕ, zero, suc, ◌+◌, ◌-◌, ◌≤◌, ◌<◌, ◌≡◌, ◌==◌, ◌⊎◌, refl, Bool, true, false, some, arith,
  Bool-cases, inl, inr,
}
use tp_sistemas_operativos_c.Memoria.Marcos.{contar_desde}
use tp_sistemas_operativos_c.Entradasalida.Compactacion.{saltar_libres, contar_contiguos}

pub saltar_libres_lem :
    (test : ℕ → Bool) (bit n : ℕ)
    → (bit ≤ saltar_libres test bit n)
      × (saltar_libres test bit n ≤ bit + n)
      × ((i : ℕ) → bit ≤ i → i < saltar_libres test bit n → test i ≡ false)
      × ((saltar_libres test bit n ≡ bit + n) ⊎ (test (saltar_libres test bit n) ≡ true))
unfolding saltar_libres
saltar_libres_lem test bit zero =
    (omega arith, omega arith, λ i l u. absurd (omega arith), inl (omega arith))
saltar_libres_lem test bit (suc n) = elim (Bool-cases (test bit)) [
  | inl e ↦ rw e (omega arith, omega arith, λ i l u. absurd (omega arith), inr e)
  | inr e ↦
      let (a, b, c, d) = saltar_libres_lem test (suc bit) n in
      rw e (
        omega (arith, a),
        omega (arith, b),
        λ i l u. elim (Bool-cases (bit == i)) [
          | inl x ↦ ground arith
          | inr x ↦ c i (ground arith) u
        ],
        elim d [ inl x ↦ inl (omega (arith, x)) | inr x ↦ inr x ],
      )
]

corrido :
    (test : ℕ → Bool) (bit n : ℕ)
    → test bit ≡ true
    → ((j : ℕ) → j < n → test (suc bit + j) ≡ true)
    → (j : ℕ) → j < suc n
    → test (bit + j) ≡ true
corrido test bit n x h zero u = let e : bit + 0 ≡ bit = omega arith in rw e x
corrido test bit n x h (suc j) u =
    let e : bit + suc j ≡ suc bit + j = omega arith in rw e (h j (omega arith))

-- With a free bit within its turns, the loop counts the run of set bits.
pub contar_contiguos_lem :
    (test : ℕ → Bool) (turnos bit k : ℕ)
    → k < turnos
    → test (bit + k) ≡ false
    → (n : ℕ) × (contar_contiguos test turnos bit ≡ some n)
      × ((j : ℕ) → j < n → test (bit + j) ≡ true)
      × (test (bit + n) ≡ false)
unfolding contar_contiguos
contar_contiguos_lem test zero bit k h e = absurd (omega arith)
contar_contiguos_lem test (suc turnos) bit k h e = elim (Bool-cases (test bit)) [
  | inr x ↦
      let y : bit + 0 ≡ bit = omega arith in
      (0, rw (contar_contiguos, x) refl, λ j u. absurd (omega arith), rw y x)
  | inl x ↦ elim (Bool-cases (k == 0)) [
    | inl y ↦ let z : bit + k ≡ bit = ground arith in absurd (cc (x, rw z at e))
    | inr y ↦
        let z : bit + k ≡ suc bit + (k - 1) = ground arith in
        let (n, a, b, c) =
          contar_contiguos_lem test turnos (suc bit) (k - 1) (ground arith) (rw z at e) in
        let w : suc bit + n ≡ bit + suc n = omega arith in
        (suc n, rw (contar_contiguos, x, a) refl, corrido test bit n x b, rw w at c)
  ]
]

pub hay_libre :
    (test : ℕ → Bool) (i n : ℕ)
    → contar_desde test i n < n
    → (j : ℕ) × (i ≤ j) × (j < i + n) × (test j ≡ false)
unfolding contar_desde
hay_libre test i zero h = absurd (omega arith)
hay_libre test i (suc n) h = elim (Bool-cases (test i)) [
  | inr e ↦ (i, omega arith, omega arith, e)
  | inl e ↦
      let (j, a, b, c) = hay_libre test (suc i) n (ground arith) in
      (j, omega (arith, a), omega (arith, b), c)
]

pub contar-le : (test : ℕ → Bool) (i n : ℕ) → contar_desde test i n ≤ n
unfolding contar_desde
contar-le test i zero = omega arith
contar-le test i (suc n) = ground (arith, contar-le test (suc i) n)

contar-detras :
    (test : ℕ → Bool) (i n : ℕ) → ((j : ℕ) → i ≤ j → test j ≡ false) → contar_desde test i n ≡ 0
unfolding contar_desde
contar-detras test i zero h = refl
contar-detras test i (suc n) h =
    rw (h i (omega arith)) (omega (arith, contar-detras test (suc i) n (λ j l. h j (omega arith))))

-- The count of set bits that all come first.
pub contar-prefijo :
    (test : ℕ → Bool) (i n p : ℕ)
    → i ≤ p
    → p ≤ i + n
    → ((j : ℕ) → j < p → test j ≡ true)
    → ((j : ℕ) → p ≤ j → test j ≡ false)
    → i + contar_desde test i n ≡ p
unfolding contar_desde
contar-prefijo test i zero p l u h k = omega arith
contar-prefijo test i (suc n) p l u h k = elim (Bool-cases (i == p)) [
  | inl x ↦ let e = contar-detras test i (suc n) (λ j y. k j (ground arith)) in ground (arith, e)
  | inr x ↦
      let e = contar-prefijo test (suc i) n p (ground arith) (omega arith) h k in
      rw (h i (ground arith)) (omega (arith, e))
]
