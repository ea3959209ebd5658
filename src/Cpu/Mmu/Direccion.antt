-- ===== src/Cpu/Mmu/Direccion.antt =====
-- mmu.c: the arithmetic of the translation.
use tp_sistemas_operativos_c.Common.{
  ℕ, ◌+◌, ◌*◌, ◌%◌, ◌≡◌, ◌≤◌, ◌<◌, inl, inr, Bool-cases, ltb→lt, ap, sym, ◌∙◌, ltb, suc, pos,
  negsuc, sub_ℕ, pos_part, ◌+ℤ◌, ◌*ℤ◌, int_laws, -ℤ_parts, arith,
}
use native.Mathlib.Nat.{mul-le-mul_right}
use tp_sistemas_operativos_c.Cpu.Mmu.{direccion_fisica, numero_pagina, desplazamiento}

desplazamiento_lem : (tam dir : ℕ) → 1 ≤ tam → desplazamiento tam (pos dir) ≡ pos (dir % tam)
unfolding desplazamiento numero_pagina ◌*ℤ◌
desplazamiento_lem tam dir h = grind (int_laws, -ℤ_parts (pos dir))

direccion_de_marco :
    (tam m d : ℕ) → 1 ≤ tam → direccion_fisica tam (pos m) (pos d) ≡ pos (m * tam + d % tam)
unfolding direccion_fisica ◌*ℤ◌ ◌+ℤ◌
direccion_de_marco tam m d h = rw (desplazamiento_lem tam d h) (ground arith)

menor_resto : {tam : ℕ} (d : ℕ) → 1 ≤ tam → d % tam < tam
menor_resto d h = ground arith

menor : (tam m n d : ℕ) → 1 ≤ tam → m < n → m * tam + d % tam < n * tam
menor tam m n d h c = omega (arith, mul-le-mul_right tam c, menor_resto d h)

-- Quotient and remainder are determined.
pub unico :
    (tam m m' r r' : ℕ) → r < tam → r' < tam → m * tam + r ≡ m' * tam + r' → (m ≡ m') × (r ≡ r')
unico tam m m' r r' h h' q = elim (Bool-cases (ltb m m')) [
  | inl c ↦ omega (arith, mul-le-mul_right tam (ltb→lt m m' c))
  | inr c ↦ elim (Bool-cases (ltb m' m)) [
    | inl c' ↦ omega (arith, mul-le-mul_right tam (ltb→lt m' m c'))
    | inr c' ↦ let e : m ≡ m' = ground arith in (e, omega (arith, ap (λ x. x * tam) e))
  ]
]

desplazamiento-negsuc :
    (tam n : ℕ) → 1 ≤ tam → desplazamiento tam (negsuc n) ≡ sub_ℕ 0 (suc n % tam)
unfolding desplazamiento numero_pagina ◌*ℤ◌
desplazamiento-negsuc tam n h = grind (int_laws, -ℤ_parts (negsuc n))

-- The address before the memory is as far before its frame.
antes_de_marco :
    (tam m n : ℕ)
    → 1 ≤ tam
    → direccion_fisica tam (pos m) (negsuc n) ≡ sub_ℕ (m * tam) (suc n % tam)
unfolding direccion_fisica ◌*ℤ◌ ◌+ℤ◌
antes_de_marco tam m n h = rw (desplazamiento-negsuc tam n h) (ground arith)

-- For a page size of at least 1 and a page with a frame of the memory, the address of a logical
-- address of 0 or more is in that frame and in the memory, at the offset of the logical address;
-- that of a negative one, whose page is found by a division that truncates, is as far before the
-- start of the frame as the remainder says.
pub direccion_fisica-cota :
    (tam m n d : ℕ)
    → 1 ≤ tam
    → m < n
    → (direccion_fisica tam (pos m) (pos d) ≡ pos (m * tam + d % tam))
      × (m * tam + d % tam < (m + 1) * tam)
      × (m * tam + d % tam < n * tam)
      × (direccion_fisica tam (pos m) (negsuc d) ≡ sub_ℕ (m * tam) (suc d % tam))
direccion_fisica-cota tam m n d h c =
    (direccion_de_marco tam m d h, ground arith, menor tam m n d h c, antes_de_marco tam m d h)

-- With pages of at least 1 byte, two translated addresses are the same byte only in the same frame and at the same offset.
direccion_fisica-inj :
    (tam m m' d d' : ℕ)
    → 1 ≤ tam
    → direccion_fisica tam (pos m) (pos d) ≡ direccion_fisica tam (pos m') (pos d')
    → (m ≡ m') × (d % tam ≡ d' % tam)
direccion_fisica-inj tam m m' d d' h q =
    unico tam m m' (d % tam) (d' % tam) (ground arith) (ground arith)
      (ap pos_part (sym (direccion_de_marco tam m d h) ∙ q ∙ direccion_de_marco tam m' d' h))
