-- ===== src/Cpu/Registros/Aritmetica.antt =====
-- instrucciones.c: SET, SUM and SUB modulo the width of the register.
use tp_sistemas_operativos_c.Common.{
  ℕ, ◌+◌, ◌-◌, ◌%◌, ◌^◌, ◌<◌, ◌==◌, ◌≡◌, ◌≢◌, refl, sym, ◌∙◌, Bool, String, if◌then◌else◌, not,
  eqb_ℤ, ℤ, pos, negsuc, ◌+ℤ◌, ◌-ℤ◌, arith, some, ◌⊎◌, inl, inr, to_unsigned,
}
use mathlib.Core.Path.{subst}
use tp_sistemas_operativos_c.Utils.Pcb.{Pcb, Registros, IsValid}
use tp_sistemas_operativos_c.Cpu.Registros.{
  int_32, uint_32, valor_del_registro, instruccion_set, instruccion_sum, instruccion_sub,
  instruccion_jnz,
}
use tp_sistemas_operativos_c.Cpu.Registros.Nombres.{
  Registro, ax, bx, cx, dx, eax, ebx, ecx, edx, si, di, pc, ancho, crudo, leer, escribir,
  registro_de, valor_del_registro_lem, instruccion_set_lem,
}

crudo-escribir :
    (i : Registro) (v : ℤ) (r : Registros) → crudo i (escribir i v r) ≡ to_unsigned (ancho i) v
crudo-escribir i v r = elim i as (λ k. crudo k (escribir k v r) ≡ to_unsigned (ancho k) v) [
  | ax ↦ refl
  | bx ↦ refl
  | cx ↦ refl
  | dx ↦ refl
  | eax ↦ refl
  | ebx ↦ refl
  | ecx ↦ refl
  | edx ↦ refl
  | si ↦ refl
  | di ↦ refl
  | pc ↦ refl
]

crudo-escribir_ne :
    (i j : Registro) (v : ℤ) (r : Registros) → j ≢ i → crudo j (escribir i v r) ≡ crudo j r
crudo-escribir_ne i j v r ne = ground arith

-- Two readings of n values agree modulo 2 ^ 32: the number, or the number less 2 ^ 32.
int_32-cases :
    (n : ℕ) → n < 2 ^ 32 → (int_32 n ≡ pos n) ⊎ ((0 < n) × (int_32 n ≡ negsuc (2 ^ 32 - n - 1)))
int_32-cases n h = ground arith

-- The two readings of a register of a valid set.
leer-cases :
    (i : Registro) (r : Registros)
    → IsValid r
    → i ≢ pc
    → (crudo i r < 2 ^ 32)
      × ((leer i r ≡ pos (crudo i r))
          ⊎ ((0 < crudo i r) × (leer i r ≡ negsuc (2 ^ 32 - crudo i r - 1))))
leer-cases ax r v ne = (ground (arith, v.ax_8), inl refl)
leer-cases bx r v ne = (ground (arith, v.bx_8), inl refl)
leer-cases cx r v ne = (ground (arith, v.cx_8), inl refl)
leer-cases dx r v ne = (ground (arith, v.dx_8), inl refl)
leer-cases eax r v ne = (v.eax_32, int_32-cases r.eax v.eax_32)
leer-cases ebx r v ne = (v.ebx_32, int_32-cases r.ebx v.ebx_32)
leer-cases ecx r v ne = (v.ecx_32, int_32-cases r.ecx v.ecx_32)
leer-cases edx r v ne = (v.edx_32, int_32-cases r.edx v.edx_32)
leer-cases si r v ne = (v.si_32, int_32-cases r.si v.si_32)
leer-cases di r v ne = (v.di_32, int_32-cases r.di v.di_32)
leer-cases pc r v ne = (v.pc_32, absurd (ne refl))

suma_32 :
    (x y : ℤ) (a b : ℕ)
    → a < 2 ^ 32
    → b < 2 ^ 32
    → (x ≡ pos a) ⊎ ((0 < a) × (x ≡ negsuc (2 ^ 32 - a - 1)))
    → (y ≡ pos b) ⊎ ((0 < b) × (y ≡ negsuc (2 ^ 32 - b - 1)))
    → (to_unsigned (2 ^ 32) (x +ℤ y) ≡ (a + b) % 2 ^ 32)
      × (to_unsigned 256 (x +ℤ y) ≡ (a + b) % 256)
unfolding ◌+ℤ◌
suma_32 x y a b ha hb (inl p) (inl q) = rw (p, q) (ground arith)
suma_32 x y a b ha hb (inl p) (inr q) = rw (p, q.1) (ground arith)
suma_32 x y a b ha hb (inr p) (inl q) = rw (p.1, q) (ground arith)
suma_32 x y a b ha hb (inr p) (inr q) = rw (p.1, q.1) (ground arith)

resta_32 :
    (x y : ℤ) (a b : ℕ)
    → a < 2 ^ 32
    → b < 2 ^ 32
    → (x ≡ pos a) ⊎ ((0 < a) × (x ≡ negsuc (2 ^ 32 - a - 1)))
    → (y ≡ pos b) ⊎ ((0 < b) × (y ≡ negsuc (2 ^ 32 - b - 1)))
    → (to_unsigned (2 ^ 32) (x -ℤ y) ≡ (a + (2 ^ 32 - b)) % 2 ^ 32)
      × (to_unsigned 256 (x -ℤ y) ≡ (a + (2 ^ 32 - b)) % 256)
unfolding ◌-ℤ◌
resta_32 x y a b ha hb (inl p) (inl q) = rw (p, q) (ground arith)
resta_32 x y a b ha hb (inl p) (inr q) = rw (p, q.1) (ground arith)
resta_32 x y a b ha hb (inr p) (inl q) = rw (p.1, q) (ground arith)
resta_32 x y a b ha hb (inr p) (inr q) = rw (p.1, q.1) (ground arith)

ancho-cases : (i : Registro) → (ancho i ≡ 256) ⊎ (ancho i ≡ 2 ^ 32)
ancho-cases i = ground arith

suma :
    (i j : Registro) (r : Registros)
    → IsValid r
    → i ≢ pc
    → j ≢ pc
    → to_unsigned (ancho i) (leer i r +ℤ leer j r) ≡ (crudo i r + crudo j r) % ancho i
suma i j r v hi hj =
    let a = leer-cases i r v hi in
    let b = leer-cases j r v hj in
    let s = suma_32 (leer i r) (leer j r) (crudo i r) (crudo j r) a.0 b.0 a.1 b.1 in
    elim (ancho-cases i) [ inl e ↦ rw e (s.1) | inr e ↦ rw e (s.0) ]

resta :
    (i j : Registro) (r : Registros)
    → IsValid r
    → i ≢ pc
    → j ≢ pc
    → to_unsigned (ancho i) (leer i r -ℤ leer j r) ≡ (crudo i r + (2 ^ 32 - crudo j r)) % ancho i
resta i j r v hi hj =
    let a = leer-cases i r v hi in
    let b = leer-cases j r v hj in
    let s = resta_32 (leer i r) (leer j r) (crudo i r) (crudo j r) a.0 b.0 a.1 b.1 in
    elim (ancho-cases i) [ inl e ↦ rw e (s.1) | inr e ↦ rw e (s.0) ]

crudo-ancho : (i : Registro) (r : Registros) → IsValid r → crudo i r < ancho i
crudo-ancho ax r v = v.ax_8
crudo-ancho bx r v = v.bx_8
crudo-ancho cx r v = v.cx_8
crudo-ancho dx r v = v.dx_8
crudo-ancho eax r v = v.eax_32
crudo-ancho ebx r v = v.ebx_32
crudo-ancho ecx r v = v.ecx_32
crudo-ancho edx r v = v.edx_32
crudo-ancho si r v = v.si_32
crudo-ancho di r v = v.di_32
crudo-ancho pc r v = v.pc_32

-- A register reads as 0 exactly when it holds 0.
salta :
    {A : Type 0} (x y : A) (l : ℤ) (a : ℕ)
    → a < 2 ^ 32
    → (l ≡ pos a) ⊎ ((0 < a) × (l ≡ negsuc (2 ^ 32 - a - 1)))
    → (if not (eqb_ℤ l (pos 0)) then x else y) ≡ (if a == 0 then y else x)
salta x y l a h (inl e) = rw e (ground arith)
salta x y l a h (inr e) = rw (e.1) (let c = e.0 in ground arith)

vuelta :
    (a b m : ℕ)
    → (m ≡ 256) ⊎ (m ≡ 2 ^ 32)
    → a < m
    → b < 2 ^ 32
    → ((a + (2 ^ 32 - b)) % m + b) % m ≡ a
vuelta a b m (inl e) ha hb =
    subst (λ n. ((a + (2 ^ 32 - b)) % n + b) % n ≡ a) (sym e)
      (let h : a < 256 = subst (λ n. a < n) e ha in omega arith)
vuelta a b m (inr e) ha hb =
    subst (λ n. ((a + (2 ^ 32 - b)) % n + b) % n ≡ a) (sym e)
      (let h : a < 2 ^ 32 = subst (λ n. a < n) e ha in omega arith)

module _ (eq_ic : String → String → Bool) where
  -- SET leaves in the register that the text names the value modulo the register's width, and
  -- every other register as it was.
  instruccion_set-crudo :
      (s : String) (i j : Registro) (v : ℤ) (r : Registros)
      → registro_de eq_ic s ≡ some i
      → j ≢ i
      → (crudo i (instruccion_set eq_ic s v r) ≡ to_unsigned (ancho i) v)
        × (crudo j (instruccion_set eq_ic s v r) ≡ crudo j r)
  instruccion_set-crudo s i j v r h ne =
      rw (instruccion_set_lem eq_ic s v r, h) (crudo-escribir i v r, crudo-escribir_ne i j v r ne)

  -- On valid registers SUM leaves in the destination the sum of the two registers modulo the destination's width,
  -- whatever the widths of both, when neither is the program counter, and goes to the next
  -- instruction.
  pub instruccion_sum-crudo :
      (d o : String) (i j : Registro) (p : Pcb) (r : Registros)
      → registro_de eq_ic d ≡ some i
      → registro_de eq_ic o ≡ some j
      → i ≢ pc
      → j ≢ pc
      → IsValid r
      → (crudo i (instruccion_sum eq_ic p d o r).1 ≡ (crudo i r + crudo j r) % ancho i)
        × ((instruccion_sum eq_ic p d o r).0.program_counter ≡ (p.program_counter + 1) % 2 ^ 32)
  unfolding instruccion_sum
  instruccion_sum-crudo d o i j p r hd ho hi hj v =
      rw
        (
          instruccion_set_lem eq_ic d (valor_del_registro eq_ic d r +ℤ valor_del_registro eq_ic o r)
              r,
          valor_del_registro_lem eq_ic d r,
          valor_del_registro_lem eq_ic o r,
          hd,
          ho,
        )
        (crudo-escribir i (leer i r +ℤ leer j r) r ∙ suma i j r v hi hj, refl)

  -- On valid registers, neither the program counter, SUB leaves in the destination the number that SUM takes back to what it was: the difference
  -- modulo the destination's width.
  pub instruccion_sub-crudo :
      (d o : String) (i j : Registro) (p : Pcb) (r : Registros)
      → registro_de eq_ic d ≡ some i
      → registro_de eq_ic o ≡ some j
      → i ≢ pc
      → j ≢ pc
      → IsValid r
      → (crudo i (instruccion_sub eq_ic p d o r).1 + crudo j r) % ancho i ≡ crudo i r
  unfolding instruccion_sub
  instruccion_sub-crudo d o i j p r hd ho hi hj v =
      rw
        (
          instruccion_set_lem eq_ic d (valor_del_registro eq_ic d r -ℤ valor_del_registro eq_ic o r)
              r,
          valor_del_registro_lem eq_ic d r,
          valor_del_registro_lem eq_ic o r,
          hd,
          ho,
        )
        (rw (crudo-escribir i (leer i r -ℤ leer j r) r ∙ resta i j r v hi hj) (
          vuelta (crudo i r) (crudo j r) (ancho i) (ancho-cases i) (crudo-ancho i r v)
            (leer-cases j r v hj).0))

  -- On valid registers, and one other than the program counter, JNZ goes to the given instruction exactly when the register is not 0, and else to the next.
  instruccion_jnz-crudo :
      (s : String) (i : Registro) (p : Pcb) (n : ℤ) (r : Registros)
      → registro_de eq_ic s ≡ some i
      → i ≢ pc
      → IsValid r
      → (instruccion_jnz eq_ic p s n r).program_counter
        ≡ (if crudo i r == 0 then (p.program_counter + 1) % 2 ^ 32 else uint_32 n)
  unfolding instruccion_jnz
  instruccion_jnz-crudo s i p n r h hi v =
      rw (valor_del_registro_lem eq_ic s r, h)
        (salta _ _ (leer i r) (crudo i r) (leer-cases i r v hi).0 (leer-cases i r v hi).1)
