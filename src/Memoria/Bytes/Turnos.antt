-- ===== src/Memoria/Bytes/Turnos.antt =====
-- memoria/src/memoria-utils/memoria.c: the turns of the loops that read and write.
use tp_sistemas_operativos_c.Common.{
  ℕ, zero, suc, ◌+◌, ◌-◌, ◌*◌, ◌≤◌, ◌<◌, List, [], ◌∷◌, Option, length, drop, ltb, arith, inl, inr,
  Bool-cases, Option-cases,
}
use tp_sistemas_operativos_c.Memoria.Bytes.{
  Acceso, hecho, fuera, sin_turnos, de_un_turno, escribir_desde, leer_desde,
}
use tp_sistemas_operativos_c.Memoria.Bytes.{◌>>=◌}
use tp_sistemas_operativos_c.Memoria.Bytes.Recorrido.{length-drop}

-- The loop ended within its turns.
abbrev pub Termina : {A : Type 0} → Acceso A → Type 0
Termina (hecho a) = Unit
Termina fuera = Unit
Termina sin_turnos = ⊥

pub Termina-bind :
    {A B : Type 0} (r : Acceso A) (g : A → B) → Termina r → Termina (r >>= λ a. hecho (g a))
Termina-bind (hecho a) g h = tt
Termina-bind fuera g h = tt
Termina-bind sin_turnos g h = h

module _ (tam_pagina tam_memoria : ℕ) (marcos : ℕ → Option ℕ) where
  pub escribir_desde-Termina :
      (turnos marco offset siguiente : ℕ) (datos : List ℕ) (f : ℕ → ℕ)
      → length datos ≤ turnos
      → offset < tam_pagina
      → Termina (escribir_desde tam_pagina tam_memoria marcos turnos marco offset siguiente datos f)
  unfolding escribir_desde
  escribir_desde-Termina turnos marco offset siguiente [] f h o = tt
  escribir_desde-Termina zero marco offset siguiente (b ∷ bs) f h o = absurd (omega (arith, h))
  escribir_desde-Termina (suc turnos) marco offset siguiente (b ∷ bs) f h o =
      let n = de_un_turno (length (b ∷ bs)) (tam_pagina - offset) in
      elim (Bool-cases (ltb tam_memoria (marco * tam_pagina + offset + n))) [
        | inl t ↦ rw (escribir_desde, t) tt
        | inr t ↦
            rw (escribir_desde, t)
              (elim (Option-cases (marcos siguiente)) [
                | inl x ↦ rw (escribir_desde, x) tt
                | inr (marco', x) ↦ rw x (
                    escribir_desde-Termina turnos marco' 0 (suc siguiente) (drop n (b ∷ bs)) _
                      (ground (arith, length-drop n (b ∷ bs))) (omega (arith, o)))
              ])
      ]

  pub leer_desde-Termina :
      (turnos marco offset siguiente n : ℕ) (f : ℕ → ℕ)
      → n ≤ turnos
      → offset < tam_pagina
      → Termina (leer_desde tam_pagina tam_memoria marcos turnos marco offset siguiente n f)
  unfolding leer_desde
  leer_desde-Termina turnos marco offset siguiente zero f h o = tt
  leer_desde-Termina zero marco offset siguiente (suc m) f h o = absurd (omega (arith, h))
  leer_desde-Termina (suc turnos) marco offset siguiente (suc m) f h o =
      let n = de_un_turno (suc m) (tam_pagina - offset) in
      elim (Bool-cases (ltb tam_memoria (marco * tam_pagina + offset + n))) [
        | inl t ↦ rw (leer_desde, t) tt
        | inr t ↦
            rw (leer_desde, t)
              (elim (Option-cases (marcos siguiente)) [
                | inl x ↦ rw (leer_desde, x) tt
                | inr (marco', x) ↦
                    rw (leer_desde, x)
                      (Termina-bind _ _ (
                        leer_desde-Termina turnos marco' 0 (suc siguiente) (suc m - n) f
                          (ground arith) (omega (arith, o))))
              ])
      ]
