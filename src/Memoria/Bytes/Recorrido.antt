-- ===== src/Memoria/Bytes/Recorrido.antt =====
-- memoria/src/memoria-utils/memoria.c: the loop that writes, turn by turn.
use tp_sistemas_operativos_c.Common.{
  ℕ, zero, suc, ◌+◌, ◌-◌, ◌*◌, ◌≤◌, ◌<◌, ◌==◌, ◌≡◌, refl, ap, ◌∙◌, false, List, [], ◌∷◌, ◌++◌,
  Option, some, length, take, drop, if◌then◌else◌, ltb, arith, ◌⊎◌, inl, inr, Bool-cases,
  Option-cases,
}
use tp_sistemas_operativos_c.Memoria.Bytes.{
  Acceso, hecho, fuera, sin_turnos, copiar, leer, de_un_turno, escribir_desde,
}

pub length-take_le : (n : ℕ) (xs : List ℕ) → length (take n xs) ≤ n
length-take_le zero xs = omega arith
length-take_le (suc n) [] = omega arith
length-take_le (suc n) (x ∷ xs) = omega (arith, length-take_le n xs)

pub length-take : (n : ℕ) (xs : List ℕ) → n ≤ length xs → length (take n xs) ≡ n
length-take zero xs h = refl
length-take (suc n) [] h = absurd (omega (arith, h))
length-take (suc n) (x ∷ xs) h = ap suc (length-take n xs (omega (arith, h)))

pub length-drop : (n : ℕ) (xs : List ℕ) → length (drop n xs) ≡ length xs - n
length-drop zero xs = omega arith
length-drop (suc n) [] = omega arith
length-drop (suc n) (x ∷ xs) = omega (arith, length-drop n xs)

pub take-drop : (n : ℕ) (xs : List ℕ) → take n xs ++ drop n xs ≡ xs
take-drop zero xs = refl
take-drop (suc n) [] = refl
take-drop (suc n) (x ∷ xs) = ap (◌∷◌ x) (take-drop n xs)

-- A copy leaves the bytes before it and after it.
pub copiar-fuera :
    (d : ℕ) (bs : List ℕ) (f : ℕ → ℕ) (a : ℕ)
    → (a < d) ⊎ (d + length bs ≤ a)
    → copiar d bs f a ≡ f a
unfolding copiar
copiar-fuera d [] f a h = refl
copiar-fuera d (b ∷ bs) f a (inl h) =
    copiar-fuera (suc d) bs _ a (inl (omega (arith, h))) ∙ ground (arith, h)
copiar-fuera d (b ∷ bs) f a (inr h) =
    copiar-fuera (suc d) bs _ a (inr (omega (arith, h))) ∙ ground (arith, h)

-- What was copied is read back.
pub leer-copiar : (d : ℕ) (bs : List ℕ) (f : ℕ → ℕ) → leer d (length bs) (copiar d bs f) ≡ bs
unfolding leer copiar
leer-copiar d [] f = refl
leer-copiar d (b ∷ bs) f =
    let e : copiar (suc d) bs (λ a. if a == d then b else f a) d ≡ b =
      copiar-fuera (suc d) bs (λ a. if a == d then b else f a) d (inl (omega arith))
      ∙ ground arith in
    rw (e, leer-copiar (suc d) bs (λ a. if a == d then b else f a)) refl

pub leer-cong :
    (d n : ℕ) (f g : ℕ → ℕ) → ((a : ℕ) → d ≤ a → a < d + n → f a ≡ g a) → leer d n f ≡ leer d n g
unfolding leer
leer-cong d zero f g h = refl
leer-cong d (suc n) f g h =
    let e : f d ≡ g d = h d (omega arith) (omega arith) in
    rw (e, leer-cong (suc d) n f g (λ a l u. h a (omega (arith, l)) (omega (arith, u)))) refl

-- What holds of the result of an access, if it ends.
abbrev pub TrasAcceso : {A : Type 0} → (A → Type 0) → Acceso A → Type 0
TrasAcceso P (hecho a) = P a
TrasAcceso P fuera = Unit
TrasAcceso P sin_turnos = Unit

pub TrasAcceso-map :
    {A : Type 0} (P Q : A → Type 0) (r : Acceso A)
    → ((a : A) → P a → Q a)
    → TrasAcceso P r
    → TrasAcceso Q r
TrasAcceso-map P Q (hecho a) h p = h a p
TrasAcceso-map P Q fuera h p = tt
TrasAcceso-map P Q sin_turnos h p = tt

pub TrasAcceso-all :
    {A I : Type 0} (P : I → A → Type 0) (r : Acceso A)
    → ((i : I) → TrasAcceso (P i) r)
    → TrasAcceso (λ a. (i : I) → P i a) r
TrasAcceso-all P (hecho a) h = h
TrasAcceso-all P fuera h = tt
TrasAcceso-all P sin_turnos h = tt

pub TrasAcceso-zip :
    {A : Type 0} (P Q R : A → Type 0) (r : Acceso A)
    → ((a : A) → P a → Q a → R a)
    → TrasAcceso P r
    → TrasAcceso Q r
    → TrasAcceso R r
TrasAcceso-zip P Q R (hecho a) h p q = h a p q
TrasAcceso-zip P Q R fuera h p q = tt
TrasAcceso-zip P Q R sin_turnos h p q = tt

-- An address that is not in a frame.
abbrev pub IsFuera : ℕ → ℕ → ℕ → Type 0
IsFuera tam_pagina marco a = (a < marco * tam_pagina) ⊎ (marco * tam_pagina + tam_pagina ≤ a)

module _ (tam_pagina tam_memoria : ℕ) (marcos : ℕ → Option ℕ) where
  -- The frames of the pages from `n` on are in the memory.
  abbrev pub EstanDentro : ℕ → Type 0
  EstanDentro n =
      (i marco : ℕ) → n ≤ i → marcos i ≡ some marco → marco * tam_pagina + tam_pagina ≤ tam_memoria

  -- With as many turns as bytes the loop that writes ends, within the memory.
  pub escribir_desde-hecho :
      (turnos marco offset siguiente : ℕ) (datos : List ℕ) (f : ℕ → ℕ)
      → length datos ≤ turnos
      → offset < tam_pagina
      → marco * tam_pagina + tam_pagina ≤ tam_memoria
      → EstanDentro siguiente
      → (f' : ℕ → ℕ) × (escribir_desde tam_pagina tam_memoria marcos turnos marco offset siguiente
            datos f
          ≡ hecho f')
  unfolding escribir_desde
  escribir_desde-hecho turnos marco offset siguiente [] f h o m e = (f, refl)
  escribir_desde-hecho zero marco offset siguiente (b ∷ bs) f h o m e = absurd (omega (arith, h))
  escribir_desde-hecho (suc turnos) marco offset siguiente (b ∷ bs) f h o m e =
      let n = de_un_turno (length (b ∷ bs)) (tam_pagina - offset) in
      let dentro : ltb tam_memoria (marco * tam_pagina + offset + n) ≡ false = ground arith in
      rw (escribir_desde, dentro)
        (elim (Option-cases (marcos siguiente)) [
          | inl x ↦ rw (escribir_desde, x) (_, refl)
          | inr (marco', x) ↦ rw x (
              escribir_desde-hecho turnos marco' 0 (suc siguiente) (drop n (b ∷ bs)) _
                (ground (arith, length-drop n (b ∷ bs))) (omega (arith, o))
                (e siguiente marco' (omega arith) x) (λ i k l. e i k (omega (arith, l))))
        ])

  -- The loop that writes changes no byte outside the frames that it may go through.
  pub escribir_desde-fuera :
      (turnos marco offset siguiente : ℕ) (datos : List ℕ) (f : ℕ → ℕ) (a : ℕ)
      → offset < tam_pagina
      → IsFuera tam_pagina marco a
      → ((i k : ℕ) → siguiente ≤ i → marcos i ≡ some k → IsFuera tam_pagina k a)
      → TrasAcceso
          (λ f'. f' a ≡ f a)
          (escribir_desde tam_pagina tam_memoria marcos turnos marco offset siguiente datos f)
  unfolding escribir_desde
  escribir_desde-fuera turnos marco offset siguiente [] f a o m e = refl
  escribir_desde-fuera zero marco offset siguiente (b ∷ bs) f a o m e = tt
  escribir_desde-fuera (suc turnos) marco offset siguiente (b ∷ bs) f a o m e =
      let n = de_un_turno (length (b ∷ bs)) (tam_pagina - offset) in
      let d = marco * tam_pagina + offset in
      let igual : copiar d (take n (b ∷ bs)) f a ≡ f a =
        copiar-fuera d (take n (b ∷ bs)) f a (ground (arith, length-take_le n (b ∷ bs))) in
      elim (Bool-cases (ltb tam_memoria (d + n))) [
        | inl t ↦ rw (escribir_desde, t) tt
        | inr t ↦
            rw (escribir_desde, t)
              (elim (Option-cases (marcos siguiente)) [
                | inl x ↦ rw (escribir_desde, x) igual
                | inr (marco', x) ↦ rw x (
                    TrasAcceso-map (λ f'. f' a ≡ copiar d (take n (b ∷ bs)) f a) (λ f'. f' a ≡ f a)
                      _ (λ f' h. h ∙ igual)
                      (escribir_desde-fuera turnos marco' 0 (suc siguiente) (drop n (b ∷ bs)) _ a
                        (omega (arith, o)) (e siguiente marco' (omega arith) x)
                        (λ i k l. e i k (omega (arith, l)))))
              ])
      ]
