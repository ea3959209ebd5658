-- ===== src/Memoria/Carga.antt =====
-- procesos.c: the instructions that the CPU fetches are those of the process that was created.
use tp_sistemas_operativos_c.Common.{
  ℕ, zero, suc, ◌==◌, ◌≡◌, ◌≢◌, ◌<◌, ◌≤◌, ◌∙◌, refl, true, false, List, [], ◌∷◌, ◌++◌, none, some,
  length, get_elem?, leb, pos, arith, Bool-cases, Option-cases, inl, inr,
}
use tp_sistemas_operativos_c.Memoria.Procesos.{
  Proceso, Memoria, instrucciones_cargadas, proceso_por_pid, crear_proceso, obtener_instruccion,
  fgets, sacar_salto_linea, leer_lineas,
}

proceso_por_pid-append :
    (pid : ℕ) (ps qs : List Proceso)
    → proceso_por_pid pid (ps ++ qs)
      ≡ (elim (proceso_por_pid pid ps) [ none ↦ proceso_por_pid pid qs | some p ↦ some p ])
unfolding proceso_por_pid
proceso_por_pid-append pid [] qs = refl
proceso_por_pid-append pid (p ∷ ps) qs = elim (Bool-cases (p.pid == pid)) [
  | inl e ↦ rw e refl
  | inr e ↦ rw e (proceso_por_pid-append pid ps qs)
]

-- The bytes of a file of these lines.
abbrev pub archivo_de : List (List ℕ) → List ℕ
archivo_de [] = []
archivo_de (l ∷ ls) = l ++ (10 ∷ archivo_de ls)

-- A line has no 0 and no 10.
abbrev pub Limpia : List ℕ → Type 0
Limpia [] = Unit
Limpia (b ∷ bs) = (b ≢ 10) × (b ≢ 0) × Limpia bs

-- Lines that fit in the buffer of `fgets` with their 10 and the 0.
abbrev pub SonLineas : List (List ℕ) → Type 0
SonLineas [] = Unit
SonLineas (l ∷ ls) = Limpia l × (length l ≤ 253) × SonLineas ls

fgets-linea :
    (n : ℕ) (l resto : List ℕ)
    → Limpia l
    → length l < n
    → fgets n (l ++ (10 ∷ resto)) ≡ (l ++ (10 ∷ []), resto)
unfolding fgets
fgets-linea zero l resto v h = absurd (omega arith)
fgets-linea (suc n) [] resto v h = refl
fgets-linea (suc n) (b ∷ l) resto v h =
    let e : (b == 10) ≡ false = ground (arith, v.0) in
    rw (e, fgets-linea n l resto v.2 (omega arith)) refl

sacar_salto_linea-linea : (l : List ℕ) → Limpia l → sacar_salto_linea (l ++ (10 ∷ [])) ≡ l
unfolding sacar_salto_linea
sacar_salto_linea-linea [] v = refl
sacar_salto_linea-linea (b ∷ l) v =
    let e : (b == 10) ≡ false = ground (arith, v.0) in
    let z : (b == 0) ≡ false = ground (arith, v.1) in rw (e, z, sacar_salto_linea-linea l v.2) refl

leer_lineas-suc :
    (n : ℕ) (l resto : List ℕ)
    → leer_lineas (suc n) (l ++ (10 ∷ resto))
      ≡ (let r = fgets 254 (l ++ (10 ∷ resto)) in sacar_salto_linea r.0 ∷ leer_lineas n r.1)
unfolding leer_lineas
leer_lineas-suc n [] resto = refl
leer_lineas-suc n (b ∷ l) resto = refl

leer_lineas-archivo_de :
    (n : ℕ) (ls : List (List ℕ)) → SonLineas ls → length ls ≤ n → leer_lineas n (archivo_de ls) ≡ ls
unfolding leer_lineas
leer_lineas-archivo_de zero [] v h = refl
leer_lineas-archivo_de zero (l ∷ ls) v h = absurd (omega arith)
leer_lineas-archivo_de (suc n) [] v h = refl
leer_lineas-archivo_de (suc n) (l ∷ ls) v h =
    leer_lineas-suc n l (archivo_de ls)
    ∙ rw
        (
          fgets-linea 254 l (archivo_de ls) v.0 (omega (arith, v.1)),
          sacar_salto_linea-linea l v.0,
          leer_lineas-archivo_de n ls v.2 (omega arith),
        )
        refl

abbrev nuevo : ℕ → List (List ℕ) → Proceso
nuevo pid lineas = record { pid = pid; instrucciones = lineas; tabla_de_paginas = [] }

module _ {B : Type 0} where
  creado :
      (lineas : List (List ℕ)) (pid : ℕ) (m : Memoria B)
      → SonLineas lineas
      → length lineas ≤ 1000
      → length m.procesos < m.max_procesos
      → crear_proceso (some (archivo_de lineas)) pid m ≡ (
        some (instrucciones_cargadas pid),
        record m { procesos = m.procesos ++ (nuevo pid lineas ∷ []) },
      )
  unfolding crear_proceso
  creado lineas pid m v c l =
      let e : leb m.max_procesos (length m.procesos) ≡ false = ground arith in
      rw (e, leer_lineas-archivo_de 1000 lineas v c)

  otro_igual :
      (lineas : List (List ℕ)) (pid otro n : ℕ) (m : Memoria B)
      → otro ≢ pid
      → obtener_instruccion otro
          (pos n)
          (record m { procesos = m.procesos ++ (nuevo pid lineas ∷ []) })
        ≡ obtener_instruccion otro (pos n) m
  unfolding obtener_instruccion proceso_por_pid
  otro_igual lineas pid otro n m ne =
      let e' : (pid == otro) ≡ false = ground arith in
      let q = proceso_por_pid-append otro m.procesos (nuevo pid lineas ∷ []) in
      elim (Option-cases (proceso_por_pid otro m.procesos)) [
        | inl e ↦ rw (obtener_instruccion, q, e, proceso_por_pid, e')
        | inr (p, e) ↦ rw (obtener_instruccion, q, e)
      ]

  -- In a memory with fewer processes than it may have, a process created with a new PID from a
  -- file of at most 1000 lines, each ended by a newline, of at most 253 bytes and with no null
  -- byte, answers as loaded; its n-th instruction is then the n-th line of that file, none past
  -- the end, and those of every other process are as before.
  pub obtener_instruccion-crear_proceso :
      (lineas : List (List ℕ)) (pid otro n : ℕ) (m : Memoria B)
      → SonLineas lineas
      → length lineas ≤ 1000
      → length m.procesos < m.max_procesos
      → proceso_por_pid pid m.procesos ≡ none
      → otro ≢ pid
      → let r = crear_proceso (some (archivo_de lineas)) pid m in
        (r.0 ≡ some (instrucciones_cargadas pid))
        × (obtener_instruccion pid (pos n) r.1 ≡ get_elem? lineas n)
        × (obtener_instruccion otro (pos n) r.1 ≡ obtener_instruccion otro (pos n) m)
  unfolding obtener_instruccion proceso_por_pid
  obtener_instruccion-crear_proceso lineas pid otro n m v c l h ne =
      let e : (pid == pid) ≡ true = ground arith in
      rw (creado lineas pid m v c l) (
        refl,
        rw (
          obtener_instruccion,
          proceso_por_pid-append pid m.procesos (nuevo pid lineas ∷ []),
          h,
          e,
        ),
        otro_igual lineas pid otro n m ne,
      )
