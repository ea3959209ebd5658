-- ===== src/Entradasalida/Contenido.antt =====
-- operacionesFS.c: the bytes of the files.
use native.Mathlib.Nat.{mul-le-mul_right}
use tp_sistemas_operativos_c.Common.{
  ℕ, zero, suc, ◌+◌, ◌*◌, ◌≤◌, ◌<◌, ◌≡◌, ◌⊎◌, refl, sym, ap, ◌∙◌, String, true, false, List, some,
  leb, ltb, arith, length, take, replicate, get, str_eq, string_eq, eq_iff, Bool-cases, inl, inr,
  ltb_ℤ, pos, ◌+ℤ◌, ◌-◌,
}
use tp_sistemas_operativos_c.Memoria.Marcos.{Bitarray}
use tp_sistemas_operativos_c.Memoria.Bytes.{copiar, leer}
use tp_sistemas_operativos_c.Memoria.Bytes.Recorrido.{
  copiar-fuera, leer-copiar, leer-cong, length-take,
}
use tp_sistemas_operativos_c.Entradasalida.{Metadata, Fs, sigue, sale, cantidad}
use tp_sistemas_operativos_c.Entradasalida.Operaciones.{
  borrar, delete_archivo, escribir_archivo, leer_archivo, copiar_a, copiar_de,
}
use tp_sistemas_operativos_c.Entradasalida.Disco.{tiene, IsDisco}
use tp_sistemas_operativos_c.Entradasalida.Disco.Bloques.{cantidad-pos, cantidad-cabe}

length-replicate : (n : ℕ) (x : ℕ) → length (replicate n x) ≡ n
length-replicate zero x = refl
length-replicate (suc n) x = ap suc (length-replicate n x)

copiar-ceros : (d n k : ℕ) (f : ℕ → ℕ) → k < n → copiar d (replicate n 0) f (d + k) ≡ 0
unfolding copiar
copiar-ceros d zero k f h = absurd (omega arith)
copiar-ceros d (suc n) zero f h =
    copiar-fuera (suc d) (replicate n 0) _ (d + 0) (inl (omega arith)) ∙ ground arith
copiar-ceros d (suc n) (suc k) f h =
    let e : d + suc k ≡ suc d + k = omega arith in rw e (copiar-ceros (suc d) n k _ (omega arith))

guarda : (n p t : ℕ) → ltb_ℤ (pos n) (pos p +ℤ pos t) ≡ ltb n (p + t)
unfolding ◌+ℤ◌
guarda n p t = ground arith

suma : (p t : ℕ) → pos p +ℤ pos t ≡ pos (p + t)
unfolding ◌+ℤ◌
suma p t = ground arith

ltb-falso : (m n : ℕ) → n ≤ m → ltb m n ≡ false
ltb-falso m n h = ground arith

-- Where a byte of a file lies on the disk.
abbrev pub byte_de : ℕ → Metadata → ℕ → ℕ
byte_de block_size g k = g.bloque_inicial * block_size + k

module _ (a : Bitarray) (block_size block_count : ℕ) (positivo : 0 < block_size) (s : Fs a.B)
    (nombre : String) (f : Metadata) (e : get nombre s.diccionario ≡ some f) where
  module _ (disco : IsDisco a block_size block_count s) (m : String) (g : Metadata)
      (ne : str_eq nombre m ≡ false) (x : get m s.diccionario ≡ some g) where
    separados :
        (f.bloque_inicial + cantidad block_size f ≤ g.bloque_inicial)
        ⊎ (g.bloque_inicial + cantidad block_size g ≤ f.bloque_inicial)
    separados =
        let p = cantidad-pos block_size positivo f in
        let q = cantidad-pos block_size positivo g in
        let nada : (i : ℕ)
            → tiene block_size s.diccionario nombre i ≡ true
            → tiene block_size s.diccionario m i ≡ true
            → ⊥ =
          λ i y z. cc (ne, (eq_iff nombre m).1 (disco.disjuntos nombre m i y z)) in
        elim (Bool-cases (leb (f.bloque_inicial + cantidad block_size f) g.bloque_inicial)) [
          | inl y ↦ inl (ground arith)
          | inr y ↦
              elim (Bool-cases (leb (g.bloque_inicial + cantidad block_size g) f.bloque_inicial)) [
                | inl z ↦ inr (ground arith)
                | inr z ↦ absurd (elim (Bool-cases (leb f.bloque_inicial g.bloque_inicial)) [
                  | inl w ↦ nada g.bloque_inicial (rw e (ground arith)) (rw x (ground arith))
                  | inr w ↦ nada f.bloque_inicial (rw e (ground arith)) (rw x (ground arith))
                ])
              ]
        ]

    -- A copy into the blocks of a file leaves the bytes of another.
    copia_aislada :
        (d : ℕ) (bs : List ℕ) (k : ℕ)
        → f.bloque_inicial * block_size ≤ d
        → d + length bs ≤ (f.bloque_inicial + cantidad block_size f) * block_size
        → k < cantidad block_size g * block_size
        → copiar d bs s.bloques (byte_de block_size g k) ≡ s.bloques (byte_de block_size g k)
    copia_aislada d bs k l u h =
        copiar-fuera d bs s.bloques (byte_de block_size g k) (elim separados [
          | inl y ↦
              let z : (f.bloque_inicial + cantidad block_size f) * block_size
                  ≤ g.bloque_inicial * block_size =
                mul-le-mul_right block_size y in
              inr (omega (arith, z, u))
          | inr y ↦
              let z : (g.bloque_inicial + cantidad block_size g) * block_size
                  ≤ f.bloque_inicial * block_size =
                mul-le-mul_right block_size y in
              inl (grind arith)
        ])

  borrado :
      (delete_archivo a block_size block_count nombre s).bloques
      ≡ copiar
          (f.bloque_inicial * block_size)
          (replicate (cantidad block_size f * block_size) 0)
          s.bloques
  unfolding delete_archivo borrar
  borrado = rw (delete_archivo, e) refl

  -- For blocks of at least 1 byte, and on a disk on which the bitmap and the metadata agree, the
  -- deletion of a file leaves 0 in every byte of its blocks, and leaves every byte of every other
  -- file.
  pub delete_archivo-aislada :
      IsDisco a block_size block_count s
      → ((k : ℕ)
          → k < cantidad block_size f * block_size
          → (delete_archivo a block_size block_count nombre s).bloques (byte_de block_size f k) ≡ 0)
        × ((m : String) (g : Metadata) (k : ℕ)
            → str_eq nombre m ≡ false
            → get m s.diccionario ≡ some g
            → k < cantidad block_size g * block_size
            → (delete_archivo a block_size block_count nombre s).bloques (byte_de block_size g k)
              ≡ s.bloques (byte_de block_size g k))
  delete_archivo-aislada disco =
      let n = cantidad block_size f * block_size in
      (
        λ k h. rw borrado (copiar-ceros (f.bloque_inicial * block_size) n k s.bloques h),
        λ m g k ne x h. rw borrado (
            copia_aislada disco m g ne x (f.bloque_inicial * block_size) (replicate n 0) k
              (omega arith) (let l = length-replicate n 0 in grind (arith, l)) h),
      )

  -- The blocks of a file are on the disk.
  pub en_disco :
      IsDisco a block_size block_count s
      → (f.bloque_inicial + cantidad block_size f) * block_size ≤ block_count * block_size
  en_disco disco =
      let n = cantidad-pos block_size positivo f in
      let u =
        disco.dentro nombre (f.bloque_inicial + cantidad block_size f - 1) (rw e (ground arith)) in
      mul-le-mul_right block_size (omega arith)

  pub escribir_archivo_fuera :
      (puntero tam : ℕ) (dato : List ℕ)
      → ltb f.tam_archivo (puntero + tam) ≡ true
      → escribir_archivo a block_size block_count nombre (pos puntero) (pos tam) dato s ≡ sale
  unfolding escribir_archivo
  escribir_archivo_fuera puntero tam dato y =
      rw (escribir_archivo, e, guarda f.tam_archivo puntero tam, y) refl

  pub leer_archivo_fuera :
      (puntero tam : ℕ)
      → ltb f.tam_archivo (puntero + tam) ≡ true
      → leer_archivo a block_size block_count nombre (pos puntero) (pos tam) s ≡ sale
  unfolding leer_archivo
  leer_archivo_fuera puntero tam y = rw (leer_archivo, e, guarda f.tam_archivo puntero tam, y) refl

  pub leer_lo_que_hay :
      (puntero tam : ℕ)
      → puntero + tam ≤ f.tam_archivo
      → (f.bloque_inicial + cantidad block_size f) * block_size ≤ block_count * block_size
      → (g : ℕ → ℕ)
      → leer_archivo a block_size block_count nombre
          (pos puntero)
          (pos tam)
          (record s { bloques = g })
        ≡ sigue (leer puntero tam g)
  unfolding leer_archivo copiar_de
  leer_lo_que_hay puntero tam dentro d g =
      let y : ltb f.tam_archivo (puntero + tam) ≡ false = ground arith in
      let c = cantidad-cabe block_size positivo f in
      let z : ltb (block_count * block_size) (puntero + tam) ≡ false =
        ltb-falso _ _ (grind (arith, c, d)) in
      rw (leer_archivo, e, guarda f.tam_archivo puntero tam, y, z) refl

  module _ (puntero tam : ℕ) (dato : List ℕ) (dentro : puntero + tam ≤ f.tam_archivo)
      (largo : tam ≤ length dato) where
    abbrev escrito : Fs a.B
    escrito = record s { bloques = copiar (byte_de block_size f puntero) (take tam dato) s.bloques }

    pub escribir :
        (f.bloque_inicial + cantidad block_size f) * block_size ≤ block_count * block_size
        → escribir_archivo a block_size block_count nombre (pos puntero) (pos tam) dato s
          ≡ sigue escrito
    unfolding escribir_archivo copiar_a
    escribir d =
        let y : ltb f.tam_archivo (puntero + tam) ≡ false = ground arith in
        let z : ltb (length dato) tam ≡ false = ground arith in
        let c = cantidad-cabe block_size positivo f in
        let w : ltb (block_count * block_size) (f.bloque_inicial * block_size + puntero + tam)
            ≡ false =
          ltb-falso _ _ (grind (arith, c, d)) in
        rw
          (
            escribir_archivo,
            e,
            guarda f.tam_archivo puntero tam,
            y,
            suma (f.bloque_inicial * block_size) puntero,
            w,
            z,
          )
          refl

    -- For blocks of at least 1 byte, and on a disk on which the bitmap and the metadata agree, a
    -- write of 0 bytes or more at a position of 0 or more within the size of a file, with bytes as
    -- long as asked for, returns with those bytes at the position in the blocks of the file, and
    -- leaves every byte of every other file.
    pub escribir_archivo-aislada :
        IsDisco a block_size block_count s
        → (s' : Fs a.B) × (escribir_archivo a block_size block_count nombre
              (pos puntero)
              (pos tam)
              dato
              s
            ≡ sigue s')
          × (leer (byte_de block_size f puntero) tam s'.bloques ≡ take tam dato)
          × ((m : String) (g : Metadata) (k : ℕ)
              → str_eq nombre m ≡ false
              → get m s.diccionario ≡ some g
              → k < cantidad block_size g * block_size
              → s'.bloques (byte_de block_size g k) ≡ s.bloques (byte_de block_size g k))
    escribir_archivo-aislada disco =
        let q = length-take tam dato largo in
        let c = cantidad-cabe block_size positivo f in
        (
          escrito,
          escribir (en_disco disco),
          rw q at (leer-copiar (byte_de block_size f puntero) (take tam dato) s.bloques),
          λ m g k ne x h.
              copia_aislada disco m g ne x (byte_de block_size f puntero) (take tam dato) k
                (omega arith) (grind (arith, q, c)) h,
        )

    -- A file that starts the disk is read back as it was written.
    leer-escribir_archivo :
        (f.bloque_inicial + cantidad block_size f) * block_size ≤ block_count * block_size
        → f.bloque_inicial ≡ 0
        → (s' : Fs a.B) × (escribir_archivo a block_size block_count nombre
              (pos puntero)
              (pos tam)
              dato
              s
            ≡ sigue s')
          × (leer_archivo a block_size block_count nombre (pos puntero) (pos tam) s'
              ≡ sigue (take tam dato))
    leer-escribir_archivo d z =
        let q = length-take tam dato largo in
        let x : byte_de block_size f puntero ≡ puntero = ground arith in
        (
          escrito,
          escribir d,
          leer_lo_que_hay puntero tam dentro d escrito.bloques
              ∙ ap sigue (
                  ap (λ (d : ℕ). leer d tam escrito.bloques) (sym x)
                  ∙ rw q at (leer-copiar (byte_de block_size f puntero) (take tam dato) s.bloques)),
        )

    -- For blocks of at least 1 byte, a write at a position of 0 or more within the size of a file
    -- whose blocks are on the disk and start behind the position that a read goes to, with bytes
    -- as long as asked for, returns, and the read at the same position after it answers what it
    -- answered before.
    pub leer-escribir_archivo_otro :
        (f.bloque_inicial + cantidad block_size f) * block_size ≤ block_count * block_size
        → puntero + tam ≤ f.bloque_inicial * block_size
        → (s' : Fs a.B) × (escribir_archivo a block_size block_count nombre
              (pos puntero)
              (pos tam)
              dato
              s
            ≡ sigue s')
          × (leer_archivo a block_size block_count nombre (pos puntero) (pos tam) s'
              ≡ leer_archivo a block_size block_count nombre (pos puntero) (pos tam) s)
    leer-escribir_archivo_otro d z =
        let x = leer-cong puntero tam escrito.bloques s.bloques (λ i l u.
          copiar-fuera (byte_de block_size f puntero) (take tam dato) s.bloques i
            (inl (omega arith))) in
        (
          escrito,
          escribir d,
          leer_lo_que_hay puntero tam dentro d escrito.bloques
              ∙ ap sigue x
              ∙ sym (leer_lo_que_hay puntero tam dentro d s.bloques),
        )
