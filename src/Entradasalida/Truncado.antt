-- ===== src/Entradasalida/Truncado.antt =====
-- operacionesFS.c: a truncation, with the compaction that it may need.
use tp_sistemas_operativos_c.Common.{
  ℕ, suc, ◌+◌, ◌-◌, ◌≤◌, ◌<◌, ◌≡◌, ◌⊎◌, refl, ◌∙◌, String, true, false, some, if◌then◌else◌, leb,
  ltb, arith, get, get-put, get-put_self, str_eq, string_eq, Bool-cases, inl, inr, ltb_ℤ, pos,
}
use tp_sistemas_operativos_c.Memoria.Marcos.{Bitarray}
use tp_sistemas_operativos_c.Entradasalida.{
  Metadata, Fs, Salida, sigue, sale, ◌>>=◌, bloques_para, cantidad,
}
use tp_sistemas_operativos_c.Entradasalida.Bitmap.{verificar_bitmap}
use tp_sistemas_operativos_c.Entradasalida.Bitmap.Tramos.{todos_libres_de_test}
use tp_sistemas_operativos_c.Entradasalida.Diccionario.{Diccionario, espacio_libre}
use tp_sistemas_operativos_c.Entradasalida.Operaciones.{
  fijar_tam, agrandar, truncar, truncate_archivo,
}
use tp_sistemas_operativos_c.Entradasalida.Disco.{IsDisco}
use tp_sistemas_operativos_c.Entradasalida.Disco.Bloques.{
  cantidad-pos, cantidad_mover, cantidad_lleno,
}
use tp_sistemas_operativos_c.Entradasalida.Disco.Archivos.{
  fijar_tam-IsDisco, achicar-IsDisco, agrandar-IsDisco,
}
use tp_sistemas_operativos_c.Entradasalida.Reparto.{IsListado}
use tp_sistemas_operativos_c.Entradasalida.Reparto.Suma.{suma, suma-put_otro, suma-remove}
use tp_sistemas_operativos_c.Entradasalida.Compactacion.{compactacion_bloques}
use tp_sistemas_operativos_c.Entradasalida.Compactacion.Avance.{tam_de}
use tp_sistemas_operativos_c.Entradasalida.Compactacion.Contrato.{compactacion_bloques-IsCompacto}
use tp_sistemas_operativos_c.Entradasalida.Compactacion.Compacto.{IsCompacto, disco-sobra}
use tp_sistemas_operativos_c.Entradasalida.Espacio.{hay_espacio, no_hay_espacio}

module _ (a : Bitarray) (block_size block_count : ℕ) (nombre : String) (tam : ℕ)
    (s s' : Fs a.B) where
  -- The file has the size, the others the sizes that they had, and the bitmap agrees.
  pub record IsTruncado : Type 0 where
    pub disco_tras : IsDisco a block_size block_count s'
    pub propio : tam_de (get nombre s'.diccionario) ≡ some tam
    pub ajenos :
        (m : String)
        → str_eq nombre m ≡ false
        → tam_de (get m s'.diccionario) ≡ tam_de (get m s.diccionario)
    pub mismo_directorio : s'.directorio ≡ s.directorio

module _ (a : Bitarray) (block_size block_count : ℕ) (pos_size : 0 < block_size)
    (elementos : Diccionario → Diccionario) (listado : IsListado elementos)
    (memcpy : ℕ → ℕ → ℕ → (ℕ → ℕ) → ℕ → ℕ) (nombre : String) (tam : ℕ) (pos_tam : 0 < tam) where
  abbrev pedidos : ℕ
  pedidos = bloques_para block_size tam

  module _ (s : Fs a.B) (disco : IsDisco a block_size block_count s) (f : Metadata)
      (e : get nombre s.diccionario ≡ some f) where
    truncado :
        (s₁ : Fs a.B)
        → s₁.diccionario ≡ s.diccionario
        → s₁.directorio ≡ s.directorio
        → IsDisco a block_size block_count (fijar_tam a block_size block_count nombre f tam s₁)
        → IsTruncado a block_size block_count nombre tam s
            (fijar_tam a block_size block_count nombre f tam s₁)
    unfolding fijar_tam
    truncado s₁ d x y = record {
      disco_tras = y;
      propio = rw (get-put_self nombre (record f { tam_archivo = tam }) s₁.diccionario) refl;
      ajenos =
          λ m z. rw (get-put nombre m (record f { tam_archivo = tam }) s₁.diccionario, z, d) refl;
      mismo_directorio = x;
    }

    abbrev ultimo_bloque : ℕ
    ultimo_bloque = f.bloque_inicial + cantidad block_size f - 1

    -- With no compaction.
    truncar_directo :
        (otra_vez : Fs a.B → Salida (Fs a.B))
        → (pedidos ≤ cantidad block_size f)
          ⊎ (verificar_bitmap a block_count s.bitmap ultimo_bloque (pedidos - cantidad block_size f)
              ≡ true)
        → (s' : Fs a.B) × (truncar a block_size block_count elementos memcpy otra_vez nombre tam f s
            ≡ sigue s')
          × IsTruncado a block_size block_count nombre tam s s'
    unfolding truncar agrandar
    truncar_directo otra_vez h =
        let q = cantidad_lleno block_size pos_size (record f { tam_archivo = tam }) pos_tam in
        elim (Bool-cases (ltb pedidos (cantidad block_size f))) [
          | inl x ↦ (
            _,
            rw x refl,
            truncado _ refl refl (
                achicar-IsDisco a block_size block_count pos_size s disco nombre f e tam
                  (cantidad block_size f - pedidos) (ground arith)),
          )
          | inr x ↦ elim (Bool-cases (ltb (cantidad block_size f) pedidos)) [
            | inr y ↦ (
              _,
              rw (x, y) refl,
              truncado s refl refl (
                  fijar_tam-IsDisco a block_size block_count pos_size s disco nombre f e tam
                    (ground arith)),
            )
            | inl y ↦ elim h [
              | inl z ↦ absurd (ground arith)
              | inr z ↦ (
                _,
                rw (x, y, z) refl,
                truncado _ refl refl (
                    agrandar-IsDisco a block_size block_count pos_size s disco nombre f e tam
                      (pedidos - cantidad block_size f) (ground arith) z),
              )
            ]
          ]
        ]

    -- The file with the blocks behind it takes as many blocks more.
    suma_agrandada :
        verificar_bitmap a block_count s.bitmap ultimo_bloque (pedidos - cantidad block_size f)
          ≡ true
        → cantidad block_size f ≤ pedidos
        → suma block_size s.diccionario + pedidos ≤ block_count + cantidad block_size f
    unfolding fijar_tam
    suma_agrandada z l =
        let n = pedidos - cantidad block_size f in
        let q = cantidad_lleno block_size pos_size (record f { tam_archivo = tam }) pos_tam in
        let d =
          agrandar-IsDisco a block_size block_count pos_size s disco nombre f e tam n
            (omega (arith, q, l)) z in
        let x = disco-sobra a block_size block_count pos_size _ d in
        let y =
          suma-put_otro block_size nombre f (record f { tam_archivo = tam }) s.diccionario e in
        omega (arith, x, y, q)

    -- Behind the packed files there is room.
    verificar_compacto :
        (s₁ : Fs a.B)
        → IsCompacto a block_size block_count nombre f s s₁
        → suma block_size s.diccionario + pedidos ≤ block_count + cantidad block_size f
        → cantidad block_size f < pedidos
        → verificar_bitmap a block_count s₁.bitmap
            (suma block_size s.diccionario - 1)
            (pedidos - cantidad block_size f)
          ≡ true
    unfolding verificar_bitmap
    verificar_compacto s₁ c h l =
        let n = pedidos - cantidad block_size f in
        let u = suma block_size s.diccionario in
        let p = cantidad-pos block_size pos_size f in
        let r = suma-remove block_size nombre f s.diccionario e in
        let x : leb block_count (u - 1 + n) ≡ false = ground arith in
        rw x (todos_libres_de_test a s₁.bitmap (suc (u - 1)) n (λ j y z. c.bits j ∙ ground arith))

    truncar_compacta :
        (otra_vez : Fs a.B → Salida (Fs a.B))
        → cantidad block_size f < pedidos
        → verificar_bitmap a block_count s.bitmap ultimo_bloque (pedidos - cantidad block_size f)
          ≡ false
        → truncar a block_size block_count elementos memcpy otra_vez nombre tam f s ≡ (
            if ltb_ℤ
              (espacio_libre block_size elementos block_count s.diccionario (cantidad block_size f))
              (pos (cantidad block_size f + (pedidos - cantidad block_size f)))
            then sale
            else (compactacion_bloques a block_size block_count elementos memcpy nombre f s
                >>= otra_vez))
    unfolding truncar agrandar
    truncar_compacta otra_vez h v =
        let x : ltb pedidos (cantidad block_size f) ≡ false = ground arith in
        let y : ltb (cantidad block_size f) pedidos ≡ true = ground arith in rw (x, y, v) refl

    truncate_paso :
        (turnos : ℕ)
        → pedidos ≤ block_count
        → truncate_archivo a block_size block_count elementos memcpy (suc turnos) nombre tam s
          ≡ truncar a block_size block_count elementos memcpy
              (truncate_archivo a block_size block_count elementos memcpy turnos nombre tam)
              nombre
              tam
              f
              s
    unfolding truncate_archivo
    truncate_paso turnos h =
        let x : ltb block_count pedidos ≡ false = ground arith in rw (x, e) refl

    pedidos_caben :
        suma block_size s.diccionario + pedidos ≤ block_count + cantidad block_size f
        → pedidos ≤ block_count
    pedidos_caben h = omega (arith, suma-remove block_size nombre f s.diccionario e)

  -- The truncation after a compaction.
  tras_compactar :
      (s : Fs a.B) (disco : IsDisco a block_size block_count s) (f : Metadata)
      (e : get nombre s.diccionario ≡ some f) (s₁ : Fs a.B)
      → IsCompacto a block_size block_count nombre f s s₁
      → suma block_size s.diccionario + pedidos ≤ block_count + cantidad block_size f
      → cantidad block_size f < pedidos
      → (s' : Fs a.B) × (truncate_archivo a block_size block_count elementos memcpy 1 nombre tam s₁
          ≡ sigue s')
        × IsTruncado a block_size block_count nombre tam s s'
  tras_compactar s disco f e s₁ c h l =
      let u = suma block_size s.diccionario - cantidad block_size f in
      let g : Metadata = record f { bloque_inicial = u } in
      let q = cantidad_mover block_size u f in
      let r = suma-remove block_size nombre f s.diccionario e in
      let ultimo : u + cantidad block_size g - 1 ≡ suma block_size s.diccionario - 1 =
        omega (arith, q, r) in
      let v : verificar_bitmap a block_count s₁.bitmap (u + cantidad block_size g - 1)
            (pedidos - cantidad block_size g)
          ≡ true =
        rw (ultimo, q) (verificar_compacto s disco f e s₁ c h l) in
      let (s', x, y) =
        truncar_directo s₁ c.disco_tras g c.ultimo
          (truncate_archivo a block_size block_count elementos memcpy 0 nombre tam) (inr v) in
      (
        s',
        truncate_paso s₁ c.disco_tras g c.ultimo 0 (pedidos_caben s disco f e h) ∙ x,
        record {
          disco_tras = y.disco_tras;
          propio = y.propio;
          ajenos = λ m z. y.ajenos m z ∙ c.tamanios m;
          mismo_directorio = y.mismo_directorio ∙ c.mismo_directorio;
        },
      )

  -- For blocks of at least 1 byte, and on a disk on which the bitmap and the metadata agree, a
  -- truncation of a file to 1 byte or more for which there is room, wherever the free blocks are,
  -- calls itself once at most and returns: the file has that size, the others the sizes that they
  -- had, and the bitmap and the metadata agree.
  pub truncate_archivo-IsTruncado :
      (s : Fs a.B)
      → IsDisco a block_size block_count s
      → (f : Metadata) → get nombre s.diccionario ≡ some f
      → suma block_size s.diccionario + pedidos ≤ block_count + cantidad block_size f
      → (s' : Fs a.B) × (truncate_archivo a block_size block_count elementos memcpy 2 nombre tam s
          ≡ sigue s')
        × IsTruncado a block_size block_count nombre tam s s'
  truncate_archivo-IsTruncado s disco f e h =
      let cabe = pedidos_caben s disco f e h in
      let otra_vez = truncate_archivo a block_size block_count elementos memcpy 1 nombre tam in
      let paso = truncate_paso s disco f e 1 cabe in
      elim (Bool-cases (leb pedidos (cantidad block_size f))) [
        | inl x ↦ rw paso (truncar_directo s disco f e otra_vez (inl (ground arith)))
        | inr x ↦
            elim (Bool-cases (
              verificar_bitmap a block_count s.bitmap (ultimo_bloque s disco f e)
                (pedidos - cantidad block_size f))) [
                  | inl y ↦ rw paso (truncar_directo s disco f e otra_vez (inr y))
                  | inr y ↦
                      let l : cantidad block_size f < pedidos = ground arith in
                      let (s₁, z, c) =
                        compactacion_bloques-IsCompacto a block_size block_count pos_size s disco
                          elementos listado memcpy nombre f e in
                      rw
                        (
                          paso,
                          truncar_compacta s disco f e otra_vez l y,
                          hay_espacio a block_size block_count pos_size elementos listado s disco
                              pedidos (cantidad block_size f) h (omega (arith, l)),
                          z,
                        )
                        (tras_compactar s disco f e s₁ c h l)
                ]
      ]

  -- For blocks of at least 1 byte, and on a disk on which the bitmap and the metadata agree, a
  -- truncation of a file to 1 byte or more, to no more blocks than the disk has, for which the
  -- free blocks are too few, ends the process.
  pub truncate_archivo-sale :
      (s : Fs a.B)
      → IsDisco a block_size block_count s
      → (f : Metadata) → get nombre s.diccionario ≡ some f
      → pedidos ≤ block_count
      → block_count + cantidad block_size f < suma block_size s.diccionario + pedidos
      → (turnos : ℕ)
      → truncate_archivo a block_size block_count elementos memcpy (suc turnos) nombre tam s ≡ sale
  truncate_archivo-sale s disco f e h l turnos =
      let w = disco-sobra a block_size block_count pos_size s disco in
      let k : cantidad block_size f < pedidos = omega (arith, w, l) in
      elim (Bool-cases (
        verificar_bitmap a block_count s.bitmap (ultimo_bloque s disco f e)
          (pedidos - cantidad block_size f))) [
            | inl y ↦ absurd (omega (arith, suma_agrandada s disco f e y (omega (arith, k)), l))
            | inr y ↦
                rw
                  (
                    truncate_paso s disco f e turnos h,
                    truncar_compacta s disco f e _ k y,
                    no_hay_espacio a block_size block_count pos_size elementos listado s disco
                        pedidos (cantidad block_size f) l (omega (arith, k)),
                  )
                  refl
          ]
