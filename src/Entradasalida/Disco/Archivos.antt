-- ===== src/Entradasalida/Disco/Archivos.antt =====
-- operacionesFS.c: creating, deleting, shrinking and growing a file keep the bitmap and the metadata
-- in agreement.
use tp_sistemas_operativos_c.Common.{
  ℕ, suc, ◌+◌, ◌-◌, ◌≤◌, ◌<◌, ◌≡◌, refl, String, true, false, List, [], ◌∷◌, none, some, arith, get,
  put, get-put, string_eq, str_eq, eq_iff, Bool-cases, Option-cases, inl, inr,
}
use tp_sistemas_operativos_c.Memoria.Marcos.{Bitarray}
use tp_sistemas_operativos_c.Entradasalida.{Metadata, Fs, cantidad}
use tp_sistemas_operativos_c.Entradasalida.Bitmap.{get_bit, marcar_desde, verificar_bitmap}
use tp_sistemas_operativos_c.Entradasalida.Bitmap.Tramos.{
  get_bit-some, limpiar_desde-test, limpiar_desde-max, limpiar_hasta-test, limpiar_hasta-max,
  marcar_desde-test, marcar_desde-max, todos_libres-test,
}
use tp_sistemas_operativos_c.Entradasalida.Diccionario.{cargar_diccionario_nuevo}
use tp_sistemas_operativos_c.Entradasalida.Operaciones.{
  existe, borrar_de, crear_archivo, delete_archivo, achicar, fijar_tam,
}
use tp_sistemas_operativos_c.Entradasalida.Disco.{tiene_bloque, tiene, IsDisco}
use tp_sistemas_operativos_c.Entradasalida.Disco.Bloques.{cantidad_vacio, cantidad-pos}
use tp_sistemas_operativos_c.Entradasalida.Disco.Cambio.{
  Unicos-put, Unicos-remove, get-remove, IsCambio, IsDisco-cambio,
}

existe-borrar_de :
    (n m : String) (l : List String)
    → str_eq n m ≡ false
    → existe m l ≡ true
    → existe m (borrar_de n l) ≡ true
unfolding existe borrar_de
existe-borrar_de n m [] ne h = h
existe-borrar_de n m (x ∷ l) ne h =
    ground (arith, existe-borrar_de n m l, eq_iff x n, eq_iff x m, eq_iff n m)

module _ (a : Bitarray) (block_size block_count : ℕ) (pos : 0 < block_size) (s : Fs a.B)
    (disco : IsDisco a block_size block_count s) where
  creado :
      (nombre : String) (i : ℕ)
      → get_bit a block_count s.bitmap ≡ some i
      → existe nombre s.directorio ≡ false
      → IsCambio a block_size block_count s
          (cargar_diccionario_nuevo nombre i
            (record s { bitmap = a.set_bit s.bitmap i; directorio = nombre ∷ s.directorio }))
          nombre
          (some (record { bloque_inicial = i; tam_archivo = 0 }))
  unfolding cargar_diccionario_nuevo existe
  creado nombre i e no_esta =
      let (dentro, libre, _) = get_bit-some a block_count s.bitmap i e in
      let uno =
        cantidad_vacio block_size pos (record { bloque_inicial = i; tam_archivo = 0 }) refl in
      let nuevo : get nombre s.diccionario ≡ none = elim (Option-cases (get nombre s.diccionario)) [
        | inl x ↦ x
        | inr (f, x) ↦ cc (no_esta, disco.en_directorio nombre x)
      ] in
      record {
        mismo_max = a.max_bit-set_bit s.bitmap i;
        lookup = λ m. get-put nombre m _ s.diccionario;
        bits = λ j.
            let cota = disco.cabe in
            rw nuevo (ground (arith, uno, a.test_bit-set_bit s.bitmap i j));
        propio_o_libre =
            λ j t h. let mismo : j ≡ i = ground (arith, uno) in absurd (cc (mismo, h, libre));
        en_disco = λ j t. ground (arith, uno);
        sin_repetir = Unicos-put nombre _ s.diccionario disco.unicos;
        listado = λ m {f} h. ground (
          arith,
          get-put nombre m (record { bloque_inicial = i; tam_archivo = 0 }) s.diccionario,
          eq_iff nombre m,
          disco.en_directorio m {f = f},
        );
      }

  -- Creating a file keeps the agreement, also when there is no room or the file is there already.
  pub crear_archivo-IsDisco :
      (nombre : String)
      → IsDisco a block_size block_count (crear_archivo a block_size block_count nombre s)
  unfolding crear_archivo
  crear_archivo-IsDisco nombre = elim (Option-cases (get_bit a block_count s.bitmap)) [
    | inl e ↦ rw (crear_archivo, e) disco
    | inr (i, e) ↦ elim (Bool-cases (existe nombre s.directorio)) [
      | inl x ↦ rw (crear_archivo, e, x) disco
      | inr x ↦
          rw (crear_archivo, e, x)
            (IsDisco-cambio a block_size block_count s _ nombre _ disco (creado nombre i e x))
    ]
  ]

  -- A file ends on the disk.
  pub extremo :
      (nombre : String) (f : Metadata)
      → get nombre s.diccionario ≡ some f
      → f.bloque_inicial + cantidad block_size f ≤ block_count
  extremo nombre f e =
      let ultimo = f.bloque_inicial + cantidad block_size f - 1 in
      let p = cantidad-pos block_size pos f in
      let t : tiene block_size s.diccionario nombre ultimo ≡ true = rw e (ground arith) in
      omega (arith, disco.dentro nombre ultimo t)

  borrado :
      (nombre : String) (f : Metadata)
      → get nombre s.diccionario ≡ some f
      → IsCambio a block_size block_count s
          (delete_archivo a block_size block_count nombre s)
          nombre
          none
  unfolding delete_archivo
  borrado nombre f e =
      let cota = extremo nombre f e in
      let cabe = disco.cabe in
      rw (delete_archivo, e)
        (record {
          mismo_max = limpiar_desde-max a s.bitmap f.bloque_inicial (cantidad block_size f);
          lookup = λ m. get-remove nombre m s.diccionario disco.unicos;
          bits = λ j. rw e (
              ground
                (arith, limpiar_desde-test a s.bitmap f.bloque_inicial (cantidad block_size f) j));
          propio_o_libre = λ j t h. cc;
          en_disco = λ j t. cc;
          sin_repetir = Unicos-remove nombre s.diccionario disco.unicos;
          listado = λ m {f = g} h. ground (
            arith,
            get-remove nombre m s.diccionario disco.unicos,
            disco.en_directorio m {f = g},
            existe-borrar_de nombre m s.directorio,
          );
        })

  pub delete_archivo-IsDisco :
      (nombre : String)
      → IsDisco a block_size block_count (delete_archivo a block_size block_count nombre s)
  unfolding delete_archivo
  delete_archivo-IsDisco nombre = elim (Option-cases (get nombre s.diccionario)) [
    | inl e ↦ rw (delete_archivo, e) disco
    | inr (f, e) ↦
        IsDisco-cambio a block_size block_count s _ nombre none disco (borrado nombre f e)
  ]

  module _ (nombre : String) (f : Metadata) (e : get nombre s.diccionario ≡ some f) where
    suyo : (j : ℕ) → tiene_bloque block_size (some f) j ≡ true → a.test_bit s.bitmap j ≡ true
    suyo j t = disco.marcado nombre j (rw e t)

    listado_tras :
        (g : Metadata) (m : String) {h : Metadata}
        → get m (put nombre g s.diccionario) ≡ some h
        → existe m s.directorio ≡ true
    listado_tras g m {h} x = ground (
      arith,
      get-put nombre m g s.diccionario,
      eq_iff nombre m,
      disco.en_directorio m {f = h},
      disco.en_directorio nombre {f = f},
    )

    -- A file that changes its size and keeps its blocks.
    pub fijar_tam-IsDisco :
        (tam : ℕ)
        → cantidad block_size (record f { tam_archivo = tam }) ≡ cantidad block_size f
        → IsDisco a block_size block_count (fijar_tam a block_size block_count nombre f tam s)
    unfolding fijar_tam
    fijar_tam-IsDisco tam q =
        let cota = extremo nombre f e in
        IsDisco-cambio a block_size block_count s _ nombre (some (record f { tam_archivo = tam }))
          disco
          (record {
            mismo_max = refl;
            lookup = λ m. get-put nombre m _ s.diccionario;
            bits = λ j. rw e (ground (arith, q, suyo j));
            propio_o_libre = λ j t h. rw e (ground (arith, q));
            en_disco = λ j t. ground (arith, q);
            sin_repetir = Unicos-put nombre _ s.diccionario disco.unicos;
            listado = listado_tras _;
          })

    -- A file that gives up its last `n` blocks.
    pub achicar-IsDisco :
        (tam n : ℕ)
        → cantidad block_size (record f { tam_archivo = tam }) + n ≡ cantidad block_size f
        → IsDisco a block_size block_count (
            fijar_tam a block_size block_count nombre f tam
              (achicar a block_size block_count f tam n s))
    unfolding fijar_tam achicar
    achicar-IsDisco tam n q =
        let cota = extremo nombre f e in
        let cabe = disco.cabe in
        let p = cantidad-pos block_size pos f in
        let ultimo = f.bloque_inicial + cantidad block_size f - 1 in
        IsDisco-cambio a block_size block_count s _ nombre (some (record f { tam_archivo = tam }))
          disco
          (record {
            mismo_max = limpiar_hasta-max a s.bitmap ultimo n;
            lookup = λ m. get-put nombre m _ s.diccionario;
            bits = λ j. rw e (ground (arith, q, limpiar_hasta-test a s.bitmap ultimo n j, suyo j));
            propio_o_libre = λ j t h. rw e (ground (arith, q));
            en_disco = λ j t. ground (arith, q);
            sin_repetir = Unicos-put nombre _ s.diccionario disco.unicos;
            listado = listado_tras _;
          })

    -- A file that takes the `n` blocks behind it, which are free.
    pub agrandar-IsDisco :
        (tam n : ℕ)
        → cantidad block_size (record f { tam_archivo = tam }) ≡ cantidad block_size f + n
        → verificar_bitmap a block_count s.bitmap (f.bloque_inicial + cantidad block_size f - 1) n
          ≡ true
        → IsDisco a block_size block_count (
            fijar_tam a block_size block_count nombre f tam (record s {
              bitmap =
                  marcar_desde a s.bitmap (suc (f.bloque_inicial + cantidad block_size f - 1)) n;
            }))
    unfolding fijar_tam verificar_bitmap
    agrandar-IsDisco tam n q v =
        let cabe = disco.cabe in
        let p = cantidad-pos block_size pos f in
        let ultimo = f.bloque_inicial + cantidad block_size f - 1 in
        let cota : ultimo + n < block_count = ground arith in
        let libres = todos_libres-test a s.bitmap (suc ultimo) n in
        IsDisco-cambio a block_size block_count s _ nombre (some (record f { tam_archivo = tam }))
          disco
          (record {
            mismo_max = marcar_desde-max a s.bitmap (suc ultimo) n;
            lookup = λ m. get-put nombre m _ s.diccionario;
            bits = λ j.
                rw e (ground (arith, q, marcar_desde-test a s.bitmap (suc ultimo) n j, suyo j));
            propio_o_libre = λ j t h. rw e (ground (arith, q, libres j));
            en_disco = λ j t. ground (arith, q);
            sin_repetir = Unicos-put nombre _ s.diccionario disco.unicos;
            listado = listado_tras _;
          })
