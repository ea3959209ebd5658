-- ===== src/Entradasalida/Compactacion/Contrato.antt =====
-- bloques.c: the compaction as a whole, from a disk on which the bitmap and the metadata agree.
use tp_sistemas_operativos_c.Common.{
  ℕ, suc, ◌+◌, ◌-◌, ◌*◌, ◌≤◌, ◌<◌, ◌≡◌, ◌==◌, refl, ap, ◌∙◌, String, true, false, List, ◌++◌, some,
  if◌then◌else◌, arith, get, put, remove, get-put, get-put_self, str_eq, string_eq, eq_iff,
  Bool-cases, Option-cases, inl, inr, ==_iff, take, replicate,
}
use tp_sistemas_operativos_c.Memoria.Marcos.{Bitarray}
use tp_sistemas_operativos_c.Memoria.Bytes.{copiar, leer}
use tp_sistemas_operativos_c.Entradasalida.{Metadata, Fs, sigue, cantidad}
use tp_sistemas_operativos_c.Entradasalida.Bitmap.{get_bit, marcar_desde, limpiar_desde}
use tp_sistemas_operativos_c.Entradasalida.Bitmap.Tramos.{
  en_tramo, get_bit-some, marcar_desde-test, marcar_desde-max, limpiar_desde-test,
  limpiar_desde-max,
}
use tp_sistemas_operativos_c.Entradasalida.Diccionario.{Diccionario}
use tp_sistemas_operativos_c.Entradasalida.Operaciones.{existe}
use tp_sistemas_operativos_c.Entradasalida.Disco.{tiene, IsDisco}
use tp_sistemas_operativos_c.Entradasalida.Disco.Bloques.{cantidad-pos, cantidad_mover}
use tp_sistemas_operativos_c.Entradasalida.Disco.Cambio.{
  Unicos-put, Unicos-remove, get-remove, IsDisco-cambio,
}
use tp_sistemas_operativos_c.Entradasalida.Disco.Archivos.{extremo}
use tp_sistemas_operativos_c.Entradasalida.Reparto.{ajeno, IsListado}
use tp_sistemas_operativos_c.Entradasalida.Reparto.Suma.{suma}
use tp_sistemas_operativos_c.Entradasalida.Compactacion.{ubicar_al_final, compactacion_bloques}
use tp_sistemas_operativos_c.Entradasalida.Compactacion.Avance.{
  IsAvance, avance-contar, avance-libre,
}
use tp_sistemas_operativos_c.Entradasalida.Compactacion.Recorrido.{compactar_desde_lem}
use tp_sistemas_operativos_c.Entradasalida.Compactacion.Compacto.{IsCompacto, disco-sobra}
use tp_sistemas_operativos_c.Entradasalida.Compactacion.Bits.{contar-prefijo}

module _ (a : Bitarray) (block_size block_count : ℕ) (pos : 0 < block_size) (s : Fs a.B)
    (disco : IsDisco a block_size block_count s) where
  module _ (elementos : Diccionario → Diccionario) (listado : IsListado elementos)
      (memcpy : ℕ → ℕ → ℕ → (ℕ → ℕ) → ℕ → ℕ) (nombre : String) (f : Metadata)
      (e : get nombre s.diccionario ≡ some f) where
    abbrev quitado : Fs a.B
    quitado = record s {
      bitmap = limpiar_desde a s.bitmap f.bloque_inicial (cantidad block_size f);
    }

    quitado-test :
        (i : ℕ)
        → a.test_bit quitado.bitmap i
          ≡ (if tiene block_size s.diccionario nombre i then false else a.test_bit s.bitmap i)
    quitado-test i =
        let cota = extremo a block_size block_count pos s disco nombre f e in
        let cabe = disco.cabe in
        rw e
          (limpiar_desde-test a s.bitmap f.bloque_inicial (cantidad block_size f) i (omega arith))

    al_empezar : IsAvance a block_size block_count nombre f s 0 quitado
    al_empezar = record {
      cabe = rw (limpiar_desde-max a s.bitmap f.bloque_inicial (cantidad block_size f)) disco.cabe;
      reparto = record {
        dentro = λ m i h. disco.dentro m i (ground arith);
        marcado = λ m i h.
            ground (
              arith,
              quitado-test i,
              disco.marcado m i,
              disco.disjuntos nombre m i,
              eq_iff nombre m,
            );
        de_alguno = λ i h.
            let (m, x) = disco.de_alguno i (ground (arith, quitado-test i)) in
            (m, ground (arith, quitado-test i, eq_iff nombre m));
        disjuntos = λ m n i h l. disco.disjuntos m n i (ground arith) (ground arith);
      };
      unicos = disco.unicos;
      propio = e;
      total = refl;
      tamanios = λ m. refl;
      mismo_directorio = refl;
      prefijo = λ i j l. absurd (omega arith);
      apartado = inr (
          let p = cantidad-pos block_size pos f in
          let t : tiene block_size s.diccionario nombre f.bloque_inicial ≡ true =
            rw e (ground arith) in
          quitado-test f.bloque_inicial ∙ rw t refl);
    }

    module _ (s₂ : Fs a.B) (v : IsAvance a block_size block_count nombre f s block_count s₂) where
      abbrev sin_nombre : Fs a.B
      sin_nombre = record s₂ { diccionario = remove nombre s₂.diccionario }

      sin_nombre-tiene :
          (m : String) (i : ℕ)
          → tiene block_size (remove nombre s₂.diccionario) m i
            ≡ ajeno block_size nombre s₂.diccionario m i
      sin_nombre-tiene m i = elim (Bool-cases (str_eq nombre m)) [
        | inl x ↦ rw (x, get-remove nombre m s₂.diccionario v.unicos, x) refl
        | inr x ↦ rw (x, get-remove nombre m s₂.diccionario v.unicos, x) refl
      ]

      en_directorio_tras :
          (m : String) {g : Metadata}
          → get m s₂.diccionario ≡ some g
          → existe m s₂.directorio ≡ true
      en_directorio_tras m {g} x = elim (Option-cases (get m s.diccionario)) [
        | inl y ↦ absurd (cc (rw (x, y) at (v.tamanios m)))
        | inr (h, y) ↦ rw v.mismo_directorio (disco.en_directorio m {f = h} y)
      ]

      sin_nombre-IsDisco : IsDisco a block_size block_count sin_nombre
      sin_nombre-IsDisco = record {
        cabe = v.cabe;
        dentro = λ m i h. v.reparto.dentro m i (rw (sin_nombre-tiene m i) at h);
        marcado = λ m i h. v.reparto.marcado m i (rw (sin_nombre-tiene m i) at h);
        de_alguno = λ i h. let (m, x) = v.reparto.de_alguno i h in (m, rw (sin_nombre-tiene m i) x);
        disjuntos = λ m n i h l.
            v.reparto.disjuntos m n i (rw (sin_nombre-tiene m i) at h)
              (rw (sin_nombre-tiene n i) at l);
        unicos = Unicos-remove nombre s₂.diccionario v.unicos;
        en_directorio = λ m {f = g} x.
            en_directorio_tras m {g = g}
              (ground (arith, get-remove nombre m s₂.diccionario v.unicos));
      }

      module _ (p : ℕ) (g : get_bit a block_count s₂.bitmap ≡ some p) where
        detras_libres : (i : ℕ) → p ≤ i → a.test_bit s₂.bitmap i ≡ false
        detras_libres i h = elim (Bool-cases (a.test_bit s₂.bitmap i)) [
          | inr x ↦ x
          | inl x ↦
              let (_, libre, _) = get_bit-some a block_count s₂.bitmap p g in
              let (m, y) = v.reparto.de_alguno i x in
              let dentro = v.reparto.dentro m i y in
              elim (Bool-cases (p == i)) [
                | inl z ↦ absurd (cc (x, libre, (==_iff p i).0 z))
                | inr z ↦ absurd (cc (libre, v.prefijo i p dentro (ground arith) x))
              ]
        ]

        usados : p + cantidad block_size f ≡ suma block_size s.diccionario
        usados =
            let (u, libre, antes) = get_bit-some a block_count s₂.bitmap p g in
            let x =
              contar-prefijo (a.test_bit s₂.bitmap) 0 block_count p (omega arith) (omega (arith, u))
                antes detras_libres in
            let y = avance-contar a block_size block_count pos nombre f s block_count s₂ v in
            omega (arith, x, y)

        abbrev ubicado : (ℕ → ℕ) → Fs a.B
        ubicado bytes = record s₂ {
          diccionario = put nombre (record f { bloque_inicial = p }) s₂.diccionario;
          bloques = bytes;
          bitmap = marcar_desde a s₂.bitmap p (cantidad block_size f);
        }

        ubicado-test :
            (bytes : ℕ → ℕ) (i : ℕ)
            → a.test_bit (ubicado bytes).bitmap i
              ≡ (if en_tramo p (cantidad block_size f) i then true else a.test_bit s₂.bitmap i)
        ubicado-test bytes i =
            let x = usados in
            let y = disco-sobra a block_size block_count pos s disco in
            let z = v.cabe in
            marcar_desde-test a s₂.bitmap p (cantidad block_size f) i (omega arith)

        ubicado-IsDisco : (bytes : ℕ → ℕ) → IsDisco a block_size block_count (ubicado bytes)
        ubicado-IsDisco bytes =
            let q = cantidad_mover block_size p f in
            let x = usados in
            let y = disco-sobra a block_size block_count pos s disco in
            IsDisco-cambio a block_size block_count sin_nombre (ubicado bytes) nombre
              (some (record f { bloque_inicial = p })) sin_nombre-IsDisco
              (record {
                mismo_max = marcar_desde-max a s₂.bitmap p (cantidad block_size f);
                lookup = λ m. ground (
                  arith,
                  get-put nombre m (record f { bloque_inicial = p }) s₂.diccionario,
                  get-remove nombre m s₂.diccionario v.unicos,
                );
                bits = λ i. ground (
                  arith,
                  q,
                  ubicado-test bytes i,
                  get-remove nombre nombre s₂.diccionario v.unicos,
                  eq_iff nombre nombre,
                );
                propio_o_libre = λ i t h. absurd (ground (arith, q, detras_libres i));
                en_disco = λ i t. ground (arith, q);
                sin_repetir = Unicos-put nombre _ s₂.diccionario v.unicos;
                listado = λ m {f = h} z. elim (Bool-cases (str_eq nombre m)) [
                  | inl w ↦ rw (← (eq_iff nombre m).0 w) (en_directorio_tras nombre v.propio)
                  | inr w ↦ en_directorio_tras m {g = h} (
                      ground
                        (arith, get-put nombre m (record f { bloque_inicial = p }) s₂.diccionario))
                ];
              })

        ubicado-IsCompacto :
            (bytes : ℕ → ℕ) → IsCompacto a block_size block_count nombre f s (ubicado bytes)
        ubicado-IsCompacto bytes =
            let x = usados in
            let (_, _, antes) = get_bit-some a block_count s₂.bitmap p g in
            record {
              disco_tras = ubicado-IsDisco bytes;
              bits = λ i. ground (arith, ubicado-test bytes i, antes i, detras_libres i);
              ultimo =
                  let y : p ≡ suma block_size s.diccionario - cantidad block_size f = omega arith in
                  get-put_self nombre (record f { bloque_inicial = p }) s₂.diccionario
                  ∙ ap (λ (i : ℕ). some (record f { bloque_inicial = i })) y;
              tamanios = λ m. elim (Bool-cases (str_eq nombre m)) [
                | inl w ↦
                    rw
                      (
                        get-put nombre m (record f { bloque_inicial = p }) s₂.diccionario,
                        w,
                        ← (eq_iff nombre m).0 w,
                        e,
                      )
                      refl
                | inr w ↦
                    rw (get-put nombre m (record f { bloque_inicial = p }) s₂.diccionario, w)
                      (v.tamanios m)
              ];
              mismo_directorio = v.mismo_directorio;
            }

        ubicar :
            (buffer : List ℕ)
            → ubicar_al_final a block_size block_count elementos memcpy nombre f
                (cantidad block_size f)
                buffer
                s₂
              ≡ sigue (
                  ubicado (
                    copiar
                      (p * block_size)
                      (take ((block_count - p) * block_size) buffer)
                      s₂.bloques))
        unfolding ubicar_al_final
        ubicar buffer = rw (ubicar_al_final, g) refl

    -- For blocks of at least 1 byte, and from a disk on which the bitmap and the metadata agree, a
    -- compaction for a file returns: the bits in use are then the first ones, as many as the files
    -- take together, the file has the last of them, every file has the size that it had, and the
    -- bitmap and the metadata agree.
    pub compactacion_bloques-IsCompacto :
        (s' : Fs a.B) × (compactacion_bloques a block_size block_count elementos memcpy nombre f s
          ≡ sigue s')
        × IsCompacto a block_size block_count nombre f s s'
    unfolding compactacion_bloques
    compactacion_bloques-IsCompacto =
        let (s₂, x, v) =
          compactar_desde_lem a block_size block_count pos elementos listado memcpy nombre f s
            (disco-sobra a block_size block_count pos s disco) (suc block_count) 0 quitado
            (omega arith) al_empezar in
        let (p, g) =
          avance-libre a block_size block_count pos nombre f s
            (disco-sobra a block_size block_count pos s disco) block_count s₂ v in
        let total = cantidad block_size f in
        let buffer =
          leer (f.bloque_inicial * block_size) (total * block_size) s.bloques
          ++ replicate ((block_count - total) * block_size) 0 in
        let bytes =
          copiar (p * block_size) (take ((block_count - p) * block_size) buffer) s₂.bloques in
        (ubicado s₂ v p g bytes, rw x (ubicar s₂ v p g buffer), ubicado-IsCompacto s₂ v p g bytes)
