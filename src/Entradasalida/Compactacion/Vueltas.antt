-- ===== src/Entradasalida/Compactacion/Vueltas.antt =====
-- bloques.c: a turn of the loop of the compaction.
use mathlib.Core.Path.{fun_ext, subst}
use tp_sistemas_operativos_c.Common.{
  ℕ, zero, suc, ◌+◌, ◌-◌, ◌≤◌, ◌<◌, ◌≡◌, ◌==◌, refl, sym, ap, ◌∙◌, String, Bool, true, false, some,
  leb, ltb, arith, get, str_eq, string_eq, beq_refl, Bool-cases, ltb→lt, inl, inr, ==_iff,
}
use tp_sistemas_operativos_c.Memoria.Marcos.{Bitarray}
use tp_sistemas_operativos_c.Entradasalida.{Metadata, Fs, sigue}
use tp_sistemas_operativos_c.Entradasalida.Bitmap.{get_bit, marcar_desde}
use tp_sistemas_operativos_c.Entradasalida.Bitmap.Tramos.{
  en_tramo, get_bit-some, marcar_desde-test, marcar_desde-max, limpiar_desde-test,
  limpiar_desde-max,
}
use tp_sistemas_operativos_c.Entradasalida.Diccionario.{Diccionario}
use tp_sistemas_operativos_c.Entradasalida.Disco.Bloques.{cantidad-pos}
use tp_sistemas_operativos_c.Entradasalida.Reparto.{ajeno, IsReparto, IsListado}
use tp_sistemas_operativos_c.Entradasalida.Reparto.Suma.{suma}
use tp_sistemas_operativos_c.Entradasalida.Compactacion.{
  Vuelta, otra, fin, vuelve, saltar_libres, mover_tramo, tras_mover, compactar_contiguos,
  compactar_hueco, compactar_tramo,
}
use tp_sistemas_operativos_c.Entradasalida.Compactacion.Archivos.{
  IsTramo, IsMovido, mover_fcbs_tramo,
}
use tp_sistemas_operativos_c.Entradasalida.Compactacion.Tramo.{test_tras, IsReparto-tras}
use tp_sistemas_operativos_c.Entradasalida.Compactacion.Bits.{
  saltar_libres_lem, contar_contiguos_lem,
}
use tp_sistemas_operativos_c.Entradasalida.Compactacion.Avance.{tam_de-desplazado, IsAvance, fuera}

module _ (a : Bitarray) (block_size block_count : ℕ) (nombre : String) (f : Metadata)
    (s₀ : Fs a.B) where
  -- What a turn leaves.
  abbrev pub TrasVuelta : ℕ → Vuelta (Fs a.B) → Type 0
  TrasVuelta e (otra e' s') = (e < e') × IsAvance a block_size block_count nombre f s₀ e' s'
  TrasVuelta e (fin s') = IsAvance a block_size block_count nombre f s₀ block_count s'
  TrasVuelta e (vuelve s') = ⊥

module _ (a : Bitarray) (block_size block_count : ℕ) (pos : 0 < block_size)
    (elementos : Diccionario → Diccionario) (listado : IsListado elementos)
    (memcpy : ℕ → ℕ → ℕ → (ℕ → ℕ) → ℕ → ℕ) (nombre : String) (f : Metadata) (s₀ : Fs a.B) where
  module _ (sobra : suma block_size s₀.diccionario ≤ block_count) (e : ℕ) (s : Fs a.B)
      (v : IsAvance a block_size block_count nombre f s₀ e s) where
    module _ (hueco : ℕ) (g : get_bit a block_count s.bitmap ≡ some hueco) where
      abbrev test : ℕ → Bool
      test = a.test_bit s.bitmap

      -- The set bits behind the first free one are not before `e`.
      detras : (c : ℕ) → hueco < c → test c ≡ true → e ≤ c
      detras c h x = elim (Bool-cases (leb e c)) [
        | inl y ↦ ground arith
        | inr y ↦
            let (_, libre, _) = get_bit-some a block_count s.bitmap hueco g in
            absurd (cc (libre, v.prefijo c hueco (ground arith) h x))
      ]

      al_final :
          ((i : ℕ) → hueco ≤ i → i < block_count → test i ≡ false)
          → IsAvance a block_size block_count nombre f s₀ block_count s
      al_final libres =
          let (u, _, antes) = get_bit-some a block_count s.bitmap hueco g in
          record {
            cabe = v.cabe;
            reparto = v.reparto;
            unicos = v.unicos;
            propio = v.propio;
            total = v.total;
            tamanios = v.tamanios;
            mismo_directorio = v.mismo_directorio;
            prefijo = λ i j l h x. elim (Bool-cases (leb hueco i)) [
              | inl y ↦ absurd (cc (x, libres i (ground arith) l))
              | inr y ↦ antes j (ground arith)
            ];
            apartado = elim (Bool-cases (ltb f.bloque_inicial block_count)) [
              | inl y ↦ inl (ltb→lt f.bloque_inicial block_count y)
              | inr y ↦
                  inr (
                    fuera a block_size block_count nombre f s₀ e s v f.bloque_inicial
                      (ground arith))
            ];
          }

      module _ (c n : ℕ) (delante : hueco < c)
          (libres : (i : ℕ) → hueco ≤ i → i < c → test i ≡ false)
          (run : (j : ℕ) → j < n → test (c + j) ≡ true) (tope : test (c + n) ≡ false)
          (lleno : 0 < n) where
        tras_e : e ≤ c
        tras_e = let x : c + 0 ≡ c = omega arith in detras c delante (rw x at (run 0 lleno))

        un_tramo :
            IsTramo block_size
              (cantidad-pos block_size pos)
              elementos
              listado
              block_count
              nombre
              s.diccionario
              test
              v.reparto
              hueco
              c
              n
        un_tramo = record {
          delante = delante;
          marcado = run;
          libres = libres;
          despues = tope;
          apartado = λ f' x. elim (Bool-cases (en_tramo c n f'.bloque_inicial)) [
            | inr y ↦ y
            | inl y ↦
                let q : f' ≡ f = cc (x, v.propio) in
                let z = tras_e in
                let k : c + (f'.bloque_inicial - c) ≡ f'.bloque_inicial = ground arith in
                let w = rw k at (run (f'.bloque_inicial - c) (ground arith)) in
                absurd (elim (v.apartado) [
                  | inl p ↦ ground (arith, ap (λ (h : Metadata). h.bloque_inicial) q)
                  | inr p ↦ cc
                ])
          ];
        }

        fin_tramo : c + n ≤ block_count
        fin_tramo =
            let x : c + (n - 1) ≡ c + n - 1 = omega (arith, lleno) in
            let (m, y) =
              v.reparto.de_alguno (c + n - 1) (rw x at (run (n - 1) (omega (arith, lleno)))) in
            omega (arith, v.reparto.dentro m (c + n - 1) y, lleno)

        module _ (d : Diccionario)
            (w : IsMovido block_size
              (cantidad-pos block_size pos)
              elementos
              listado
              block_count
              nombre
              s.diccionario
              test
              v.reparto
              hueco
              c
              n
              n
              d) where
          abbrev movido : Fs a.B
          movido =
              mover_tramo a block_size block_count elementos memcpy hueco c n
                (record s { diccionario = d })

          bits_tras : (i : ℕ) → a.test_bit movido.bitmap i ≡ test_tras hueco c n test i
          unfolding mover_tramo
          bits_tras i =
              let cota = fin_tramo in
              let b = marcar_desde a s.bitmap hueco n in
              let k = v.cabe in
              ground (
                arith,
                marcar_desde-max a s.bitmap hueco n,
                limpiar_desde-test a b (hueco + n) (c - hueco) i,
                marcar_desde-test a s.bitmap hueco n i,
              )

          avance_tras : IsAvance a block_size block_count nombre f s₀ (c + n) movido
          unfolding mover_tramo
          avance_tras =
              let b = marcar_desde a s.bitmap hueco n in
              let (_, _, antes) = get_bit-some a block_count s.bitmap hueco g in
              let z = tras_e in
              record {
                cabe =
                    rw
                      (
                        limpiar_desde-max a b (hueco + n) (c - hueco),
                        marcar_desde-max a s.bitmap hueco n,
                      )
                      v.cabe;
                reparto =
                    subst (λ t. IsReparto block_count (ajeno block_size nombre d) t)
                      (sym (fun_ext bits_tras))
                      (IsReparto-tras block_size (cantidad-pos block_size pos) elementos listado
                        block_count nombre s.diccionario test v.reparto hueco c n un_tramo d w);
                unicos = w.unicos;
                propio = rw (w.lookup nombre, beq_refl nombre) v.propio;
                total = w.total ∙ v.total;
                tamanios = λ m. elim (Bool-cases (str_eq nombre m)) [
                  | inl x ↦ rw (w.lookup m, x) (v.tamanios m)
                  | inr x ↦
                      rw (w.lookup m, x)
                        (tam_de-desplazado hueco c n (get m s.diccionario) ∙ v.tamanios m)
                ];
                mismo_directorio = v.mismo_directorio;
                prefijo = λ i j l h x. ground (arith, bits_tras i, bits_tras j, antes j);
                apartado = elim (Bool-cases (ltb f.bloque_inicial (c + n))) [
                  | inl x ↦ inl (ltb→lt f.bloque_inicial (c + n) x)
                  | inr x ↦ inr (elim (v.apartado) [
                    | inl y ↦ absurd (ground arith)
                    | inr y ↦ ground (arith, bits_tras f.bloque_inicial)
                  ])
                ];
              }

      vuelta_llena :
          (c n : ℕ)
          → hueco < c
          → ((i : ℕ) → hueco ≤ i → i < c → test i ≡ false)
          → test c ≡ true
          → ((j : ℕ) → j < n → test (c + j) ≡ true)
          → test (c + n) ≡ false
          → (x : Vuelta (Fs a.B)) × (compactar_contiguos a block_size block_count elementos memcpy
                hueco c s
                (some n)
              ≡ sigue x)
            × TrasVuelta a block_size block_count nombre f s₀ e x
      unfolding compactar_contiguos tras_mover
      vuelta_llena c zero h l sc run tope =
          let z : c + 0 ≡ c = omega arith in absurd (cc (sc, rw z at tope))
      vuelta_llena c (suc n) h l sc run tope =
          let lleno : 0 < suc n = omega arith in
          let (d, m, w) =
            mover_fcbs_tramo block_size (cantidad-pos block_size pos) elementos listado block_count
              nombre s.diccionario test v.reparto hueco c (suc n)
              (un_tramo c (suc n) h l run tope lleno) v.unicos in
          let z = tras_e c (suc n) h l run tope lleno in
          (
            otra (c + suc n) (
                mover_tramo a block_size block_count elementos memcpy hueco c (suc n)
                  (record s { diccionario = d })),
            rw m refl,
            (omega (arith, z), avance_tras c (suc n) h l run tope lleno d w),
          )

      -- A turn of the loop returns, and goes on further or leaves every set bit at the front.
      pub compactar_tramo_lem :
          (x : Vuelta (Fs a.B)) × (compactar_tramo a block_size block_count elementos memcpy s
            ≡ sigue x)
          × TrasVuelta a block_size block_count nombre f s₀ e x
      unfolding compactar_tramo compactar_hueco
      compactar_tramo_lem =
          let (u, libre, _) = get_bit-some a block_count s.bitmap hueco g in
          let c = saltar_libres test hueco (block_count - hueco) in
          let (l, m, libres, k) = saltar_libres_lem test hueco (block_count - hueco) in
          elim (Bool-cases (c == block_count)) [
            | inl x ↦
                let y = (==_iff c block_count).0 x in
                (
                  fin s,
                  rw (compactar_tramo, g, x) refl,
                  al_final (λ i p q. libres i p (omega (arith, q, y))),
                )
            | inr x ↦
                let sc : test c ≡ true = elim k [ inl y ↦ absurd (ground arith) | inr y ↦ y ] in
                let ne : hueco < c = elim (Bool-cases (hueco == c)) [
                  | inl y ↦ absurd (cc (libre, sc, (==_iff hueco c).0 y))
                  | inr y ↦ ground arith
                ] in
                let (n, y, run, tope) =
                  contar_contiguos_lem test (suc block_count) c (block_count - c) (omega arith) (
                    fuera a block_size block_count nombre f s₀ e s v (c + (block_count - c))
                      (omega arith)) in
                rw (compactar_tramo, g, x, y) (vuelta_llena c n ne libres sc run tope)
          ]
