-- ===== src/Entradasalida/Compactacion/Tramo.antt =====
-- bloques.c: the bitmap and the files after a stretch has moved.
use tp_sistemas_operativos_c.Common.{
  ℕ, ◌+◌, ◌-◌, ◌≤◌, ◌<◌, ◌≡◌, ◌⊎◌, ◌∙◌, String, Bool, true, false, some, if◌then◌else◌, leb, arith,
  get, str_eq, string_eq, Bool-cases, Option-cases, inl, inr,
}
use tp_sistemas_operativos_c.Entradasalida.{Metadata, cantidad}
use tp_sistemas_operativos_c.Entradasalida.Bitmap.Tramos.{en_tramo}
use tp_sistemas_operativos_c.Entradasalida.Diccionario.{Diccionario}
use tp_sistemas_operativos_c.Entradasalida.Disco.Bloques.{cantidad_mover}
use tp_sistemas_operativos_c.Entradasalida.Reparto.{ajeno, IsReparto, IsListado}
use tp_sistemas_operativos_c.Entradasalida.Compactacion.Archivos.{
  IsTramo, IsMovido, ajeno_de_get, cabe_en_tramo,
}

-- The bits after `n` blocks have moved from `c` to `hueco`.
abbrev pub test_tras : ℕ → ℕ → ℕ → (ℕ → Bool) → ℕ → Bool
test_tras hueco c n test i =
    if en_tramo (hueco + n) (c - hueco) i
    then false
    else if en_tramo hueco n i
    then true
    else test i

module _ (block_size : ℕ) (cada : (f : Metadata) → 0 < cantidad block_size f)
    (elementos : Diccionario → Diccionario) (listado : IsListado elementos) (block_count : ℕ)
    (nombre : String) (d₀ : Diccionario) (test : ℕ → Bool)
    (r : IsReparto block_count (ajeno block_size nombre d₀) test) (hueco c n : ℕ)
    (t : IsTramo block_size cada elementos listado block_count nombre d₀ test r hueco c n)
    (d : Diccionario)
    (v : IsMovido block_size cada elementos listado block_count nombre d₀ test r hueco c n n
      d) where
  -- A file that does not start in the stretch has no block from the hole to the end of the stretch.
  aparte :
      (m : String) (f : Metadata)
      → str_eq nombre m ≡ false
      → get m d₀ ≡ some f
      → en_tramo c n f.bloque_inicial ≡ false
      → (f.bloque_inicial + cantidad block_size f ≤ hueco) ⊎ (c + n ≤ f.bloque_inicial)
  aparte m f ne e x =
      let b = f.bloque_inicial in
      let p = cada f in
      let k = t.delante in
      let tiene_en = λ (i : ℕ).
        ajeno_de_get block_size cada elementos listado block_count nombre d₀ test r hueco c n t m f
          i ne e in
      let libre : (i : ℕ) → hueco ≤ i → i < c → en_tramo b (cantidad block_size f) i ≡ false =
        λ i l u. elim (Bool-cases (en_tramo b (cantidad block_size f) i)) [
          | inl y ↦ absurd (cc (t.libres i l u, r.marcado m i (tiene_en i ∙ y)))
          | inr y ↦ y
        ] in
      let al_inicio = libre hueco (omega arith) k in
      let al_final = libre (c - 1) (omega arith) (omega arith) in
      elim (Bool-cases (leb (c + n) b)) [
        | inl y ↦ inr (ground arith)
        | inr y ↦ elim (Bool-cases (leb (b + cantidad block_size f) hueco)) [
          | inl z ↦ inl (ground arith)
          | inr z ↦ absurd (elim (Bool-cases (leb hueco b)) [
            | inl w ↦ ground (arith, libre b)
            | inr w ↦ ground arith
          ])
        ]
      ]

  -- Who has each block after the move.
  ajeno-tras :
      (m : String) (i : ℕ)
      → ajeno block_size nombre d m i ≡ (
          if en_tramo hueco n i
          then ajeno block_size nombre d₀ m (i + (c - hueco))
          else if en_tramo (hueco + n) (c - hueco) i
          then false
          else ajeno block_size nombre d₀ m i)
  ajeno-tras m i = elim (Bool-cases (str_eq nombre m)) [
    | inl x ↦ rw x (ground arith)
    | inr x ↦
        rw (x, v.lookup m, x)
          (elim (Option-cases (get m d₀)) [
            | inl y ↦ rw y (ground arith)
            | inr (f, y) ↦ rw y (elim (Bool-cases (en_tramo c n f.bloque_inicial)) [
              | inl z ↦
                  let q = cantidad_mover block_size (hueco + (f.bloque_inicial - c)) f in
                  let l =
                    cabe_en_tramo block_size cada elementos listado block_count nombre d₀ test r
                      hueco c n t (f.bloque_inicial - c) m f (ground arith) x y (ground arith) in
                  let k = t.delante in rw z (ground arith)
              | inr z ↦ rw z (elim (aparte m f x y z) [
                | inl w ↦ ground arith
                | inr w ↦ let k = t.delante in ground arith
              ])
            ])
          ])
  ]

  pub IsReparto-tras : IsReparto block_count (ajeno block_size nombre d) (test_tras hueco c n test)
  IsReparto-tras = record {
    dentro = λ m i h. ground (arith, ajeno-tras m i, r.dentro m i, r.dentro m (i + (c - hueco)));
    marcado = λ m i h. ground (arith, ajeno-tras m i, r.marcado m i, r.marcado m (i + (c - hueco)));
    de_alguno = λ i h. elim (Bool-cases (en_tramo hueco n i)) [
      | inl x ↦
          let k = t.delante in
          let e : c + (i - hueco) ≡ i + (c - hueco) = ground arith in
          let (m, y) =
            r.de_alguno (i + (c - hueco)) (rw e at (t.marcado (i - hueco) (ground arith))) in
          (m, rw (ajeno-tras m i, x) y)
      | inr x ↦ let (m, y) = r.de_alguno i (ground arith) in (m, ground (arith, ajeno-tras m i))
    ];
    disjuntos = λ m o i h l. ground (
      arith,
      ajeno-tras m i,
      ajeno-tras o i,
      r.disjuntos m o i,
      r.disjuntos m o (i + (c - hueco)),
    );
  }
