-- ===== src/Entradasalida/Compactacion/Archivos.antt =====
-- bloques.c: the loop that moves the files of a stretch.
use mathlib.Core.Path.{subst}
use tp_sistemas_operativos_c.Common.{
  ℕ, zero, suc, ◌+◌, ◌-◌, ◌≤◌, ◌<◌, ◌≡◌, refl, sym, ◌∙◌, String, Bool, true, false, Option, none,
  some, if◌then◌else◌, leb, ltb, arith, get, put, get-put, str_eq, string_eq, eq_iff, Bool-cases,
  Option-cases, ltb→lt, inl, inr,
}
use tp_sistemas_operativos_c.Entradasalida.{Metadata, sigue, cantidad}
use tp_sistemas_operativos_c.Entradasalida.Bitmap.Tramos.{en_tramo}
use tp_sistemas_operativos_c.Entradasalida.Diccionario.{Diccionario, get_fcb_x_inicio}
use tp_sistemas_operativos_c.Entradasalida.Disco.{Unicos}
use tp_sistemas_operativos_c.Entradasalida.Disco.Bloques.{cantidad_mover}
use tp_sistemas_operativos_c.Entradasalida.Disco.Cambio.{Unicos-put}
use tp_sistemas_operativos_c.Entradasalida.Reparto.{
  ajeno, IsReparto, IsListado, get_fcb_x_inicio-some, get_fcb_x_inicio-none,
}
use tp_sistemas_operativos_c.Entradasalida.Reparto.Suma.{suma, suma-put}
use tp_sistemas_operativos_c.Entradasalida.Compactacion.{mover_fcbs}

-- The metadata of a file after the first `k` blocks of the stretch from `c` on have moved to `hueco`.
abbrev pub desplazar : ℕ → ℕ → ℕ → Metadata → Metadata
desplazar hueco c k f =
    if en_tramo c k f.bloque_inicial
    then record f { bloque_inicial = hueco + (f.bloque_inicial - c) }
    else f

abbrev pub desplazado : ℕ → ℕ → ℕ → Option Metadata → Option Metadata
desplazado hueco c k none = none
desplazado hueco c k (some f) = some (desplazar hueco c k f)

module _ (block_size : ℕ) (cada : (f : Metadata) → 0 < cantidad block_size f)
    (elementos : Diccionario → Diccionario) (listado : IsListado elementos) (block_count : ℕ)
    (nombre : String) (d₀ : Diccionario) (test : ℕ → Bool)
    (r : IsReparto block_count (ajeno block_size nombre d₀) test) (hueco c n : ℕ) where
  -- The stretch is a run of set bits behind a hole, and the file that is off the bitmap does not
  -- start in it.
  pub record IsTramo : Type 0 where
    pub delante : hueco < c
    pub marcado : (j : ℕ) → j < n → test (c + j) ≡ true
    pub libres : (i : ℕ) → hueco ≤ i → i < c → test i ≡ false
    pub despues : test (c + n) ≡ false
    pub apartado : (f : Metadata) → get nombre d₀ ≡ some f → en_tramo c n f.bloque_inicial ≡ false

  -- The dictionary after `k` blocks.
  pub record IsMovido (k : ℕ) (d : Diccionario) : Type 0 where
    pub lookup :
        (m : String)
        → get m d ≡ (if str_eq nombre m then get m d₀ else desplazado hueco c k (get m d₀))
    pub unicos : Unicos d
    pub total : suma block_size d ≡ suma block_size d₀

  module _ (t : IsTramo) where
    -- No file has blocks on both sides of the block `c + j`.
    abbrev Borde : ℕ → Type 0
    Borde j =
        (m : String)
        → ajeno block_size nombre d₀ m (c + j - 1) ≡ true
        → ajeno block_size nombre d₀ m (c + j) ≡ true
        → ⊥

    pub ajeno_de_get :
        (m : String) (f : Metadata) (i : ℕ)
        → str_eq nombre m ≡ false
        → get m d₀ ≡ some f
        → ajeno block_size nombre d₀ m i ≡ en_tramo f.bloque_inicial (cantidad block_size f) i
    ajeno_de_get m f i ne e = rw (ne, e) refl

    -- What the walk through the elements finds at the block `c + j`.
    hallado :
        (j : ℕ) (d : Diccionario) (m : String) (f : Metadata)
        → j < n
        → IsMovido j d
        → get m d ≡ some f
        → f.bloque_inicial ≡ c + j
        → (str_eq nombre m ≡ false) × (get m d₀ ≡ some f)
    hallado j d m f h v e x = elim (Bool-cases (str_eq nombre m)) [
      | inl y ↦
          let w : get m d₀ ≡ some f = sym (rw y at (v.lookup m)) ∙ e in
          let z = t.apartado f (rw ((eq_iff nombre m).0 y) w) in absurd (ground arith)
      | inr y ↦ (
        y,
        elim (Option-cases (get m d₀)) [
          | inl z ↦ absurd (cc (rw (y, z) at (v.lookup m)))
          | inr (g, z) ↦
              let w : some f ≡ some (desplazar hueco c j g) = sym e ∙ rw (y, z) at (v.lookup m) in
              let k = t.delante in rw z (ground arith)
        ],
      )
    ]

    -- Some file starts at each border inside the stretch.
    empieza :
        (j : ℕ)
        → j < n
        → Borde j
        → (m : String) × (f : Metadata) × (str_eq nombre m ≡ false)
          × (get m d₀ ≡ some f)
          × (f.bloque_inicial ≡ c + j)
    empieza j h b =
        let (m, x) = r.de_alguno (c + j) (t.marcado j h) in
        let ne : str_eq nombre m ≡ false = ground arith in
        elim (Option-cases (get m d₀)) [
          | inl z ↦ absurd (cc (rw (ne, z) at x))
          | inr (f, z) ↦
              let y = ajeno_de_get m f (c + j) ne z in
              let w = ajeno_de_get m f (c + j - 1) ne z in
              let k = t.delante in (m, f, ne, z, ground (arith, b m))
        ]

    -- The other files stay where they are.
    quieto :
        (j : ℕ) (m : String) (f : Metadata) (o : String)
        → str_eq nombre m ≡ false
        → get m d₀ ≡ some f
        → f.bloque_inicial ≡ c + j
        → str_eq m o ≡ false
        → str_eq nombre o ≡ false
        → desplazado hueco c j (get o d₀)
          ≡ desplazado hueco c (j + cantidad block_size f) (get o d₀)
    quieto j m f o ne e x y z = elim (Option-cases (get o d₀)) [
      | inl w ↦ rw w refl
      | inr (g, w) ↦
          let i = g.bloque_inicial in
          let p = cada g in
          let suyo = ajeno_de_get m f i ne e in
          let otro = ajeno_de_get o g i z w in
          let q : ajeno block_size nombre d₀ o i ≡ true = otro ∙ ground arith in
          let aparte : en_tramo f.bloque_inicial (cantidad block_size f) i ≡ false =
            elim (Bool-cases (en_tramo f.bloque_inicial (cantidad block_size f) i)) [
              | inl k ↦ absurd (cc (y, (eq_iff m o).1 (r.disjuntos m o i (suyo ∙ k) q)))
              | inr k ↦ k
            ] in
          rw w (ground arith)
    ]

    vigente :
        (j : ℕ) (d : Diccionario) (m : String) (f : Metadata)
        → IsMovido j d
        → str_eq nombre m ≡ false
        → get m d₀ ≡ some f
        → f.bloque_inicial ≡ c + j
        → get m d ≡ some f
    vigente j d m f v ne e x = rw (v.lookup m, ne, e) (ground arith)

    mover_uno :
        (j : ℕ) (d : Diccionario) (m : String) (f : Metadata)
        → j < n
        → IsMovido j d
        → str_eq nombre m ≡ false
        → get m d₀ ≡ some f
        → get m d ≡ some f
        → f.bloque_inicial ≡ c + j
        → IsMovido (j + cantidad block_size f) (put m (record f { bloque_inicial = hueco + j }) d)
    mover_uno j d m f h v ne e g x =
        let p = cada f in
        record {
          lookup = λ o. elim (Bool-cases (str_eq m o)) [
            | inl y ↦
                let z : m ≡ o = (eq_iff m o).0 y in
                rw (get-put m o (record f { bloque_inicial = hueco + j }) d, y)
                  (rw (← z) (rw (ne, e) (ground arith)))
            | inr y ↦
                rw (get-put m o (record f { bloque_inicial = hueco + j }) d, y)
                  (rw (v.lookup o) (elim (Bool-cases (str_eq nombre o)) [
                    | inl z ↦ rw z refl
                    | inr z ↦ rw z (quieto j m f o ne e x y z)
                  ]))
          ];
          unicos = Unicos-put m (record f { bloque_inicial = hueco + j }) d v.unicos;
          total =
              suma-put block_size m f (record f { bloque_inicial = hueco + j }) d g
                (cantidad_mover block_size (hueco + j) f)
              ∙ v.total;
        }

    -- The border behind a file.
    Borde-siguiente :
        (j : ℕ) (m : String) (f : Metadata)
        → str_eq nombre m ≡ false
        → get m d₀ ≡ some f
        → f.bloque_inicial ≡ c + j
        → Borde (j + cantidad block_size f)
    Borde-siguiente j m f ne e x o y z =
        let p = cada f in
        let i = c + (j + cantidad block_size f) in
        let suyo = ajeno_de_get m f (i - 1) ne e in
        let q = r.disjuntos m o (i - 1) (suyo ∙ ground arith) y in
        let w = ajeno_de_get m f i ne e in
        let v : ajeno block_size nombre d₀ m i ≡ true = rw q z in absurd (ground arith)

    -- A file that starts in the stretch ends in it.
    pub cabe_en_tramo :
        (j : ℕ) (m : String) (f : Metadata)
        → j < n
        → str_eq nombre m ≡ false
        → get m d₀ ≡ some f
        → f.bloque_inicial ≡ c + j
        → j + cantidad block_size f ≤ n
    cabe_en_tramo j m f h ne e x = elim (Bool-cases (leb (j + cantidad block_size f) n)) [
      | inl y ↦ ground arith
      | inr y ↦
          let suyo = ajeno_de_get m f (c + n) ne e in
          absurd (cc (t.despues, r.marcado m (c + n) (suyo ∙ ground arith)))
    ]

    -- From a border on, the loop reaches the end of the stretch with every file of it moved.
    mover_fcbs-IsMovido :
        (turnos j : ℕ) (d : Diccionario)
        → n ≤ j + turnos
        → j ≤ n
        → Borde j
        → IsMovido j d
        → (d' : Diccionario) × (mover_fcbs block_size elementos turnos c hueco n j d
            ≡ sigue (true, d'))
          × IsMovido n d'
    unfolding mover_fcbs
    mover_fcbs-IsMovido zero j d h l b v =
        let e : j ≡ n = omega arith in
        let x : ltb j n ≡ false = ground arith in
        (d, rw (mover_fcbs, x) refl, subst (λ k. IsMovido k d) e v)
    mover_fcbs-IsMovido (suc turnos) j d h l b v = elim (Bool-cases (ltb j n)) [
      | inr x ↦
          let e : j ≡ n = ground arith in
          (d, rw (mover_fcbs, x) refl, subst (λ k. IsMovido k d) e v)
      | inl x ↦
          rw (mover_fcbs, x)
            (elim (Option-cases (get_fcb_x_inicio elementos d (c + j))) [
              | inl y ↦
                  let (m, f, ne, e, w) = empieza j (ltb→lt j n x) b in
                  absurd (
                    get_fcb_x_inicio-none elementos listado d v.unicos (c + j) m f y
                      (vigente j d m f v ne e w) w)
              | inr ((m, f), y) ↦
                  let (g, w) = get_fcb_x_inicio-some elementos listado d v.unicos (c + j) m f y in
                  let (ne, e) = hallado j d m f (ltb→lt j n x) v g w in
                  let p = cada f in
                  rw (mover_fcbs, y)
                    (mover_fcbs-IsMovido turnos (j + cantidad block_size f) _ (omega (arith, p, h))
                      (cabe_en_tramo j m f (ltb→lt j n x) ne e w) (Borde-siguiente j m f ne e w)
                      (mover_uno j d m f (ltb→lt j n x) v ne e g w))
            ])
    ]

    -- A stretch behind a hole begins at a border.
    pub mover_fcbs_tramo :
        Unicos d₀
        → (d' : Diccionario) × (mover_fcbs block_size elementos n c hueco n 0 d₀ ≡ sigue (true, d'))
          × IsMovido n d'
    mover_fcbs_tramo u =
        mover_fcbs-IsMovido n 0 d₀ (omega arith) (omega arith)
          (λ m x y.
            let k = t.delante in
            absurd
              (cc (t.libres (c + 0 - 1) (omega arith) (omega arith), r.marcado m (c + 0 - 1) x)))
          (record {
            lookup = λ m. elim (Bool-cases (str_eq nombre m)) [
              | inl x ↦ rw x refl
              | inr x ↦ rw x (ground arith)
            ];
            unicos = u;
            total = refl;
          })
