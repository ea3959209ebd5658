-- ===== src/Entradasalida/Disco/Cambio.antt =====
-- entradasalida/src: an operation that gives one file other blocks, its own or free ones, keeps the
-- bitmap and the metadata in agreement.
use tp_sistemas_operativos_c.Common.{
  ℕ, ◌<◌, ◌≡◌, refl, String, Bool, true, false, [], ◌∷◌, Option, none, some, arith, if◌then◌else◌,
  get, put, remove, get-put, string_eq, str_eq, eq_iff, beq_refl, Bool-cases, inl, inr,
}
use tp_sistemas_operativos_c.Memoria.Marcos.{Bitarray}
use tp_sistemas_operativos_c.Entradasalida.{Metadata, Fs}
use tp_sistemas_operativos_c.Entradasalida.Diccionario.{Diccionario}
use tp_sistemas_operativos_c.Entradasalida.Operaciones.{existe}
use tp_sistemas_operativos_c.Entradasalida.Disco.{tiene_bloque, tiene, Unicos, IsDisco}

pub Unicos-put : (n : String) (f : Metadata) (d : Diccionario) → Unicos d → Unicos (put n f d)
unfolding put get
Unicos-put n f [] u = (refl, tt)
Unicos-put n f ((m, g) ∷ d) u =
    ground (arith, eq_iff m n, eq_iff n m, Unicos-put n f d, get-put n m f d)

get-remove-none : (n j : String) (d : Diccionario) → get j d ≡ none → get j (remove n d) ≡ none
unfolding remove get
get-remove-none n j [] h = refl
get-remove-none n j ((m, g) ∷ d) h = ground (arith, get-remove-none n j d)

pub Unicos-remove : (n : String) (d : Diccionario) → Unicos d → Unicos (remove n d)
unfolding remove
Unicos-remove n [] u = tt
Unicos-remove n ((m, g) ∷ d) u = ground (arith, Unicos-remove n d, get-remove-none n m d)

pub get-remove :
    (n j : String) (d : Diccionario)
    → Unicos d
    → get j (remove n d) ≡ (if str_eq n j then none else get j d)
unfolding remove get
get-remove n j [] u = ground arith
get-remove n j ((m, g) ∷ d) u = ground (arith, eq_iff n j, eq_iff m n, eq_iff m j, get-remove n j d)

module _ (a : Bitarray) (block_size block_count : ℕ) (s s' : Fs a.B) (nombre : String)
    (nuevo : Option Metadata) where
  -- `s'` is `s` with `nuevo` for the file, whose old blocks are free now unless they are among the new.
  pub record IsCambio : Type 0 where
    pub mismo_max : a.max_bit s'.bitmap ≡ a.max_bit s.bitmap
    pub lookup :
        (m : String)
        → get m s'.diccionario ≡ (if str_eq nombre m then nuevo else get m s.diccionario)
    pub bits :
        (i : ℕ)
        → a.test_bit s'.bitmap i ≡ (
            if tiene_bloque block_size nuevo i
            then true
            else if tiene block_size s.diccionario nombre i
            then false
            else a.test_bit s.bitmap i)
    pub propio_o_libre :
        (i : ℕ)
        → tiene_bloque block_size nuevo i ≡ true
        → a.test_bit s.bitmap i ≡ true
        → tiene block_size s.diccionario nombre i ≡ true
    pub en_disco : (i : ℕ) → tiene_bloque block_size nuevo i ≡ true → i < block_count
    pub sin_repetir : Unicos s'.diccionario
    pub listado :
        (m : String) {f : Metadata} → get m s'.diccionario ≡ some f → existe m s'.directorio ≡ true

  module _ (disco : IsDisco a block_size block_count s) (c : IsCambio) where
    tiene-cambio :
        (m : String) (i : ℕ)
        → tiene block_size s'.diccionario m i ≡ (
            if str_eq nombre m
            then tiene_bloque block_size nuevo i
            else tiene block_size s.diccionario m i)
    tiene-cambio m i = elim (Bool-cases (str_eq nombre m)) [
      | inl e ↦ rw (c.lookup m, e) refl
      | inr e ↦ rw (c.lookup m, e) refl
    ]

    abbrev mio : ℕ → Bool
    mio = tiene_bloque block_size nuevo

    abbrev antes : String → ℕ → Bool
    antes = tiene block_size s.diccionario

    -- A bit that was set stays set, unless only the file had it.
    queda :
        (m : String) (i : ℕ)
        → antes m i ≡ true
        → str_eq nombre m ≡ false
        → a.test_bit s'.bitmap i ≡ true
    queda m i h ne =
        let ajeno : antes nombre i ≡ false = elim (Bool-cases (antes nombre i)) [
          | inr e ↦ e
          | inl e ↦ cc (ne, (eq_iff nombre m).1 (disco.disjuntos nombre m i e h))
        ] in
        elim (Bool-cases (mio i)) [
          | inl e ↦ rw (c.bits i, e) refl
          | inr e ↦ rw (c.bits i, e, ajeno) (disco.marcado m i h)
        ]

    marcado_tras :
        (m : String) (i : ℕ)
        → tiene block_size s'.diccionario m i ≡ true
        → a.test_bit s'.bitmap i ≡ true
    marcado_tras m i h = elim (Bool-cases (str_eq nombre m)) [
      | inl e ↦ rw (c.bits i, rw (tiene-cambio m i, e) at h) refl
      | inr e ↦ queda m i (rw (tiene-cambio m i, e) at h) e
    ]

    -- The others have none of the new blocks.
    ajeno : (m : String) (i : ℕ) → str_eq nombre m ≡ false → mio i ≡ true → antes m i ≡ true → ⊥
    ajeno m i ne h k =
        let e = disco.disjuntos nombre m i (c.propio_o_libre i h (disco.marcado m i k)) k in
        cc (ne, (eq_iff nombre m).1 e)

    disjuntos_tras :
        (n m : String) (i : ℕ)
        → tiene block_size s'.diccionario n i ≡ true
        → tiene block_size s'.diccionario m i ≡ true
        → n ≡ m
    disjuntos_tras n m i h k = ground (
      arith,
      tiene-cambio n i,
      tiene-cambio m i,
      eq_iff nombre n,
      eq_iff nombre m,
      ajeno n i,
      ajeno m i,
      disco.disjuntos n m i,
    )

    de_alguno_tras :
        (i : ℕ)
        → a.test_bit s'.bitmap i ≡ true
        → (n : String) × (tiene block_size s'.diccionario n i ≡ true)
    de_alguno_tras i h = elim (Bool-cases (mio i)) [
      | inl e ↦ (nombre, rw (tiene-cambio nombre i, beq_refl nombre) e)
      | inr e ↦
          let libre : antes nombre i ≡ false = ground (arith, c.bits i) in
          let (n, x) = disco.de_alguno i (ground (arith, c.bits i)) in
          let ne : str_eq nombre n ≡ false = ground (arith, eq_iff nombre n) in
          (n, rw (tiene-cambio n i, ne) x)
    ]

    pub IsDisco-cambio : IsDisco a block_size block_count s'
    IsDisco-cambio = record {
      cabe = rw c.mismo_max disco.cabe;
      dentro = λ m i h. ground (arith, tiene-cambio m i, c.en_disco i, disco.dentro m i);
      marcado = marcado_tras;
      de_alguno = de_alguno_tras;
      disjuntos = disjuntos_tras;
      unicos = c.sin_repetir;
      en_directorio = c.listado;
    }
