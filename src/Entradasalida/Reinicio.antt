-- ===== src/Entradasalida/Reinicio.antt =====
-- diccionario.c: the dictionary that a start makes from the directory.
mod Tests
use tp_sistemas_operativos_c.Common.{
  ℕ, ◌≡◌, refl, sym, ap, ◌∙◌, String, Bool, true, false, ◌||◌, ◌&&◌, not, List, [], ◌∷◌, Option,
  none, some, if◌then◌else◌, arith, get, put, get-put, str_eq, string_eq, eq_iff, Bool-cases,
  Option-cases, inl, inr,
}
use tp_sistemas_operativos_c.Memoria.Marcos.{Bitarray}
use tp_sistemas_operativos_c.Entradasalida.{Metadata, Fs}
use tp_sistemas_operativos_c.Entradasalida.Diccionario.{
  Diccionario, cargar_entradas, incializar_el_diccionario,
}
use tp_sistemas_operativos_c.Entradasalida.Operaciones.{existe}
use tp_sistemas_operativos_c.Entradasalida.Disco.{tiene, Unicos, IsDisco}
use tp_sistemas_operativos_c.Entradasalida.Disco.Cambio.{Unicos-put}

module _ (string_starts_with string_ends_with : String → String → Bool) where
  -- A name that the loop passes over.
  abbrev pub oculto : String → Bool
  oculto nombre = string_starts_with nombre "." || string_ends_with nombre "dat"

module _ (string_starts_with string_ends_with : String → String → Bool)
    (en_disco : String → Metadata) where
  Unicos-cargar :
      (l : List String) (d : Diccionario)
      → Unicos d
      → Unicos (cargar_entradas string_starts_with string_ends_with en_disco l d)
  unfolding cargar_entradas
  Unicos-cargar [] d u = u
  Unicos-cargar (n ∷ l) d u = elim (Bool-cases (oculto string_starts_with string_ends_with n)) [
    | inl x ↦ rw x (Unicos-cargar l d u)
    | inr x ↦ rw x (Unicos-cargar l _ (Unicos-put n (en_disco n) d u))
  ]

  salta :
      (l : List String) (d : Diccionario) (n m : String)
      → oculto string_starts_with string_ends_with n ≡ true
      → (if existe m l && not (oculto string_starts_with string_ends_with m)
          then some (en_disco m)
          else get m d)
        ≡ (if (str_eq n m || existe m l) && not (oculto string_starts_with string_ends_with m)
            then some (en_disco m)
            else get m d)
  salta l d n m x = elim (Bool-cases (str_eq n m)) [
    | inr y ↦ rw y refl
    | inl y ↦
        let z : oculto string_starts_with string_ends_with m ≡ true = rw ((eq_iff n m).0 y) at x in
        rw (y, z) (elim (Bool-cases (existe m l)) [ inl w ↦ rw w refl | inr w ↦ rw w refl ])
  ]

  pone :
      (l : List String) (d : Diccionario) (n m : String)
      → oculto string_starts_with string_ends_with n ≡ false
      → (if existe m l && not (oculto string_starts_with string_ends_with m)
          then some (en_disco m)
          else get m (put n (en_disco n) d))
        ≡ (if (str_eq n m || existe m l) && not (oculto string_starts_with string_ends_with m)
            then some (en_disco m)
            else get m d)
  pone l d n m x = elim (Bool-cases (str_eq n m)) [
    | inr y ↦ rw (y, get-put n m (en_disco n) d, y) refl
    | inl y ↦
        let e = (eq_iff n m).0 y in
        let z : oculto string_starts_with string_ends_with m ≡ false = rw e at x in
        rw (y, z, get-put n m (en_disco n) d, y)
          (elim (Bool-cases (existe m l)) [
            | inl w ↦ rw w refl
            | inr w ↦ rw w (ap (λ (k : String). some (en_disco k)) e)
          ])
  ]

  get-cargar :
      (l : List String) (d : Diccionario) (m : String)
      → get m (cargar_entradas string_starts_with string_ends_with en_disco l d) ≡ (
          if existe m l && not (oculto string_starts_with string_ends_with m)
          then some (en_disco m)
          else get m d)
  unfolding cargar_entradas existe
  get-cargar [] d m = refl
  get-cargar (n ∷ l) d m = elim (Bool-cases (oculto string_starts_with string_ends_with n)) [
    | inl x ↦ rw x (get-cargar l d m ∙ salta l d n m x)
    | inr x ↦ rw x (get-cargar l _ m ∙ pone l d n m x)
  ]

  module _ (a : Bitarray) (block_size block_count : ℕ) (s : Fs a.B)
      (disco : IsDisco a block_size block_count s)
      (guardado : (m : String) (f : Metadata) → get m s.diccionario ≡ some f → en_disco m ≡ f)
      (visible : (m : String) (f : Metadata)
        → get m s.diccionario ≡ some f
        → oculto string_starts_with string_ends_with m ≡ false)
      (solo : (m : String)
        → existe m s.directorio ≡ true
        → get m s.diccionario ≡ none
        → oculto string_starts_with string_ends_with m ≡ true) where
    abbrev reiniciado : Diccionario
    reiniciado = incializar_el_diccionario string_starts_with string_ends_with en_disco s.directorio

    mismo : (m : String) → get m reiniciado ≡ get m s.diccionario
    unfolding incializar_el_diccionario get
    mismo m = elim (Option-cases (get m s.diccionario)) [
      | inr (f, x) ↦
          get-cargar s.directorio [] m
          ∙ rw (disco.en_directorio m {f = f} x, visible m f x, guardado m f x) (sym x)
      | inl x ↦ get-cargar s.directorio [] m ∙ elim (Bool-cases (existe m s.directorio)) [
        | inl y ↦ rw (y, solo m y x) (sym x)
        | inr y ↦ rw y (sym x)
      ]
    ]

    tiene-mismo :
        (m : String) (i : ℕ) → tiene block_size reiniciado m i ≡ tiene block_size s.diccionario m i
    tiene-mismo m i = rw (mismo m) refl

    -- On a disk on which the bitmap and the metadata agree, where the files of the directory hold
    -- the metadata of the dictionary, and the names that a start passes over are those of the
    -- directory that are in no entry, a start makes a dictionary with the same metadata for every
    -- name, and the bitmap and the metadata agree.
    pub incializar_el_diccionario-IsDisco :
        ((m : String) → get m reiniciado ≡ get m s.diccionario)
        × IsDisco a block_size block_count (record s { diccionario = reiniciado })
    unfolding incializar_el_diccionario
    incializar_el_diccionario-IsDisco = (
      mismo,
      record {
        cabe = disco.cabe;
        dentro = λ m i h. disco.dentro m i (rw (tiene-mismo m i) at h);
        marcado = λ m i h. disco.marcado m i (rw (tiene-mismo m i) at h);
        de_alguno = λ i h. let (m, x) = disco.de_alguno i h in (m, rw (tiene-mismo m i) x);
        disjuntos = λ m n i h l.
            disco.disjuntos m n i (rw (tiene-mismo m i) at h) (rw (tiene-mismo n i) at l);
        unicos = Unicos-cargar s.directorio [] tt;
        en_directorio = λ m {f = f} x. disco.en_directorio m {f = f} (rw (mismo m) at x);
      },
    )
