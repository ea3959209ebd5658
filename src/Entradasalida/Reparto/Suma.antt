-- ===== src/Entradasalida/Reparto/Suma.antt =====
-- entradasalida/src: the blocks that all the files take together are the set bits of the bitmap.
use tp_sistemas_operativos_c.Common.{
  ℕ, zero, suc, ◌+◌, ◌≤◌, ◌<◌, ◌-◌, ◌≡◌, ◌==◌, refl, ◌∙◌, sym, String, Bool, true, false, [], ◌∷◌,
  none, some, if◌then◌else◌, arith, get, put, remove, str_eq, string_eq, eq_iff, beq_refl,
  Bool-cases, inl, inr,
}
use tp_sistemas_operativos_c.Memoria.Marcos.{contar_desde}
use tp_sistemas_operativos_c.Memoria.Marcos.Busqueda.{contar_desde-igual, contar_desde-menos}
use tp_sistemas_operativos_c.Entradasalida.{Metadata, cantidad}
use tp_sistemas_operativos_c.Entradasalida.Bitmap.Tramos.{en_tramo}
use tp_sistemas_operativos_c.Entradasalida.Diccionario.{Diccionario, acumular_bloques}
use tp_sistemas_operativos_c.Entradasalida.Disco.{tiene, Unicos}
use tp_sistemas_operativos_c.Entradasalida.Disco.Bloques.{cantidad_vacio, cantidad_lleno}
use tp_sistemas_operativos_c.Entradasalida.Reparto.{IsReparto}

abbrev pub suma : ℕ → Diccionario → ℕ
suma block_size [] = 0
suma block_size ((_, f) ∷ d) = cantidad block_size f + suma block_size d

module _ (block_size : ℕ) where
  -- A file that changes its metadata.
  pub suma-put_otro :
      (n : String) (f g : Metadata) (d : Diccionario)
      → get n d ≡ some f
      → suma block_size (put n g d) + cantidad block_size f
        ≡ suma block_size d + cantidad block_size g
  unfolding put get
  suma-put_otro n f g [] e = cc
  suma-put_otro n f g ((k, h) ∷ d) e = elim (Bool-cases (str_eq k n)) [
    | inl x ↦ ground arith
    | inr x ↦ ground (arith, suma-put_otro n f g d)
  ]

  pub suma-put :
      (n : String) (f g : Metadata) (d : Diccionario)
      → get n d ≡ some f
      → cantidad block_size g ≡ cantidad block_size f
      → suma block_size (put n g d) ≡ suma block_size d
  suma-put n f g d e q = omega (arith, suma-put_otro n f g d e, q)

  pub suma-remove :
      (n : String) (f : Metadata) (d : Diccionario)
      → get n d ≡ some f
      → suma block_size d ≡ cantidad block_size f + suma block_size (remove n d)
  unfolding remove get
  suma-remove n f [] e = cc
  suma-remove n f ((k, h) ∷ d) e = elim (Bool-cases (str_eq k n)) [
    | inl x ↦ ground arith
    | inr x ↦ ground (arith, suma-remove n f d)
  ]

  pub acumular_bloques-suma :
      (pos : 0 < block_size) (d : Diccionario) (acumulador : ℕ)
      → acumular_bloques block_size d acumulador ≡ acumulador + suma block_size d
  unfolding acumular_bloques
  acumular_bloques-suma pos [] acumulador = omega arith
  acumular_bloques-suma pos ((k, f) ∷ d) acumulador = ground (
    arith,
    cantidad_vacio block_size pos f,
    cantidad_lleno block_size pos f,
    acumular_bloques-suma pos d (acumulador + cantidad block_size f),
  )

contar-nada : (test : ℕ → Bool) (i n : ℕ) → ((j : ℕ) → test j ≡ false) → contar_desde test i n ≡ 0
unfolding contar_desde
contar-nada test i zero h = refl
contar-nada test i (suc n) h = rw (h i) (omega (arith, contar-nada test (suc i) n h))

abbrev sin_tramo : ℕ → ℕ → (ℕ → Bool) → ℕ → Bool
sin_tramo x m test j = if en_tramo x m j then false else test j

contar-sin_tramo :
    (test u : ℕ → Bool) (n x m : ℕ)
    → ((j : ℕ) → u j ≡ sin_tramo x m test j)
    → ((j : ℕ) → x ≤ j → j < x + m → test j ≡ true)
    → x + m ≤ n
    → contar_desde u 0 n + m ≡ contar_desde test 0 n
contar-sin_tramo test u n x zero w h l =
    let e = contar_desde-igual u test 0 n (λ j k. w j ∙ ground arith) in omega (arith, e)
contar-sin_tramo test u n x (suc m) w h l =
    let uno : ℕ → Bool = λ j. if x == j then false else test j in
    let resto =
      contar-sin_tramo uno u n (suc x) m (λ j. w j ∙ ground arith) (λ j a b. ground (arith, h j))
        (omega arith) in
    let menos =
      contar_desde-menos test uno 0 n x (λ j. refl) (h x (omega arith) (omega arith)) (omega arith)
        (omega arith) in
    omega (arith, resto, menos)

module _ (block_size : ℕ) where
  tiene_cabeza :
      (k : String) (f : Metadata) (d : Diccionario) (j : ℕ)
      → tiene block_size ((k, f) ∷ d) k j ≡ en_tramo f.bloque_inicial (cantidad block_size f) j
  unfolding get
  tiene_cabeza k f d j = rw (beq_refl k) refl

  tiene_cola :
      (k m : String) (f : Metadata) (d : Diccionario) (j : ℕ)
      → tiene block_size ((k, f) ∷ d) m j ≡ (
          if str_eq k m
          then en_tramo f.bloque_inicial (cantidad block_size f) j
          else tiene block_size d m j)
  unfolding get
  tiene_cola k m f d j = elim (Bool-cases (str_eq k m)) [ inl e ↦ rw e refl | inr e ↦ rw e refl ]

  tiene_propio :
      (k : String) (d : Diccionario) (j : ℕ) → get k d ≡ none → tiene block_size d k j ≡ false
  tiene_propio k d j e = rw e refl

  IsReparto-cola :
      (block_count : ℕ) (k : String) (f : Metadata) (d : Diccionario) (test : ℕ → Bool)
      → Unicos ((k, f) ∷ d)
      → IsReparto block_count (tiene block_size ((k, f) ∷ d)) test
      → IsReparto block_count
          (tiene block_size d)
          (sin_tramo f.bloque_inicial (cantidad block_size f) test)
  IsReparto-cola block_count k f d test u r =
      let otro : (m : String) (j : ℕ) → tiene block_size d m j ≡ true → str_eq k m ≡ false =
        λ m j h. ground (arith, eq_iff k m, tiene_propio k d j) in
      let suyo : (m : String) (j : ℕ)
          → tiene block_size d m j ≡ true
          → tiene block_size ((k, f) ∷ d) m j ≡ true =
        λ m j h. rw (tiene_cola k m f d j, otro m j h) h in
      record {
        dentro = λ m j h. r.dentro m j (suyo m j h);
        marcado = λ m j h. elim (Bool-cases (en_tramo f.bloque_inicial (cantidad block_size f) j)) [
          | inl e ↦
              let x = r.disjuntos k m j (tiene_cabeza k f d j ∙ e) (suyo m j h) in
              absurd (cc (otro m j h, (eq_iff k m).1 x))
          | inr e ↦ rw e (r.marcado m j (suyo m j h))
        ];
        de_alguno = λ j h.
            let (m, x) = r.de_alguno j (ground arith) in (m, ground (arith, tiene_cola k m f d j));
        disjuntos = λ m n j h l. r.disjuntos m n j (suyo m j h) (suyo n j l);
      }

  -- The files take together as many blocks as there are set bits.
  pub suma-contar :
      (block_count : ℕ) (d : Diccionario) (test : ℕ → Bool)
      → Unicos d
      → (cada : (f : Metadata) → 0 < cantidad block_size f)
      → IsReparto block_count (tiene block_size d) test
      → suma block_size d ≡ contar_desde test 0 block_count
  unfolding get
  suma-contar block_count [] test u p r = sym (
      contar-nada test 0 block_count
        (λ j. elim (Bool-cases (test j)) [ inl e ↦ cc ((r.de_alguno j e).1) | inr e ↦ e ]))
  suma-contar block_count ((k, f) ∷ d) test u p r =
      let t = sin_tramo f.bloque_inicial (cantidad block_size f) test in
      let resto = suma-contar block_count d t u.1 p (IsReparto-cola block_count k f d test u r) in
      let tramo = tiene_cabeza k f d in
      let ultimo = f.bloque_inicial + cantidad block_size f - 1 in
      let uno = p f in
      let cabe = r.dentro k ultimo (tramo ultimo ∙ ground arith) in
      let menos =
        contar-sin_tramo test t block_count f.bloque_inicial (cantidad block_size f) (λ j. refl)
          (λ j a b. r.marcado k j (tramo j ∙ ground arith)) (omega (arith, cabe, uno)) in
      omega (arith, resto, menos)
