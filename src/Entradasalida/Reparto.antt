-- ===== src/Entradasalida/Reparto.antt =====
-- entradasalida/src: the blocks of the files, but for one file, and the bits of the bitmap; and what
-- a walk through the elements of the dictionary finds.
pub mod Suma
use tp_sistemas_operativos_c.Common.{
  ℕ, ◌<◌, ◌≡◌, ◌≢◌, ◌==◌, ==_iff, String, Bool, true, false, List, [], ◌∷◌, Option, none, some,
  if◌then◌else◌, arith, get, str_eq, string_eq, eq_iff,
}
use tp_sistemas_operativos_c.Entradasalida.{Metadata}
use tp_sistemas_operativos_c.Entradasalida.Diccionario.{Diccionario, fcb_x_inicio, get_fcb_x_inicio}
use tp_sistemas_operativos_c.Entradasalida.Disco.{tiene, Unicos}

-- The blocks of a file other than `nombre`.
abbrev pub ajeno : ℕ → String → Diccionario → String → ℕ → Bool
ajeno block_size nombre d m i = if str_eq nombre m then false else tiene block_size d m i

-- A bit is set if and only if one of the files has the block, and one at most has it.
pub record IsReparto (block_count : ℕ) (duenio : String → ℕ → Bool) (test : ℕ → Bool) : Type 0 where
  pub dentro : (m : String) (i : ℕ) → duenio m i ≡ true → i < block_count
  pub marcado : (m : String) (i : ℕ) → duenio m i ≡ true → test i ≡ true
  pub de_alguno : (i : ℕ) → test i ≡ true → (m : String) × (duenio m i ≡ true)
  pub disjuntos : (m n : String) (i : ℕ) → duenio m i ≡ true → duenio n i ≡ true → m ≡ n

-- so-commons lists every element of a dictionary once, in an order of its own.
pub record IsListado (elementos : Diccionario → Diccionario) : Type 0 where
  pub lookup : (d : Diccionario) (n : String) → Unicos d → get n (elementos d) ≡ get n d
  pub unicos : (d : Diccionario) → Unicos d → Unicos (elementos d)

fcb_x_inicio-some :
    (d : Diccionario) (i : ℕ) (n : String) (f : Metadata)
    → Unicos d
    → fcb_x_inicio d i ≡ some (n, f)
    → (get n d ≡ some f) × (f.bloque_inicial ≡ i)
unfolding fcb_x_inicio get
fcb_x_inicio-some [] i n f u e = cc
fcb_x_inicio-some ((k, g) ∷ d) i n f u e = ground (arith, fcb_x_inicio-some d i n f, eq_iff k n)

fcb_x_inicio-none :
    (d : Diccionario) (i : ℕ) (n : String) (f : Metadata)
    → fcb_x_inicio d i ≡ none
    → get n d ≡ some f
    → f.bloque_inicial ≢ i
unfolding fcb_x_inicio get
fcb_x_inicio-none [] i n f e m x = cc
fcb_x_inicio-none ((k, g) ∷ d) i n f e m x = ground (arith, fcb_x_inicio-none d i n f, eq_iff k n)

module _ (elementos : Diccionario → Diccionario) (listado : IsListado elementos) (d : Diccionario)
    (u : Unicos d) (i : ℕ) (n : String) (f : Metadata) where
  pub get_fcb_x_inicio-some :
      get_fcb_x_inicio elementos d i ≡ some (n, f) → (get n d ≡ some f) × (f.bloque_inicial ≡ i)
  unfolding get_fcb_x_inicio
  get_fcb_x_inicio-some e =
      let (x, y) = fcb_x_inicio-some (elementos d) i n f (listado.unicos d u) e in
      (rw (listado.lookup d n u) at x, y)

  pub get_fcb_x_inicio-none :
      get_fcb_x_inicio elementos d i ≡ none → get n d ≡ some f → f.bloque_inicial ≢ i
  unfolding get_fcb_x_inicio
  get_fcb_x_inicio-none e m = fcb_x_inicio-none (elementos d) i n f e (rw (listado.lookup d n u) m)
