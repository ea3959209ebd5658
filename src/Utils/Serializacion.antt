-- ===== src/Utils/Serializacion.antt =====
-- utils/src/utils/serializacion.c: the bytes of the payloads. A buffer is a list of bytes; a text is
-- its bytes before the null one; a `t_PCB` is the `size_pcb` bytes that it takes, copied as they
-- are. A reader gives what it read and the bytes that follow, or none where the buffer ends.
pub mod Primitivas
pub mod Memoria
pub mod Llamadas
use tp_sistemas_operativos_c.Common.{
  ℕ, zero, suc, ◌+◌, ◌*◌, ◌/◌, ◌%◌, ◌^◌, ◌==◌, ◌≡◌, Bool, List, [], ◌∷◌, ◌++◌, Option, none, some,
  length, if◌then◌else◌, ℤ, pos, negsuc, to_unsigned, to_signed,
}

infixl 5 ◌>>=◌
abbrev pub ◌>>=◌ {ℓ κ} : {A : Type ℓ} {B : Type κ} → Option A → (A → Option B) → Option B
none >>= f = none
some a >>= f = f a

-- The bytes of an `int`, the lowest first.
unfoldable pub bytes_int : ℤ → List ℕ
bytes_int v =
    let u = to_unsigned (2 ^ 32) v in
    u % 256 ∷ u / 256 % 256 ∷ u / 65536 % 256 ∷ u / 16777216 % 256 ∷ []

unfoldable pub leer_int : List ℕ → Option (ℤ × List ℕ)
leer_int (a ∷ b ∷ c ∷ d ∷ resto) =
    some (to_signed (2 ^ 31) (a + 256 * b + 65536 * c + 16777216 * d), resto)
leer_int _ = none

-- The bytes of a text, with the null one.
unfoldable pub bytes_cadena : List ℕ → List ℕ
bytes_cadena s = s ++ (0 ∷ [])

-- `strlen` and a copy: up to the first null byte.
unfoldable pub leer_cadena : List ℕ → Option (List ℕ × List ℕ)
leer_cadena [] = none
leer_cadena (b ∷ bs) =
    let resto = leer_cadena bs in
    if b == 0 then some ([], bs) else (elim resto [ none ↦ none | some p ↦ some (b ∷ p.0, p.1) ])

-- `memcpy` of `n` bytes.
unfoldable pub leer_bytes : ℕ → List ℕ → Option (List ℕ × List ℕ)
leer_bytes zero bs = some ([], bs)
leer_bytes (suc n) [] = none
leer_bytes (suc n) (b ∷ bs) = elim (leer_bytes n bs) [ none ↦ none | some p ↦ some (b ∷ p.0, p.1) ]

-- `memcpy` of as many bytes as an `int` says; a negative number is none.
unfoldable pub leer_tantos : ℤ → List ℕ → Option (List ℕ × List ℕ)
leer_tantos (pos n) bs = leer_bytes n bs
leer_tantos (negsuc n) bs = none

-- A text after its size, which counts the null byte.
unfoldable pub bytes_con_tamano : List ℕ → List ℕ
bytes_con_tamano s = bytes_int (pos (length s + 1)) ++ bytes_cadena s

-- The block that was copied is read as a text from then on.
unfoldable pub leer_con_tamano : List ℕ → Option (List ℕ × List ℕ)
leer_con_tamano bs = do
  n ← leer_int bs
  c ← leer_tantos n.0 n.1
  s ← leer_cadena c.0
  some (s.0, c.1)
