-- ===== src/Utils/Serializacion/Primitivas.antt =====
-- serializacion.c: each kind of field is read back as it was written.
use tp_sistemas_operativos_c.Common.{
  ℕ, ◌+◌, ◌*◌, ◌/◌, ◌%◌, ◌^◌, ◌<◌, ◌==◌, ◌≡◌, refl, ap, sym, ◌∙◌, false, List, [], ◌∷◌, ◌++◌,
  append_assoc, append-nil, some, length, length-append, ℤ, pos, negsuc, to_unsigned, to_signed,
  arith,
}
use tp_sistemas_operativos_c.Utils.Serializacion.{
  bytes_int, leer_int, bytes_cadena, leer_cadena, leer_bytes, leer_tantos, bytes_con_tamano,
  leer_con_tamano,
}

-- The values of an `int`.
abbrev pub IsInt : ℤ → Type 0
IsInt (pos n) = n < 2 ^ 31
IsInt (negsuc n) = n < 2 ^ 31

-- A text has no null byte.
abbrev pub IsCadena : List ℕ → Type 0
IsCadena [] = Unit
IsCadena (b ∷ bs) = (0 < b) × IsCadena bs

int_vuelta :
    (u : ℕ)
    → u < 2 ^ 32
    → u % 256 + 256 * (u / 256 % 256) + 65536 * (u / 65536 % 256) + 16777216 * (u / 16777216 % 256)
      ≡ u
int_vuelta u h = omega arith

signo_vuelta : (v : ℤ) → IsInt v → to_signed (2 ^ 31) (to_unsigned (2 ^ 32) v) ≡ v
signo_vuelta (pos n) h = ground arith
signo_vuelta (negsuc n) h = ground arith

menor_32 : (v : ℤ) → to_unsigned (2 ^ 32) v < 2 ^ 32
menor_32 v = ground arith

pub leer_int-bytes_int :
    (v : ℤ) (resto : List ℕ) → IsInt v → leer_int (bytes_int v ++ resto) ≡ some (v, resto)
unfolding leer_int bytes_int
leer_int-bytes_int v resto h =
    ap (λ x. some (x, resto))
      (ap (to_signed (2 ^ 31)) (int_vuelta (to_unsigned (2 ^ 32) v) (menor_32 v))
        ∙ signo_vuelta v h)

pub leer_cadena-bytes_cadena :
    (s resto : List ℕ) → IsCadena s → leer_cadena (bytes_cadena s ++ resto) ≡ some (s, resto)
unfolding leer_cadena bytes_cadena
leer_cadena-bytes_cadena [] resto h = refl
leer_cadena-bytes_cadena (b ∷ s) resto h =
    let e : (b == 0) ≡ false = ground (arith, h.0) in rw (e, leer_cadena-bytes_cadena s resto h.1)

pub leer_bytes-append : (s resto : List ℕ) → leer_bytes (length s) (s ++ resto) ≡ some (s, resto)
unfolding leer_bytes
leer_bytes-append [] resto = refl
leer_bytes-append (b ∷ s) resto = rw (leer_bytes-append s resto)

pub leer_bytes-largo :
    (n : ℕ) (s resto : List ℕ) → length s ≡ n → leer_bytes n (s ++ resto) ≡ some (s, resto)
leer_bytes-largo n s resto h =
    ap (λ k. leer_bytes k (s ++ resto)) (sym h) ∙ leer_bytes-append s resto

con_tamano_de :
    (bs resto : List ℕ) (n : ℤ) (c cs s q : List ℕ)
    → leer_int bs ≡ some (n, cs)
    → leer_tantos n cs ≡ some (c, resto)
    → leer_cadena c ≡ some (s, q)
    → leer_con_tamano bs ≡ some (s, resto)
unfolding leer_con_tamano
con_tamano_de bs resto n c cs s q e1 e2 e3 = rw (leer_con_tamano, e1, e2, e3)

pub leer_tantos-largo :
    (n : ℕ) (s resto : List ℕ) → length s ≡ n → leer_tantos (pos n) (s ++ resto) ≡ some (s, resto)
unfolding leer_tantos
leer_tantos-largo n s resto h = leer_bytes-largo n s resto h

leer_cadena-sola : (s : List ℕ) → IsCadena s → leer_cadena (bytes_cadena s) ≡ some (s, [])
leer_cadena-sola s h =
    ap leer_cadena (sym (append-nil (bytes_cadena s))) ∙ leer_cadena-bytes_cadena s [] h

pub length-bytes_cadena : (s : List ℕ) → length (bytes_cadena s) ≡ length s + 1
unfolding bytes_cadena
length-bytes_cadena s = omega (arith, length-append s (0 ∷ []))

pub length-bytes_int : (v : ℤ) → length (bytes_int v) ≡ 4
unfolding bytes_int
length-bytes_int v = ground arith

pub leer_con_tamano-bytes_con_tamano :
    (s resto : List ℕ)
    → IsCadena s
    → length s + 1 < 2 ^ 31
    → leer_con_tamano (bytes_con_tamano s ++ resto) ≡ some (s, resto)
unfolding bytes_con_tamano
leer_con_tamano-bytes_con_tamano s resto h l =
    let n = pos (length s + 1) in
    con_tamano_de _ resto n (bytes_cadena s) (bytes_cadena s ++ resto) s []
      (ap leer_int (append_assoc (bytes_int n) (bytes_cadena s) resto)
        ∙ leer_int-bytes_int n (bytes_cadena s ++ resto) l)
      (leer_tantos-largo (length s + 1) (bytes_cadena s) resto (length-bytes_cadena s))
      (leer_cadena-sola s h)

pub length-bytes_con_tamano : (s : List ℕ) → length (bytes_con_tamano s) ≡ 4 + (length s + 1)
unfolding bytes_con_tamano
length-bytes_con_tamano s = omega (
  arith,
  length-append (bytes_int (pos (length s + 1))) (bytes_cadena s),
  length-bytes_int (pos (length s + 1)),
  length-bytes_cadena s,
)

-- The last field of a buffer.
pub leer_int-final : (v : ℤ) → IsInt v → leer_int (bytes_int v) ≡ some (v, [])
leer_int-final v h = ap leer_int (sym (append-nil (bytes_int v))) ∙ leer_int-bytes_int v [] h

pub leer_cadena-final : (s : List ℕ) → IsCadena s → leer_cadena (bytes_cadena s) ≡ some (s, [])
leer_cadena-final s h = leer_cadena-sola s h

pub leer_con_tamano-final :
    (s : List ℕ)
    → IsCadena s
    → length s + 1 < 2 ^ 31
    → leer_con_tamano (bytes_con_tamano s) ≡ some (s, [])
leer_con_tamano-final s h l =
    ap leer_con_tamano (sym (append-nil (bytes_con_tamano s)))
    ∙ leer_con_tamano-bytes_con_tamano s [] h l

pub leer_bytes-final : (n : ℕ) (s : List ℕ) → length s ≡ n → leer_bytes n s ≡ some (s, [])
leer_bytes-final n s h = ap (leer_bytes n) (sym (append-nil s)) ∙ leer_bytes-largo n s [] h

pub leer_tantos-final : (s : List ℕ) → leer_tantos (pos (length s)) s ≡ some (s, [])
leer_tantos-final s =
    ap (leer_tantos (pos (length s))) (sym (append-nil s)) ∙ leer_tantos-largo (length s) s [] refl
