-- ===== src/Utils/Paquetes/Valores.antt =====
-- utils/src/utils/client.c and server.c: a packet of values.
use tp_sistemas_operativos_c.Common.{
  ℕ, zero, suc, ◌+◌, ◌^◌, ◌<◌, ◌≡◌, refl, ap, sym, ◌∙◌, true, false, List, [], ◌∷◌, ◌++◌,
  append_assoc, append-nil, Option, some, length, length-append, ltb_ℤ, pos, arith,
}
use tp_sistemas_operativos_c.Utils.Serializacion.{◌>>=◌, bytes_int}
use tp_sistemas_operativos_c.Utils.Serializacion.Primitivas.{
  leer_int-bytes_int, leer_tantos-largo, leer_tantos-final,
}
use tp_sistemas_operativos_c.Utils.Paquetes.{
  Sockets, Paquete, crear_buffer, crear_paquete, agregar_a_paquete, enviar_paquete, leer_valores,
  recibir_operacion, recibir_paquete,
}
use tp_sistemas_operativos_c.Utils.Paquetes.Conexion.{
  IsConexion, salvo_error-pos, recibir_operacion_lem, recibir_buffer_lem,
}
use tp_sistemas_operativos_c.Utils.Paquetes.Formato.{
  suma_int-pos, en_bloque-justo, length-uno, enviar_paquete_lem,
}

-- Each value goes to the packet with all its bytes.
pub agregar_valores : List (List ℕ) → Paquete → Option Paquete
agregar_valores [] p = some p
agregar_valores (v ∷ vs) p = agregar_a_paquete p v (pos (length v)) >>= (λ q. agregar_valores vs q)

abbrev pub bytes_valores : List (List ℕ) → List ℕ
bytes_valores [] = []
bytes_valores (v ∷ vs) = bytes_int (pos (length v)) ++ (v ++ bytes_valores vs)

length-valor :
    (v resto : List ℕ)
    → length (bytes_int (pos (length v)) ++ (v ++ resto)) ≡ 4 + length v + length resto
length-valor v resto =
    omega (arith, length-uno (pos (length v)) (v ++ resto), length-append v resto)

abbrev con : List ℕ → Paquete
con bs = record {
  codigo_operacion = pos 1;
  buffer = record { size = pos (length bs); stream = bs };
}

agregar_a_paquete_lem :
    (bs v : List ℕ)
    → length bs + (4 + length v) < 2 ^ 31
    → agregar_a_paquete (con bs) v (pos (length v))
      ≡ some (con (bs ++ (bytes_int (pos (length v)) ++ v)))
unfolding agregar_a_paquete
agregar_a_paquete_lem bs v h =
    let nuevo = bs ++ (bytes_int (pos (length v)) ++ v) in
    let largo : length nuevo ≡ length bs + length v + 4 =
      omega (
        arith,
        length-append bs (bytes_int (pos (length v)) ++ v),
        length-uno (pos (length v)) v,
      ) in
    rw (
      suma_int-pos (length bs) (length v) (omega arith),
      suma_int-pos (length bs + length v) 4 (omega arith),
      leer_tantos-final bs,
      leer_tantos-final v,
      en_bloque-justo (length bs + length v + 4) nuevo largo,
      largo,
    )

agregar_valores_lem :
    (vs : List (List ℕ)) (bs : List ℕ)
    → length bs + length (bytes_valores vs) < 2 ^ 31
    → agregar_valores vs (con bs) ≡ some (con (bs ++ bytes_valores vs))
unfolding agregar_valores
agregar_valores_lem [] bs h = rw (append-nil bs)
agregar_valores_lem (v ∷ vs) bs h =
    let primero = bytes_int (pos (length v)) ++ v in
    let l = length-valor v (bytes_valores vs) in
    let m = length-append bs primero in
    let n = length-uno (pos (length v)) v in
    rw (
      agregar_a_paquete_lem bs v (omega arith),
      agregar_valores_lem vs (bs ++ primero) (omega arith),
      append_assoc bs primero (bytes_valores vs),
      append_assoc (bytes_int (pos (length v))) v (bytes_valores vs),
    )

leer_valores_lem :
    (vs : List (List ℕ)) (n d size : ℕ)
    → length (bytes_valores vs) < n
    → d + length (bytes_valores vs) ≡ size
    → size < 2 ^ 31
    → leer_valores n (pos size) d (bytes_valores vs) ≡ some vs
unfolding leer_valores
leer_valores_lem vs zero d size h e l = absurd (omega arith)
leer_valores_lem [] (suc n) d size h e l =
    let f : ltb_ℤ (pos d) (pos size) ≡ false = ground arith in rw f
leer_valores_lem (v ∷ vs) (suc n) d size h e l =
    let m = length-valor v (bytes_valores vs) in
    let f : ltb_ℤ (pos d) (pos size) ≡ true = ground arith in
    rw (
      f,
      leer_int-bytes_int (pos (length v)) (v ++ bytes_valores vs) (omega arith),
      leer_tantos-largo (length v) v (bytes_valores vs) refl,
      leer_valores_lem vs n (d + 4 + length v) size (omega arith) (omega arith) l,
    )

module _ (k : Sockets) (conexion : IsConexion k) where
  -- Over a connection that works and on which nothing is on its way, a packet to which one or more
  -- values are added, each with all its bytes and all of them with their sizes fewer than 2 ^ 31 -
  -- 8 bytes, is sent; recibir_operacion gives PAQUETE, and recibir_paquete gives the values in
  -- their order, with nothing left on its way.
  pub recibir_paquete-agregar_valores :
      (v : List ℕ) (vs : List (List ℕ)) (c : k.Canal)
      → length (bytes_valores (v ∷ vs)) + 8 < 2 ^ 31
      → conexion.pendientes c ≡ []
      → (c1 c2 c3 : k.Canal) × ((agregar_valores (v ∷ vs) crear_paquete
            >>= (λ p. enviar_paquete k p c))
          ≡ some c1)
        × (recibir_operacion k c1 ≡ some (pos 1, c2))
        × (recibir_paquete k c2 ≡ some (v ∷ vs, c3))
        × (conexion.pendientes c3 ≡ [])
  unfolding crear_paquete crear_buffer recibir_paquete
  recibir_paquete-agregar_valores v vs c h e =
      let bs = bytes_valores (v ∷ vs) in
      let todo = bytes_int (pos 1) ++ (bytes_int (pos (length bs)) ++ bs) in
      let s = conexion.pendientes-send todo c in
      let c1 = (k.send todo c).1 in
      let llega : conexion.pendientes c1 ≡ todo = s.2 ∙ ap (λ l. l ++ todo) e in
      let a = recibir_operacion_lem k conexion (bytes_int (pos (length bs)) ++ bs) c1 llega in
      let m = length-valor v (bytes_valores vs) in
      let b =
        recibir_buffer_lem k conexion bs [] a.0 (omega arith) (omega arith)
          (a.2 ∙ ap (λ l. bytes_int (pos (length bs)) ++ l) (sym (append-nil bs))) in
      (
        c1,
        a.0,
        b.0,
        rw (
          agregar_valores_lem (v ∷ vs) [] (omega arith),
          enviar_paquete_lem k (pos 1) bs (length bs) c refl h,
          salvo_error-pos (k.send todo c) s.0 s.1,
        ),
        a.1,
        rw (
          b.1,
          leer_valores_lem (v ∷ vs) (suc (length bs)) 0 (length bs) (omega arith) (omega arith)
              (omega arith),
        ),
        b.2,
      )
