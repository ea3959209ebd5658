-- ===== src/Utils/Paquetes/Formato.antt =====
-- utils/src/utils/client.c and server.c: the bytes of a packet, written and read back.
use tp_sistemas_operativos_c.Common.{
  ℕ, ◌+◌, ◌^◌, ◌<◌, ◌≡◌, refl, ap, sym, ◌∙◌, List, [], ◌++◌, some, length, ℤ, pos, arith,
}
use tp_sistemas_operativos_c.Utils.Serializacion.{bytes_int, leer_bytes, leer_tantos}
use tp_sistemas_operativos_c.Utils.Serializacion.Primitivas.{
  IsInt, leer_int-bytes_int, leer_tantos-final,
}
use tp_sistemas_operativos_c.Utils.Paquetes.{
  Sockets, PaqueteEntre, suma_int, en_bloque, serializar_paquete, serializar_paquete_entre,
  crear_buffer, crear_paquete, agregar_paquete_entre_a_paquete, enviar_paquete,
  enviar_paquete_entre, salvo_error, deserializar_paquete_entre,
}

-- A packet with all the bytes of its payload.
abbrev pub entre : ℤ → List ℕ → PaqueteEntre
entre op carga = record { operacion = op; size_payload = pos (length carga); payload = carga }

abbrev pub bytes_entre : ℤ → List ℕ → List ℕ
bytes_entre op carga = bytes_int op ++ (bytes_int (pos (length carga)) ++ carga)

-- The buffer of a packet that has another one.
abbrev pub cuerpo : ℤ → List ℕ → List ℕ
cuerpo op carga = bytes_int (pos (8 + length carga)) ++ bytes_entre op carga

-- What is sent.
abbrev pub trama : ℤ → List ℕ → List ℕ
trama op carga = bytes_int (pos 1) ++ (bytes_int (pos (12 + length carga)) ++ cuerpo op carga)

pub suma_int-pos : (a b : ℕ) → a + b < 2 ^ 31 → suma_int (pos a) (pos b) ≡ pos (a + b)
unfolding suma_int
suma_int-pos a b h = ground arith

pub en_bloque-justo : (n : ℕ) (bs : List ℕ) → length bs ≡ n → en_bloque (pos n) bs ≡ some bs
unfolding en_bloque
en_bloque-justo n bs h = ground arith

pub leer_tantos-justo :
    (n : ℕ) (bs : List ℕ) → length bs ≡ n → leer_tantos (pos n) bs ≡ some (bs, [])
leer_tantos-justo n bs h = ap (λ i. leer_tantos (pos i) bs) (sym h) ∙ leer_tantos-final bs

length-dos : (v w : ℤ) (bs : List ℕ) → length (bytes_int v ++ (bytes_int w ++ bs)) ≡ 8 + length bs
unfolding bytes_int
length-dos v w bs = ground arith

pub length-uno : (v : ℤ) (bs : List ℕ) → length (bytes_int v ++ bs) ≡ 4 + length bs
unfolding bytes_int
length-uno v bs = ground arith

pub length-cuerpo : (op : ℤ) (carga : List ℕ) → length (cuerpo op carga) ≡ 12 + length carga
length-cuerpo op carga = omega (
  arith,
  length-uno (pos (8 + length carga)) (bytes_entre op carga),
  length-dos op (pos (length carga)) carga,
)

pub leer_nada : leer_tantos (pos 0) [] ≡ some ([], [])
unfolding leer_tantos leer_bytes
leer_nada = refl

-- The size of a packet that gets another one as its first.
suma_nueva :
    (n : ℕ) → n + 20 < 2 ^ 31 → suma_int (suma_int (pos 0) (pos (8 + n))) (pos 4) ≡ pos (12 + n)
unfolding suma_int
suma_nueva n h = ground arith

pub enviar_paquete_lem :
    (k : Sockets) (codigo : ℤ) (bs : List ℕ) (n : ℕ) (c : k.Canal)
    → length bs ≡ n
    → n + 8 < 2 ^ 31
    → enviar_paquete k
        (record { codigo_operacion = codigo; buffer = record { size = pos n; stream = bs } })
        c
      ≡ salvo_error (k.send (bytes_int codigo ++ (bytes_int (pos n) ++ bs)) c)
unfolding enviar_paquete serializar_paquete
enviar_paquete_lem k codigo bs n c l h =
    let todo = bytes_int codigo ++ (bytes_int (pos n) ++ bs) in
    let largo : length todo ≡ n + 8 = omega (arith, length-dos codigo (pos n) bs) in
    rw (
      suma_int-pos n 8 h,
      leer_tantos-justo n bs l,
      en_bloque-justo (n + 8) todo largo,
      leer_tantos-justo (n + 8) todo largo,
    )

module _ (op : ℤ) (carga : List ℕ) (cabe : length carga + 20 < 2 ^ 31) where
  serializar_entre :
      serializar_paquete_entre (entre op carga)
      ≡ some (bytes_entre op carga, pos (8 + length carga))
  unfolding serializar_paquete_entre
  serializar_entre = rw (
    leer_tantos-final carga,
    suma_int-pos 8 (length carga) (omega arith),
    en_bloque-justo (8 + length carga) (bytes_entre op carga)
        (length-dos op (pos (length carga)) carga),
  )

  agregar_entre :
      agregar_paquete_entre_a_paquete crear_paquete (entre op carga)
      ≡ some (record {
        codigo_operacion = pos 1;
        buffer = record { size = pos (12 + length carga); stream = cuerpo op carga };
      })
  unfolding agregar_paquete_entre_a_paquete crear_paquete crear_buffer
  agregar_entre = rw (
    serializar_entre,
    leer_nada,
    leer_tantos-justo (8 + length carga) (bytes_entre op carga)
        (length-dos op (pos (length carga)) carga),
    suma_nueva (length carga) (omega arith),
    en_bloque-justo (12 + length carga) (cuerpo op carga) (length-cuerpo op carga),
  )

  pub enviar_paquete_entre_lem :
      (k : Sockets) (c : k.Canal)
      → enviar_paquete_entre k op carga (pos (length carga)) c
        ≡ salvo_error (k.send (trama op carga) c)
  unfolding enviar_paquete_entre
  enviar_paquete_entre_lem k c = rw agregar_entre (
      enviar_paquete_lem k (pos 1) (cuerpo op carga) (12 + length carga) c (length-cuerpo op carga)
        (omega arith))

  pub deserializar_entre :
      IsInt op → deserializar_paquete_entre (bytes_entre op carga) ≡ some (entre op carga)
  unfolding deserializar_paquete_entre
  deserializar_entre h = rw (
    leer_int-bytes_int op (bytes_int (pos (length carga)) ++ carga) h,
    leer_int-bytes_int (pos (length carga)) carga (omega arith),
    leer_tantos-final carga,
  )
