-- ===== src/Utils/Paquetes/Conexion.antt =====
-- utils/src/utils/client.c and server.c: what is received through a connection that works.
use tp_sistemas_operativos_c.Common.{
  ℕ, ◌^◌, ◌<◌, ◌≡◌, refl, List, ◌++◌, some, length, ℤ, pos, negsuc, arith,
}
use tp_sistemas_operativos_c.Utils.Serializacion.{bytes_int}
use tp_sistemas_operativos_c.Utils.Serializacion.Primitivas.{leer_int-final}
use tp_sistemas_operativos_c.Utils.Paquetes.{
  Sockets, salvo_error, operacion_recibida, recibir_operacion, recibir_tantos, recibir_buffer,
}

-- A connection that works: `send` takes all the bytes, and `recv` with MSG_WAITALL gives as many as
-- asked for where they are there, in the order in which they were sent.
pub record IsConexion (k : Sockets) : Type 0 where
  pub pendientes : k.Canal → List ℕ
  pub pendientes-send :
      (bs : List ℕ) (c : k.Canal)
      → (n : ℕ) × ((k.send bs c).0 ≡ pos n) × (pendientes (k.send bs c).1 ≡ pendientes c ++ bs)
  pub recv-pendientes :
      (bs resto : List ℕ) (c : k.Canal)
      → 0 < length bs
      → pendientes c ≡ bs ++ resto
      → ((k.recv (length bs) c).0 ≡ pos (length bs))
        × ((k.recv (length bs) c).1 ≡ bs)
        × (pendientes (k.recv (length bs) c).2 ≡ resto)

pub salvo_error-pos : {A : Type 0} (r : ℤ × A) (n : ℕ) → r.0 ≡ pos n → salvo_error r ≡ some r.1
unfolding salvo_error
salvo_error-pos (pos m, c) n e = refl
salvo_error-pos (negsuc m, c) n e = cc

module _ (k : Sockets) (conexion : IsConexion k) where
  -- `recv` of the bytes of an `int` where they come first.
  recv_int :
      (v : ℤ) (resto : List ℕ) (c : k.Canal)
      → conexion.pendientes c ≡ bytes_int v ++ resto
      → ((k.recv 4 c).0 ≡ pos 4)
        × ((k.recv 4 c).1 ≡ bytes_int v)
        × (conexion.pendientes (k.recv 4 c).2 ≡ resto)
  unfolding bytes_int
  recv_int v resto c e = conexion.recv-pendientes (bytes_int v) resto c (omega arith) e

  pub recibir_buffer_lem :
      (bs resto : List ℕ) (c : k.Canal)
      → 0 < length bs
      → length bs < 2 ^ 31
      → conexion.pendientes c ≡ bytes_int (pos (length bs)) ++ (bs ++ resto)
      → (c' : k.Canal) × (recibir_buffer k c ≡ some (pos (length bs), bs, c'))
        × (conexion.pendientes c' ≡ resto)
  unfolding recibir_buffer recibir_tantos
  recibir_buffer_lem bs resto c h l e =
      let a = recv_int (pos (length bs)) (bs ++ resto) c e in
      let c1 = (k.recv 4 c).2 in
      let b = conexion.recv-pendientes bs resto c1 h a.2 in
      ((k.recv (length bs) c1).2, rw (a.1, leer_int-final (pos (length bs)) l, b.1), b.2)

  pub recibir_operacion_lem :
      (resto : List ℕ) (c : k.Canal)
      → conexion.pendientes c ≡ bytes_int (pos 1) ++ resto
      → (c' : k.Canal) × (recibir_operacion k c ≡ some (pos 1, c'))
        × (conexion.pendientes c' ≡ resto)
  unfolding recibir_operacion operacion_recibida
  recibir_operacion_lem resto c e =
      let a = recv_int (pos 1) resto c e in
      ((k.recv 4 c).2, rw (a.0, a.1, leer_int-final (pos 1) (omega arith)), a.2)
