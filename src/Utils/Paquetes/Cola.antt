-- ===== src/Utils/Paquetes/Cola.antt =====
-- utils/src/utils/envios.c and server.c: a channel is a queue of packets.
use tp_sistemas_operativos_c.Common.{
  ℕ, ◌+◌, ◌^◌, ◌<◌, ◌≡◌, refl, ap, sym, ◌∙◌, List, [], ◌∷◌, ◌++◌, append_assoc, append-nil, map,
  Option, none, some, length, ℤ, pos, arith,
}
use tp_sistemas_operativos_c.Utils.Serializacion.{◌>>=◌, bytes_int}
use tp_sistemas_operativos_c.Utils.Serializacion.Primitivas.{IsInt, leer_int-bytes_int}
use tp_sistemas_operativos_c.Utils.Paquetes.{
  Sockets, PaqueteEntre, enviar_paquete_entre, recibir_cuerpo, segun_operacion,
  recibir_paquete_entre,
}
use tp_sistemas_operativos_c.Utils.Paquetes.Conexion.{
  IsConexion, salvo_error-pos, recibir_operacion_lem, recibir_buffer_lem,
}
use tp_sistemas_operativos_c.Utils.Paquetes.Formato.{
  entre, bytes_entre, cuerpo, trama, length-cuerpo, enviar_paquete_entre_lem, deserializar_entre,
}

-- The program at both ends of a channel: it sends a packet, or waits for one.
pub data Paso : Type 0 where
  envia : ℤ → List ℕ → Paso
  recibe : Paso

-- The operation is an `int`, and so is the size of what is sent.
abbrev pub Cabe : ℤ × List ℕ → Type 0
Cabe p = IsInt p.0 × (length p.1 + 20 < 2 ^ 31)

abbrev pub Caben : List Paso → Type 0
Caben [] = Unit
Caben (envia op carga ∷ ps) = Cabe (op, carga) × Caben ps
Caben (recibe ∷ ps) = Caben ps

abbrev pub CabenTodos : List (ℤ × List ℕ) → Type 0
CabenTodos [] = Unit
CabenTodos (p ∷ q) = Cabe p × CabenTodos q

-- The queue: a packet goes to its end, and the first is received. Nothing is received from an empty
-- one, where the program waits.
unfoldable pub cola : List Paso → List (ℤ × List ℕ) → Option (List PaqueteEntre × List (ℤ × List ℕ))
cola [] q = some ([], q)
cola (envia op carga ∷ ps) q = cola ps (q ++ ((op, carga) ∷ []))
cola (recibe ∷ ps) [] = none
cola (recibe ∷ ps) (p ∷ q) = cola ps q >>= (λ r. some (entre p.0 p.1 ∷ r.0, r.1))

-- The code, and the packets that it receives.
pub correr : (k : Sockets) → List Paso → k.Canal → Option (List (Option PaqueteEntre) × k.Canal)
correr k [] c = some ([], c)
correr k (envia op carga ∷ ps) c =
    enviar_paquete_entre k op carga (pos (length carga)) c >>= (λ c'. correr k ps c')
correr k (recibe ∷ ps) c =
    recibir_paquete_entre k c >>= (λ p. correr k ps p.1 >>= (λ r. some (p.0 ∷ r.0, r.1)))

abbrev pub tramas : List (ℤ × List ℕ) → List ℕ
tramas [] = []
tramas (p ∷ q) = trama p.0 p.1 ++ tramas q

tramas-append :
    (q : List (ℤ × List ℕ)) (op : ℤ) (carga : List ℕ)
    → tramas (q ++ ((op, carga) ∷ [])) ≡ tramas q ++ trama op carga
tramas-append [] op carga = append-nil (trama op carga)
tramas-append (p ∷ q) op carga =
    rw (tramas-append q op carga) (sym (append_assoc (trama p.0 p.1) (tramas q) (trama op carga)))

partes :
    (op : ℤ) (carga resto : List ℕ)
    → trama op carga ++ resto
      ≡ bytes_int (pos 1) ++ (bytes_int (pos (12 + length carga)) ++ (cuerpo op carga ++ resto))
partes op carga resto =
    append_assoc (bytes_int (pos 1)) (bytes_int (pos (12 + length carga)) ++ cuerpo op carga) resto
    ∙ ap (λ l. bytes_int (pos 1) ++ l)
        (append_assoc (bytes_int (pos (12 + length carga))) (cuerpo op carga) resto)

CabenTodos-append :
    (q : List (ℤ × List ℕ)) (p : ℤ × List ℕ) → CabenTodos q → Cabe p → CabenTodos (q ++ (p ∷ []))
CabenTodos-append [] p g h = (h, tt)
CabenTodos-append (r ∷ q) p g h = (g.0, CabenTodos-append q p g.1 h)

-- What a queue that starts with a reception receives.
recibido :
    (o : Option (List PaqueteEntre × List (ℤ × List ℕ))) (p : PaqueteEntre) {rs : List PaqueteEntre}
    {q' : List (ℤ × List ℕ)}
    → ◌>>=◌ {B = List PaqueteEntre × List (ℤ × List ℕ)} o (λ r. some (p ∷ r.0, r.1)) ≡ some (rs, q')
    → (rs' : List PaqueteEntre) × (o ≡ some (rs', q')) × (rs ≡ p ∷ rs')
recibido none p t = cc
recibido (some r) p t = (r.0, ground arith, ground arith)

module _ (k : Sockets) (conexion : IsConexion k) where
  recibir_paquete_entre_lem :
      (op : ℤ) (carga resto : List ℕ) (c : k.Canal)
      → Cabe (op, carga)
      → conexion.pendientes c ≡ trama op carga ++ resto
      → (c' : k.Canal) × (recibir_paquete_entre k c ≡ some (some (entre op carga), c'))
        × (conexion.pendientes c' ≡ resto)
  unfolding recibir_paquete_entre segun_operacion recibir_cuerpo
  recibir_paquete_entre_lem op carga resto c h e =
      let largo = length-cuerpo op carga in
      let a =
        recibir_operacion_lem k conexion
          (bytes_int (pos (12 + length carga)) ++ (cuerpo op carga ++ resto)) c
          (e ∙ partes op carga resto) in
      let b =
        recibir_buffer_lem k conexion (cuerpo op carga) resto a.0 (omega arith) (omega (arith, h.1))
          (a.2 ∙ ap (λ n. bytes_int (pos n) ++ (cuerpo op carga ++ resto)) (sym largo)) in
      (
        b.0,
        rw (
          a.1,
          b.1,
          leer_int-bytes_int (pos (8 + length carga)) (bytes_entre op carga) (omega (arith, h.1)),
          deserializar_entre op carga h.1 h.0,
        ),
        b.2,
      )

  -- Over a connection that works, on which a queue of packets is on its way, any sequence of
  -- packets that are sent, with an int as operation and fewer than 2 ^ 31 - 20 bytes, and of
  -- packets that are received, of which none is received from an empty queue, returns: it receives
  -- the packets that the queue gives, in the order in which they were sent and with their
  -- operation, size and bytes, and the rest of the queue is on its way.
  pub correr-cola :
      (ps : List Paso) (q : List (ℤ × List ℕ)) (c : k.Canal)
      → Caben ps
      → CabenTodos q
      → conexion.pendientes c ≡ tramas q
      → {rs : List PaqueteEntre} {q' : List (ℤ × List ℕ)} → cola ps q ≡ some (rs, q')
      → (c' : k.Canal) × (correr k ps c ≡ some (map some rs, c'))
        × (conexion.pendientes c' ≡ tramas q')
  unfolding correr cola
  correr-cola [] q c h g e {rs} {q'} t =
      let a : [] ≡ rs = ground arith in
      let b : q ≡ q' = ground arith in (c, rw (← a) refl, e ∙ ap tramas b)
  correr-cola (envia op carga ∷ ps) q c h g e t =
      let m = conexion.pendientes-send (trama op carga) c in
      let c1 = (k.send (trama op carga) c).1 in
      let r =
        correr-cola ps (q ++ ((op, carga) ∷ [])) c1 h.1 (CabenTodos-append q (op, carga) g h.0)
          (m.2 ∙ ap (λ l. l ++ trama op carga) e ∙ sym (tramas-append q op carga)) t in
      (
        r.0,
        rw
            (
              enviar_paquete_entre_lem op carga h.0.1 k c,
              salvo_error-pos (k.send (trama op carga) c) m.0 m.1,
            )
            r.1,
        r.2,
      )
  correr-cola (recibe ∷ ps) [] c h g e t = cc
  correr-cola (recibe ∷ ps) (p ∷ q) c h g e {rs} {q'} t =
      let a = recibir_paquete_entre_lem p.0 p.1 (tramas q) c g.0 e in
      let d = recibido (cola ps q) (entre p.0 p.1) t in
      let r = correr-cola ps q a.0 h g.1 a.2 d.1 in (r.0, rw (d.2, a.1, r.1), r.2)
