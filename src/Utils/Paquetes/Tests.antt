-- ===== src/Utils/Paquetes/Tests.antt =====
-- A channel that is the list of the bytes on their way.
use tp_sistemas_operativos_c.Common.{
  ℕ, ◌≡◌, refl, ap, ◌∙◌, List, [], ◌∷◌, ◌++◌, map, none, some, length, pos, negsuc, arith,
}
use tp_sistemas_operativos_c.Utils.Serializacion.{◌>>=◌, bytes_int, leer_bytes}
use tp_sistemas_operativos_c.Utils.Serializacion.Primitivas.{leer_bytes-append}
use tp_sistemas_operativos_c.Utils.Paquetes.{
  Sockets, crear_paquete, enviar_paquete, recibir_operacion, recibir_paquete,
}
use tp_sistemas_operativos_c.Utils.Paquetes.Conexion.{IsConexion}
use tp_sistemas_operativos_c.Utils.Paquetes.Cola.{
  Paso, envia, recibe, cola, correr, tramas, correr-cola,
}
use tp_sistemas_operativos_c.Utils.Paquetes.Formato.{entre}
use tp_sistemas_operativos_c.Utils.Paquetes.Valores.{
  agregar_valores, recibir_paquete-agregar_valores,
}

abbrev una_red : Sockets
una_red = record {
  Canal = List ℕ;
  send = λ bs c. (pos (length bs), c ++ bs);
  recv = λ n c. elim (leer_bytes n c) [ none ↦ (negsuc 0, [], c) | some p ↦ (pos n, p.0, p.1) ];
  close = λ c. c;
}

abbrev una_red-IsConexion : IsConexion una_red
una_red-IsConexion = record {
  pendientes = λ c. c;
  pendientes-send = λ bs c. (length bs, refl, refl);
  recv-pendientes = λ bs resto c h e.
      let l : leer_bytes (length bs) c ≡ some (bs, resto) =
        ap (leer_bytes (length bs)) e ∙ leer_bytes-append bs resto in
      (rw (una_red, l), rw (una_red, l), rw (una_red, l));
}

abbrev unos_pasos : List Paso
unos_pasos =
    envia (pos 3) (7 ∷ []) ∷ recibe ∷ envia (pos 4) [] ∷ envia (pos 5) (8 ∷ 9 ∷ []) ∷ recibe ∷ []

correr-cola_example :
    (c : List ℕ) × (correr una_red unos_pasos []
      ≡ some (map some (entre (pos 3) (7 ∷ []) ∷ entre (pos 4) [] ∷ []), c))
    × (c ≡ tramas ((pos 5, 8 ∷ 9 ∷ []) ∷ []))
unfolding cola
correr-cola_example =
    correr-cola una_red una_red-IsConexion unos_pasos [] [] (ground arith) tt refl refl

recibir_paquete-agregar_valores_example :
    (c1 c2 c3 : List ℕ) × ((agregar_valores ((7 ∷ 8 ∷ []) ∷ [] ∷ []) crear_paquete
        >>= (λ p. enviar_paquete una_red p []))
      ≡ some c1)
    × (recibir_operacion una_red c1 ≡ some (pos 1, c2))
    × (recibir_paquete una_red c2 ≡ some ((7 ∷ 8 ∷ []) ∷ [] ∷ [], c3))
    × (c3 ≡ [])
unfolding bytes_int
recibir_paquete-agregar_valores_example =
    recibir_paquete-agregar_valores una_red una_red-IsConexion (7 ∷ 8 ∷ []) ([] ∷ []) []
      (omega arith) refl
