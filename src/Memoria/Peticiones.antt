-- ===== src/Memoria/Peticiones.antt =====
-- memoria/src/memoria-utils/conexiones.c: the requests of the kernel and of the CPU, one packet each.
-- The delays and the logs are not in the model; the sizes that are asked for are natural numbers.
pub mod Traduccion
pub mod Aislada
mod Tests
use tp_sistemas_operativos_c.Common.{
  ℕ, zero, suc, ◌+◌, ◌*◌, not, ◌&&◌, List, [], ◌∷◌, Option, none, some, take, if◌then◌else◌, ltb, ℤ,
  pos, negsuc,
}
use tp_sistemas_operativos_c.Memoria.Marcos.{Bitarray}
use tp_sistemas_operativos_c.Memoria.Procesos.{
  Memoria, Redimension, menos_1, sin_cambio, resize_success, Respuesta, crear_proceso,
  finalizar_proceso, obtener_instruccion, buscar_direccion_fisica_en_tabla_de_paginas,
  redimensionar_proceso, proceso_por_pid,
}
use tp_sistemas_operativos_c.Memoria.Bytes.{
  Acceso, hecho, fuera, ◌>>=◌, escribir_memoria, obtener_dato_memoria,
  buscar_pagina_por_pid_y_marco,
}

-- A packet of the kernel; the bytes of the file, or `none`, are what the path leads to.
pub data PeticionKernel : Type 0 where
  crear : Option (List ℕ) → ℕ → PeticionKernel
  finalizar : ℕ → PeticionKernel

pub data PeticionCpu : Type 0 where
  pc_a_instruccion : ℕ → ℤ → PeticionCpu
  solicitar_direccion_fisica : ℕ → ℤ → PeticionCpu
  solicitar_dato_memoria : ℕ → ℤ → ℕ → PeticionCpu
  resize_memoria : ℕ → ℤ → PeticionCpu
  escribir : ℕ → ℤ → List ℕ → PeticionCpu

-- The packets of an interface, other than the one with its name.
pub data PeticionIo : Type 0 where
  io_direccion_fisica : ℕ → ℤ → PeticionIo
  io_escribir : ℕ → ℤ → List ℕ → PeticionIo
  io_dato_memoria : ℕ → ℤ → ℕ → PeticionIo

-- The frame -1 is `none`; the result of a RESIZE is what its payload holds.
pub data RespuestaCpu : Type 0 where
  fin_de_instrucciones : RespuestaCpu
  get_instruccion : List ℕ → RespuestaCpu
  direccion_fisica : Option ℕ → RespuestaCpu
  dato_memoria : Option (List ℕ) → RespuestaCpu
  error_out_of_memory exito_resize : ℤ → RespuestaCpu

-- The processes and the frames, and the bytes.
pub record Estado (B : Type 0) : Type 0 where
  pub memoria : Memoria B
  pub bytes : ℕ → ℕ

abbrev pub respuesta_instruccion : Option (List ℕ) → RespuestaCpu
respuesta_instruccion none = fin_de_instrucciones
respuesta_instruccion (some instruccion) = get_instruccion instruccion

-- The payload is read from the variable of another case of the switch: its value is the argument.
abbrev pub respuesta_resize : ℤ → Redimension → RespuestaCpu
respuesta_resize ajeno menos_1 = error_out_of_memory ajeno
respuesta_resize ajeno sin_cambio = exito_resize ajeno
respuesta_resize ajeno resize_success = exito_resize ajeno

module _ (a : Bitarray) (elementos claves : List (ℕ × ℕ) → List ℕ)
    (tam_pagina tam_memoria : ℕ) where
  unfoldable pub atender_kernel : PeticionKernel → Estado a.B → Option Respuesta × Estado a.B
  unfolding crear_proceso finalizar_proceso
  atender_kernel (crear archivo pid) s =
      let r = crear_proceso archivo pid s.memoria in (r.0, record s { memoria = r.1 })
  atender_kernel (finalizar pid) s =
      (none, record s { memoria = finalizar_proceso a elementos pid s.memoria })

  -- An address before the block: its frame is 0 if it is less than a page before it.
  unfoldable pub escribir_antes : ℕ → ℕ → Memoria a.B → (ℕ → ℕ) → Acceso (ℕ → ℕ)
  unfolding proceso_por_pid buscar_pagina_por_pid_y_marco
  escribir_antes pid n m f =
      if ltb n tam_pagina
      then (elim (proceso_por_pid pid m.procesos) [
        | none ↦ hecho f
        | some p ↦ elim (buscar_pagina_por_pid_y_marco claves p 0) [
          | none ↦ hecho f
          | some i ↦ fuera
        ]
      ])
      else hecho f

  -- An address `n` before the block: the frame -1, which is NULL, is the second page before it.
  unfoldable pub leer_antes : ℕ → ℕ → ℕ → Memoria a.B → Acceso (Option (List ℕ))
  unfolding proceso_por_pid
  leer_antes pid n tam m = elim (proceso_por_pid pid m.procesos) [
    | none ↦ hecho none
    | some p ↦
        if not (ltb n tam_pagina) && ltb n (2 * tam_pagina)
        then hecho none
        else (elim tam [ zero ↦ hecho (some []) | suc i ↦ fuera ])
  ]

  unfoldable pub escribir_en : ℕ → ℤ → List ℕ → Estado a.B → Acceso (ℕ → ℕ)
  unfolding escribir_memoria escribir_antes
  escribir_en pid (pos n) datos s =
      escribir_memoria tam_pagina tam_memoria claves pid n datos s.memoria s.bytes
  escribir_en pid (negsuc n) [] s = hecho s.bytes
  escribir_en pid (negsuc n) (b ∷ bs) s = escribir_antes pid (suc n) s.memoria s.bytes

  unfoldable pub leer_en : ℕ → ℤ → ℕ → Estado a.B → Acceso (Option (List ℕ))
  unfolding obtener_dato_memoria leer_antes
  leer_en pid (pos n) tam s =
      obtener_dato_memoria tam_pagina tam_memoria claves pid n tam s.memoria s.bytes
  leer_en pid (negsuc n) tam s = leer_antes pid (suc n) tam s.memoria

  -- The answer to a write is the first 8 bytes of the data, the size of a pointer; of fewer bytes, what
  -- lies after them is not in the model.
  unfoldable pub atender_cpu : ℤ → PeticionCpu → Estado a.B → Acceso (RespuestaCpu × Estado a.B)
  unfolding obtener_instruccion buscar_direccion_fisica_en_tabla_de_paginas redimensionar_proceso
      escribir_en leer_en
  atender_cpu ajeno (pc_a_instruccion pid pc) s =
      hecho (respuesta_instruccion (obtener_instruccion pid pc s.memoria), s)
  atender_cpu ajeno (solicitar_direccion_fisica pid pagina) s =
      hecho (direccion_fisica (buscar_direccion_fisica_en_tabla_de_paginas pid pagina s.memoria), s)
  atender_cpu ajeno (solicitar_dato_memoria pid direccion tam) s =
      leer_en pid direccion tam s >>= λ dato. hecho (dato_memoria dato, s)
  atender_cpu ajeno (resize_memoria pid tam) s =
      let r = redimensionar_proceso a elementos tam_pagina tam_memoria pid tam s.memoria in
      hecho (respuesta_resize ajeno r.0, record s { memoria = r.1 })
  atender_cpu ajeno (escribir pid direccion datos) s = escribir_en pid direccion datos s >>= λ f.
      hecho (dato_memoria (some (take 8 datos)), record s { bytes = f })

  -- A write of an interface has no answer.
  unfoldable pub atender_cliente_io :
      PeticionIo → Estado a.B → Acceso (Option RespuestaCpu × Estado a.B)
  unfolding buscar_direccion_fisica_en_tabla_de_paginas escribir_en leer_en
  atender_cliente_io (io_direccion_fisica pid pagina) s =
      let marco = buscar_direccion_fisica_en_tabla_de_paginas pid pagina s.memoria in
      hecho (some (direccion_fisica marco), s)
  atender_cliente_io (io_escribir pid direccion datos) s =
      escribir_en pid direccion datos s >>= λ f. hecho (none, record s { bytes = f })
  atender_cliente_io (io_dato_memoria pid direccion tam) s =
      leer_en pid direccion tam s >>= λ dato. hecho (some (dato_memoria dato), s)
