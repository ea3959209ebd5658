-- ===== src/Kernel/Estado.antt =====
-- The state of the kernel: the global variables of planificacion.c, recursos.c and espera.c.
-- Each handler runs with its locks held, so a mutex other than `sem_CPU_libre` has no state here.
-- A queue is a list with its head first; `t_PCB*` is the record, as each block is in one queue.
-- What is sent to the CPU and to the memory is kept in `enviados`, the latest message at the end.
use tp_sistemas_operativos_c.Common.{ℕ, ℤ, Bool, String, List, str_eq}
use tp_sistemas_operativos_c.Utils.Pcb.{Pcb}

-- `tipo_block`
pub data TipoBlock : Type 0 where
  iob rec : TipoBlock

-- `str_blocked`
pub record Blocked : Type 0 where
  pub pcb : Pcb
  pub tipo : TipoBlock
  pub key : String

-- `t_recurso`, less its mutex
pub record Recurso : Type 0 where
  pub instancias_recurso : ℤ
  pub cola_blocked_recurso : List Pcb

-- `t_rec_list`
pub record RecList : Type 0 where
  pub nombre_recurso : String
  pub instancias_recurso : ℤ

-- What `rec_por_pid_dic` holds for a PID: a list, or a pointer to a list that was destroyed.
pub data ListaRec : Type 0 where
  viva : List RecList → ListaRec
  liberada : ListaRec

pub data Mensaje : Type 0 where
  exec_proceso : Pcb → Mensaje
  confirmar_syscall : Mensaje
  interrumpir_proceso : Mensaje
  crear_proceso : String → ℕ → Mensaje
  finalizar_proceso : ℕ → Mensaje

-- Where the thread of the scheduler is: before its test of `planificacion_activa`; past it, where it
-- waits on `sem_cont_ready`; with a unit of it, where it waits for the CPU; where it waits for the
-- confirmation of what it sent; where it joins the thread of the quantum.
pub data Fase : Type 0 where
  al_comienzo vio_activa con_unidad despacho con_quantum : Fase

-- The units of `sem_cont_ready` that the scheduler holds.
abbrev pub unidades : Fase → ℕ
unidades con_unidad = 1
unidades _ = 0

-- `por_bajar` counts the units of `sem_gm_actual` that the console has still to take.
pub record Kernel : Type 0 where
  pub lista_new : List Pcb
  pub cola_ready : List Pcb
  pub cola_ready_priori : List Pcb
  pub cola_blocked : List Blocked
  pub cola_exec : List Pcb
  pub cola_exit : List Pcb
  pub sem_cont_ready : ℕ
  pub sem_recibir_exec : ℕ
  pub sem_gm_actual : ℕ
  pub cpu_libre : Bool
  pub fase : Fase
  pub por_bajar : ℕ
  pub hilo_quantum : Bool
  pub planificacion_activa : Bool
  pub diccionario_recursos : List (String × Recurso)
  pub rec_por_pid_dic : List (ℕ × ListaRec)
  pub quantum : ℤ
  pub algoritmo_planificacion : String
  pub grado_multiprog : ℤ
  pub siguiente_pid : ℕ
  pub bool_error_memoria : Bool
  pub bool_syscall : Bool
  pub bool_interrupted_by_user : Bool
  pub bool_interrumpi : Bool
  pub enviados : List Mensaje

abbrev pub es_vrr : Kernel → Bool
es_vrr k = str_eq k.algoritmo_planificacion "VRR"

abbrev pub es_rr : Kernel → Bool
es_rr k = str_eq k.algoritmo_planificacion "RR"

-- How a handler ends: `espera`, it waits on a semaphore that is at 0; `fallo`, it reads through a
-- null pointer or a list that was destroyed.
pub data Resultado {ℓ} (A : Type ℓ) : Type ℓ where
  sigue : A → Resultado A
  espera : Resultado A
  fallo : Resultado A

infixl 5 ◌>>=◌
abbrev pub ◌>>=◌ {ℓ κ} : {A : Type ℓ} {B : Type κ} → Resultado A → (A → Resultado B) → Resultado B
sigue a >>= f = f a
espera >>= f = espera
fallo >>= f = fallo
