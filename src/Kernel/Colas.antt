-- ===== src/Kernel/Colas.antt =====
-- planificacion.c: the queues of ready and of blocked processes.
use tp_sistemas_operativos_c.Common.{
  ℕ, ◌+◌, ◌==◌, ◌≡◌, refl, ap, ◌∙◌, Bool, true, not, String, List, [], ◌∷◌, ◌++◌, length, keep,
  rotate, rotate-keep, if◌then◌else◌,
}
use tp_sistemas_operativos_c.Utils.Pcb.{Pcb, ready}
use tp_sistemas_operativos_c.Kernel.Estado.{Kernel, TipoBlock, Blocked, es_vrr}

-- The log of the queue takes each block from its head and puts it back at its end.
abbrev mostrar : List Pcb → List Pcb
mostrar q = rotate (λ _. true) (length q) q

unfoldable pub cargar_ready : Pcb → Kernel → Kernel
cargar_ready pcb k = record k {
  cola_ready = mostrar (k.cola_ready ++ (record pcb { estado = ready } ∷ []));
  sem_cont_ready = k.sem_cont_ready + 1;
}

unfoldable pub cargar_ready_priori : Pcb → Kernel → Kernel
cargar_ready_priori pcb k = record k {
  cola_ready_priori = mostrar (k.cola_ready_priori ++ (record pcb { estado = ready } ∷ []));
  sem_cont_ready = k.sem_cont_ready + 1;
}

unfoldable pub add_queue_blocked : Pcb → TipoBlock → String → Kernel → Kernel
add_queue_blocked pcb tipo key k = record k {
  cola_blocked = k.cola_blocked ++ (record { pcb = pcb; tipo = tipo; key = key } ∷ []);
}

abbrev pub otro_pid : ℕ → Blocked → Bool
otro_pid n b = not (b.pcb.pid == n)

unfoldable pub delete_queue_blocked : Pcb → Kernel → Kernel
delete_queue_blocked pcb k = record k {
  cola_blocked = rotate (otro_pid pcb.pid) (length k.cola_blocked) k.cola_blocked;
}

pub keep_all {ℓ} : {A : Type ℓ} (q : List A) → keep (λ _. true) q ≡ q
keep_all [] = refl
keep_all (x ∷ q) = ap (◌∷◌ x) (keep_all q)

mostrar_id : (q : List Pcb) → mostrar q ≡ q
mostrar_id q = rotate-keep (λ _. true) q ∙ keep_all q

-- The log leaves the queue as it was: the process is appended and the count of ready ones grows.
pub cargar_ready_lem :
    (pcb : Pcb) (k : Kernel)
    → cargar_ready pcb k ≡ record k {
      cola_ready = k.cola_ready ++ (record pcb { estado = ready } ∷ []);
      sem_cont_ready = k.sem_cont_ready + 1;
    }
unfolding cargar_ready
cargar_ready_lem pcb k = rw (mostrar_id (k.cola_ready ++ (record pcb { estado = ready } ∷ [])))

pub cargar_ready_priori_lem :
    (pcb : Pcb) (k : Kernel)
    → cargar_ready_priori pcb k ≡ record k {
      cola_ready_priori = k.cola_ready_priori ++ (record pcb { estado = ready } ∷ []);
      sem_cont_ready = k.sem_cont_ready + 1;
    }
unfolding cargar_ready_priori
cargar_ready_priori_lem pcb k =
    rw (mostrar_id (k.cola_ready_priori ++ (record pcb { estado = ready } ∷ [])))

-- The entries of the process go, the others keep their order.
pub delete_queue_blocked_lem :
    (pcb : Pcb) (k : Kernel)
    → delete_queue_blocked pcb k
      ≡ record k { cola_blocked = keep (otro_pid pcb.pid) k.cola_blocked }
unfolding delete_queue_blocked
delete_queue_blocked_lem pcb k = rw (rotate-keep (otro_pid pcb.pid) k.cola_blocked)

-- The queue of the processes that come back from being blocked: the one with priority under VRR.
unfoldable pub cargar_desbloqueado : Pcb → Kernel → Kernel
cargar_desbloqueado pcb k = if es_vrr k then cargar_ready_priori pcb k else cargar_ready pcb k
