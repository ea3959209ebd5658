-- ===== src/Cpu/Instrucciones/Efecto.antt =====
-- cpu/src: the block of a process and what is sent, before and after an instruction.
use tp_sistemas_operativos_c.Common.{
  ℕ, ◌≡◌, ◌⊎◌, refl, ap, inl, inr, Bool, true, false, String, List, [], ◌∷◌, ◌++◌, Option, none,
  some, if◌then◌else◌, ℤ, pos, negsuc, eqb_ℤ, ltb_ℤ,
}
use tp_sistemas_operativos_c.Utils.Pcb.{Pcb}
use tp_sistemas_operativos_c.Kernel.Espera.{
  confirmar_exec, interrumpio_proceso, error_out_of_memory, wait, signal, termino_ejecucion,
}
use tp_sistemas_operativos_c.Kernel.Interfaces.Llamadas.{
  PaqueteCpuIo, cpu_stdin_read, cpu_stdout_write, cpu_fs_create, cpu_fs_delete, cpu_fs_truncate,
  cpu_fs_write, cpu_fs_read, cpu_gen_sleep,
}
use tp_sistemas_operativos_c.Cpu.Registros.{pc_mas_1}
use tp_sistemas_operativos_c.Cpu.Instrucciones.{
  Cpu, Respuestas, EnvioCpu, al_kernel, al_kernel_io, escribir_memoria, uno, instruccion_resize,
  copiar_dato, solicitar_resize_memoria, enviar_dato_memoria,
}

-- The block in a request for an interface.
unfoldable pub bloque_de : PaqueteCpuIo → Pcb
bloque_de (cpu_stdin_read pcb io a b) = pcb
bloque_de (cpu_stdout_write pcb io a b) = pcb
bloque_de (cpu_fs_create pcb io a) = pcb
bloque_de (cpu_fs_delete pcb io a) = pcb
bloque_de (cpu_fs_truncate pcb io a b) = pcb
bloque_de (cpu_fs_write pcb io a b c d) = pcb
bloque_de (cpu_fs_read pcb io a b c d) = pcb
bloque_de (cpu_gen_sleep pcb io a) = pcb

-- What an instruction of a process may send: a write for it, a system call with its block at the
-- next instruction, or the failure of a RESIZE with its block as it is. The packets that end a run are not among them.
abbrev pub IsDe : Pcb → EnvioCpu → Type 0
IsDe pcb (escribir_memoria pid dir bs) = pid ≡ pcb.pid
IsDe pcb (al_kernel_io p) = bloque_de p ≡ pc_mas_1 pcb
IsDe pcb (al_kernel (wait p recurso)) = p ≡ pc_mas_1 pcb
IsDe pcb (al_kernel (signal p recurso)) = p ≡ pc_mas_1 pcb
IsDe pcb (al_kernel (error_out_of_memory p)) = p ≡ pcb
IsDe pcb (al_kernel confirmar_exec) = ⊥
IsDe pcb (al_kernel (interrumpio_proceso p)) = ⊥
IsDe pcb (al_kernel (termino_ejecucion p)) = ⊥

-- Only the program counter of the block changes, and one packet of these is sent at most; what is
-- asked of the memory with an answer is in `Respuestas`.
pub record IsTurno (pcb : Pcb) (c : Cpu) (s : Pcb × Cpu) : Type 0 where
  pub bloque : (n : ℕ) × (s.0 ≡ record pcb { program_counter = n })
  pub envios :
      (s.1.enviados ≡ c.enviados)
      ⊎ ((e : EnvioCpu) × (s.1.enviados ≡ c.enviados ++ (e ∷ [])) × IsDe pcb e)

pub data IsBueno (pcb : Pcb) (c : Cpu) : Option (Pcb × Cpu) → Type 0 where
  nada : IsBueno pcb c none
  bueno : {s : Pcb × Cpu} → IsTurno pcb c s → IsBueno pcb c (some s)

pub si : {A : Type 0} (P : A → Type 0) (b : Bool) (x y : A) → P x → P y → P (if b then x else y)
si P true x y p q = p
si P false x y p q = q

pub uno-IsBueno :
    (ps : List String) (f : String → List String → Option (Pcb × Cpu)) (pcb : Pcb) (c : Cpu)
    → ((a : String) (qs : List String) → IsBueno pcb c (f a qs))
    → IsBueno pcb c (uno ps f)
uno-IsBueno [] f pcb c h = nada
uno-IsBueno (a ∷ ps) f pcb c h = h a ps

pub resize-IsTurno :
    (r : Respuestas) (tam : ℤ) (pcb : Pcb) (c : Cpu)
    → IsTurno pcb c (instruccion_resize r tam pcb c)
unfolding instruccion_resize
resize-IsTurno r tam pcb c =
    si (IsTurno pcb c) (eqb_ℤ (solicitar_resize_memoria (r.resize pcb.pid tam)) (negsuc 0)) _ _
      (record { bloque = (_, refl); envios = inr (_, refl, refl) })
      (record { bloque = (_, refl); envios = inl refl })

pub copiar_dato-IsBueno :
    (r : Respuestas) (tam dir : ℤ) (o : Option (ℤ × List ℕ)) (pcb : Pcb) (c c0 : Cpu)
    → c.enviados ≡ c0.enviados
    → IsBueno pcb c0 (copiar_dato r tam dir o pcb c)
unfolding copiar_dato
copiar_dato-IsBueno r tam dir none pcb c c0 h =
    si (IsBueno pcb c0) (eqb_ℤ tam (pos 0)) _ _
      (bueno (record { bloque = (_, refl); envios = inl h })) nada
copiar_dato-IsBueno r tam dir (some d) pcb c c0 h =
    si (IsBueno pcb c0) (ltb_ℤ tam (pos 0)) _ _ nada (
      bueno (record {
        bloque =
            si (λ p. (n : ℕ) × (p ≡ record pcb { program_counter = n }))
              (eqb_ℤ (enviar_dato_memoria (r.escrito pcb.pid dir d.1)) (negsuc 0)) _ _ (_, refl)
              (_, refl);
        envios = inr (_, ap (λ es. es ++ (escribir_memoria pcb.pid dir d.1 ∷ [])) h, refl);
      }))

-- What `ejecutarInstruccion` leaves.
pub record IsEjecutado (pcb : Pcb) (c : Cpu) (pcb' : Pcb) (c' : Cpu) : Type 0 where
  pub bloque : (n : ℕ) × (pcb' ≡ record pcb { program_counter = n; cpu_registro = c'.registros })
  pub envios :
      (c'.enviados ≡ c.enviados)
      ⊎ ((e : EnvioCpu) × (c'.enviados ≡ c.enviados ++ (e ∷ [])) × IsDe pcb e)

abbrev pub Ejecutado : Pcb → Cpu → Option (Pcb × Cpu) → Type 0
Ejecutado pcb c none = Unit
Ejecutado pcb c (some s) = IsEjecutado pcb c s.0 s.1
