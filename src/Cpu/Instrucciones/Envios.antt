-- ===== src/Cpu/Instrucciones/Envios.antt =====
-- cpu/src/main.c: the packets of a run of a process, and how it ends.
use mathlib.Core.Path.{subst}
use tp_sistemas_operativos_c.Common.{
  ℕ, ◌≡◌, ◌≢◌, ◌⊎◌, ap, sym, ◌∙◌, inl, inr, Bool, true, false, List, [], ◌∷◌, ◌++◌, append-nil,
  append_assoc,
}
use tp_sistemas_operativos_c.Utils.Pcb.{Pcb}
use tp_sistemas_operativos_c.Kernel.Espera.{
  confirmar_exec, interrumpio_proceso, error_out_of_memory, wait, signal, termino_ejecucion,
}
use tp_sistemas_operativos_c.Cpu.Instrucciones.{
  Cpu, EnvioCpu, al_kernel, al_kernel_io, escribir_memoria,
}
use tp_sistemas_operativos_c.Cpu.Instrucciones.Ciclo.{
  Turno, sin_instruccion, ejecutado, fallo, FinCiclo, terminado, interrumpido, colgado, en_curso,
  tras_turno,
}
use tp_sistemas_operativos_c.Cpu.Instrucciones.Efecto.{bloque_de, IsDe}

-- A packet of the run of a process that does not end it.
abbrev pub IsDel : ℕ → EnvioCpu → Type 0
IsDel n (escribir_memoria pid dir bs) = pid ≡ n
IsDel n (al_kernel_io p) = (bloque_de p).pid ≡ n
IsDel n (al_kernel (wait p recurso)) = p.pid ≡ n
IsDel n (al_kernel (signal p recurso)) = p.pid ≡ n
IsDel n (al_kernel (error_out_of_memory p)) = p.pid ≡ n
IsDel n (al_kernel confirmar_exec) = ⊥
IsDel n (al_kernel (interrumpio_proceso p)) = ⊥
IsDel n (al_kernel (termino_ejecucion p)) = ⊥

pub IsDe-IsDel : (pcb : Pcb) (e : EnvioCpu) → IsDe pcb e → IsDel pcb.pid e
IsDe-IsDel pcb (escribir_memoria pid dir bs) h = h
IsDe-IsDel pcb (al_kernel_io p) h = ap (λ (q : Pcb). q.pid) h
IsDe-IsDel pcb (al_kernel (wait p recurso)) h = ap (λ (q : Pcb). q.pid) h
IsDe-IsDel pcb (al_kernel (signal p recurso)) h = ap (λ (q : Pcb). q.pid) h
IsDe-IsDel pcb (al_kernel (error_out_of_memory p)) h = ap (λ (q : Pcb). q.pid) h
IsDe-IsDel pcb (al_kernel confirmar_exec) h = h
IsDe-IsDel pcb (al_kernel (interrumpio_proceso p)) h = h
IsDe-IsDel pcb (al_kernel (termino_ejecucion p)) h = h

abbrev pub TodosDel : ℕ → List EnvioCpu → Type 0
TodosDel n [] = Unit
TodosDel n (e ∷ es) = IsDel n e × TodosDel n es

pub TodosDel-append :
    (n : ℕ) (es fs : List EnvioCpu) → TodosDel n es → TodosDel n fs → TodosDel n (es ++ fs)
TodosDel-append n [] fs h k = k
TodosDel-append n (e ∷ es) fs h k = (h.0, TodosDel-append n es fs h.1 k)

-- The packets of some turns of a process.
abbrev pub Envia : ℕ → List EnvioCpu → List EnvioCpu → Type 0
Envia n antes despues = (es : List EnvioCpu) × (despues ≡ antes ++ es) × TodosDel n es

pub Envia-trans : (n : ℕ) (a b c : List EnvioCpu) → Envia n a b → Envia n b c → Envia n a c
Envia-trans n a b c (es, e, h) (fs, f, k) =
    (es ++ fs, f ∙ ap (λ x. x ++ fs) e ∙ append_assoc a es fs, TodosDel-append n es fs h k)

-- What is asked of a turn.
abbrev pub IsBien : Pcb → Cpu → Turno → Type 0
IsBien pcb c (sin_instruccion c') =
    Envia pcb.pid c.enviados c'.enviados × (pcb.cpu_registro ≡ c'.registros)
IsBien pcb c (ejecutado pcb' c') =
    (pcb'.pid ≡ pcb.pid) × (pcb'.cpu_registro ≡ c'.registros) × Envia pcb.pid c.enviados c'.enviados
IsBien pcb c fallo = Unit

pub Envia-nada : (n : ℕ) (es : List EnvioCpu) → Envia n es es
Envia-nada n es = ([], sym (append-nil es), tt)

pub ejecutado-Envia :
    (pcb pcb' : Pcb) (c c' : Cpu)
    → (c'.enviados ≡ c.enviados)
      ⊎ ((e : EnvioCpu) × (c'.enviados ≡ c.enviados ++ (e ∷ [])) × IsDe pcb e)
    → Envia pcb.pid c.enviados c'.enviados
ejecutado-Envia pcb pcb' c c' (inl h) =
    subst (λ es. Envia pcb.pid c.enviados es) (sym h) (Envia-nada pcb.pid c.enviados)
ejecutado-Envia pcb pcb' c c' (inr (e, h, d)) = (e ∷ [], h, (IsDe-IsDel pcb e d, tt))

-- How a run ends: with the packets of the process, then the one that gives it back.
abbrev pub IsCerrado : Pcb → Cpu → FinCiclo → Type 0
IsCerrado pcb c (terminado p c') =
    (p.pid ≡ pcb.pid)
    × (p.cpu_registro ≡ c'.registros)
    × ((es : List EnvioCpu) × (c'.enviados
          ≡ c.enviados ++ es ++ (al_kernel (termino_ejecucion p) ∷ []))
        × TodosDel pcb.pid es)
IsCerrado pcb c (interrumpido p c') =
    (p.pid ≡ pcb.pid)
    × (p.cpu_registro ≡ c'.registros)
    × ((es : List EnvioCpu) × (c'.enviados
          ≡ c.enviados ++ es ++ (al_kernel (interrumpio_proceso p) ∷ []))
        × TodosDel pcb.pid es)
IsCerrado pcb c colgado = Unit
IsCerrado pcb c en_curso = Unit

pub cerrar :
    (n : ℕ) (a b : List EnvioCpu) (fin : EnvioCpu)
    → Envia n a b
    → (es : List EnvioCpu) × (b ++ (fin ∷ []) ≡ a ++ es ++ (fin ∷ [])) × TodosDel n es
cerrar n a b fin (es, e, h) = (es, ap (λ x. x ++ (fin ∷ [])) e, h)

-- Turns before the end add packets of the process.
pub antes-IsCerrado :
    (pcb pcb' : Pcb) (c c' : Cpu) (f : FinCiclo)
    → pcb'.pid ≡ pcb.pid
    → Envia pcb.pid c.enviados c'.enviados
    → IsCerrado pcb' c' f
    → IsCerrado pcb c f
antes-IsCerrado pcb pcb' c c' (terminado p c2) q v (i, r, (es, e, h)) =
    let (fs, g, k) = v in
    (
      i ∙ q,
      r,
      (
        fs ++ es,
        e
            ∙ ap (λ x. x ++ es ++ (al_kernel (termino_ejecucion p) ∷ [])) g
            ∙ ap (λ x. x ++ (al_kernel (termino_ejecucion p) ∷ [])) (append_assoc c.enviados fs es),
        TodosDel-append pcb.pid fs es k (subst (λ n. TodosDel n es) q h),
      ),
    )
antes-IsCerrado pcb pcb' c c' (interrumpido p c2) q v (i, r, (es, e, h)) =
    let (fs, g, k) = v in
    (
      i ∙ q,
      r,
      (
        fs ++ es,
        e
            ∙ ap (λ x. x ++ es ++ (al_kernel (interrumpio_proceso p) ∷ [])) g
            ∙ ap (λ x. x ++ (al_kernel (interrumpio_proceso p) ∷ []))
                (append_assoc c.enviados fs es),
        TodosDel-append pcb.pid fs es k (subst (λ n. TodosDel n es) q h),
      ),
    )
antes-IsCerrado pcb pcb' c c' colgado q v h = tt
antes-IsCerrado pcb pcb' c c' en_curso q v h = tt

pub tras_turno-true :
    (t : Turno) (pcb : Pcb) (f : Pcb → Cpu → FinCiclo) → tras_turno t true pcb f ≢ en_curso
tras_turno-true fallo pcb f h = cc
tras_turno-true (sin_instruccion c) pcb f h = cc
tras_turno-true (ejecutado p c) pcb f h = cc

pub tras_turno-sigue :
    (t : Turno) (b : Bool) (pcb : Pcb) (f : Pcb → Cpu → FinCiclo)
    → ((p : Pcb) (c : Cpu) → f p c ≢ en_curso)
    → tras_turno t b pcb f ≢ en_curso
tras_turno-sigue fallo b pcb f g h = cc
tras_turno-sigue (sin_instruccion c) b pcb f g h = cc
tras_turno-sigue (ejecutado p c) true pcb f g h = cc
tras_turno-sigue (ejecutado p c) false pcb f g h = g p c h
