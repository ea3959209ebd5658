-- ===== src/Kernel/Interfaces/Tests.antt =====
-- The interfaces on small states.
use tp_sistemas_operativos_c.Common.{
  ◌≡◌, refl, [], ◌∷◌, some, false, pos, ◌-ℤ◌, get, put, string_eq, nat_eq, arith,
}
use tp_sistemas_operativos_c.Kernel.Estado.{sigue}
use tp_sistemas_operativos_c.Kernel.Tests.{pcb_de, recurso, con_recurso}
use tp_sistemas_operativos_c.Kernel.Interfaces.{
  DatosInterfaz, Sistema, pedir, vivo, io_gen_sleep, gen_sleep, atender_io, desocupar_io,
}
use tp_sistemas_operativos_c.Kernel.Interfaces.Llamadas.{cpu_gen_sleep, pid_de}
use tp_sistemas_operativos_c.Kernel.Interfaces.Cola.{
  esta_ocupada, IsEncolado, atender_io-IsEncolado, vista, IsDesocupado, IsServible,
}
use tp_sistemas_operativos_c.Kernel.Interfaces.Esperas.{IsIo}
use tp_sistemas_operativos_c.Kernel.Interfaces.Pasos.{
  Seguro, AlcanzaIo, inicio_io, tras_io, de_cpu_io, AlcanzaIo-Seguro, paso_io,
}
use tp_sistemas_operativos_c.Kernel.Interfaces.Turnos.{
  AlcanzaIo-desocupar_io, desocupar_veces, desocupar_veces-turno,
}

abbrev reloj : DatosInterfaz
reloj = record {
  tipo_interfaz = "GENERICA";
  socket_interfaz = 9;
  cola_blocked_interfaz = pcb_de 3 ∷ [];
  pcb_usando_interfaz = some (pcb_de 2);
  libre = false;
}

-- Process 1 runs, 2 uses the interface and 3 waits for it.
abbrev con_reloj : Sistema
con_reloj = record {
  kernel = con_recurso (recurso (pos 1) []);
  interfaces_dict = ("RELOJ", reloj) ∷ [];
  operaciones_espera_dict = (3, vivo io_gen_sleep (gen_sleep (pos 10))) ∷ [];
  a_interfaces = [];
}

con_reloj-IsIo : IsIo con_reloj
unfolding get
con_reloj-IsIo = record {
  colas = (esta_ocupada (pcb_de 2) refl refl, tt);
  pedidos = λ pid. ground arith;
}

con_reloj-Seguro : Seguro con_reloj
con_reloj-Seguro = (record { cuenta = refl; sin_priori = λ h. refl }, con_reloj-IsIo)

atender_io_example :
    (s' : Sistema) × (atender_io "GENERICA" io_gen_sleep
        (gen_sleep (pos 5))
        "RELOJ"
        (pcb_de 1)
        con_reloj
      ≡ sigue s')
    × IsEncolado reloj io_gen_sleep (gen_sleep (pos 5)) "RELOJ" (pcb_de 1) con_reloj s'
unfolding get
atender_io_example =
    atender_io-IsEncolado "GENERICA" io_gen_sleep (gen_sleep (pos 5)) "RELOJ" (pcb_de 1) con_reloj
      reloj refl refl (esta_ocupada (pcb_de 2) refl refl)

turno_example :
    (s' : Sistema) × (desocupar_veces 1 "RELOJ" con_reloj ≡ sigue s')
    × (vista s' "RELOJ" ≡ pcb_de 3 ∷ [])
unfolding get
turno_example =
    desocupar_veces-turno "RELOJ" (pcb_de 2 ∷ []) (pcb_de 3) [] con_reloj con_reloj-IsIo refl

-- Process 1 asks for the interface.
abbrev pedido_1 : Sistema
pedido_1 = elim (paso_io (de_cpu_io (pos 0) (cpu_gen_sleep (pcb_de 1) "RELOJ" (pos 5))) con_reloj) [
  | sigue s ↦ s
  | _ ↦ con_reloj
]

alcanza_pedido : AlcanzaIo con_reloj pedido_1
unfolding pid_de paso_io get
alcanza_pedido =
    tras_io (de_cpu_io (pos 0) (cpu_gen_sleep (pcb_de 1) "RELOJ" (pos 5))) inicio_io refl refl

AlcanzaIo-Seguro_example : Seguro pedido_1
AlcanzaIo-Seguro_example = AlcanzaIo-Seguro con_reloj-Seguro alcanza_pedido

desocupar_io_example :
    IsServible (pcb_de 3 ∷ pcb_de 1 ∷ []) pedido_1
    × ((d : DatosInterfaz) × (get "RELOJ" pedido_1.interfaces_dict ≡ some d)
        × ((s' : Sistema) × (desocupar_io "RELOJ" pedido_1 ≡ sigue s')
            × IsDesocupado d "RELOJ" (pcb_de 2) (pcb_de 3 ∷ pcb_de 1 ∷ []) pedido_1 s'))
unfolding get paso_io put pedir ◌-ℤ◌
desocupar_io_example =
    AlcanzaIo-desocupar_io "RELOJ" (pcb_de 2) (pcb_de 3 ∷ pcb_de 1 ∷ []) con_reloj-Seguro
      alcanza_pedido refl
