-- ===== src/Cpu/Registros/Nombres.antt =====
-- instrucciones.c: the chains of tests of `valorDelRegistro` and `instruccionSet` against one
-- reading of the names.
use tp_sistemas_operativos_c.Common.{
  ℕ, ◌^◌, ◌≡◌, Bool, String, if◌then◌else◌, ℤ, pos, arith, Option, none, some,
}
use tp_sistemas_operativos_c.Utils.Pcb.{Registros}
use tp_sistemas_operativos_c.Cpu.Registros.{
  int_32, uint_32, uint_8, valor_del_registro, instruccion_set,
}

pub data Registro : Type 0 where
  ax bx cx dx eax ebx ecx edx si di pc : Registro

-- The number of values of a register.
abbrev pub ancho : Registro → ℕ
ancho ax = 256
ancho bx = 256
ancho cx = 256
ancho dx = 256
ancho eax = 2 ^ 32
ancho ebx = 2 ^ 32
ancho ecx = 2 ^ 32
ancho edx = 2 ^ 32
ancho si = 2 ^ 32
ancho di = 2 ^ 32
ancho pc = 2 ^ 32

-- What a register holds.
abbrev pub crudo : Registro → Registros → ℕ
crudo ax r = r.ax
crudo bx r = r.bx
crudo cx r = r.cx
crudo dx r = r.dx
crudo eax r = r.eax
crudo ebx r = r.ebx
crudo ecx r = r.ecx
crudo edx r = r.edx
crudo si r = r.si
crudo di r = r.di
crudo pc r = r.pc

-- The value of a register as an `int`; the program counter is read as 0.
abbrev pub leer : Registro → Registros → ℤ
leer ax r = pos r.ax
leer bx r = pos r.bx
leer cx r = pos r.cx
leer dx r = pos r.dx
leer eax r = int_32 r.eax
leer ebx r = int_32 r.ebx
leer ecx r = int_32 r.ecx
leer edx r = int_32 r.edx
leer si r = int_32 r.si
leer di r = int_32 r.di
leer pc r = pos 0

abbrev pub escribir : Registro → ℤ → Registros → Registros
escribir ax v r = record r { ax = uint_8 v }
escribir bx v r = record r { bx = uint_8 v }
escribir cx v r = record r { cx = uint_8 v }
escribir dx v r = record r { dx = uint_8 v }
escribir eax v r = record r { eax = uint_32 v }
escribir ebx v r = record r { ebx = uint_32 v }
escribir ecx v r = record r { ecx = uint_32 v }
escribir edx v r = record r { edx = uint_32 v }
escribir si v r = record r { si = uint_32 v }
escribir di v r = record r { di = uint_32 v }
escribir pc v r = record r { pc = uint_32 v }

-- The register that a text names.
abbrev pub registro_de : (String → String → Bool) → String → Option Registro
registro_de eq_ic s =
    if eq_ic s "AX"
    then some ax
    else if eq_ic s "BX"
    then some bx
    else if eq_ic s "CX"
    then some cx
    else if eq_ic s "DX"
    then some dx
    else if eq_ic s "EAX"
    then some eax
    else if eq_ic s "EBX"
    then some ebx
    else if eq_ic s "ECX"
    then some ecx
    else if eq_ic s "EDX"
    then some edx
    else if eq_ic s "SI"
    then some si
    else if eq_ic s "DI"
    then some di
    else if eq_ic s "PC"
    then some pc
    else none

abbrev pub leer_si : Option Registro → Registros → ℤ
leer_si none r = pos 0
leer_si (some i) r = leer i r

abbrev pub escribir_si : Option Registro → ℤ → Registros → Registros
escribir_si none v r = r
escribir_si (some i) v r = escribir i v r

pub valor_del_registro_lem :
    (eq_ic : String → String → Bool) (s : String) (r : Registros)
    → valor_del_registro eq_ic s r ≡ leer_si (registro_de eq_ic s) r
unfolding valor_del_registro
valor_del_registro_lem eq_ic s r = ground arith

pub instruccion_set_lem :
    (eq_ic : String → String → Bool) (s : String) (v : ℤ) (r : Registros)
    → instruccion_set eq_ic s v r ≡ escribir_si (registro_de eq_ic s) v r
unfolding instruccion_set
instruccion_set_lem eq_ic s v r = ground arith
