-- ===== src/Cpu/Registros.antt =====
-- cpu/src/cpu-utils/instrucciones.c: the registers by name, and the instructions that compute.
-- The comparison of texts that ignores case is the `eq_ic` of the section. The sum and the
-- difference are those of the integers: the conversion to the register's type drops what wraps.
pub mod Nombres
pub mod Aritmetica
use tp_sistemas_operativos_c.Common.{
  ℕ, suc, ◌+◌, ◌%◌, ◌^◌, ◌≡◌, Bool, true, false, not, String, if◌then◌else◌, ℤ, pos, ◌+ℤ◌, ◌-ℤ◌,
  eqb_ℤ, to_unsigned, to_signed,
}
use tp_sistemas_operativos_c.Utils.Pcb.{Pcb, Registros}

-- `uint32_t` as an `int`, and an `int` as a `uint32_t` and as a `uint8_t`.
abbrev pub int_32 : ℕ → ℤ
int_32 n = to_signed (2 ^ 31) n

abbrev pub uint_32 : ℤ → ℕ
uint_32 v = to_unsigned (2 ^ 32) v

abbrev pub uint_8 : ℤ → ℕ
uint_8 v = to_unsigned 256 v

-- The program counter is a `uint32_t`.
abbrev pub pc_mas_1 : Pcb → Pcb
pc_mas_1 p = record p { program_counter = (p.program_counter + 1) % 2 ^ 32 }

module _ (eq_ic : String → String → Bool) where
  unfoldable pub valor_del_registro : String → Registros → ℤ
  valor_del_registro reg r =
      if eq_ic reg "AX"
      then pos r.ax
      else if eq_ic reg "BX"
      then pos r.bx
      else if eq_ic reg "CX"
      then pos r.cx
      else if eq_ic reg "DX"
      then pos r.dx
      else if eq_ic reg "EAX"
      then int_32 r.eax
      else if eq_ic reg "EBX"
      then int_32 r.ebx
      else if eq_ic reg "ECX"
      then int_32 r.ecx
      else if eq_ic reg "EDX"
      then int_32 r.edx
      else if eq_ic reg "SI"
      then int_32 r.si
      else if eq_ic reg "DI"
      then int_32 r.di
      else pos 0

  unfoldable pub instruccion_set : String → ℤ → Registros → Registros
  instruccion_set reg valor r =
      if eq_ic reg "AX"
      then record r { ax = uint_8 valor }
      else if eq_ic reg "BX"
      then record r { bx = uint_8 valor }
      else if eq_ic reg "CX"
      then record r { cx = uint_8 valor }
      else if eq_ic reg "DX"
      then record r { dx = uint_8 valor }
      else if eq_ic reg "EAX"
      then record r { eax = uint_32 valor }
      else if eq_ic reg "EBX"
      then record r { ebx = uint_32 valor }
      else if eq_ic reg "ECX"
      then record r { ecx = uint_32 valor }
      else if eq_ic reg "EDX"
      then record r { edx = uint_32 valor }
      else if eq_ic reg "SI"
      then record r { si = uint_32 valor }
      else if eq_ic reg "DI"
      then record r { di = uint_32 valor }
      else if eq_ic reg "PC"
      then record r { pc = uint_32 valor }
      else r

  unfoldable pub instruccion_sum : Pcb → String → String → Registros → Pcb × Registros
  unfolding valor_del_registro instruccion_set
  instruccion_sum pcb dest orig r = (
    pc_mas_1 pcb,
    instruccion_set dest (valor_del_registro dest r +ℤ valor_del_registro orig r) r,
  )

  unfoldable pub instruccion_sub : Pcb → String → String → Registros → Pcb × Registros
  unfolding valor_del_registro instruccion_set
  instruccion_sub pcb dest orig r = (
    pc_mas_1 pcb,
    instruccion_set dest (valor_del_registro dest r -ℤ valor_del_registro orig r) r,
  )

  unfoldable pub instruccion_jnz : Pcb → String → ℤ → Registros → Pcb
  unfolding valor_del_registro
  instruccion_jnz pcb reg destino r = record pcb {
    program_counter =
        if not (eqb_ℤ (valor_del_registro reg r) (pos 0))
        then uint_32 destino
        else (pcb.program_counter + 1) % 2 ^ 32;
  }
