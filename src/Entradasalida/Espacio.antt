-- ===== src/Entradasalida/Espacio.antt =====
-- diccionario.c: the free blocks that espacioLIbre counts.
use mathlib.Core.Path.{fun_ext, subst}
use tp_sistemas_operativos_c.Common.{
  ℕ, ◌+◌, ◌-◌, ◌≤◌, ◌<◌, ◌≡◌, refl, true, false, arith, string_eq, ltb_ℤ, pos, sub_ℕ,
}
use tp_sistemas_operativos_c.Memoria.Marcos.{Bitarray}
use tp_sistemas_operativos_c.Entradasalida.{Fs}
use tp_sistemas_operativos_c.Entradasalida.Diccionario.{
  Diccionario, espacio_libre, acumular_bloques,
}
use tp_sistemas_operativos_c.Entradasalida.Disco.{tiene, IsDisco}
use tp_sistemas_operativos_c.Entradasalida.Disco.Bloques.{cantidad-pos}
use tp_sistemas_operativos_c.Entradasalida.Reparto.{IsReparto, IsListado}
use tp_sistemas_operativos_c.Entradasalida.Reparto.Suma.{suma, suma-contar, acumular_bloques-suma}
use tp_sistemas_operativos_c.Entradasalida.Compactacion.Compacto.{disco-suma}

module _ (a : Bitarray) (block_size block_count : ℕ) (pos_size : 0 < block_size)
    (elementos : Diccionario → Diccionario) (listado : IsListado elementos) (s : Fs a.B)
    (disco : IsDisco a block_size block_count s) (pedidos bloques_del_archivo : ℕ) where
  -- What espacioLIbre adds up is what the files take.
  espacio :
      espacio_libre block_size elementos block_count s.diccionario bloques_del_archivo
      ≡ sub_ℕ (block_count + bloques_del_archivo) (suma block_size s.diccionario)
  unfolding espacio_libre
  espacio =
      let d = elementos s.diccionario in
      let igual : tiene block_size s.diccionario ≡ tiene block_size d =
        fun_ext λ m. fun_ext λ i. rw (listado.lookup s.diccionario m disco.unicos) refl in
      let x =
        suma-contar block_size block_count d (a.test_bit s.bitmap)
          (listado.unicos s.diccionario disco.unicos) (cantidad-pos block_size pos_size)
          (subst (λ t. IsReparto block_count t (a.test_bit s.bitmap)) igual
            (record {
              dentro = disco.dentro;
              marcado = disco.marcado;
              de_alguno = disco.de_alguno;
              disjuntos = disco.disjuntos;
            })) in
      let y = acumular_bloques-suma block_size pos_size d 0 in
      let z = disco-suma a block_size block_count pos_size s disco in
      let w : acumular_bloques block_size d 0 ≡ suma block_size s.diccionario =
        omega (arith, x, y, z) in
      rw w refl

  pub hay_espacio :
      suma block_size s.diccionario + pedidos ≤ block_count + bloques_del_archivo
      → bloques_del_archivo ≤ pedidos
      → ltb_ℤ
          (espacio_libre block_size elementos block_count s.diccionario bloques_del_archivo)
          (pos (bloques_del_archivo + (pedidos - bloques_del_archivo)))
        ≡ false
  hay_espacio h l = rw espacio (ground arith)

  pub no_hay_espacio :
      block_count + bloques_del_archivo < suma block_size s.diccionario + pedidos
      → bloques_del_archivo ≤ pedidos
      → ltb_ℤ
          (espacio_libre block_size elementos block_count s.diccionario bloques_del_archivo)
          (pos (bloques_del_archivo + (pedidos - bloques_del_archivo)))
        ≡ true
  no_hay_espacio h l = rw espacio (ground arith)
