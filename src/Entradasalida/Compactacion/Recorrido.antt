-- ===== src/Entradasalida/Compactacion/Recorrido.antt =====
-- bloques.c: the loop of the compaction, from any point to its end.
use tp_sistemas_operativos_c.Common.{
  ℕ, zero, suc, ◌+◌, ◌≤◌, ◌<◌, ◌≡◌, refl, String, Bool, true, false, ltb, arith, string_eq,
  Bool-cases, inl, inr,
}
use tp_sistemas_operativos_c.Memoria.Marcos.{Bitarray}
use tp_sistemas_operativos_c.Entradasalida.{Metadata, Fs, Salida, sigue}
use tp_sistemas_operativos_c.Entradasalida.Diccionario.{Diccionario}
use tp_sistemas_operativos_c.Entradasalida.Reparto.{IsListado}
use tp_sistemas_operativos_c.Entradasalida.Reparto.Suma.{suma}
use tp_sistemas_operativos_c.Entradasalida.Compactacion.{Vuelta, otra, fin, vuelve, compactar_desde}
use tp_sistemas_operativos_c.Entradasalida.Compactacion.Avance.{
  IsAvance, hasta_el_fin, avance-libre,
}
use tp_sistemas_operativos_c.Entradasalida.Compactacion.Vueltas.{TrasVuelta, compactar_tramo_lem}

module _ (a : Bitarray) (block_size block_count : ℕ) (pos : 0 < block_size)
    (elementos : Diccionario → Diccionario) (listado : IsListado elementos)
    (memcpy : ℕ → ℕ → ℕ → (ℕ → ℕ) → ℕ → ℕ) (nombre : String) (f : Metadata) (s₀ : Fs a.B) where
  abbrev seguir : ℕ → Vuelta (Fs a.B) → Salida (Bool × Fs a.B)
  seguir turnos (otra bit' s') =
      compactar_desde a block_size block_count elementos memcpy turnos bit' s'
  seguir turnos (fin s') = sigue (true, s')
  seguir turnos (vuelve s') = sigue (false, s')

  tras_vuelta :
      (sobra : suma block_size s₀.diccionario ≤ block_count) (turnos e : ℕ) (s : Fs a.B)
      (v : IsAvance a block_size block_count nombre f s₀ e s) (w : Vuelta (Fs a.B))
      → TrasVuelta a block_size block_count nombre f s₀ e w
      → ((e' : ℕ) (s' : Fs a.B)
          → e < e'
          → IsAvance a block_size block_count nombre f s₀ e' s'
          → (s'' : Fs a.B) × (compactar_desde a block_size block_count elementos memcpy turnos e' s'
              ≡ sigue (true, s''))
            × IsAvance a block_size block_count nombre f s₀ block_count s'')
      → (s'' : Fs a.B) × (seguir turnos w ≡ sigue (true, s''))
        × IsAvance a block_size block_count nombre f s₀ block_count s''
  tras_vuelta sobra turnos e s v (otra e' s') (l, v') rest = rest e' s' l v'
  tras_vuelta sobra turnos e s v (fin s') z rest = (s', refl, z)
  tras_vuelta sobra turnos e s v (vuelve s') z rest = absurd z

  -- From any point, with as many turns as blocks are left and one more, the loop ends.
  pub compactar_desde_lem :
      (sobra : suma block_size s₀.diccionario ≤ block_count) (turnos e : ℕ) (s : Fs a.B)
      → block_count < e + turnos
      → IsAvance a block_size block_count nombre f s₀ e s
      → (s' : Fs a.B) × (compactar_desde a block_size block_count elementos memcpy turnos e s
          ≡ sigue (true, s'))
        × IsAvance a block_size block_count nombre f s₀ block_count s'
  unfolding compactar_desde
  compactar_desde_lem sobra zero e s h v =
      let x : ltb e block_count ≡ false = ground arith in
      (s, rw x refl, hasta_el_fin a block_size block_count nombre f s₀ e s v (omega arith))
  compactar_desde_lem sobra (suc turnos) e s h v = elim (Bool-cases (ltb e block_count)) [
    | inr x ↦ (
      s,
      rw (compactar_desde, x) refl,
      hasta_el_fin a block_size block_count nombre f s₀ e s v (ground arith),
    )
    | inl x ↦
        let (hueco, g) = avance-libre a block_size block_count pos nombre f s₀ sobra e s v in
        let (w, y, z) =
          compactar_tramo_lem a block_size block_count pos elementos listado memcpy nombre f s₀
            sobra e s v hueco g in
        rw (compactar_desde, x, y)
          (tras_vuelta sobra turnos e s v w z
            (λ e' s' l v'. compactar_desde_lem sobra turnos e' s' (omega arith) v'))
  ]
