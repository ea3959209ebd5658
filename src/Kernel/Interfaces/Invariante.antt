-- ===== src/Kernel/Interfaces/Invariante.antt =====
-- kernel/src/manejoInterfaces.c: requests and ends of operations, and the invariant `IsIo`.
use tp_sistemas_operativos_c.Common.{
  ℕ, suc, ◌≤◌, ◌==◌, ==_iff, ◌≡◌, refl, ap, sym, ◌∙◌, String, true, false, List, [], ◌∷◌, Option,
  none, some, arith, if◌then◌else◌, get, put, get-put, string_eq, nat_eq, inl, inr, Bool-cases,
  Option-cases,
}
use tp_sistemas_operativos_c.Utils.Pcb.{Pcb}
use tp_sistemas_operativos_c.Kernel.Estado.{Kernel, Resultado, sigue, espera, fallo, ◌>>=◌}
use tp_sistemas_operativos_c.Kernel.Interfaces.{
  Operacion, Pedido, DatoOpEspera, vivo, liberado, DatosInterfaz, Sistema, pedir, usar, esperar,
  siguiente, siguiente_de, desocupar_io, desocupar_de, con_kernel,
}
use tp_sistemas_operativos_c.Kernel.Interfaces.Cola.{esta_libre, esta_ocupada, IsServible, IsViva}
use tp_sistemas_operativos_c.Kernel.Interfaces.Esperas.{
  cuantas, cuantas-append, esperas, vivas, IsIo, guardar-IsIo, esperas-some, get-IsCola,
}

-- What holds of the state in which an operation ends, if it ends.
abbrev pub TrasIo : (Sistema → Type 0) → Resultado Sistema → Type 0
TrasIo P (sigue s) = P s
TrasIo P espera = Unit
TrasIo P fallo = Unit

pub con_kernel-TrasIo :
    (P : Sistema → Type 0) (r : Resultado Kernel) (s : Sistema)
    → ((k : Kernel) → P (record s { kernel = k }))
    → TrasIo P (con_kernel r s)
con_kernel-TrasIo P (sigue k) s h = h k
con_kernel-TrasIo P espera s h = tt
con_kernel-TrasIo P fallo s h = tt

pub TrasIo-bind :
    {A : Type 0} (P : Sistema → Type 0) (r : Resultado A) (f : A → Resultado Sistema)
    → ((a : A) → TrasIo P (f a))
    → TrasIo P (r >>= f)
TrasIo-bind P (sigue a) f h = h a
TrasIo-bind P espera f h = tt
TrasIo-bind P fallo f h = tt

-- A payload that is put away for a process.
vivas-put :
    (pid j : ℕ) (op : Operacion) (pedido : Pedido) (ops : List (ℕ × DatoOpEspera))
    → vivas (get pid (put j (vivo op pedido) ops)) ≡ (if j == pid then 1 else vivas (get pid ops))
vivas-put pid j op pedido ops = ground (arith, get-put j pid (vivo op pedido) ops)

pedir_ocupada-IsIo :
    (d : DatosInterfaz) (op : Operacion) (pedido : Pedido) (nombre : String) (pcb p : Pcb)
    (s : Sistema) (k : Kernel)
    → IsIo s
    → get nombre s.interfaces_dict ≡ some d
    → esperas pcb.pid s.interfaces_dict ≡ 0
    → d.pcb_usando_interfaz ≡ some p
    → IsIo (record s {
      kernel = k;
      interfaces_dict = put nombre (record (esperar pcb d) { libre = false }) s.interfaces_dict;
      operaciones_espera_dict = put pcb.pid (vivo op pedido) s.operaciones_espera_dict;
    })
pedir_ocupada-IsIo d op pedido nombre pcb p s k v g w u =
    guardar-IsIo nombre d (record (esperar pcb d) { libre = false }) s _ v g (esta_ocupada p refl u)
      (λ pid h hd. elim (Bool-cases (pcb.pid == pid)) [
        | inl e ↦
            let z : esperas pid s.interfaces_dict ≡ 0 =
              ap (λ n. esperas n s.interfaces_dict) (sym ((==_iff pcb.pid pid).0 e)) ∙ w in
            ground (
              arith,
              z,
              hd,
              e,
              vivas-put pid pcb.pid op pedido s.operaciones_espera_dict,
              cuantas-append pid d.cola_blocked_interfaz (pcb ∷ []),
            )
        | inr e ↦ ground (
          arith,
          h,
          e,
          vivas-put pid pcb.pid op pedido s.operaciones_espera_dict,
          cuantas-append pid d.cola_blocked_interfaz (pcb ∷ []),
        )
      ])
      k s.a_interfaces

pub pedir-IsIo :
    (d : DatosInterfaz) (op : Operacion) (pedido : Pedido) (nombre : String) (pcb : Pcb)
    (s : Sistema)
    → IsIo s
    → get nombre s.interfaces_dict ≡ some d
    → esperas pcb.pid s.interfaces_dict ≡ 0
    → IsIo (pedir d op pedido nombre pcb s)
unfolding pedir
pedir-IsIo d op pedido nombre pcb s v g w = elim (get-IsCola nombre d s.interfaces_dict v.colas g) [
  | esta_libre l q u ↦ simp (l) (
      guardar-IsIo nombre d (usar pcb d) s _ v g (esta_ocupada pcb refl refl)
        (λ pid h hd. omega (arith, h)) _ _)
  | esta_ocupada p l u ↦ simp (l) (pedir_ocupada-IsIo d op pedido nombre pcb p s _ v g w u)
]

vivas-put_ne :
    (pid j : ℕ) (x : DatoOpEspera) (ops : List (ℕ × DatoOpEspera))
    → (j == pid) ≡ false
    → vivas (get pid (put j x ops)) ≡ vivas (get pid ops)
vivas-put_ne pid j x ops e = ground (arith, get-put j pid x ops)

pub vivas-le_one : (o : Option DatoOpEspera) → vivas o ≤ 1
vivas-le_one none = omega arith
vivas-le_one (some liberado) = omega arith
vivas-le_one (some (vivo op pedido)) = omega arith

-- The head of a queue that is in the invariant has a payload.
vivas→IsViva : (o : Option DatoOpEspera) → 1 ≤ vivas o → IsViva o
vivas→IsViva none h = absurd (omega (arith, h))
vivas→IsViva (some liberado) h = absurd (omega (arith, h))
vivas→IsViva (some (vivo op pedido)) h = (op, pedido, refl)

cuantas_self : (p : Pcb) (q : List Pcb) → cuantas p.pid (p ∷ q) ≡ suc (cuantas p.pid q)
cuantas_self p q = ground (arith, ==_iff p.pid p.pid)

pub IsIo-IsServible :
    (nombre : String) (d : DatosInterfaz) (s : Sistema) (q : List Pcb)
    → IsIo s
    → get nombre s.interfaces_dict ≡ some d
    → d.cola_blocked_interfaz ≡ q
    → IsServible q s
IsIo-IsServible nombre d s [] v g e = tt
IsIo-IsServible nombre d s (p ∷ q) v g e = vivas→IsViva (get p.pid s.operaciones_espera_dict) (
    omega (
      arith,
      v.pedidos p.pid,
      esperas-some p.pid nombre d s.interfaces_dict g,
      ap (cuantas p.pid) e,
      cuantas_self p q,
    ))

siguiente-IsIo :
    (q : List Pcb) (nombre : String) (d : DatosInterfaz) (s : Sistema) (k : Kernel)
    → IsIo s
    → get nombre s.interfaces_dict ≡ some d
    → d.cola_blocked_interfaz ≡ q
    → TrasIo IsIo (siguiente q nombre d (record s { kernel = k }))
unfolding siguiente siguiente_de
siguiente-IsIo [] nombre d s k v g e =
    guardar-IsIo nombre d (record d { pcb_usando_interfaz = none; libre = true }) s _ v g
      (esta_libre refl e refl) (λ pid h hd. omega (arith, h)) k _
siguiente-IsIo (p ∷ q) nombre d s k v g e =
    let (op, pedido, h) = IsIo-IsServible nombre d s (p ∷ q) v g e in
    rw h (
      guardar-IsIo nombre d (usar p (record d { cola_blocked_interfaz = q })) s
        (put p.pid liberado s.operaciones_espera_dict) v g (esta_ocupada p refl refl)
        (λ pid h hd. elim (Bool-cases (p.pid == pid)) [
          | inl m ↦
              ground
                (arith, h, m, ap (cuantas pid) e, vivas-le_one (get pid s.operaciones_espera_dict))
          | inr m ↦ ground (
            arith,
            h,
            m,
            ap (cuantas pid) e,
            vivas-put_ne pid p.pid liberado s.operaciones_espera_dict m,
          )
        ])
        k _)

pub desocupar_io-IsIo :
    (nombre : String) (s : Sistema) → IsIo s → TrasIo IsIo (desocupar_io nombre s)
unfolding desocupar_io desocupar_de
desocupar_io-IsIo nombre s v = elim (Option-cases (get nombre s.interfaces_dict)) [
  | inl e ↦ rw (desocupar_io, e) tt
  | inr (d, e) ↦ rw (desocupar_io, e) (de d.pcb_usando_interfaz d e)
]
  where
    de :
        (o : Option Pcb) (d : DatosInterfaz)
        → get nombre s.interfaces_dict ≡ some d
        → TrasIo IsIo (desocupar_de o nombre d s)
    de none d e = tt
    de (some p) d e = siguiente-IsIo d.cola_blocked_interfaz nombre d s _ v e refl
