-- ===== src/Kernel/Interfaces/Esperas.antt =====
-- kernel/src/manejoInterfaces.c: how often a process waits, and its payload.
use mathlib.Core.Path.{subst}
use tp_sistemas_operativos_c.Common.{
  ℕ, suc, ◌+◌, ◌≤◌, ◌==◌, ◌≡◌, ◌≢◌, refl, ap, String, str_eq, Bool, List, [], ◌∷◌, ◌++◌, Option,
  none, some, arith, if◌then◌else◌, get, put, remove, string_eq, nat_eq, inl, inr, Bool-cases, keep,
}
use tp_sistemas_operativos_c.Utils.Pcb.{Pcb}
use tp_sistemas_operativos_c.Kernel.Estado.{Kernel}
use tp_sistemas_operativos_c.Kernel.Interfaces.{
  DatoOpEspera, vivo, liberado, DatosInterfaz, Envio, Sistema,
}
use tp_sistemas_operativos_c.Kernel.Interfaces.Cola.{IsCola}

-- How many times a process is in a queue, in the queues of all interfaces, and has a payload.
abbrev pub cuantas : ℕ → List Pcb → ℕ
cuantas pid [] = 0
cuantas pid (p ∷ q) = if p.pid == pid then suc (cuantas pid q) else cuantas pid q

abbrev pub esperas : ℕ → List (String × DatosInterfaz) → ℕ
esperas pid [] = 0
esperas pid ((_, d) ∷ m) = cuantas pid d.cola_blocked_interfaz + esperas pid m

abbrev pub esperas_de : ℕ → Option DatosInterfaz → ℕ
esperas_de pid none = 0
esperas_de pid (some d) = cuantas pid d.cola_blocked_interfaz

abbrev pub vivas : Option DatoOpEspera → ℕ
vivas none = 0
vivas (some liberado) = 0
vivas (some (vivo op pedido)) = 1

pub cuantas-append :
    (pid : ℕ) (q q' : List Pcb) → cuantas pid (q ++ q') ≡ cuantas pid q + cuantas pid q'
cuantas-append pid [] q' = omega arith
cuantas-append pid (p ∷ q) q' = ground (arith, cuantas-append pid q q')

pub cuantas-keep-le :
    (pid : ℕ) (t : Pcb → Bool) (q : List Pcb) → cuantas pid (keep t q) ≤ cuantas pid q
cuantas-keep-le pid t [] = omega arith
cuantas-keep-le pid t (p ∷ q) = ground (arith, cuantas-keep-le pid t q)

pub esperas-put :
    (pid : ℕ) (n : String) (d : DatosInterfaz) (m : List (String × DatosInterfaz))
    → esperas pid (put n d m) + esperas_de pid (get n m)
      ≡ esperas pid m + cuantas pid d.cola_blocked_interfaz
unfolding get put
esperas-put pid n d [] = omega arith
esperas-put pid n d ((j, x) ∷ m) = elim (Bool-cases (str_eq j n)) [
  | inl e ↦ rw e (omega arith)
  | inr e ↦ let ih = esperas-put pid n d m in rw e (omega (arith, ih))
]

pub esperas-remove :
    (pid : ℕ) (n : String) (m : List (String × DatosInterfaz))
    → esperas pid (remove n m) + esperas_de pid (get n m) ≡ esperas pid m
unfolding get remove
esperas-remove pid n [] = refl
esperas-remove pid n ((j, x) ∷ m) = elim (Bool-cases (str_eq j n)) [
  | inl e ↦ rw e (omega arith)
  | inr e ↦ let ih = esperas-remove pid n m in rw e (omega (arith, ih))
]

-- What `remove` leaves of the other keys.
pub get-remove_ne : {V : Type 0} (k j : ℕ) (m : List (ℕ × V)) → k ≢ j → get j (remove k m) ≡ get j m
unfolding get remove
get-remove_ne k j [] ne = refl
get-remove_ne k j ((i, w) ∷ m) ne = ground (arith, get-remove_ne k j m ne)

abbrev pub AreColas : List (String × DatosInterfaz) → Type 0
AreColas [] = Unit
AreColas ((_, d) ∷ m) = IsCola d × AreColas m

pub get-IsCola :
    (n : String) (d : DatosInterfaz) (m : List (String × DatosInterfaz))
    → AreColas m
    → get n m ≡ some d
    → IsCola d
unfolding get
get-IsCola n d [] h g = cc
get-IsCola n d ((j, x) ∷ m) h g = elim (Bool-cases (str_eq j n)) [
  | inl e ↦ subst IsCola (ground (arith, g, e)) h.0
  | inr e ↦ get-IsCola n d m h.1 (ground (arith, g, e))
]

pub put-AreColas :
    (n : String) (d : DatosInterfaz) (m : List (String × DatosInterfaz))
    → IsCola d
    → AreColas m
    → AreColas (put n d m)
unfolding put
put-AreColas n d [] v h = (v, tt)
put-AreColas n d ((j, x) ∷ m) v h = elim (Bool-cases (str_eq j n)) [
  | inl e ↦ rw e (v, h.1)
  | inr e ↦ rw e (h.0, put-AreColas n d m v h.1)
]

pub remove-AreColas :
    (n : String) (m : List (String × DatosInterfaz)) → AreColas m → AreColas (remove n m)
unfolding remove
remove-AreColas n [] h = tt
remove-AreColas n ((j, x) ∷ m) h = elim (Bool-cases (str_eq j n)) [
  | inl e ↦ rw e h.1
  | inr e ↦ rw e (h.0, remove-AreColas n m h.1)
]

-- The invariant of the interfaces.
pub record IsIo (s : Sistema) : Type 0 where
  pub colas : AreColas s.interfaces_dict
  pub pedidos :
      (pid : ℕ) → esperas pid s.interfaces_dict ≤ vivas (get pid s.operaciones_espera_dict)

pub esperas-some :
    (pid : ℕ) (n : String) (d : DatosInterfaz) (m : List (String × DatosInterfaz))
    → get n m ≡ some d
    → cuantas pid d.cola_blocked_interfaz ≤ esperas pid m
esperas-some pid n d m g = omega (arith, esperas-remove pid n m, ap (esperas_de pid) g)

-- An interface changes its entry, and the payloads change with its queue.
pub guardar-IsIo :
    (n : String) (d d' : DatosInterfaz) (s : Sistema) (ops : List (ℕ × DatoOpEspera))
    → IsIo s
    → get n s.interfaces_dict ≡ some d
    → IsCola d'
    → ((pid : ℕ)
        → esperas pid s.interfaces_dict ≤ vivas (get pid s.operaciones_espera_dict)
        → cuantas pid d.cola_blocked_interfaz ≤ esperas pid s.interfaces_dict
        → esperas pid s.interfaces_dict + cuantas pid d'.cola_blocked_interfaz
          ≤ vivas (get pid ops) + cuantas pid d.cola_blocked_interfaz)
    → (k : Kernel) (es : List Envio)
    → IsIo (record s {
      a_interfaces = es;
      kernel = k;
      interfaces_dict = put n d' s.interfaces_dict;
      operaciones_espera_dict = ops;
    })
guardar-IsIo n d d' s ops v g c h k es = record {
  colas = put-AreColas n d' s.interfaces_dict c v.colas;
  pedidos = λ pid. omega (
    arith,
    esperas-put pid n d' s.interfaces_dict,
    ap (esperas_de pid) g,
    h pid (v.pedidos pid) (esperas-some pid n d s.interfaces_dict g),
  );
}
