-- ===== src/Kernel/Libro.antt =====
-- recursos.c: the instances of each resource against what the processes hold of them.
use tp_sistemas_operativos_c.Common.{
  ℕ, suc, ◌≡◌, refl, ap, ◌∙◌, String, str_eq, eq_iff, Bool, true, false, List, [], ◌∷◌, ◌++◌,
  Option, none, some, arith, if◌then◌else◌, ℤ, pos, negsuc, pos_part, neg_part, ◌+ℤ◌, ◌-ℤ◌,
  int_laws, get, put, nat_eq, string_eq, Option-cases, ◌⊎◌, ◌==◌, Bool-cases, inl, inr,
}
use tp_sistemas_operativos_c.Kernel.Estado.{Kernel, Recurso, RecList, ListaRec, viva, liberada}
use tp_sistemas_operativos_c.Kernel.Recursos.Registro.{
  nueva, buscar_recurso, sumar_en, anotar_wait, anotar_signal, wait_en, signal_en,
}

-- What a list says is held of a resource.
abbrev pub tiene : String → List RecList → ℤ
tiene n [] = pos 0
tiene n (r ∷ rs) =
    if str_eq r.nombre_recurso n then r.instancias_recurso +ℤ tiene n rs else tiene n rs

-- One if the names are the same.
abbrev pub uno_si : String → String → ℤ
uno_si m n = if str_eq m n then pos 1 else pos 0

tiene-append : (n : String) (l l' : List RecList) → tiene n (l ++ l') ≡ tiene n l +ℤ tiene n l'
tiene-append n [] l' = omega int_laws
tiene-append n (r ∷ rs) l' = elim (Bool-cases (str_eq r.nombre_recurso n)) [
  | inl e ↦ rw e (rw (tiene-append n rs l') (omega int_laws))
  | inr e ↦ rw e (tiene-append n rs l')
]

same_name : (a m n : String) → str_eq a m ≡ true → str_eq a n ≡ str_eq m n
same_name a m n e = ap (λ s. str_eq s n) ((eq_iff a m).0 e)

-- An entry found at 0 is the first one; one found further on is found in the rest.
buscar-cons :
    (r : RecList) (rs : List RecList) (m : String) (i : ℕ)
    → buscar_recurso (r ∷ rs) m ≡ some i
    → ((str_eq r.nombre_recurso m ≡ true) × (i ≡ 0))
      ⊎ ((j : ℕ) × (i ≡ suc j) × (buscar_recurso rs m ≡ some j))
unfolding buscar_recurso
buscar-cons r rs m i h = elim (Bool-cases (str_eq r.nombre_recurso m)) [
  | inl e ↦ inl (e, ground arith)
  | inr e ↦ inr (ground arith)
]

assoc : (x t d : ℤ) → x +ℤ (t +ℤ d) ≡ x +ℤ t +ℤ d
assoc x t d = omega int_laws

step : (x d t : ℤ) → x +ℤ d +ℤ t ≡ x +ℤ t +ℤ d
step x d t = omega int_laws

-- An entry that `buscar_recurso` finds has the name looked for.
tiene-sumar_en :
    (m n : String) (d : ℤ) (i : ℕ) (l : List RecList)
    → buscar_recurso l m ≡ some i
    → tiene n (sumar_en d i l) ≡ tiene n l +ℤ (if str_eq m n then d else pos 0)
unfolding sumar_en buscar_recurso
tiene-sumar_en m n d i [] h = cc
tiene-sumar_en m n d i (r ∷ rs) h = elim (buscar-cons r rs m i h) [
  | inl (e, z) ↦ rw z (first (str_eq m n) (same_name r.nombre_recurso m n e))
  | inr (j, z, h') ↦ rw z (later j (str_eq r.nombre_recurso n) refl (tiene-sumar_en m n d j rs h'))
]
  where
    first :
        (b : Bool)
        → str_eq r.nombre_recurso n ≡ b
        → tiene n (record r { instancias_recurso = r.instancias_recurso +ℤ d } ∷ rs)
          ≡ tiene n (r ∷ rs) +ℤ (if b then d else pos 0)
    first true e = rw e (step r.instancias_recurso d (tiene n rs))
    first false e = rw e (omega int_laws)

    later :
        (j : ℕ) (b : Bool)
        → str_eq r.nombre_recurso n ≡ b
        → tiene n (sumar_en d j rs) ≡ tiene n rs +ℤ (if str_eq m n then d else pos 0)
        → tiene n (r ∷ sumar_en d j rs) ≡ tiene n (r ∷ rs) +ℤ (if str_eq m n then d else pos 0)
    later j true e ih =
        rw e (rw ih (assoc r.instancias_recurso (tiene n rs) (if str_eq m n then d else pos 0)))
    later j false e ih = rw e ih

pub tiene-nueva : (m n : String) → tiene n (nueva m ∷ []) ≡ uno_si m n
tiene-nueva m n = elim (Bool-cases (str_eq m n)) [ inl e ↦ rw e (omega int_laws) | inr e ↦ rw e ]

pub tiene-anotar_wait :
    (m n : String) (l : List RecList) → tiene n (anotar_wait m l) ≡ tiene n l +ℤ uno_si m n
unfolding anotar_wait wait_en
tiene-anotar_wait m n l = elim (Option-cases (buscar_recurso l m)) [
  | inl e ↦ rw e (tiene-append n l (nueva m ∷ []) ∙ ap (◌+ℤ◌ (tiene n l)) (tiene-nueva m n))
  | inr (i, e) ↦ rw e (tiene-sumar_en m n (pos 1) i l e)
]

-- A SIGNAL of a resource that the list names takes one off.
pub tiene-anotar_signal :
    (m n : String) (l : List RecList) (i : ℕ)
    → buscar_recurso l m ≡ some i
    → tiene n (anotar_signal m l) ≡ tiene n l -ℤ uno_si m n
unfolding anotar_signal signal_en
tiene-anotar_signal m n l i h = rw h (tiene-sumar_en m n (negsuc 0) i l h ∙ menos (str_eq m n))
  where
    menos :
        (b : Bool)
        → tiene n l +ℤ (if b then negsuc 0 else pos 0) ≡ tiene n l -ℤ (if b then pos 1 else pos 0)
    menos true = omega int_laws
    menos false = omega int_laws

-- What all the processes hold of a resource.
abbrev pub lo_que_tiene : String → ListaRec → ℤ
lo_que_tiene n (viva l) = tiene n l
lo_que_tiene n liberada = pos 0

abbrev pub asignadas : String → List (ℕ × ListaRec) → ℤ
asignadas n [] = pos 0
asignadas n ((_, l) ∷ d) = lo_que_tiene n l +ℤ asignadas n d

pub asignadas-put_new :
    (n : String) (pid : ℕ) (l : ListaRec) (d : List (ℕ × ListaRec))
    → get pid d ≡ none
    → asignadas n (put pid l d) ≡ asignadas n d +ℤ lo_que_tiene n l
unfolding get put
asignadas-put_new n pid l [] h = omega int_laws
asignadas-put_new n pid l ((j, x) ∷ d) h = elim (Bool-cases (j == pid)) [
  | inl e ↦ cc e
  | inr e ↦ rw e (rw (asignadas-put_new n pid l d (ground arith)) (omega int_laws))
]

pub asignadas-put_old :
    (n : String) (pid : ℕ) (l x : ListaRec) (d : List (ℕ × ListaRec))
    → get pid d ≡ some x
    → asignadas n (put pid l d) +ℤ lo_que_tiene n x ≡ asignadas n d +ℤ lo_que_tiene n l
unfolding get put
asignadas-put_old n pid l x [] h = cc
asignadas-put_old n pid l x ((j, y) ∷ d) h = elim (Bool-cases (j == pid)) [
  | inl e ↦ let same : y ≡ x = ground arith in rw e (rw same (omega int_laws))
  | inr e ↦
      let ih = asignadas-put_old n pid l x d (ground arith) in
      rw e (omega (int_laws, ap pos_part ih, ap neg_part ih))
]

abbrev pub instancias_de : Option Recurso → ℤ
instancias_de none = pos 0
instancias_de (some r) = r.instancias_recurso

-- The instances that are free and those that are held: how many there are.
abbrev pub total : String → Kernel → ℤ
total n k = instancias_de (get n k.diccionario_recursos) +ℤ asignadas n k.rec_por_pid_dic
