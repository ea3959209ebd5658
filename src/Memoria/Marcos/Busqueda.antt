-- ===== src/Memoria/Marcos/Busqueda.antt =====
-- memoria.c: the search for a free frame and the count of the free frames.
use mathlib.Core.Path.{subst}
use tp_sistemas_operativos_c.Common.{
  ℕ, zero, suc, ◌+◌, ◌<◌, ◌≤◌, ◌==◌, ◌≡◌, refl, Bool, true, false, Option, none, some,
  if◌then◌else◌, arith, ==_iff, Bool-cases, inl, inr,
}
use mathlib.Core.Path.{subst}
use tp_sistemas_operativos_c.Memoria.Marcos.{contar_desde, buscar_desde}

-- What a search from `i` over `n` bits answers: the first set bit, or none, and then there is none.
abbrev pub Primero : (ℕ → Bool) → ℕ → ℕ → Option ℕ → Type 0
Primero test i n none = contar_desde test i n ≡ 0
Primero test i n (some f) =
    (i ≤ f) × (f < i + n) × (test f ≡ true) × ((j : ℕ) → i ≤ j → j < f → test j ≡ false)

mas_adelante :
    (test : ℕ → Bool) (i n : ℕ) (o : Option ℕ)
    → test i ≡ false
    → Primero test (suc i) n o
    → Primero test i (suc n) o
unfolding contar_desde
mas_adelante test i n none h p = rw h (omega arith)
mas_adelante test i n (some f) h (a, b, c, d) = (
  omega arith,
  omega arith,
  c,
  λ j l m. elim (Bool-cases (i == j)) [
    | inl e ↦ subst (λ x. test x ≡ false) ((==_iff i j).0 e) h
    | inr e ↦ d j (ground arith) m
  ],
)

pub buscar_desde_lem : (test : ℕ → Bool) (i n : ℕ) → Primero test i n (buscar_desde test i n)
unfolding buscar_desde contar_desde
buscar_desde_lem test i zero = refl
buscar_desde_lem test i (suc n) = elim (Bool-cases (test i)) [
  | inl t ↦ rw t (omega arith, omega arith, t, λ j l m. absurd (omega arith))
  | inr f ↦
      rw f (mas_adelante test i n (buscar_desde test (suc i) n) f (buscar_desde_lem test (suc i) n))
]

pub contar_desde-igual :
    (t u : ℕ → Bool) (i n : ℕ)
    → ((j : ℕ) → i ≤ j → t j ≡ u j)
    → contar_desde t i n ≡ contar_desde u i n
unfolding contar_desde
contar_desde-igual t u i zero h = refl
contar_desde-igual t u i (suc n) h =
    rw (h i (omega arith), contar_desde-igual t u (suc i) n (λ j l. h j (omega arith)))

distinto : (f i j : ℕ) → (f == i) ≡ true → suc i ≤ j → (f == j) ≡ false
distinto f i j e k = ground arith

-- A set bit that is cleaned makes the count one less.
pub contar_desde-menos :
    (t u : ℕ → Bool) (i n f : ℕ)
    → ((j : ℕ) → u j ≡ (if f == j then false else t j))
    → t f ≡ true
    → i ≤ f
    → f < i + n
    → contar_desde t i n ≡ suc (contar_desde u i n)
unfolding contar_desde
contar_desde-menos t u i zero f h c l m = absurd (omega arith)
contar_desde-menos t u i (suc n) f h c l m = elim (Bool-cases (f == i)) [
  | inl e ↦
      let ti : t i ≡ true = subst (λ x. t x ≡ true) ((==_iff f i).0 e) c in
      let ui : u i ≡ false = rw (h i, e) refl in
      let resto = contar_desde-igual t u (suc i) n (λ j k. rw (h j) (rw (distinto f i j e k))) in
      rw (ti, ui, resto) (omega arith)
  | inr e ↦
      let ui : u i ≡ t i = rw (h i, e) refl in
      let resto = contar_desde-menos t u (suc i) n f h c (ground arith) (omega arith) in
      rw (ui, resto) (omega arith)
]
