-- ===== src/Common/Queue.antt =====
-- The program's loop over a queue: as many times as the queue is long, take the head and put it
-- back at the end unless it is the one to drop.
use Prim.Native.Nat.{ℕ, zero, suc}
use mathlib.Core.Path.{◌≡◌, sym, ap, ◌∙◌}
use mathlib.Core.Bool.{Bool}
use mathlib.Core.List.{List, [], ◌∷◌, ◌++◌, append-nil, append_assoc}
use native.Mathlib.Omega.{arith}
use tp_sistemas_operativos_c.Common.Tests.{if◌then◌else◌}
use tp_sistemas_operativos_c.Common.Lists.{length, keep}

module _ {ℓ} {A : Type ℓ} (stays : A → Bool) where
  unfoldable pub rotate : ℕ → List A → List A
  rotate zero q = q
  rotate (suc n) [] = []
  rotate (suc n) (x ∷ q) = rotate n (if stays x then q ++ (x ∷ []) else q)

  rotate-append : (xs ys : List A) → rotate (length xs) (xs ++ ys) ≡ ys ++ keep stays xs
  unfolding rotate
  rotate-append [] ys = sym (append-nil ys)
  rotate-append (x ∷ xs) ys = ground (
    arith,
    append_assoc xs ys (x ∷ []),
    append_assoc ys (x ∷ []) (keep stays xs),
    rotate-append xs ys,
    rotate-append xs (ys ++ (x ∷ [])),
  )

  -- The whole loop keeps the order of what stays.
  pub rotate-keep : (q : List A) → rotate (length q) q ≡ keep stays q
  rotate-keep q = ap (rotate (length q)) (sym (append-nil q)) ∙ rotate-append q []
