-- ===== src/Base/Subseq.antt =====
-- One list is another with some entries left out.
use mathlib.Core.List.{List, [], ◌∷◌, ◌++◌}

pub data Subseq {ℓ} {A : Type ℓ} : List A → List A → Type ℓ where
  stop : Subseq [] []
  take_one : {xs ys : List A} (x : A) → Subseq xs ys → Subseq (x ∷ xs) (x ∷ ys)
  skip : {xs ys : List A} (y : A) → Subseq xs ys → Subseq xs (y ∷ ys)

module _ {ℓ} {A : Type ℓ} where
  pub Subseq-nil : (ys : List A) → Subseq [] ys
  Subseq-nil [] = stop
  Subseq-nil (y ∷ ys) = skip y (Subseq-nil ys)

  -- An entry put into the middle of the longer list changes nothing.
  pub Subseq-insert :
      (front bs : List A) (x : A) {rs : List A}
      → Subseq rs (front ++ bs)
      → Subseq rs (front ++ x ∷ bs)
  Subseq-insert [] bs x s = skip x s
  Subseq-insert (a ∷ front) bs x (take_one _ s) = take_one a (Subseq-insert front bs x s)
  Subseq-insert (a ∷ front) bs x (skip _ s) = skip a (Subseq-insert front bs x s)

  pub Subseq-prepend : (front : List A) {rs bs : List A} → Subseq rs bs → Subseq rs (front ++ bs)
  Subseq-prepend [] s = s
  Subseq-prepend (a ∷ front) s = skip a (Subseq-prepend front s)
