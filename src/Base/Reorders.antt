-- ===== src/Base/Reorders.antt =====
-- The orders in which the items of a list may come: batches that finish, entries of a map. It models no
-- code of the repository by itself.
use node_manager_core.Base.{List, [], ◌∷◌, All}

module _ {A : Type 0} where
  -- A list with one item put in somewhere.
  pub data Inserted (x : A) : List A → List A → Type 0 where
    here : (ys : List A) → Inserted x ys (x ∷ ys)
    there : (y : A) (ys zs : List A) → Inserted x ys zs → Inserted x (y ∷ ys) (y ∷ zs)

  -- The items of a list in any other order.
  pub data Reorders : List A → List A → Type 0 where
    nothing : Reorders [] []
    put : (x : A) (xs ys zs : List A) → Reorders xs ys → Inserted x ys zs → Reorders (x ∷ xs) zs

  pub All-Inserted :
      (P : A → Type 0) (x : A) (ys zs : List A) → Inserted x ys zs → P x → All P ys → All P zs
  All-Inserted P x ys _ (here _) p h = (p, h)
  All-Inserted P x _ _ (there y ys zs k) p (q, h) = (q, All-Inserted P x ys zs k p h)

  pub All-Reorders : (P : A → Type 0) (xs zs : List A) → Reorders xs zs → All P xs → All P zs
  All-Reorders P _ _ nothing h = tt
  All-Reorders P _ _ (put x xs ys zs r k) (p, h) =
      All-Inserted P x ys zs k p (All-Reorders P xs ys r h)

  pub All-found : (P : A → Type 0) (x : A) (ys zs : List A) → Inserted x ys zs → All P zs → P x
  All-found P x ys _ (here _) (p, h) = p
  All-found P x _ _ (there y ys zs i) (q, h) = All-found P x ys zs i h
