-- ===== src/Keystore/Order.antt =====
-- The managers in the map of node/validator/validator-manager.go have each a directory of their own, in
-- every order of the map.
use node_manager_core.Base.{◌≡◌, refl, sym, subst, false, List, ◌∷◌, All}
use node_manager_core.Base.Reorders.{
  Inserted, here, there, Reorders, nothing, put, All-Inserted, All-Reorders,
}
use node_manager_core.Utils.Hex.{same}
use node_manager_core.Keystore.Direct.{Layout}
use node_manager_core.Keystore.Manager.{Client, direct, prysm, keystore_managers, dir_of}

-- Another directory than a keystore's.
abbrev pub Elsewhere : Layout → Client → Type 0
Elsewhere l c = same (dir_of c) l.keystore_dir ≡ false

-- A list of managers with one for this keystore, and no other in its directory.
pub data OnceIn (l : Layout) : List Client → Type 0 where
  only : (cs : List Client) → All (Elsewhere l) cs → OnceIn l (direct l ∷ cs)
  later : (c : Client) (cs : List Client) → Elsewhere l c → OnceIn l cs → OnceIn l (c ∷ cs)

OnceIn-Inserted :
    (l : Layout) (c : Client) (ys zs : List Client)
    → Inserted c ys zs
    → Elsewhere l c
    → OnceIn l ys
    → OnceIn l zs
OnceIn-Inserted l c ys _ (here _) e h = later c ys e h
OnceIn-Inserted l c _ _ (there _ ys zs i) e (only _ a) =
    only zs (All-Inserted (Elsewhere l) c ys zs i e a)
OnceIn-Inserted l c _ _ (there y ys zs i) e (later _ _ d h) =
    later y zs d (OnceIn-Inserted l c ys zs i e h)

OnceIn-Inserted_own :
    (l : Layout) (c : Client) (ys zs : List Client)
    → Inserted c ys zs
    → c ≡ direct l
    → All (Elsewhere l) ys
    → OnceIn l zs
OnceIn-Inserted_own l c ys _ (here _) e a = subst (λ x. OnceIn l (x ∷ ys)) (sym e) (only ys a)
OnceIn-Inserted_own l c _ _ (there y ys zs i) e (d, a) =
    later y zs d (OnceIn-Inserted_own l c ys zs i e a)

pub OnceIn-Reorders :
    (l : Layout) (xs zs : List Client) → Reorders xs zs → OnceIn l xs → OnceIn l zs
OnceIn-Reorders l _ _ nothing h = h
OnceIn-Reorders l _ _ (put x xs ys zs r i) (only _ a) =
    OnceIn-Inserted_own l x ys zs i refl (All-Reorders (Elsewhere l) xs ys r a)
OnceIn-Reorders l _ _ (put x xs ys zs r i) (later _ _ d h) =
    OnceIn-Inserted l x ys zs i d (OnceIn-Reorders l xs ys r h)

-- A manager of one key per file has a directory of its own, with the passwords apart from the keys.
unfoldable pub Apart : Client → Type 0
Apart (direct l) = OnceIn l keystore_managers × (same l.secrets_dir l.validators_dir ≡ false)
Apart prysm = Unit

pub keystore_managers-Apart : All Apart keystore_managers
unfolding Apart dir_of
keystore_managers-Apart = (
  (only _ (refl, (refl, (refl, (refl, tt)))), refl),
  (
    (later _ _ refl (only _ (refl, (refl, (refl, tt)))), refl),
    (
      (later _ _ refl (later _ _ refl (only _ (refl, (refl, tt)))), refl),
      (
        tt,
        ((later _ _ refl (later _ _ refl (later _ _ refl (later _ _ refl (only _ tt)))), refl), tt),
      ),
    ),
  ),
)
