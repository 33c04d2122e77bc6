-- ===== src/Keystore/Manager.antt =====
-- node/validator/validator-manager.go: the manager that stores a key in every keystore and loads it from
-- any of them.
use node_manager_core.Base.{String, Option, none, some, List, [], ◌∷◌, ◌++◌}
use node_manager_core.Utils.Hex.{Bytes}
use node_manager_core.Keystore.Disk.{
  KeyLibrary, Keystores, Method, Result, ok, err, panic, pure, ◌>>◌,
}
use node_manager_core.Keystore.Direct.{Layout, lighthouse, lodestar, nimbus, teku}
use node_manager_core.Keystore.Direct
use node_manager_core.Keystore.Prysm

-- The keys of the manager's map; it holds one manager for each.
pub data Client : Type 0 where
  direct : Layout → Client
  prysm : Client

-- The map, in the order of one iteration over it.
abbrev pub keystore_managers : List Client
keystore_managers = direct lighthouse ∷ direct lodestar ∷ direct nimbus ∷ prysm ∷ direct teku ∷ []

unfoldable pub dir_of : Client → Bytes
dir_of (direct l) = l.keystore_dir
dir_of prysm = Prysm.prysm_dir

module _ (lib : KeyLibrary) where
  unfoldable pub store_in : Client → lib.Key → Bytes → Method (Unit {0})
  store_in (direct l) key path = Direct.store_validator_key lib l key path
  store_in prysm key path = Prysm.store_validator_key lib key path

  unfoldable pub load_from : Client → Bytes → Method (Option lib.Key)
  load_from (direct l) key = Direct.load_validator_key lib l key
  load_from prysm key = Prysm.load_validator_key lib key

  -- The first error ends the loop; the managers before it keep the key.
  unfoldable pub store_key : List Client → lib.Key → Bytes → Method (Unit {0})
  unfolding store_in
  store_key [] key path = pure tt
  store_key (c ∷ cs) key path = store_in c key path >> store_key cs key path

  unfoldable pub give_up : List String → Result lib.Key
  give_up [] = err "couldn't find the key in any of the validator manager's keystores"
  give_up (e ∷ es) = err "encountered errors while trying to load the key"

  -- An error is noted and the next manager is tried.
  unfoldable pub tried :
      (List String → Method lib.Key)
      → List String
      → Result (Option lib.Key) × Keystores
      → Result lib.Key × Keystores
  tried rest errors (ok (some k), w) = (ok k, w)
  tried rest errors (ok none, w) = rest errors w
  tried rest errors (err e, w) = rest (errors ++ (e ∷ [])) w
  tried rest errors (panic, w) = (panic, w)

  unfoldable pub try_managers : List Client → Bytes → List String → Method lib.Key
  unfolding tried load_from give_up
  try_managers [] key errors w = (give_up errors, w)
  try_managers (c ∷ cs) key errors w = tried (try_managers cs key) errors (load_from c key w)

  unfoldable pub load_key : List Client → Bytes → Method lib.Key
  unfolding try_managers
  load_key order key = try_managers order key []
