-- ===== src/Keystore/Clients.antt =====
-- What is true of every keystore of the manager's map: its calls stay in its directory, and its loads give
-- only the key that is asked for (node/validator/validator-manager.go).
use node_manager_core.Base.{◌≡◌, String, Option, none, some, List, [], ◌∷◌, ◌++◌}
use node_manager_core.Utils.Hex.{Bytes}
use node_manager_core.Keystore.Disk.{KeyLibrary, Keystores, Method, Result, ok, err, panic}
use node_manager_core.Keystore.Manager.{
  Client, direct, prysm, dir_of, store_in, load_from, tried, try_managers, give_up, load_key,
}
use node_manager_core.Keystore.Frames.{IsBalanced, Stays}
use node_manager_core.Keystore.Frames.Methods.{direct_store-Stays, direct_load-Stays}
use node_manager_core.Keystore.Frames.Prysm.{store-Within, load-Within}
use node_manager_core.Keystore.Keys.{Allows, Has, direct_load-Gives}
use node_manager_core.Keystore.Keys.Prysm.{prysm_load-Allows}

pub store_in-Stays :
    (lib : KeyLibrary) (c : Client) (k : lib.Key) (path : Bytes)
    → Stays (dir_of c) (store_in lib c k path)
unfolding dir_of store_in
store_in-Stays lib (direct l) k path = direct_store-Stays lib l k path
store_in-Stays lib prysm k path = store-Within lib k path

pub load_from-Stays :
    (lib : KeyLibrary) (c : Client) (key : Bytes) → Stays (dir_of c) (load_from lib c key)
unfolding dir_of load_from
load_from-Stays lib (direct l) key = direct_load-Stays lib l.keystore_dir l key
load_from-Stays lib prysm key = load-Within lib key

pub load_from-Allows :
    (lib : KeyLibrary) (c : Client) (key : Bytes) (w : Keystores)
    → IsBalanced w
    → Allows (Has lib key) (load_from lib c key w).0
unfolding load_from
load_from-Allows lib (direct l) key w b = (direct_load-Gives lib l key).at w
load_from-Allows lib prysm key w b = prysm_load-Allows lib key w b

tried-Allows :
    (lib : KeyLibrary) (key : Bytes) (rest : List String → Method lib.Key) (errors : List String)
    (r : Result (Option lib.Key) × Keystores)
    → Allows (Has lib key) r.0
    → ((es : List String) → Allows (λ k. lib.public_key k ≡ key) (rest es r.1).0)
    → Allows (λ k. lib.public_key k ≡ key) (tried lib rest errors r).0
unfolding tried
tried-Allows lib key rest errors (ok (some k), w) h g = h
tried-Allows lib key rest errors (ok none, w) h g = g errors
tried-Allows lib key rest errors (err e, w) h g = g (errors ++ (e ∷ []))
tried-Allows lib key rest errors (panic, w) h g = h

give_up-Allows :
    (lib : KeyLibrary) (key : Bytes) (errors : List String)
    → Allows (λ k. lib.public_key k ≡ key) (give_up lib errors)
unfolding give_up
give_up-Allows lib key [] = tt
give_up-Allows lib key (e ∷ es) = tt

try_managers-Allows :
    (lib : KeyLibrary) (cs : List Client) (key : Bytes) (errors : List String) (w : Keystores)
    → IsBalanced w
    → Allows (λ k. lib.public_key k ≡ key) (try_managers lib cs key errors w).0
unfolding try_managers
try_managers-Allows lib [] key errors w b = give_up-Allows lib key errors
try_managers-Allows lib (c ∷ cs) key errors w b =
    let f = (load_from-Stays lib c key).at w b in
    tried-Allows lib key (try_managers lib cs key) errors (load_from lib c key w)
      (load_from-Allows lib c key w b)
      (λ es. try_managers-Allows lib cs key es (load_from lib c key w).1 f.balanced)

-- Loading a key from the manager's keystores never panics, and a key that it gives is one with the public
-- key that is asked for, for every order of the map, every content of the disk and every outcome of the
-- libraries, when Prysm's lists in memory, where they are read, are of one length.
pub load_key-Allows :
    (lib : KeyLibrary) (order : List Client) (key : Bytes) (w : Keystores)
    → IsBalanced w
    → Allows (λ k. lib.public_key k ≡ key) (load_key lib order key w).0
unfolding load_key
load_key-Allows lib order key w b = try_managers-Allows lib order key [] w b
