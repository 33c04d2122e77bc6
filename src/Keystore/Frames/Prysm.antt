-- ===== src/Keystore/Frames/Prysm.antt =====
-- The methods of node/validator/keystore/prysm.go stay inside its directory and keep its lists balanced.
use node_manager_core.Base.{
  ◌≡◌, refl, subst, Bool, true, false, Option, none, some, [], ◌∷◌, arith, length, length-append,
  ◌==◌, Bool-cases, inl, inr,
}
use node_manager_core.Utils.Hex.{Bytes, same}
use node_manager_core.Keystore.Disk.{
  AccountStore, KeyLibrary, Keystores, Method, Result, ok, err, panic, Stat, not_exist, failed,
  exists,
}
use node_manager_core.Keystore.Prysm.{
  prysm_dir, set_accounts, create_password, keep_accounts, decode_accounts, if_missing,
  read_accounts, initialize, initialize_from, given, with_accounts, write_config, save_accounts,
  with_key, add_key, add_if_new, store_validator_key, checked_key, verified_key, verify_found,
  load_validator_key,
}
use node_manager_core.Keystore.Frames.{
  Stays, Frames, Frames-refl, IsBalanced, stays_rules, Stays-bind, Stays-pure,
}

abbrev pub Within : {A : Type 0} → Method A → Type 0
Within m = Stays prysm_dir m

set_accounts-Within :
    (s : AccountStore) → length s.private_keys ≡ length s.public_keys → Within (set_accounts s)
unfolding set_accounts
set_accounts-Within s h = record {
  at = λ w b. record {
    others = λ p e. refl;
    refusals = refl;
    balanced =
        λ t e. let k : s ≡ t = cc in subst (λ x. length x.private_keys ≡ length x.public_keys) k h;
  };
}

given-Frames :
    {A : Type 0} (f : AccountStore → Method A) (o : Option AccountStore) (w : Keystores)
    → ((s : AccountStore) → length s.private_keys ≡ length s.public_keys → Within (f s))
    → w.accounts ≡ o
    → IsBalanced w
    → Frames prysm_dir w (given f o w).1
given-Frames f none w k e b = Frames-refl prysm_dir w b
given-Frames f (some s) w k e b = (k s (b s e)).at w b

-- A method that is picked by the account store.
with_accounts-Within :
    {A : Type 0} (f : AccountStore → Method A)
    → ((s : AccountStore) → length s.private_keys ≡ length s.public_keys → Within (f s))
    → Within (with_accounts f)
with_accounts-Within f k = record { at = λ w b. given-Frames f w.accounts w k refl b }

module _ (lib : KeyLibrary) where
  create_password-Within : Within (create_password lib)
  unfolding create_password
  create_password-Within = search stays_rules depth 8

  keep_accounts-Within : (s : AccountStore) → Within (keep_accounts lib s)
  unfolding keep_accounts
  keep_accounts-Within s = elim (Bool-cases (length s.private_keys == length s.public_keys)) [
    | inl e ↦ rw e (set_accounts-Within s (ground (arith, e)))
    | inr e ↦ rw e (search stays_rules)
  ]

  decode_accounts-Within :
      (password : Bytes) (o : Option Bytes) → Within (decode_accounts lib password o)
  unfolding decode_accounts
  decode_accounts-Within password none = set_accounts-Within _ refl
  decode_accounts-Within password (some bytes) = search (stays_rules, keep_accounts-Within) depth 10

  if_missing-Within : (s : Stat) → Within (if_missing (create_password lib) s)
  if_missing-Within not_exist = create_password-Within
  if_missing-Within failed = search stays_rules
  if_missing-Within exists = search stays_rules

  read_accounts-Within : Within (read_accounts lib)
  unfolding read_accounts
  read_accounts-Within = search (stays_rules, if_missing-Within, decode_accounts-Within) depth 12

  initialize_from-Within : (o : Option AccountStore) → Within (initialize_from lib o)
  unfolding initialize_from
  initialize_from-Within none = read_accounts-Within
  initialize_from-Within (some s) = Stays-pure prysm_dir tt

  pub initialize-Within : Within (initialize lib)
  unfolding initialize
  initialize-Within = record { at = λ w b. (initialize_from-Within w.accounts).at w b }

  write_config-Within : (s : Stat) → Within (write_config lib s)
  unfolding write_config
  write_config-Within not_exist = search stays_rules depth 8
  write_config-Within failed = search stays_rules
  write_config-Within exists = search stays_rules

  save_accounts-Within : (s : AccountStore) → Within (save_accounts lib s)
  unfolding save_accounts
  save_accounts-Within s = search (stays_rules, write_config-Within) depth 24

  add_key-Within :
      (key : lib.Key) (s : AccountStore) (r : Result Bool)
      → length s.private_keys ≡ length s.public_keys
      → Within (add_key lib key s r)
  unfolding add_key
  add_key-Within key s panic h = record { at = λ w b. Frames-refl prysm_dir w b }
  add_key-Within key s (err e) h = record { at = λ w b. Frames-refl prysm_dir w b }
  add_key-Within key s (ok true) h = record { at = λ w b. Frames-refl prysm_dir w b }
  add_key-Within key s (ok false) h =
      Stays-bind prysm_dir (set_accounts (with_key lib key s))
        (λ x. save_accounts lib (with_key lib key s))
        (set_accounts-Within (with_key lib key s) (
          omega (
            arith,
            h,
            length-append s.private_keys (lib.marshal_key key ∷ []),
            length-append s.public_keys (lib.public_key key ∷ []),
          )))
        (λ x. save_accounts-Within (with_key lib key s))

  pub store-Within : (key : lib.Key) (path : Bytes) → Within (store_validator_key lib key path)
  unfolding store_validator_key add_if_new
  store-Within key path =
      Stays-bind prysm_dir (initialize lib) _ initialize-Within
        (λ x. with_accounts-Within _ (λ s h. add_key-Within key s _ h))

  checked_key-Within : (key : Bytes) (k : lib.Key) → Within (checked_key lib key k)
  unfolding checked_key
  checked_key-Within key k = elim (Bool-cases (same (lib.public_key k) key)) [
    | inl e ↦ rw e (search stays_rules)
    | inr e ↦ rw e (search stays_rules)
  ]

  verify_found-Within : (key : Bytes) (r : Result (Option Bytes)) → Within (verify_found lib key r)
  unfolding verify_found verified_key
  verify_found-Within key panic = record { at = λ w b. Frames-refl prysm_dir w b }
  verify_found-Within key (err e) = record { at = λ w b. Frames-refl prysm_dir w b }
  verify_found-Within key (ok none) = record { at = λ w b. Frames-refl prysm_dir w b }
  verify_found-Within key (ok (some private)) = search (stays_rules, checked_key-Within) depth 8

  pub load-Within : (key : Bytes) → Within (load_validator_key lib key)
  unfolding load_validator_key
  load-Within key =
      Stays-bind prysm_dir (initialize lib) _ initialize-Within
        (λ x. with_accounts-Within _ (λ s h. verify_found-Within key _))
