-- ===== src/Keystore/Frames.antt =====
-- A keystore manager touches only the files below its own directory.
pub mod Methods
pub mod Prysm
use node_manager_core.Base.{
  ℕ, suc, ◌≡◌, Bool-cases, inl, inr, ◌≢◌, ◌↔◌, refl, ap, sym, ◌∙◌, subst, String, Bool, true, false,
  Option, none, some, List, [], ◌∷◌, ◌++◌, arith, if◌then◌else◌, ◌==◌, length, length-append, ◌&&◌,
}
use node_manager_core.Utils.Hex.{Bytes, same}
use node_manager_core.Utils.Hex.RoundTrip.{same_iff}
use node_manager_core.Keystore.Disk.{
  FilePath, same_path, Disk, AccountStore, KeyLibrary, Keystores, Method, Result, ok, err, panic,
  pure, fail, next, ◌>>=◌, ◌>>◌, or_error, fresh, Stat, not_exist, failed, exists, stat, read,
  write, make_folder, leave, mkdir_call, write_call,
}

-- Prysm's lists of keys are of one length.
abbrev pub IsBalanced : Keystores → Type 0
IsBalanced w =
    (s : AccountStore) → w.accounts ≡ some s → length s.private_keys ≡ length s.public_keys

-- From one state to another, nothing has changed outside a directory, and Prysm's lists are balanced.
pub record Frames (dir : Bytes) (w w' : Keystores) : Type 0 where
  pub others : (p : FilePath) → same dir p.0 ≡ false → w'.disk.content p ≡ w.disk.content p
  pub refusals : w'.disk.is_refused ≡ w.disk.is_refused
  pub balanced : IsBalanced w'

pub Frames-refl : (dir : Bytes) (w : Keystores) → IsBalanced w → Frames dir w w
Frames-refl dir w b = record { others = λ p h. refl; refusals = refl; balanced = b }

pub Frames-trans :
    {dir : Bytes} {a b c : Keystores} → Frames dir a b → Frames dir b c → Frames dir a c
Frames-trans h k = record {
  others = λ p e. k.others p e ∙ h.others p e;
  refusals = k.refusals ∙ h.refusals;
  balanced = k.balanced;
}

-- A method stays inside a directory.
pub record Stays (dir : Bytes) {A : Type 0} (m : Method A) : Type 0 where
  pub at : (w : Keystores) → IsBalanced w → Frames dir w (m w).1

Frames-next :
    {A B : Type 0} (dir : Bytes) (f : A → Method B) (w : Keystores) (r : Result A × Keystores)
    → Frames dir w r.1
    → ((a : A) → Stays dir (f a))
    → Frames dir w (next f r).1
Frames-next dir f w (ok a, v) h k = Frames-trans h ((k a).at v h.balanced)
Frames-next dir f w (err e, v) h k = h
Frames-next dir f w (panic, v) h k = h

pub Stays-bind :
    {A B : Type 0} (dir : Bytes) (m : Method A) (f : A → Method B)
    → Stays dir m
    → ((a : A) → Stays dir (f a))
    → Stays dir (m >>= f)
unfolding ◌>>=◌
Stays-bind dir m f h k = record { at = λ w b. Frames-next dir f w (m w) (h.at w b) k }

pub Stays-pure : {A : Type 0} (dir : Bytes) (a : A) → Stays dir (pure a)
Stays-pure dir a = record { at = λ w b. Frames-refl dir w b }

pub Stays-fail : {A : Type 0} (dir : Bytes) (e : String) → Stays dir (fail {A = A} e)
Stays-fail dir e = record { at = λ w b. Frames-refl dir w b }

pub Stays-or_error :
    {A : Type 0} (dir : Bytes) (e : String) (o : Option A) → Stays dir (or_error e o)
Stays-or_error dir e none = record { at = λ w b. Frames-refl dir w b }
Stays-or_error dir e (some a) = record { at = λ w b. Frames-refl dir w b }

pub Stays-fresh : (dir : Bytes) → Stays dir fresh
unfolding fresh
Stays-fresh dir = record {
  at = λ w b. record { others = λ p h. refl; refusals = refl; balanced = b };
}

pub Stays-stat : (dir : Bytes) (p : FilePath) → Stays dir (stat p)
unfolding stat
Stays-stat dir p = record { at = λ w b. Frames-refl dir w b }

pub Stays-read : (dir : Bytes) (p : FilePath) → Stays dir (read p)
unfolding read
Stays-read dir p = record { at = λ w b. Frames-refl dir w b }

pub Stays-make_folder : (dir : Bytes) (e : String) (p : FilePath) → Stays dir (make_folder e p)
unfolding make_folder
Stays-make_folder dir e p = record {
  at = λ w c. elim (Bool-cases (w.disk.is_refused mkdir_call p)) [
    | inl h ↦ rw h (Frames-refl dir w c)
    | inr h ↦ rw h (Frames-refl dir w c)
  ];
}

leave-Frames :
    (dir : Bytes) (p : FilePath) (b : Option Bytes) (w : Keystores)
    → same dir p.0 ≡ true
    → IsBalanced w
    → Frames dir w (leave p b w)
leave-Frames dir p b w h k = record {
  others = λ q e. ground (arith, h, e, same_iff dir p.0, same_iff p.0 q.0, same_iff dir q.0);
  refusals = refl;
  balanced = k;
}

pub Stays-write :
    (dir : Bytes) (e : String) (p : FilePath) (b : Bytes)
    → same dir p.0 ≡ true
    → Stays dir (write e p b)
unfolding write
Stays-write dir e p b h = record {
  at = λ w c. elim (Bool-cases (w.disk.is_refused write_call p)) [
    | inl k ↦ rw k (leave-Frames dir p (w.disk.left_behind p) w h c)
    | inr k ↦ rw k (leave-Frames dir p (some b) w h c)
  ];
}

pub ruleset stays_rules = (
  Stays-bind, Stays-pure, Stays-fail, Stays-or_error, Stays-fresh, Stays-stat, Stays-read,
  Stays-make_folder, Stays-write,
)
