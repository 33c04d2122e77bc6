-- ===== src/Beacon/Statuses/Requested.antt =====
-- The public keys that `GetValidatorStatuses` of beacon/client/std-client.go requests, and the duties that
-- are reported for the indices of a request.
use node_manager_core.Base.{
  ℕ, suc, subst, ◌+◌, ◌≤◌, ◌≡◌, refl, ap, sym, ◌∙◌, Bool, true, false, not, ◌&&◌, ◌||◌, none, some,
  List, [], ◌∷◌, ◌++◌, if◌then◌else◌, arith, Bool-cases, inl, inr, ◌⊎◌,
}
use node_manager_core.Utils.Hex.{Bytes, same}
use node_manager_core.Utils.Hex.RoundTrip.{same_iff}
use node_manager_core.Beacon.{Answer, answered}
use node_manager_core.Beacon.Statuses.{
  ok, err, null_pubkey, is_in, real_pubkeys, Map, insert, empty_map, fill, sync_duty, proposer_duty,
  sync_duties, proposer_duties, get_validator_sync_duties, get_validator_proposer_duties,
}

abbrev pub times : Bytes → List Bytes → ℕ
times p [] = 0
times p (q ∷ qs) = if same p q then suc (times p qs) else times p qs

is_in-append : (p q : Bytes) (qs : List Bytes) → is_in p (qs ++ (q ∷ [])) ≡ (is_in p qs || same p q)
is_in-append p q [] = ground arith
is_in-append p q (x ∷ qs) = ground (arith, is_in-append p q qs)

times-append :
    (p q : Bytes) (qs : List Bytes)
    → times p (qs ++ (q ∷ [])) ≡ times p qs + (if same p q then 1 else 0)
times-append p q [] = ground arith
times-append p q (x ∷ qs) = ground (arith, times-append p q qs)

times-is_in : (p : Bytes) (qs : List Bytes) → is_in p qs ≡ false → times p qs ≡ 0
times-is_in p [] h = refl
times-is_in p (x ∷ qs) h = ground (arith, h, times-is_in p qs)

-- The four ways through the loop.
chosen :
    {A : Type 0} (a b c : Bool) (skip keep bad r : A)
    → (if a then skip else if b then skip else if c then keep else bad) ≡ r
    → (((a || b) ≡ true) × (skip ≡ r)) ⊎ ((a ≡ false) × (b ≡ false) × ((keep ≡ r) ⊎ (bad ≡ r)))
chosen true b c skip keep bad r h = inl (refl, h)
chosen false true c skip keep bad r h = inl (refl, h)
chosen false false true skip keep bad r h = inr (refl, refl, inl h)
chosen false false false skip keep bad r h = inr (refl, refl, inr h)

-- What is requested, from the keys that are kept so far: those, and the keys of the list that are not
-- null, each once.
abbrev pub Requests : List Bytes → List Bytes → List Bytes → Type 0
Requests real ps qs =
    (p : Bytes)
    → (is_in p qs ≡ (is_in p real || (not (same p null_pubkey) && is_in p ps)))
      × (times p real ≤ 1 → times p qs ≤ 1)

skip_lem :
    (a null real same_p ps : Bool)
    → (same_p ≡ true → (null || real) ≡ true)
    → a ≡ (real || (not null && ps))
    → a ≡ (real || (not null && (if same_p then true else ps)))
skip_lem a null real true ps h k = k ∙ ground (arith, h refl)
skip_lem a null real false ps h k = k

keep_lem :
    (a null real same_p ps : Bool)
    → (same_p ≡ true → null ≡ false)
    → a ≡ ((real || same_p) || (not null && ps))
    → a ≡ (real || (not null && (if same_p then true else ps)))
keep_lem a null real true ps h k = k ∙ ground (arith, h refl)
keep_lem a null real false ps h k = k ∙ ground arith

module _ (is_bls_key : Bytes → Bool) where
  Requests-skip :
      (p : Bytes) (real ps qs : List Bytes)
      → (same p null_pubkey || is_in p real) ≡ true
      → Requests real ps qs
      → Requests real (p ∷ ps) qs
  Requests-skip p real ps qs h k x = (
    skip_lem (is_in x qs) (same x null_pubkey) (is_in x real) (same x p) (is_in x ps)
        (λ e. subst (λ y. (same y null_pubkey || is_in y real) ≡ true) (sym ((same_iff x p).0 e)) h)
        (k x).0,
    (k x).1,
  )

  Requests-keep :
      (p : Bytes) (real ps qs : List Bytes)
      → same p null_pubkey ≡ false
      → is_in p real ≡ false
      → Requests (real ++ (p ∷ [])) ps qs
      → Requests real (p ∷ ps) qs
  Requests-keep p real ps qs h k r x = (
    keep_lem (is_in x qs) (same x null_pubkey) (is_in x real) (same x p) (is_in x ps)
        (λ e. subst (λ y. same y null_pubkey ≡ false) (sym ((same_iff x p).0 e)) h)
        ((r x).0 ∙ ap (λ b. b || (not (same x null_pubkey) && is_in x ps)) (is_in-append x p real)),
    λ l. (r x).1 (elim (Bool-cases (same x p)) [
      | inl e ↦
          let n : is_in x real ≡ false =
            subst (λ y. is_in y real ≡ false) (sym ((same_iff x p).0 e)) k in
          ground (arith, times-append x p real, times-is_in x real n, e)
      | inr e ↦ ground (arith, times-append x p real, e, l)
    ]),
  )

  pub real_pubkeys-Requests :
      (real ps qs : List Bytes) → real_pubkeys is_bls_key real ps ≡ ok qs → Requests real ps qs
  unfolding real_pubkeys
  real_pubkeys-Requests real [] qs h =
      let e : real ≡ qs = cc in
      λ x. (ap (is_in x) (sym e) ∙ ground arith, λ l. subst (λ y. times x y ≤ 1) e l)
  real_pubkeys-Requests real (p ∷ ps) qs h =
      elim (chosen (same p null_pubkey) (is_in p real) (is_bls_key p)
        (real_pubkeys is_bls_key real ps) (real_pubkeys is_bls_key (real ++ (p ∷ [])) ps)
        (err "error creating pubkey") (ok qs) h) [
          | inl (e, k) ↦ Requests-skip p real ps qs e (real_pubkeys-Requests real ps qs k)
          | inr (e, b, inl k) ↦
              Requests-keep p real ps qs e b (real_pubkeys-Requests (real ++ (p ∷ [])) ps qs k)
          | inr (e, b, inr k) ↦ cc
        ]

other_way : (x y : Bytes) → same x y ≡ false → same y x ≡ false
other_way x y e = ground (arith, e, same_iff x y, same_iff y x)

twice : {A : Type 0} (b : Bool) (a : A) → (if b then a else a) ≡ a
twice true a = refl
twice false a = refl

fill-lookup :
    {A : Type 0} (f : Bytes → A) (xs : List Bytes) (m : Map A) (x : Bytes)
    → fill f xs m x ≡ (if is_in x xs then some (f x) else m x)
unfolding fill
fill-lookup f [] m x = refl
fill-lookup f (y ∷ ys) m x = fill-lookup f ys (insert y (f y) m) x ∙ elim (Bool-cases (same x y)) [
  | inl e ↦
      let p : x ≡ y = (same_iff x y).0 e in
      ap (λ b. if is_in x ys then some (f x) else if b then some (f y) else m x)
        ((same_iff y x).1 (sym p))
      ∙ ap (λ z. if is_in x ys then some (f x) else some (f z)) (sym p)
      ∙ twice (is_in x ys) (some (f x))
      ∙ ap (λ b. if (if b then true else is_in x ys) then some (f x) else m x) (sym e)
  | inr e ↦
      ap (λ b. if is_in x ys then some (f x) else if b then some (f y) else m x) (other_way x y e)
      ∙ ap (λ b. if (if b then true else is_in x ys) then some (f x) else m x) (sym e)
]

sync_duty-is_in : (x : Bytes) (ds : List Bytes) → sync_duty x ds ≡ is_in x ds
sync_duty-is_in x [] = refl
sync_duty-is_in x (d ∷ ds) = ground (arith, sync_duty-is_in x ds, same_iff x d, same_iff d x)

proposer_duty-is_in :
    (x : Bytes) (ds : List Bytes) → proposer_duty x ds ≡ (if is_in x ds then 1 else 0)
proposer_duty-is_in x [] = refl
proposer_duty-is_in x (d ∷ ds) =
    ground (arith, proposer_duty-is_in x ds, same_iff x d, same_iff d x)

-- From the duties that the provider answers: exactly the requested indices are in the two maps, a sync
-- duty is reported exactly for the indices with one, and the proposer duties of an index are 1 where it
-- has any and 0 otherwise; they are not counted.
pub duties_iff :
    (post : List Bytes → ℕ → Answer (List Bytes)) (indices : List Bytes) (epoch : ℕ)
    (ds : List Bytes)
    → post indices epoch ≡ answered ds
    → (syncs : Map Bool) × (proposals : Map ℕ) × (get_validator_sync_duties post indices epoch
        ≡ answered syncs)
      × (get_validator_proposer_duties post indices epoch ≡ answered proposals)
      × ((x : Bytes) → syncs x ≡ (if is_in x indices then some (is_in x ds) else none))
      × ((x : Bytes)
          → proposals x ≡ (if is_in x indices then some (if is_in x ds then 1 else 0) else none))
unfolding get_validator_sync_duties get_validator_proposer_duties
duties_iff post indices epoch ds h = (
  fill (λ x. sync_duty x ds) indices empty_map,
  fill (λ x. proposer_duty x ds) indices empty_map,
  ap (sync_duties indices) h,
  ap (proposer_duties indices) h,
  λ x.
      fill-lookup (λ y. sync_duty y ds) indices empty_map x
      ∙ ap (λ b. if is_in x indices then some b else none) (sync_duty-is_in x ds),
  λ x.
      fill-lookup (λ y. proposer_duty y ds) indices empty_map x
      ∙ ap (λ n. if is_in x indices then some n else none) (proposer_duty-is_in x ds),
)
