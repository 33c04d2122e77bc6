-- ===== src/Eth/Waiting.antt =====
-- Waiting for transactions in eth/tx-manager.go, and the retries of the lookup by hash.
use node_manager_core.Base.{
  List, [], ◌∷◌, ℕ, zero, suc, ◌<◌, ◌≡◌, refl, ap, ◌∙◌, ◌↔◌, arith, ◌==◌, if◌then◌else◌, ◌≢◌,
}
use node_manager_core.Eth.Transactions.{
  ChainLibrary, Result, ok, err, Lookup, found, not_found, lookup_failed, ChainCalls,
}

abbrev pub retries : ℕ
retries = 30

module _ (lib : ChainLibrary) (calls : ChainCalls lib) where
  abbrev pub again :
      (lib.World → Result lib.Tx × lib.World) → Lookup lib × lib.World → Result lib.Tx × lib.World
  again rest (found tx, w) = (ok tx, w)
  again rest (not_found, w) = rest (calls.sleep w)
  again rest (lookup_failed e, w) = (err e, w)

  -- The rounds that are left of the loop.
  unfoldable pub look_up : ℕ → lib.Hash → lib.World → Result lib.Tx × lib.World
  look_up zero hash w = (err "transaction not found after 30 seconds", w)
  look_up (suc n) hash w = again (look_up n hash) (calls.lookup_by_hash hash w)

  unfoldable pub get_transaction_from_hash : lib.Hash → lib.World → Result lib.Tx × lib.World
  unfolding look_up
  get_transaction_from_hash hash w = look_up retries hash w

  abbrev pub judged : Result ℕ × lib.World → Result (Unit {0}) × lib.World
  judged (err e, w) = (err e, w)
  judged (ok status, w) = (if status == 0 then err "transaction failed with status 0" else ok tt, w)

  unfoldable pub wait_for_transaction : lib.Tx → lib.World → Result (Unit {0}) × lib.World
  wait_for_transaction tx w = judged (calls.wait_mined tx w)

  abbrev pub then_wait : Result lib.Tx × lib.World → Result (Unit {0}) × lib.World
  then_wait (err e, w) = (err e, w)
  then_wait (ok tx, w) = wait_for_transaction tx w

  unfoldable pub wait_for_transaction_by_hash : lib.Hash → lib.World → Result (Unit {0}) × lib.World
  unfolding get_transaction_from_hash wait_for_transaction
  wait_for_transaction_by_hash hash w = then_wait (get_transaction_from_hash hash w)

  abbrev pub keep_first_error : Result (Unit {0}) → Result (Unit {0}) → Result (Unit {0})
  keep_first_error (err e) r = err e
  keep_first_error (ok x) r = r

  -- An error group waits for all and keeps the first error; the order is the one in which they end.
  unfoldable pub wait_group :
      {T : Type 0}
      → (T → lib.World → Result (Unit {0}) × lib.World)
      → Result (Unit {0})
      → List T
      → lib.World
      → Result (Unit {0}) × lib.World
  wait_group wait r [] w = (r, w)
  wait_group wait r (t ∷ ts) w = let x = wait t w in wait_group wait (keep_first_error r x.0) ts x.1

  unfoldable pub wait_for_transactions : List lib.Tx → lib.World → Result (Unit {0}) × lib.World
  unfolding wait_group wait_for_transaction
  wait_for_transactions order w = wait_group wait_for_transaction (ok tt) order w

  unfoldable pub wait_for_transactions_by_hash :
      List lib.Hash → lib.World → Result (Unit {0}) × lib.World
  unfolding wait_group wait_for_transaction_by_hash
  wait_for_transactions_by_hash order w = wait_group wait_for_transaction_by_hash (ok tt) order w

  -- What a client answers, from one state of the world on: not found, this many times, one second apart,
  -- and then something else.
  pub data Answers (hash : lib.Hash) : ℕ → lib.World → Lookup lib → lib.World → Type 0 where
    now :
        (w v : lib.World) (a : Lookup lib)
        → calls.lookup_by_hash hash w ≡ (a, v)
        → a ≢ not_found
        → Answers hash 0 w a v
    later :
        (n : ℕ) (w u v : lib.World) (a : Lookup lib)
        → calls.lookup_by_hash hash w ≡ (not_found, u)
        → Answers hash n (calls.sleep u) a v
        → Answers hash (suc n) w a v

  abbrev pub outcome : Lookup lib → Result lib.Tx
  outcome (found tx) = ok tx
  outcome not_found = err "transaction not found after 30 seconds"
  outcome (lookup_failed e) = err e

  again-outcome :
      (rest : lib.World → Result lib.Tx × lib.World) (a : Lookup lib) (v : lib.World)
      → a ≢ not_found
      → again rest (a, v) ≡ (outcome a, v)
  again-outcome rest (found tx) v h = refl
  again-outcome rest not_found v h = elim (h refl) [ ]
  again-outcome rest (lookup_failed e) v h = refl

  look_up-Answers :
      (k n : ℕ) (hash : lib.Hash) (w v : lib.World) (a : Lookup lib)
      → Answers hash n w a v
      → n < k
      → look_up k hash w ≡ (outcome a, v)
  unfolding look_up
  look_up-Answers zero n hash w v a h l = let b : ⊥ = omega (arith, l) in elim b [ ]
  look_up-Answers (suc k) _ hash w v a (now _ _ _ e d) l =
      ap (again (look_up k hash)) e ∙ again-outcome (look_up k hash) a v d
  look_up-Answers (suc k) _ hash w v a (later n _ u _ _ e h) l =
      ap (again (look_up k hash)) e
      ∙ look_up-Answers k n hash (calls.sleep u) v a h (omega (arith, l))

  -- The lookup that found a transaction.
  IsFoundIn : ℕ → lib.Hash → lib.World → lib.Tx → lib.World → Type 0
  IsFoundIn k hash w tx v = (n : ℕ) × (n < k) × Answers hash n w (found tx) v

  again-inv :
      (k : ℕ) (hash : lib.Hash) (w v : lib.World) (tx : lib.Tx) (r : Lookup lib × lib.World)
      → calls.lookup_by_hash hash w ≡ r
      → again (look_up k hash) r ≡ (ok tx, v)
      → ((u : lib.World) → look_up k hash u ≡ (ok tx, v) → IsFoundIn k hash u tx v)
      → IsFoundIn (suc k) hash w tx v
  unfolding IsFoundIn
  again-inv k hash w v tx (found t, u) e h g =
      let p : t ≡ tx = cc in
      let q : u ≡ v = cc in
      (
        0,
        omega arith,
        now w v (found tx) (e ∙ ap (λ x. (found x, u)) p ∙ ap (λ x. (found tx, x)) q) (λ d. cc),
      )
  again-inv k hash w v tx (not_found, u) e h g =
      let (n, l, a) = g (calls.sleep u) h in (suc n, omega (arith, l), later n w u v (found tx) e a)
  again-inv k hash w v tx (lookup_failed m, u) e h g = cc

  look_up-inv :
      (k : ℕ) (hash : lib.Hash) (w v : lib.World) (tx : lib.Tx)
      → look_up k hash w ≡ (ok tx, v)
      → IsFoundIn k hash w tx v
  unfolding look_up
  look_up-inv zero hash w v tx h = cc
  look_up-inv (suc k) hash w v tx h =
      again-inv k hash w v tx (calls.lookup_by_hash hash w) refl h
        (λ u e. look_up-inv k hash u v tx e)

-- The lookup of a transaction gives it exactly when the client finds it in one of 30 requests that are a
-- second apart, where each request before has answered that it is not found.
pub get_transaction_from_hash_iff :
    (lib : ChainLibrary) (calls : ChainCalls lib) (hash : lib.Hash) (w v : lib.World) (tx : lib.Tx)
    → (get_transaction_from_hash lib calls hash w ≡ (ok tx, v))
      ↔ ((n : ℕ) × (n < 30) × Answers lib calls hash n w (found tx) v)
unfolding get_transaction_from_hash IsFoundIn
get_transaction_from_hash_iff lib calls hash w v tx = (
  λ h. look_up-inv lib calls 30 hash w v tx h,
  λ (n, l, a). look_up-Answers lib calls 30 n hash w v (found tx) a l,
)
