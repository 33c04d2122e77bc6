-- ===== src/Eth/Bundles/Nonces.antt =====
-- The nonces of a bundle that eth/tx-manager.go sends.
use node_manager_core.Base.{
  ℕ, suc, ◌+◌, ◌<◌, ◌≡◌, refl, ap, sym, ◌∙◌, subst, ◌⊎◌, inl, inr, Option, none, some, List, [],
  ◌∷◌, length, arith,
}
use node_manager_core.Eth.Transactions.{
  ChainLibrary, Result, ok, err, TransactionSubmission, TransactOpts, ChainCalls,
}
use node_manager_core.Eth.Bundles.{
  nonce_unknown, not_created, Batch, done, stopped, execute_transaction_raw, State, add_one,
  prepended, after_sending, execute_from, start, with_nonce, batch_execute_transactions,
}

module _ (lib : ChainLibrary) where
  -- A transaction on its own: where it goes, its options and its data.
  abbrev pub Order : Type 0
  Order = lib.Address × TransactOpts lib × List ℕ

  abbrev pub order : TransactOpts lib → ℕ → TransactionSubmission lib → Order
  order opts n s = (
    s.tx_info.to,
    record opts {
      nonce = some n;
      opts_gas_limit = s.submission_gas_limit;
      value = s.tx_info.value;
    },
    s.tx_info.data_bytes,
  )

  -- The transactions of a bundle, each by itself, from this nonce on.
  abbrev pub orders : TransactOpts lib → ℕ → List (TransactionSubmission lib) → List Order
  orders opts n [] = []
  orders opts n (s ∷ ss) = order opts n s ∷ orders opts (suc n) ss

  abbrev pub joined : lib.Tx → Batch (List lib.Tx) × lib.World → Batch (List lib.Tx) × lib.World
  joined tx (done txs, w) = (done (tx ∷ txs), w)
  joined tx (stopped e, w) = (stopped e, w)

  abbrev pub sent :
      ℕ
      → (lib.World → Batch (List lib.Tx) × lib.World)
      → Result lib.Tx × lib.World
      → Batch (List lib.Tx) × lib.World
  sent i rest (err e, w) = (stopped (not_created i e), w)
  sent i rest (ok tx, w) = joined tx (rest w)

  -- They are sent one after the other, up to the first that cannot be.
  unfoldable pub send_all :
      ChainCalls lib → ℕ → List Order → lib.World → Batch (List lib.Tx) × lib.World
  send_all calls i [] w = (done [], w)
  send_all calls i ((to, opts, bytes) ∷ os) w =
      sent i (send_all calls (suc i) os) (calls.raw_transact to opts bytes w)

  -- The nonce that the caller's options have afterwards.
  abbrev pub IsCounted : ℕ → ℕ → ℕ → Batch (List lib.Tx) → Option ℕ → Type 0
  IsCounted n i len (done txs) last = (length txs ≡ len) × (last ≡ some (n + len))
  IsCounted n i len (stopped (nonce_unknown e)) last = ⊥
  IsCounted n i len (stopped (not_created j e)) last =
      (j < i + len) × (k : ℕ) × (j ≡ i + k) × (last ≡ some (n + k))

  orders-record :
      (opts : TransactOpts lib) (g : ℕ) (o : Option ℕ) (n : ℕ)
      (ss : List (TransactionSubmission lib))
      → orders (record opts { opts_gas_limit = g; nonce = o }) n ss ≡ orders opts n ss
  orders-record opts g o n [] = refl
  orders-record opts g o n (s ∷ ss) =
      ap (λ os. order opts n s ∷ os) (orders-record opts g o (suc n) ss)

  unfoldable pub view : Batch (List lib.Tx) × State lib → Batch (List lib.Tx) × lib.World
  view (b, (opts, w)) = (b, w)

  view-prepended :
      (tx : lib.Tx) (r : Batch (List lib.Tx) × State lib)
      → view (prepended lib tx r) ≡ joined tx (view r)
  unfolding view
  view-prepended tx (done txs, s) = refl
  view-prepended tx (stopped e, s) = refl

  view-after_sending :
      (i : ℕ) (opts : TransactOpts lib)
      (rest : TransactOpts lib → lib.World → Batch (List lib.Tx) × State lib)
      (other : lib.World → Batch (List lib.Tx) × lib.World) (r : Result lib.Tx × lib.World)
      → ((w : lib.World) → view (rest (record opts { nonce = add_one lib opts.nonce }) w) ≡ other w)
      → view (after_sending lib i opts rest r) ≡ sent i other r
  unfolding view
  view-after_sending i opts rest other (err e, w) h = refl
  view-after_sending i opts rest other (ok tx, w) h =
      view-prepended tx (rest (record opts { nonce = add_one lib opts.nonce }) w)
      ∙ ap (joined tx) (h w)

  execute_from-send_all :
      (calls : ChainCalls lib) (i : ℕ) (ss : List (TransactionSubmission lib))
      (opts : TransactOpts lib) (n : ℕ) (w : lib.World)
      → opts.nonce ≡ some n
      → view (execute_from lib calls i ss opts w) ≡ send_all calls i (orders opts n ss) w
  unfolding execute_from send_all view execute_transaction_raw
  execute_from-send_all calls i [] opts n w h = refl
  execute_from-send_all calls i (s ∷ ss) opts n w h =
      let limited : TransactOpts lib = record opts { opts_gas_limit = s.submission_gas_limit } in
      view-after_sending i limited (execute_from lib calls (suc i) ss)
        (send_all calls (suc i) (orders opts (suc n) ss))
        (calls.raw_transact s.tx_info.to (record limited { value = s.tx_info.value })
          s.tx_info.data_bytes w)
        (λ v.
          execute_from-send_all calls (suc i) ss (record limited { nonce = add_one lib opts.nonce })
            (suc n) v (ap (add_one lib) h)
          ∙ ap (λ os. send_all calls (suc i) os v)
              (orders-record opts s.submission_gas_limit (add_one lib opts.nonce) (suc n) ss))
      ∙ ap
          (λ x. sent i (send_all calls (suc i) (orders opts (suc n) ss)) (
            calls.raw_transact s.tx_info.to
              (record opts {
                nonce = x;
                opts_gas_limit = s.submission_gas_limit;
                value = s.tx_info.value;
              })
              s.tx_info.data_bytes w))
          h

  IsCounted-prepended :
      (n i len : ℕ) (tx : lib.Tx) (r : Batch (List lib.Tx) × State lib)
      → IsCounted (suc n) (suc i) len r.0 r.1.0.nonce
      → IsCounted n i (suc len) (prepended lib tx r).0 (prepended lib tx r).1.0.nonce
  IsCounted-prepended n i len tx (done txs, s) (p, q) =
      (omega (arith, p), q ∙ ap some (omega arith))
  IsCounted-prepended n i len tx (stopped (nonce_unknown e), s) h = h
  IsCounted-prepended n i len tx (stopped (not_created j e), s) (p, k, q, r) =
      (omega (arith, p), suc k, omega (arith, q), r ∙ ap some (omega arith))

  IsCounted-after_sending :
      (n i len : ℕ) (opts : TransactOpts lib)
      (rest : TransactOpts lib → lib.World → Batch (List lib.Tx) × State lib)
      (r : Result lib.Tx × lib.World)
      → opts.nonce ≡ some n
      → ((w : lib.World)
          → IsCounted
              (suc n)
              (suc i)
              len
              (rest (record opts { nonce = add_one lib opts.nonce }) w).0
              (rest (record opts { nonce = add_one lib opts.nonce }) w).1.0.nonce)
      → IsCounted n i
          (suc len)
          (after_sending lib i opts rest r).0
          (after_sending lib i opts rest r).1.0.nonce
  IsCounted-after_sending n i len opts rest (err e, w) h k =
      (omega arith, 0, omega arith, h ∙ ap some (omega arith))
  IsCounted-after_sending n i len opts rest (ok tx, w) h k =
      IsCounted-prepended n i len tx (rest (record opts { nonce = add_one lib opts.nonce }) w) (k w)

  execute_from-IsCounted :
      (calls : ChainCalls lib) (i : ℕ) (ss : List (TransactionSubmission lib))
      (opts : TransactOpts lib) (n : ℕ) (w : lib.World)
      → opts.nonce ≡ some n
      → IsCounted n i
          (length ss)
          (execute_from lib calls i ss opts w).0
          (execute_from lib calls i ss opts w).1.0.nonce
  unfolding execute_from
  execute_from-IsCounted calls i [] opts n w h = (refl, h ∙ ap some (omega arith))
  execute_from-IsCounted calls i (s ∷ ss) opts n w h =
      let limited : TransactOpts lib = record opts { opts_gas_limit = s.submission_gas_limit } in
      IsCounted-after_sending n i (length ss) limited (execute_from lib calls (suc i) ss)
        (execute_transaction_raw lib calls s.tx_info.to s.tx_info.data_bytes s.tx_info.value limited
          w)
        h
        (λ v.
          execute_from-IsCounted calls (suc i) ss
            (record limited { nonce = add_one lib opts.nonce }) (suc n) v (ap (add_one lib) h))

  -- Where a bundle's nonces begin: at the options' own, or at the one that the client gives, in this world.
  abbrev pub Begins : ChainCalls lib → TransactOpts lib → lib.World → ℕ → lib.World → Type 0
  Begins calls opts w n v =
      ((opts.nonce ≡ some n) × (w ≡ v))
      ⊎ ((opts.nonce ≡ none) × (calls.latest_nonce opts.from w ≡ (ok n, v)))

  abbrev pub IsBundle :
      ChainCalls lib
      → TransactOpts lib
      → ℕ
      → List (TransactionSubmission lib)
      → lib.World
      → Batch (List lib.Tx) × State lib
      → Type 0
  IsBundle calls opts n ss v r =
      (view r ≡ send_all calls 0 (orders opts n ss) v) × IsCounted n 0 (length ss) r.0 r.1.0.nonce

  from_nonce :
      (calls : ChainCalls lib) (ss : List (TransactionSubmission lib)) (opts : TransactOpts lib)
      (n : ℕ) (v : lib.World)
      → IsBundle calls opts n ss v (execute_from lib calls 0 ss (record opts { nonce = some n }) v)
  from_nonce calls ss opts n v = (
    execute_from-send_all calls 0 ss (record opts { nonce = some n }) n v refl
        ∙ ap (λ os. send_all calls 0 os v) (orders-record opts opts.opts_gas_limit (some n) n ss),
    execute_from-IsCounted calls 0 ss (record opts { nonce = some n }) n v refl,
  )

  started :
      (calls : ChainCalls lib) (ss : List (TransactionSubmission lib)) (opts : TransactOpts lib)
      (n : ℕ) (v : lib.World)
      → opts.nonce ≡ some n
      → start lib calls ss opts (some n) v
        ≡ execute_from lib calls 0 ss (record opts { nonce = some n }) v
  unfolding start
  started calls ss opts n v h =
      ap (λ x. execute_from lib calls 0 ss (record opts { nonce = x }) v) h

-- A bundle sends what its transactions, each by itself with the nonces that follow each other, its own
-- value and gas limit and the fees of the options, send one after the other up to the first that fails,
-- whose index is reported. The caller's options end with the nonce after the last transaction that was
-- sent, so that a bundle that succeeds is followed by the next one.
pub batch_execute_transactions-send_all :
    (lib : ChainLibrary) (calls : ChainCalls lib) (ss : List (TransactionSubmission lib))
    (opts : TransactOpts lib) (n : ℕ) (w v : lib.World)
    → Begins lib calls opts w n v
    → IsBundle lib calls opts n ss v (batch_execute_transactions lib calls ss opts w)
unfolding batch_execute_transactions start
batch_execute_transactions-send_all lib calls ss opts n w v (inl (h, e)) =
    subst (IsBundle lib calls opts n ss v)
      (sym (
        ap (λ x. start lib calls ss opts opts.nonce x) e
        ∙ ap (λ o. start lib calls ss opts o v) h
        ∙ started lib calls ss opts n v h))
      (from_nonce lib calls ss opts n v)
batch_execute_transactions-send_all lib calls ss opts n w v (inr (h, e)) =
    subst (IsBundle lib calls opts n ss v)
      (sym (ap (λ o. start lib calls ss opts o w) h ∙ ap (with_nonce lib calls ss opts) e))
      (from_nonce lib calls ss opts n v)
