-- ===== src/Eth/Bundles.antt =====
-- Signing and sending in eth/tx-manager.go: one transaction, and bundles with one nonce after the other.
pub mod Nonces
use node_manager_core.Base.{
  ℕ, suc, ◌+◌, ◌≡◌, refl, ap, ◌∙◌, String, Bool, true, false, Option, none, some, List, [], ◌∷◌,
  arith,
}
use node_manager_core.Eth.Transactions.{
  ChainLibrary, Result, ok, err, TransactionInfo, TransactionSubmission, TransactOpts, ChainCalls,
}

pub data BatchError : Type 0 where
  nonce_unknown : String → BatchError
  not_created : ℕ → String → BatchError  -- the index in the bundle

pub data Batch (A : Type 0) : Type 0 where
  done : A → Batch A
  stopped : BatchError → Batch A

module _ (lib : ChainLibrary) where
  -- The options are copied, with another value.
  unfoldable pub execute_transaction_raw :
      ChainCalls lib
      → lib.Address
      → List ℕ
      → Option ℕ
      → TransactOpts lib
      → lib.World
      → Result lib.Tx × lib.World
  execute_transaction_raw calls to bytes value opts w =
      calls.raw_transact to (record opts { value = value }) bytes w

  unfoldable pub execute_transaction :
      ChainCalls lib
      → TransactionInfo lib
      → TransactOpts lib
      → lib.World
      → Result lib.Tx × lib.World
  execute_transaction calls info opts w =
      execute_transaction_raw calls info.to info.data_bytes info.value opts w

  -- The caller's options are changed, and stay so.
  unfoldable pub sign_transaction :
      ChainCalls lib
      → TransactionInfo lib
      → TransactOpts lib
      → lib.World
      → Result lib.Tx × TransactOpts lib × lib.World
  unfolding execute_transaction_raw
  sign_transaction calls info opts w =
      let r =
        execute_transaction_raw calls info.to info.data_bytes info.value
          (record opts { no_send = true }) w in
      (r.0, record opts { no_send = true }, r.1)

  -- The caller's options after a bundle, and the world.
  abbrev pub State : Type 0
  State = TransactOpts lib × lib.World

  abbrev pub add_one : Option ℕ → Option ℕ
  add_one none = none
  add_one (some n) = some (suc n)

  abbrev pub prepended : lib.Tx → Batch (List lib.Tx) × State → Batch (List lib.Tx) × State
  prepended tx (done txs, s) = (done (tx ∷ txs), s)
  prepended tx (stopped e, s) = (stopped e, s)

  abbrev pub after_sending :
      ℕ
      → TransactOpts lib
      → (TransactOpts lib → lib.World → Batch (List lib.Tx) × State)
      → Result lib.Tx × lib.World
      → Batch (List lib.Tx) × State
  after_sending i opts rest (err e, w) = (stopped (not_created i e), (opts, w))
  after_sending i opts rest (ok tx, w) =
      prepended tx (rest (record opts { nonce = add_one opts.nonce }) w)

  unfoldable pub execute_from :
      ChainCalls lib
      → ℕ
      → List (TransactionSubmission lib)
      → TransactOpts lib
      → lib.World
      → Batch (List lib.Tx) × State
  unfolding execute_transaction_raw
  execute_from calls i [] opts w = (done [], (opts, w))
  execute_from calls i (s ∷ ss) opts w =
      let limited = record opts { opts_gas_limit = s.submission_gas_limit } in
      after_sending i limited (execute_from calls (suc i) ss)
        (execute_transaction_raw calls s.tx_info.to s.tx_info.data_bytes s.tx_info.value limited w)

  abbrev pub with_nonce :
      ChainCalls lib
      → List (TransactionSubmission lib)
      → TransactOpts lib
      → Result ℕ × lib.World
      → Batch (List lib.Tx) × State
  with_nonce calls ss opts (err e, w) = (stopped (nonce_unknown e), (opts, w))
  with_nonce calls ss opts (ok n, w) = execute_from calls 0 ss (record opts { nonce = some n }) w

  unfoldable pub start :
      ChainCalls lib
      → List (TransactionSubmission lib)
      → TransactOpts lib
      → Option ℕ
      → lib.World
      → Batch (List lib.Tx) × State
  start calls ss opts none w = with_nonce calls ss opts (calls.latest_nonce opts.from w)
  start calls ss opts (some n) w = execute_from calls 0 ss opts w

  -- `opts.Nonce` is a pointer that the bundle counts up in place, so that the caller sees it.
  unfoldable pub batch_execute_transactions :
      ChainCalls lib
      → List (TransactionSubmission lib)
      → TransactOpts lib
      → lib.World
      → Batch (List lib.Tx) × State
  unfolding execute_from start
  batch_execute_transactions calls ss opts w = start calls ss opts opts.nonce w
