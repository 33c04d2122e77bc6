-- ===== src/Eth/Transactions.antt =====
-- eth/tx-manager.go, with the types of eth/types.go and the revert messages of eth/utils.go: simulating,
-- creating and sending transactions, and waiting for them.
use node_manager_core.Utils.Hex.{
  Bytes, codes, from_hex_char, decode_string, has_prefix, trim_prefix,
}
use node_manager_core.Base.{
  [], ◌∷◌, ◌++◌, ℕ, ◌+◌, ◌%◌, ◌^◌, String, Bool, true, false, Option, none, some, List, ltb,
  if◌then◌else◌,
}

-- What the code calls outside the repository; `World` is the chain, the client and the time.
pub record ChainLibrary : Type 1 where
  pub World : Type 0
  pub Float : Type 0  -- float64
  pub is_zero : Float → Bool
  pub is_below_one : Float → Bool
  pub scale_up : ℕ → Float → ℕ  -- uint64(math.Ceil(float64(estimate) * multiplier))
  pub Address : Type 0
  pub Hash : Type 0
  pub Signer : Type 0
  pub Context : Type 0
  pub Tx : Type 0
  pub Abi : Type 0
  pub Bound : Type 0  -- bind.BoundContract
  pub Arguments : Type 0

pub data Result (A : Type 0) : Type 0 where
  ok : A → Result A
  err : String → Result A

pub record SimulationResult : Type 0 where
  pub is_simulated : Bool
  pub estimated_gas_limit : ℕ
  pub safe_gas_limit : ℕ
  pub simulation_error : Option Bytes

abbrev pub gas_limit : ℕ
gas_limit = 30000000

abbrev run_with : Option ℕ → ℕ → Bytes → Bytes
run_with none c rest = []
run_with (some d) c rest = c ∷ rest

-- The longest start of a text that consists of hex digits.
unfoldable pub hex_run : Bytes → Bytes
hex_run [] = []
hex_run (c ∷ s) = let rest = hex_run s in run_with (from_hex_char c) c rest

abbrev pub revert_prefix : Bytes
revert_prefix = codes "Reverted 0x"

abbrev pub message_or : Option Bytes → Bytes → Option Bytes
message_or later [] = later
message_or later (c ∷ s) = some (c ∷ s)

-- The group `message` of the first match of `Reverted 0x(?P<message>[0-9a-fA-F]+).*`.
unfoldable pub find_revert_message : Bytes → Option Bytes
unfolding has_prefix trim_prefix hex_run
find_revert_message [] = none
find_revert_message (c ∷ s) =
    let later = find_revert_message s in
    if has_prefix (c ∷ s) revert_prefix
    then message_or later (hex_run (trim_prefix (c ∷ s) revert_prefix))
    else later

abbrev pub reverted : Bytes → Option Bytes → Bytes
reverted e none = e
reverted e (some bytes) = codes "reverted: " ++ bytes

abbrev pub normalized : Bytes → Option Bytes → Bytes
normalized e none = e
normalized e (some message) = reverted e (decode_string message)

-- Of an error's text, which is left as it is where there is no message in hex.
unfoldable pub normalize_revert_message : Bytes → Bytes
unfolding find_revert_message decode_string
normalize_revert_message e = normalized e (find_revert_message e)

abbrev pub gas_sim_error_prefix : Bytes
gas_sim_error_prefix = codes "error estimating gas needed"

module _ (lib : ChainLibrary) where
  pub record TransactionInfo : Type 0 where
    pub data_bytes : List ℕ
    pub to : lib.Address
    pub value : Option ℕ
    pub simulation_result : SimulationResult

  pub record TransactionSubmission : Type 0 where
    pub tx_info : TransactionInfo
    pub submission_gas_limit : ℕ

  -- `bind.TransactOpts`, whose amounts are pointers that may be nil.
  pub record TransactOpts : Type 0 where
    pub from : lib.Address
    pub nonce : Option ℕ
    pub signer : lib.Signer
    pub value : Option ℕ
    pub gas_price : Option ℕ
    pub gas_fee_cap : Option ℕ
    pub gas_tip_cap : Option ℕ
    pub opts_gas_limit : ℕ
    pub context : lib.Context
    pub no_send : Bool

  pub record CallMsg : Type 0 where
    pub sender : lib.Address
    pub receiver : lib.Address
    pub msg_gas_fee_cap : ℕ
    pub msg_gas_tip_cap : ℕ
    pub msg_value : Option ℕ
    pub msg_data : List ℕ

  pub record Contract : Type 0 where
    pub contract_name : String
    pub address : lib.Address
    pub abi : lib.Abi
    pub contract_impl : lib.Bound

  -- What a lookup by hash answers; `not_found` is the error with that text.
  pub data Lookup : Type 0 where
    found : lib.Tx → Lookup
    not_found : Lookup
    lookup_failed : String → Lookup

  -- The calls of go-ethereum, and the clock.
  pub record ChainCalls : Type 0 where
    pub estimate : CallMsg → lib.World → Result ℕ × lib.World
    pub pack : lib.Abi → String → lib.Arguments → Result (List ℕ)
    pub raw_transact : lib.Address → TransactOpts → List ℕ → lib.World → Result lib.Tx × lib.World
    pub latest_nonce : lib.Address → lib.World → Result ℕ × lib.World
    pub wait_mined : lib.Tx → lib.World → Result ℕ × lib.World  -- the status of the receipt
    pub lookup_by_hash : lib.Hash → lib.World → Lookup × lib.World
    pub sleep : lib.World → lib.World  -- one second

  pub record TransactionManager : Type 0 where
    pub buffer : ℕ
    pub multiplier : lib.Float

  unfoldable pub new_transaction_manager : ℕ → lib.Float → Result TransactionManager
  new_transaction_manager safe_gas_buffer safe_gas_multiplier =
      if lib.is_zero safe_gas_multiplier
      then ok (record { buffer = safe_gas_buffer; multiplier = safe_gas_multiplier })
      else if lib.is_below_one safe_gas_multiplier
      then err "multiplier cannot be less than 1"
      else ok (record { buffer = safe_gas_buffer; multiplier = safe_gas_multiplier })

  -- The sum of two uint64 wraps.
  unfoldable pub get_safe_gas_limit : TransactionManager → ℕ → Result ℕ
  get_safe_gas_limit t estimate =
      let safe_limit = (lib.scale_up estimate t.multiplier + t.buffer) % 2 ^ 64 in
      if ltb gas_limit estimate
      then err "estimated gas usage is greater than the block gas limit"
      else if ltb gas_limit safe_limit
      then err "safe gas limit is greater than the block gas limit"
      else ok safe_limit

  abbrev pub failed_simulation : Bytes → SimulationResult
  failed_simulation e = record {
    is_simulated = true;
    estimated_gas_limit = 0;
    safe_gas_limit = 0;
    simulation_error = some e;
  }

  abbrev pub with_safe_limit : ℕ → Result ℕ → SimulationResult
  with_safe_limit estimate (err e) =
      failed_simulation (codes "error estimating gas limit: " ++ codes e)
  with_safe_limit estimate (ok limit) = record {
    is_simulated = true;
    estimated_gas_limit = estimate;
    safe_gas_limit = limit;
    simulation_error = none;
  }

  unfoldable pub estimated :
      TransactionManager → Result ℕ × lib.World → SimulationResult × lib.World
  unfolding get_safe_gas_limit normalize_revert_message
  estimated t (err e, w) = (
    failed_simulation (gas_sim_error_prefix ++ codes ": " ++ normalize_revert_message (codes e)),
    w,
  )
  estimated t (ok estimate, w) = (with_safe_limit estimate (get_safe_gas_limit t estimate), w)

  abbrev pub call_of : lib.Address → TransactOpts → List ℕ → CallMsg
  call_of to opts input = record {
    sender = opts.from;
    receiver = to;
    msg_gas_fee_cap = 0;
    msg_gas_tip_cap = 0;
    msg_value = opts.value;
    msg_data = input;
  }

  unfoldable pub simulate_transaction :
      ChainCalls
      → TransactionManager
      → lib.Address
      → Option TransactOpts
      → List ℕ
      → lib.World
      → SimulationResult × lib.World
  unfolding estimated
  simulate_transaction calls t to none input w = (
    record {
      is_simulated = false;
      estimated_gas_limit = 0;
      safe_gas_limit = 0;
      simulation_error = none;
    },
    w,
  )
  simulate_transaction calls t to (some opts) input w =
      estimated t (calls.estimate (call_of to opts input) w)

  abbrev value_of : Option TransactOpts → Option ℕ
  value_of none = none
  value_of (some opts) = opts.value

  abbrev pub info_of :
      lib.Address
      → List ℕ
      → Option TransactOpts
      → SimulationResult × lib.World
      → TransactionInfo × lib.World
  info_of to bytes opts (s, w) =
      (record { data_bytes = bytes; to = to; value = value_of opts; simulation_result = s }, w)

  unfoldable pub create_transaction_info_raw :
      ChainCalls
      → TransactionManager
      → lib.Address
      → List ℕ
      → Option TransactOpts
      → lib.World
      → TransactionInfo × lib.World
  unfolding simulate_transaction
  create_transaction_info_raw calls t to bytes opts w =
      info_of to bytes opts (simulate_transaction calls t to opts bytes w)

  abbrev pub packed_info :
      ChainCalls
      → TransactionManager
      → lib.Address
      → Option TransactOpts
      → Result (List ℕ)
      → lib.World
      → Result TransactionInfo × lib.World
  packed_info calls t to opts (err e) w = (err e, w)
  packed_info calls t to opts (ok bytes) w =
      let r = create_transaction_info_raw calls t to bytes opts w in (ok r.0, r.1)

  unfoldable pub create_transaction_info :
      ChainCalls
      → TransactionManager
      → Contract
      → String
      → Option TransactOpts
      → lib.Arguments
      → lib.World
      → Result TransactionInfo × lib.World
  create_transaction_info calls t contract method opts parameters w =
      packed_info calls t contract.address opts (calls.pack contract.abi method parameters) w

  unfoldable pub create_tx_submission_from_info :
      Result TransactionInfo → Result TransactionSubmission
  create_tx_submission_from_info (err e) = err e
  create_tx_submission_from_info (ok info) =
      ok (record { tx_info = info; submission_gas_limit = info.simulation_result.safe_gas_limit })
