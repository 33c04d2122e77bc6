-- ===== src/Lib.antt =====
-- node-manager-core: the Go library that the node daemons of several staking protocols are built on. This
-- development models its core logic and proves what makes it correct.
--
-- The parts, and the files that model them (paths from the repository's root):
--   Services.antt, Services/: node/services. A client manager holds a primary and an optional fallback
--     client with a ready flag for each. `run_function1`, `run_function0` and `run_function2` are the
--     runners of function-runners.go, through which every request goes; Services/Execution.antt and
--     Services/BeaconNode.antt are the methods of ec-manager.go and bn-manager.go that forward one call
--     each, and Services/Status.antt is CheckStatus, which alone makes a client ready again.
--   Wallet.antt: wallet/types.go and wallet/utils.go, the data that the node wallet stores and reports.
--   NodeWallet/: node/wallet. Local.antt is the local wallet manager (local-wallet-manager.go), State.antt
--     the address and password managers with the files on disk, Methods.antt and Api.antt the methods of
--     wallet.go. Each exported method holds the wallet's lock from start to end, so that it is one step.
--   Config.antt, Config/: config/parameter.go, and in Config/Sections.antt config/cfg-section.go, changes.go
--     and changed-setting.go: parameters, the tree of sections, their maps and the comparison of two of them.
--   Beacon.antt, Beacon/: beacon/client/std-client.go. Beacon.antt is getValidatorsByOpts, which requests
--     validators in batches that run at the same time; `schedule` is the order in which they finish.
--     Beacon/Statuses.antt is the statuses and duties of validators, Beacon/Blocks.antt the configuration,
--     the head, domains and blocks, and Beacon/Requests.antt the smaller requests.
--   Keystore.antt, Keystore/: node/validator. Direct.antt is lighthouse.go, lodestar.go, nimbus.go and
--     teku.go of node/validator/keystore, which differ in a `Layout`, Prysm.antt is prysm.go, and
--     Manager.antt is validator-manager.go, which keeps a key in all of them; `order` is the order in which
--     it goes over its map. Disk.antt is the disk and what the managers remember.
--   Eth.antt, Eth/: eth. Transactions.antt, Bundles.antt and Waiting.antt are tx-manager.go, Queries.antt is
--     query-manager.go, whose batches run in any order, each from start to end. Both limits on goroutines,
--     there and in getValidatorsByOpts, are taken to be at least one.
--   Utils/Hex.antt: utils/hex.go, and the text form of beacon/pubkey.go. A text is its code points.
--   Utils/Input.antt: utils/input/validation.go.
--   Base.antt: names and lemmas that all parts share. Tests/: concrete inputs.
--
-- State is passed explicitly: a request changes a manager and a world `W` (the clients and all else
-- outside), a wallet method changes the wallet's record, in which the three files are fields. A write
-- that the system refuses may leave a file truncated or half written (`left_behind`). Errors are values,
-- and a Go panic is a result of its own (`panic`, `panicked`, or `none` in the configuration).
--
-- Code outside the repository is a parameter: `Library` (go-ethereum, bip39, hdkeychain, keystorev4, JSON
-- and the file system, with `IsFaithful` for their documented behaviour), `ExecutionTypes` and
-- `BeaconTypes` (data that is only passed on), `GoValues` (fmt, strconv, regexp and the equality of Go's
-- types), `KeyLibrary` (keystorev4, go-eth2-types, JSON and random passwords), `ChainLibrary` and
-- `ChainCalls` (float64, go-ethereum and the clock), `MulticallLibrary` (batch-query), `InputLibrary`
-- (float64, bip39 and Go's time, regexp and JSON) and the clients themselves.
--
-- Bounds and fuel: the loop over batches has as many rounds of fuel as there are IDs, and each round takes
-- at least one off. `attempt` counts the recursion of runFunction1, and two rounds are shown to be enough.
-- The search for a valid child key recurses until the Go stack ends, which is the library's `stack_depth`.
-- `retries` bounds the lookup of a transaction as in the source. The fuel of `plan` is the count, which is
-- enough for a positive batch size; with 0 the loop of the source never ends, and the plan is `endless`.
-- Chain IDs, gas sums and epochs wrap at 2 ^ 64. A sync progress is kept as the exact fraction in place
-- of a float64.
--
-- Not modelled: contexts, timeouts, log output and the text of most errors; concurrent requests through
-- one client manager, whose flags the source changes without a lock; the signing methods of the wallet,
-- which call third-party code on the loaded key; the HTTP
-- API server and client and the HTTP provider of the beacon API; deposit data and the messages that
-- validators sign, which are library calls; prompts in the terminal; tables of parameters and
-- contract bindings.
pub mod Base
pub mod Beacon
pub mod Config
pub mod Eth
pub mod Keystore
pub mod NodeWallet
pub mod Services
pub mod Tests
pub mod Utils
pub mod Wallet
