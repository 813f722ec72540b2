-- ===== src/Lib.antt =====
-- Demurrage Token: a CosmWasm token contract whose balances lose value over time.
--
-- The contract is a CW20 token. Its storage holds the token info, the balances, the allowances and
-- a demurrage state: a modifier that decays from 10^23, the tax level, a sink for the tax, and a
-- count of periods. A transfer or a mint first changes the period: the modifier decays, the state
-- is saved, the sink gets the tax. Then the amount is debited and a base amount, the amount over
-- the modifier, is credited. Sends and burns move plain amounts.
--
-- Files and the code that they model (paths from the repository's root):
-- - Base, Outcome, Exec: shared names; results with errors and panics; calls that read and write the
--   storage. A number is a natural number with the width checked at every step, since the release
--   profile panics on overflow (Outcome/Word). A panic ends the call.
-- - Std: the data of cosmwasm_std that the contract uses.
-- - Chain: what the contract calls of cosmwasm_std, as one record of functions that every handler
--   takes: the validation of addresses, serialization, seconds and plus_seconds of a timestamp.
-- - Storage: the typed view of a map of packages/storage-plus. State: src/state.rs and src/error.rs;
--   the whole storage is the record Store.
-- - Expiration: packages/utils/src/expiration.rs. Cw20: packages/cw20, its records, its messages
--   (Cw20/Execute), balances and denoms
--   (Cw20/Balance), and the wrapper of an address that asks a contract (Cw20/Helpers).
-- - Utils: of packages/utils also the schedules, thresholds (over a type of decimals with the four
--   operations that the code calls and their documented laws), payments, bounds of ranges, native balances, whose indexes
--   are numbers, and the reader of replies (Utils/ParseReply): its loop is a recursion on the nine
--   rounds that the source allows, an index or a slice past the end panics, a byte is a number, masks and shifts are remainders and quotients,
--   and the number of values of a usize is a parameter. Varint and Field have its laws, and an
--   encoder that the round trips are stated with; Utf8 is the test of the standard library.
-- - Msg: src/msg.rs and src/query.rs.
-- - Demurrage: decay_by, grow_by, to_base_amount and the tax of src/contract.rs. Their loops are
--   structural recursions on the number of rounds, so no fuel is needed. Demurrage/Decay has bounds
--   and termination, Demurrage/Compounding the comparison with exact compounding,
--   Demurrage/BaseAmount the conversion and the tax, Demurrage/Growth the growth.
-- - Period: change_period, apply_demurrage and get_distribution. The state that they share by
--   mutable reference is passed in and returned. What the source drops is dropped: the timestamp of
--   plus_seconds, the growth, and the result of a redistribution. Period/Effects has what a call
--   that returned has done, Period/Tax that the sink then has its tax, Period/Returns when a call returns, Period/Advance the state after
--   it as a function of the time and the state before.
-- - Balances: the two updates of an account. Allowances: src/allowances.rs and the handlers that
--   raise and lower an allowance; Allowances/Lent sums what an owner has lent. Contract: the other handlers and execute.
-- - Instantiate: instantiate, create_accounts and validate_accounts. Ordered: the sort and the
--   dedup that they use, which is also the order of a map's keys.
-- - Queries: query and src/enumerable.rs. Answers are records before to_binary.
--   Queries/Walk is a client that asks for page after page, on fuel; one page per entry is enough,
--   since a page that is not empty holds at least one. Queries/Accounts and Queries/Spenders are its
--   two uses.
--   Queries/Client is another contract that asks this one through the wrapper.
-- - Payments, Supply, Settings: what the handlers do to the sums and to the storage. Payments/Plain
--   and Payments/Demurred take a successful handler apart, Payments/Branches has every branch,
--   Payments/Totals and Payments/Conservation the sums, Payments/Periods the periods,
--   Payments/Returns when a transfer returns, Payments/Limits the largest amounts.
--   Allowances/Refusals and Supply/Refusals are about calls that are refused.
-- - Ledger: the token without its storage, as functions of accounts, and what each message may do to
--   it. Ledger/View maps a storage to the ledger that it stands for, Ledger/Refines relates
--   the handlers to it, Ledger/Accounts, Ledger/Loans and Ledger/Spending
--   are about runs of messages.
-- - Reachable: the storages that a contract comes to by messages that succeed, and what holds in
--   all of them: of the two items (Sound), the sums (Backed), whose balances fall (Owners), what
--   an owner can lose (Losses), the state alone (Replay), the count of
--   periods (Clock), what was written to the maps
--   (Written), and their keys (Keys); and a state in which payments stop (Stuck).
-- - Examples: a chain and a contract on which every result is applied.
--
-- The contract has no loop over storage except the ranges of src/enumerable.rs, which are
-- structural recursions too. A call that fails gives back what it wrote before the error beside
-- the error; the virtual machine discards it, and Reachable has only steps that succeed.
--
-- Not modelled: serialized bytes and storage keys, since a saved value is loaded as it was; printing;
-- the funds of a message, which the contract does not read; generated schemas and tests; and the
-- packages that the contract does not call, except for packages/utils and packages/cw20. Of these two
-- the event trait is left out.
-- The contract is built with the released crates cw-storage-plus and cw2, of which
-- packages/storage-plus and packages/cw2 are copies.
pub mod Base
pub mod Outcome
pub mod Exec
pub mod Std
pub mod Expiration
pub mod Cw20
pub mod Storage
pub mod Msg
pub mod Chain
pub mod State
pub mod Demurrage
pub mod Balances
pub mod Ordered
pub mod Period
pub mod Allowances
pub mod Contract
pub mod Instantiate
pub mod Queries
pub mod Payments
pub mod Settings
pub mod Supply
pub mod Ledger
pub mod Reachable
pub mod Examples
pub mod Utils
