-- ===== src/Lib.antt =====
-- A model of the Vela payment protocol, the Solana programs under programs/, and the theorems about it.
--
-- The protocol moves wrapped tokens (a Token-2022 mint backed one to one by USDC in a vault) for its
-- users. A stream (StreamMandate) pays a merchant by the second, up to a rate and a cap that the
-- subscriber authorised; an agent mandate (AgentMandate) lets an agent pay listed services within
-- daily, lifetime and per-service limits; a subscription (VelaMandate) pays plans by the period. The
-- mandates are accounts of the program and own the token accounts from which they pay. Token-2022
-- calls the transfer hook at each transfer of the mint, and the hook lets an account of the program
-- pay only what its stream or a fresh PullApproval allows.
--
-- How the files correspond to the code:
-- - Base: native numbers, Boolean tests, lists, integers (Base/Int) and Rust's checked arithmetic on
--   u64, u128 and i64 (Base/Machine). A u64 or u128 is the number that it stands for, an i64 an
--   integer; a checked operation is none where Rust's is None.
-- - Errors: programs/vela-protocol/src/errors.rs and the result monad of the handlers.
-- - State: the structs of programs/vela-protocol/src/state and the legacy layouts, without reserved
--   bytes. A public key is a number.
-- - Runtime: constants.rs, the accounts, program-derived addresses, cross-program invocations and
--   events. A Runtime record holds what comes from Solana and from other programs: the address
--   functions, the verdict of an invocation, a token account after invocations, rent and the ids of
--   the token programs. No theorem assumes anything of it.
-- - Accounts: instructions/accounts (configurations, merchants, plans and mandates in all their
--   layouts, closing of an account) and instructions/token/spl_helpers.rs.
-- - Stream: instructions/accounts/stream_account.rs and instructions/streaming. Stream/Account,
--   Stream/Transfer and Stream/Handlers are the code; Stream/Step is the relation of the changes
--   that a stream may go through and Stream/Effects shows that each handler makes one of them.
-- - Agent: state/agent_mandate.rs, instructions/accounts/agent_mandate_account.rs and
--   instructions/agent_mandates, in the same way (Agent/Limits, Agent/Account, Agent/Handlers are the
--   code, Agent/Step the relation).
-- - Hook: handler_transfer_hook of programs/vela-transfer-hook/src/lib.rs and its loaders; whether it
--   lets settlements, agent pulls and pulls of subscriptions pass.
-- - Pricing: the circuits and the plaintext model of encrypted-ixs/src/lib.rs (Pricing/Circuits), on
--   plain values, and the checks of tiers in instructions/plans/create_usage_plan.rs (Pricing/Tiers).
--   Pricing/Units is the price unit by unit, which they are compared with.
-- - Billing: instructions/billing. Billing/Pull is execute_pull.rs, Billing/Computation the requests of
--   computations, their callbacks and the usage reports. Billing/Effects takes a pull that succeeded
--   apart, Billing/Between says what requests and records leave of the mandate between two pulls, and
--   Billing/Runs what a run of all of them moves; the other files say what a pull has done.
-- - Plans: instructions/plans and instructions/proration.rs. Plans/Flat and Plans/Metered are the
--   creation and update of plans, Plans/Subscribe and Plans/Cancel the beginning and the end of a
--   mandate, Plans/Change, Plans/Delta and Plans/Update the changes of its plan, Plans/Terms
--   update_mandate.rs.
-- - Wrapping: instructions/token/wrap.rs and instructions/token/unwrap.rs (Wrapping/Handlers), what they
--   move, and runs of them with the agent handlers that mint or burn (Wrapping/Run).
-- - Config: instructions/config (Config/Handlers) without init_config.rs, with the upgrades and writers
--   of Accounts/Upgrade.
-- - Arcium: state/arcium_request.rs and instructions/arcium/arcium_request_state.rs (Arcium/Request),
--   runs of starts and answers (Arcium/Runs), instructions/arcium/arcium_accounts.rs (Arcium/Accounts)
--   and what the callbacks have in common (Arcium/Callback).
-- - Tests: runs of the handlers at concrete inputs.
--
-- A handler is a function from its accounts, its arguments and the clock to what it leaves behind (the
-- accounts that it wrote, the invocations, the events) or an error. An error undoes the transaction,
-- so there is nothing to leave. A Signer account is given by its key: the runtime has checked the
-- signature. Of accounts that a handler only passes on the key is given. The constraints of
-- #[account(...)] that compare keys stand at the beginning of a handler; what Anchor's init and
-- init_if_needed do is not part of the program, and those accounts are given as Anchor left them.
-- An ArciumProgram record holds the ids, seeds and circuit offsets of Arcium and its verdict on a
-- computation that is queued; what verify_output makes of an output is an input of a callback, since
-- the cryptography behind it is not modelled. A PreciseNumber record holds the operations of
-- spl_math, which proration uses. No theorem assumes anything of the two.
-- Borsh and Anchor's codec are not modelled: the data of an account is given as what its
-- discriminator says and what its bytes decode to (Runtime/Data), and an account is large enough for
-- what is written to it. Only an agent mandate, whose services are of variable length, has the length
-- of its data: whether a write fits and as what it decodes again is modelled (Agent/Account). The loops of the handlers (over services and tiers) are recursion on the
-- list, so there is no fuel.
--
-- Not modelled: the creation of the configuration and of the wrapped mint, the definitions of
-- computations (init_comp_defs.rs), the migrations of plans and mandates, the circuit that encrypts a
-- billing record, the setup of the hook's extra account metas, the dispatch in lib.rs, scripts and
-- clients.
pub mod Base
pub mod Errors
pub mod State
pub mod Runtime
pub mod Accounts
pub mod Stream
pub mod Agent
pub mod Hook
pub mod Wrapping
pub mod Config
pub mod Arcium
pub mod Pricing
pub mod Billing
pub mod Plans
pub mod Tests
