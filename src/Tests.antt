-- ===== src/Tests.antt =====
-- Runs of the modelled code at concrete inputs.
mod Fixture
mod Streams
mod StreamLives
mod Hooks
mod Agents
mod AgentLives
mod Wrapping
mod Configs
mod Requests
mod Billing
mod BillingHooks
mod Grants
mod Pricing
mod Plans
mod Subscriptions
mod Runs
