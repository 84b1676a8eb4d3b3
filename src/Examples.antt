-- ===== src/Examples.antt =====
-- The theorems at work on concrete inputs, and tests of the definitions.
mod Detached
mod Types
mod Tasks
mod Timers
mod Triggers
mod Stops
mod Allocation
mod Alls
mod Anys
mod Loops
mod Retries
mod Chains
mod Scheduling
mod Sharing
mod Waiting
mod Advertising
mod Gathering
mod Answering
