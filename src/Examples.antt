-- ===== src/Examples.antt =====
-- Runs of the models on concrete inputs.
mod Data
mod Accounts
mod Queue
mod Moderation
mod Labels
mod Imports
mod Runs
mod Requests
mod Api
mod Process
mod Handlers
mod Adapters
