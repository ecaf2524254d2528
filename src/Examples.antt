-- ===== src/Examples.antt =====
-- A small cluster on which the theorems are applied, and their applications. No file of the
-- repository is modelled here.
mod World
mod Webhook
mod Executor
mod Reconcile
mod Records
mod Trigger
mod Release
mod Queue
mod Store
mod Lab
mod Plugins
mod Cli
