-- ===== src/Chartgen.antt =====
-- The `chartgen` subcommand, cmd/chartgen: a Helm chart from the YAML of kustomize.
pub mod Marks
pub mod Fields
pub mod Resources
pub mod Sections
pub mod Webhook
pub mod Settled
pub mod Steps
pub mod Object
pub mod Libraries
pub mod Groups
pub mod Values
pub mod Transform
pub mod Idempotence
pub mod Blocks
pub mod Helpers
pub mod Run
