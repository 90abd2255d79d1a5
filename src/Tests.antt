-- ===== src/Tests.antt =====
-- The theorems at concrete inputs, and the definitions run on some.
mod Example
mod Chartgen
mod Groups
mod Values
mod Controller
mod Cache
mod Config
mod Run
mod Objects
mod Reconciler
mod Operator
mod Command
mod Scheme
mod Blocks
mod Support
