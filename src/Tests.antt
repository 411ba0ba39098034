-- ===== src/Tests.antt =====
-- Concrete stores, runs of the code on them, and the theorems at inputs that meet their hypotheses.
mod Sample
mod Todo
mod Json
mod Forest
mod Protocol
mod Ranges
mod Validate
mod Response
mod Memory
mod Stream
mod Adapter
mod Decision
