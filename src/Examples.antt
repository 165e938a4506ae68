-- ===== src/Examples.antt =====
-- The properties at concrete inputs, and runs of the model on the tests of the source.
mod Storage
mod Fuzzing
mod Generating
mod Running
mod Trees
mod Brokers
mod Reports
mod Runs
