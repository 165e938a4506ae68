-- ===== src/Greybox.antt =====
-- diffuzzer/src/fuzzing/greybox: the mutation of a seed (mutator.rs) and the fuzzer (fuzzer.rs).
pub mod Mutate
pub mod Length
pub mod Fuzz
pub mod Totals
pub mod Corpus
pub mod Initial
