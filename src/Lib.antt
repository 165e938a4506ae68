-- ===== src/Lib.antt =====
-- DIFFuzzer tests file systems against each other: it makes a workload of file operations that is
-- valid on an abstract file system, encodes it as a C program, runs the program on two real file
-- systems, and compares the traces of the calls and the trees of files that are left. A test with a
-- difference is shrunk, and in grey-box mode a test with new coverage becomes a seed.
--
-- The parts, with the files that model them (paths from the repository's root):
-- - diffuzzer/src/abstract_fs/content.rs: Content. A file's contents are slices of a source of data.
--   Content/Bytes says which source offsets a content stands for, byte by byte; Content/Locate,
--   Content/Append and Content/Truncate are the steps of `write` and Content/ReadLoop the loop of `read`;
--   Content/Write and Content/Read are about `write` and `read`, and Content/ReadBack about both.
-- - pathname.rs, flags.rs, operation.rs, workload.rs, node.rs of the same folder: PathName, Flags,
--   Operation, Node. A path is its list of bytes; a directory's children are an association list.
-- - fs.rs: Fs. Fs/State has the state and the accessors, Fs/Resolve the path resolution, Fs/Ops one
--   definition for each operation and Fs/Replay the replay of a workload. An action takes the state and
--   returns a value, an error, a panic or `overflow`, with the state after it. Fs/Recording and
--   Fs/Recorded are about what is recorded. Fs/Valid is the invariant, Fs/Resolved, Fs/Safe, Fs/Keeps,
--   Fs/Linking, Fs/Descriptors and Fs/Writing carry it through the operations, and Fs/Steps collects them;
--   Fs/Unlinked is about path resolution without symbolic links. Fs/View sees the file system as a map
--   from directories and names to nodes, and says what each operation means for it; Fs/Yields, Fs/Still,
--   Fs/Linked, Fs/Renamed and Fs/Refined carry this through the operations. Fs/Unrecorded is about
--   operations that fail, and Fs/Alive is the search for the nodes that are reached from the root.
-- - trace.rs and diffuzzer/src/fuzzing/objective/trace.rs: Trace, with the standard string functions in
--   Text.
-- - dash/src/lib.rs: Dash. The hash function and the patterns of paths to skip are parameters.
-- - diffuzzer/src/fuzzing/outcome.rs, runner.rs and objective/dash.rs: Outcome and Runner. The two
--   harnesses, the snapshot of the supervisor and the contents of the trace file are parameters of Runner.
--   Runner/Events puts the harness of harness.rs in on both sides, and Runner/Order is about that.
-- - generator.rs: Generator. Generator/Draws has the actions on a random generator, a supply of names and
--   the file system; the `rand` crate is a parameter (`Random`) with its documented behaviour
--   (`RandomLaws`). Generator/Grown, Generator/Kinds, Generator/Weights and Generator/Generated are about
--   the operations that are generated.
-- - mutator.rs: Mutator, its `remove` and its `insert`, which uses the generator.
-- - diffuzzer/src/fuzzing/reducer.rs: Reducer, which uses `remove`; an outcome for each test and
--   whether a report can be saved are parameters.
-- - diffuzzer/src/fuzzing/harness.rs: Harness. Each call that the harness makes is added to a history, and
--   an environment answers it from the history so far.
-- - diffuzzer/src/supervisor.rs: Supervisor, the loops over the events of the virtual machine.
-- - diffuzzer/src/fuzzing/fuzzer.rs: Fuzzer, over a world that compiles and runs tests and saves reports;
--   blackbox/fuzzer.rs and broker.rs: Blackbox; greybox/mutator.rs and greybox/fuzzer.rs: Greybox.
--   The start of the instances in blackbox/broker.rs and greybox/broker.rs and the loops over their
--   messages: Broker.
--   Fallible has the actions that the harness and the fuzzers are written with, and Fallible/Adds is about
--   what they add to a history.
-- - diffuzzer/src/fuzzing/greybox: Coverage (feedback/mod.rs, feedback/kcov.rs, seed.rs and the queue of
--   schedule.rs) and Lcov (feedback/lcov.rs).
-- - encode.rs: Encode.
-- - diffuzzer/src/markdown.rs and reason.rs: Markdown and Markdown/Reason, the text of reports.
--   save.rs, compile.rs and the reports of runner.rs: Save, over a history of effects.
-- Examples has each result at a concrete input, and runs of the model.
--
-- Numbers: `u64` sums and differences wrap at 2^64, as in a release build; where this would matter, a
-- result says that there is room. An index that is out of range, a failed `unwrap` and a failed `assert!`
-- are panics. Subtractions of an index are guarded in the source, or a panic is written out.
--
-- Fuel: path resolution calls itself on the targets of symbolic links, and the source does not bound
-- this, so the fuel of Fs/Resolve is the depth of the stack, for any depth, and `overflow` is its end;
-- without symbolic links a depth of one is enough. The loop of `get_diff` has as much fuel as the two
-- trees have files, which is enough. A number is printed with more fuel than it has digits.
--
-- The search of Fs/Alive, the loop over targets of a rename and the loop of `mutate` are not bounded in
-- the source either: their fuel is a parameter, for any number, and `overflow` is its end. The loops over
-- events have one more than the messages that there are and will be, which is enough. A new name is
-- looked for among more numbers than there are used names.
--
-- Not modelled: the fast power scheduler, which is floating point; the threads of the brokers and the
-- launch of the virtual machine; single runs; everything that only calls other programs, mounts file
-- systems, reads the configuration or asks for arguments.
pub mod Prelude
pub mod Content
pub mod PathName
pub mod Flags
pub mod Operation
pub mod Node
pub mod Fs
pub mod Text
pub mod Trace
pub mod Dash
pub mod Outcome
pub mod Mutator
pub mod Reducer
pub mod Coverage
pub mod Runner
pub mod Encode
pub mod Lcov
pub mod Examples
pub mod Generator
pub mod Greybox
pub mod Supervisor
pub mod Harness
pub mod Fallible
pub mod Fuzzer
pub mod Blackbox
pub mod Broker
pub mod Markdown
pub mod Save
