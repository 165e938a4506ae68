-- ===== src/Examples/Storage.antt =====
-- Paths, contents, the file system, removals and reductions.
use diffuzzer.Prelude.{
  ℕ, ◌≡◌, ◌≢◌, ◌↔◌, refl, true, none, some, [], ◌∷◌, ◌++◌, map, codes, arith, ◌<◌, ◌+◌, u64_mod,
  subst, add64, sub64,
}
use diffuzzer.PathName.{
  split, rfind, join, segments, is_valid, is_root, text_eq, parts, ends_with_slash,
}
use diffuzzer.PathName.Laws.{Plain, split-join, join-segments}
use diffuzzer.Content
use diffuzzer.Content.{Content, bad_offset}
use diffuzzer.Content.Bytes.{IsFit}
use diffuzzer.Content.Write.{Wrote, write_splices}
use diffuzzer.Content.Read.{ReadTo, read_slice}
use diffuzzer.Content.ReadBack.{ReadBack, read-write}
use diffuzzer.Operation.{Operation, Workload, kind_of, push}
use diffuzzer.Node.{Node, FileDescriptor}
use diffuzzer.Node.Children
use diffuzzer.Fs.State
use diffuzzer.Fs.State.{AbstractFs, ok, err, panic, new}
use diffuzzer.Fs.Resolve
use diffuzzer.Fs.Ops
use diffuzzer.Fs.Replay.{step, replay}
use diffuzzer.Fs.Recorded.{replay-recording}
use diffuzzer.Fs.Valid.{NodeOf, new-IsValid}
use diffuzzer.Fs.Unlinked.{Settled, resolve_node-Settled}
use diffuzzer.Fs.Steps.{Keeps, FineAlong, step-Keeps, replay-Keeps}
use diffuzzer.Mutator.{remove, without}
use diffuzzer.Mutator.Removal.{Reduced, remove-Reduced, remove-no_panic}
use diffuzzer.Trace.{different_length}
use diffuzzer.Outcome.{
  DiffCompleted, diff_completed, any_interesting, dash_interesting, trace_interesting,
}
use diffuzzer.Reducer
use diffuzzer.Reducer.{
  same_diff, same_rows, same_row, dash_eq, reduced, Progress, finished, judge, try_remove,
  reduce_from, reduce_by_diff,
}
use diffuzzer.Reducer.Same.{SameRows, same_diff_iff}
use diffuzzer.Reducer.Sound.{IsSound, reduce_by_diff-IsSound}

foo-Plain : Plain (codes "foo")
foo-Plain = (λ e. cc, (λ e. cc, (λ e. cc, tt)))

split-join_example : split (join (codes "/a") (codes "foo")) ≡ some (codes "/a", codes "foo")
split-join_example = split-join (codes "/a") (codes "foo") (λ e. cc) foo-Plain

a_valid : is_valid (codes "/a") ≡ true
unfolding is_valid is_root text_eq ends_with_slash
a_valid = refl

join-segments_example :
    (is_valid (join (codes "/a") (codes "foo")) ≡ true)
    × (segments (join (codes "/a") (codes "foo")) ≡ segments (codes "/a") ++ (codes "foo" ∷ []))
join-segments_example = join-segments (codes "/a") (codes "foo") a_valid (λ e. cc) foo-Plain

-- Eight bytes in two slices.
abbrev two_slices : Content
two_slices = record {
  slices = record { from = 10; to = 13 } ∷ record { from = 100; to = 103 } ∷ [];
}

two_slices-IsFit : IsFit two_slices
two_slices-IsFit = record {
  slices = ((omega arith, omega arith), ((omega arith, omega arith), tt));
  sized = omega arith;
}

write_splices_example : Wrote 50 2 4 two_slices
write_splices_example =
    write_splices 50 2 4 two_slices two_slices-IsFit (omega arith) (omega arith) (omega arith)

read_slice_example : ReadTo 3 4 two_slices
read_slice_example = read_slice 3 4 two_slices two_slices-IsFit (omega arith) (omega arith)

read-write_example : ReadBack 5 3 4 two_slices
read-write_example =
    read-write 5 3 4 two_slices two_slices-IsFit (omega arith) (omega arith) (omega arith)

slash_found : split (codes "/a") ≢ none
unfolding split rfind
slash_found e = cc

slash_found_b : split (codes "/b") ≢ none
unfolding split rfind
slash_found_b e = cc

step-Keeps_example : Keeps (step 1 (Operation.mk_dir (codes "/a") []) new)
step-Keeps_example = step-Keeps 1 (Operation.mk_dir (codes "/a") []) new new-IsValid slash_found

resolve_node-Settled_example :
    Settled (λ x. NodeOf new x.1) (Resolve.resolve_node new 1 (codes "/a") true)
resolve_node-Settled_example = resolve_node-Settled new new-IsValid refl 0 (codes "/a") true

-- A file is made, opened with another number than it gets, written and closed.
abbrev script : Workload
script =
    Operation.create (codes "/a") []
    ∷ Operation.open_file (codes "/a") 7
    ∷ Operation.write 0 5 4
    ∷ Operation.close 0
    ∷ []

first_has_room :
    (fd : FileDescriptor)
    → some (record { file = 0; offset = 0 }) ≡ some fd
    → fd.offset + 4 < u64_mod
first_has_room fd e =
    let start : record { file = 0; offset = 0 } ≡ fd = ground arith in
    subst (λ (d : FileDescriptor). d.offset + 4 < u64_mod) start (omega arith)

script-FineAlong : FineAlong 2 script new
unfolding replay step Ops.create Ops.open_file Ops.write Ops.close Ops.mkdir Ops.push_dir Ops.opened
    Ops.push_file Ops.push_descriptor Resolve.as_file Resolve.resolve_file State.file State.file_mut
    State.descriptor State.descriptor_mut State.assert State.raise State.◌>>=◌ Ops.parent_of split
    rfind Resolve.resolve_dir Resolve.as_dir Resolve.resolve_node Resolve.resolve_node_rec is_valid
    ends_with_slash is_root text_eq Resolve.walk Resolve.enter segments parts Resolve.follow
    Ops.name_exists State.dir State.dir_mut State.modify State.pure State.query State.record_op
    Children.contains_key Children.get Children.insert push Content.write Content.write_back
    Content.size Content.size_from Content.slice_size add64 sub64
script-FineAlong = (λ e. cc, (tt, ((omega arith, first_has_room), (tt, tt))))

replay-Keeps_example : Keeps (replay 2 script new)
replay-Keeps_example = replay-Keeps 2 script new new-IsValid script-FineAlong

-- The file system that the script leaves.
abbrev after_script : AbstractFs
after_script = record {
  dirs = record { children = (codes "a", Node.file 0) ∷ [] } ∷ [];
  files =
      record { descriptor = none; content = record { slices = record { from = 5; to = 8 } ∷ [] } }
      ∷ [];
  symlinks = [];
  descriptors = record { file = 0; offset = 4 } ∷ [];
  recording =
      Operation.create (codes "/a") []
      ∷ Operation.open_file (codes "/a") 0
      ∷ Operation.write 0 5 4
      ∷ Operation.close 0
      ∷ [];
}

script_runs : replay 2 script new ≡ (ok tt, after_script)
unfolding replay step Ops.create Ops.open_file Ops.write Ops.close Ops.mkdir Ops.push_dir Ops.opened
    Ops.push_file Ops.push_descriptor Resolve.as_file Resolve.resolve_file State.file State.file_mut
    State.descriptor State.descriptor_mut State.assert State.raise State.◌>>=◌ Ops.parent_of split
    rfind Resolve.resolve_dir Resolve.as_dir Resolve.resolve_node Resolve.resolve_node_rec is_valid
    ends_with_slash is_root text_eq Resolve.walk Resolve.enter segments parts Resolve.follow
    Ops.name_exists State.dir State.dir_mut State.modify State.pure State.query State.record_op
    Children.contains_key Children.get Children.insert push Content.write Content.write_back
    Content.size Content.size_from Content.slice_size add64 sub64
script_runs = refl

replay-recording_example :
    (replay 2 after_script.recording new ≡ (ok tt, after_script))
    × (map kind_of after_script.recording ≡ map kind_of script)
replay-recording_example = replay-recording 2 script after_script script_runs

abbrev two_dirs : Workload
two_dirs = Operation.mk_dir (codes "/a") [] ∷ Operation.mk_dir (codes "/b") [] ∷ []

abbrev one_dir : Workload
one_dir = Operation.mk_dir (codes "/b") [] ∷ []

first_dir-FineAlong : FineAlong 1 (without two_dirs 1) new
unfolding replay step Ops.create Ops.open_file Ops.write Ops.close Ops.mkdir Ops.push_dir Ops.opened
    Ops.push_file Ops.push_descriptor Resolve.as_file Resolve.resolve_file State.file State.file_mut
    State.descriptor State.descriptor_mut State.assert State.raise State.◌>>=◌ Ops.parent_of split
    rfind Resolve.resolve_dir Resolve.as_dir Resolve.resolve_node Resolve.resolve_node_rec is_valid
    ends_with_slash is_root text_eq Resolve.walk Resolve.enter segments parts Resolve.follow
    Ops.name_exists State.dir State.dir_mut State.modify State.pure State.query State.record_op
    Children.contains_key Children.get Children.insert push Content.write Content.write_back
    Content.size Content.size_from Content.slice_size add64 sub64
first_dir-FineAlong = (λ e. cc, tt)

removed_first : remove 1 two_dirs 0 ≡ ok (some one_dir)
unfolding remove replay step Ops.mkdir Ops.push_dir State.◌>>=◌ Ops.parent_of split rfind
    Resolve.resolve_dir Resolve.as_dir Resolve.resolve_node Resolve.resolve_node_rec is_valid
    ends_with_slash is_root text_eq Resolve.walk Resolve.enter segments parts Resolve.follow
    Ops.name_exists State.dir State.dir_mut State.modify State.pure State.query State.record_op
    Children.contains_key Children.get Children.insert push
removed_first = refl

remove-Reduced_example : Reduced 1 two_dirs 0 one_dir
remove-Reduced_example = remove-Reduced 1 two_dirs 0 one_dir removed_first

remove-no_panic_example : remove 1 two_dirs 1 ≢ panic
remove-no_panic_example = remove-no_panic 1 two_dirs 1 (omega arith) first_dir-FineAlong

-- A difference in the number of rows.
abbrev longer : DiffCompleted ℕ
longer = record {
  dash_diff = [];
  trace_diff = different_length ∷ [];
  fst_outcome = 0;
  snd_outcome = 1;
  fst_trace = [];
  snd_trace = [];
}

same_diff_iff_example :
    (same_diff longer longer ≡ true)
    ↔ (SameRows longer.trace_diff longer.trace_diff × (longer.dash_diff ≡ longer.dash_diff))
same_diff_iff_example = same_diff_iff longer longer

-- Every test shows the difference, so one operation is left.
abbrev shrunk : Progress
shrunk = record {
  bugcase = [];
  reports = reduced (Operation.mk_dir (codes "/a") [] ∷ []) ∷ reduced [] ∷ [];
}

reduction :
    reduce_by_diff {C = ℕ} (λ w. some (diff_completed longer)) (λ r. true) longer 1 two_dirs
    ≡ finished shrunk
unfolding reduce_by_diff reduce_from try_remove judge Reducer.save same_diff same_rows same_row
    dash_eq any_interesting dash_interesting trace_interesting remove replay step Ops.mkdir
    Ops.push_dir State.◌>>=◌ Ops.parent_of split rfind Resolve.resolve_dir Resolve.as_dir
    Resolve.resolve_node Resolve.resolve_node_rec is_valid ends_with_slash is_root text_eq
    Resolve.walk Resolve.enter segments parts Resolve.follow Ops.name_exists State.dir State.dir_mut
    State.modify State.pure State.query State.record_op Children.contains_key Children.get
    Children.insert push
reduction = refl

reduce_by_diff-IsSound_example :
    IsSound {C = ℕ} (λ w. some (diff_completed longer)) (λ r. true) longer 1 two_dirs shrunk
reduce_by_diff-IsSound_example =
    reduce_by_diff-IsSound (λ w. some (diff_completed longer)) (λ r. true) longer 1 two_dirs shrunk
      reduction
