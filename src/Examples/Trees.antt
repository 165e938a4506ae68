-- ===== src/Examples/Trees.antt =====
-- What an operation does to the entries of the directories.
use diffuzzer.Prelude.{◌≡◌, refl, [], ◌∷◌, codes}
use diffuzzer.PathName.{split, rfind, segments, is_valid, is_root, text_eq, parts, ends_with_slash}
use diffuzzer.Operation.{Operation, push}
use diffuzzer.Node.{Node}
use diffuzzer.Node.Children
use diffuzzer.Fs.State
use diffuzzer.Fs.State.{AbstractFs, ok, new}
use diffuzzer.Fs.Resolve
use diffuzzer.Fs.Ops
use diffuzzer.Fs.Replay.{step, replay}
use diffuzzer.Fs.View.{entry, Effect}
use diffuzzer.Fs.Refined.{step-Effect}

abbrev with_dir : AbstractFs
with_dir = record {
  dirs = record { children = (codes "a", Node.dir 1) ∷ [] } ∷ record { children = [] } ∷ [];
  files = [];
  symlinks = [];
  descriptors = [];
  recording = Operation.mk_dir (codes "/a") [] ∷ [];
}

makes_dir : step 1 (Operation.mk_dir (codes "/a") []) new ≡ (ok tt, with_dir)
unfolding replay step Ops.create Ops.mkdir Ops.push_dir Ops.push_file Ops.parent_of Ops.name_exists
    State.file State.raise State.◌>>=◌ split rfind Resolve.as_dir Resolve.resolve_dir
    Resolve.resolve_node Resolve.resolve_node_rec is_valid ends_with_slash is_root text_eq
    Resolve.walk Resolve.enter segments parts Resolve.follow State.dir State.dir_mut State.modify
    State.pure State.query State.record_op Children.contains_key Children.get Children.insert push
makes_dir = refl

-- The directory gets another name.
abbrev renamed : AbstractFs
renamed = record {
  dirs = record { children = (codes "b", Node.dir 1) ∷ [] } ∷ record { children = [] } ∷ [];
  files = [];
  symlinks = [];
  descriptors = [];
  recording = Operation.mk_dir (codes "/a") [] ∷ Operation.rename (codes "/a") (codes "/b") ∷ [];
}

renames : step 1 (Operation.rename (codes "/a") (codes "/b")) with_dir ≡ (ok tt, renamed)
unfolding replay step Ops.rename Ops.has_children Ops.into_itself Ops.parent_of Ops.name_exists
    Resolve.contains State.raise State.◌>>=◌ split rfind Resolve.as_dir Resolve.resolve_dir
    Resolve.resolve_node Resolve.resolve_node_rec is_valid ends_with_slash is_root text_eq
    Resolve.walk Resolve.enter segments parts Resolve.follow State.dir State.dir_mut State.modify
    State.pure State.query State.record_op Children.contains_key Children.get Children.insert
    Children.remove push
renames = refl

step-Effect_example : Effect 1 (Operation.rename (codes "/a") (codes "/b")) with_dir (entry renamed)
step-Effect_example =
    step-Effect 1 (Operation.rename (codes "/a") (codes "/b")) with_dir renamed renames
