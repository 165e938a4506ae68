-- ===== src/Fs/View.antt =====
-- fs.rs, seen as a map from directories and names to nodes: what each operation means for it.
use diffuzzer.Prelude.{
  ℕ, false, ◌&&◌, ◌≡◌, ◌≢◌, Option, none, some, List, if◌then◌else◌, ◌==◌, get_elem?, length,
}
use diffuzzer.PathName.{PathName, Name, text_eq, split}
use diffuzzer.Node.{Node, Dir}
use diffuzzer.Node.Children
use diffuzzer.Operation.{Operation}
use diffuzzer.Fs.State.{AbstractFs, ok, dir_mut, put_child}
use diffuzzer.Fs.Resolve.{contains, resolve_dir, resolve_file, resolve_node}

abbrev pub Tree : Type 0
Tree = ℕ → Name → Option Node

abbrev pub lookup : Option Dir → Name → Option Node
lookup none name = none
lookup (some d) name = Children.get name d.children

abbrev pub entry : AbstractFs → Tree
entry fs i name = lookup (get_elem? fs.dirs i) name

abbrev pub link : ℕ → Name → Node → Tree → Tree
link i name node t j n = if i == j && text_eq name n then some node else t j n

abbrev pub unlink : ℕ → Name → Tree → Tree
unlink i name t j n = if i == j && text_eq name n then none else t j n

module _ (fuel : ℕ) where
  -- The directory and the name that a path stands for.
  pub record At (fs : AbstractFs) (path : PathName) (parent : ℕ) (name : Name) : Type 0 where
    pub parent_path : PathName
    pub dirs : List ℕ
    pub splits : split path ≡ some (parent_path, name)
    pub resolves : resolve_dir fs fuel parent_path ≡ ok (dirs, parent)

  -- The path stood for nothing, and now stands for the node; no other entry has changed.
  pub record Linked (fs : AbstractFs) (path : PathName) (node : Node) (t : Tree) : Type 0 where
    pub parent : ℕ
    pub name : Name
    pub at : At fs path parent name
    pub free : entry fs parent name ≡ none
    pub tree : (j : ℕ) (n : Name) → t j n ≡ link parent name node (entry fs) j n

  -- The path stood for something, and now stands for nothing; no other entry has changed.
  pub record Unlinked (fs : AbstractFs) (path : PathName) (t : Tree) : Type 0 where
    pub parent : ℕ
    pub name : Name
    pub at : At fs path parent name
    pub there : entry fs parent name ≢ none
    pub tree : (j : ℕ) (n : Name) → t j n ≡ unlink parent name (entry fs) j n

  -- The node at the old path is put at the new path: `middle` is the file system with this change only.
  -- Then the entry that the old path stands for in `middle` is taken away. What stood at the new path
  -- before, if anything, is no longer there; it was no directory with children, and a directory is not
  -- moved into itself or below itself.
  pub record Moved (fs : AbstractFs) (old_path new_path : PathName) (t : Tree) : Type 0 where
    pub node : Node
    pub node_dirs : List ℕ
    pub found : resolve_node fs fuel old_path false ≡ ok (node_dirs, node)
    pub parent : ℕ
    pub name : Name
    pub at : At fs new_path parent name
    pub vacant :
        (dirs : List ℕ) (i : ℕ)
        → resolve_dir fs fuel new_path ≡ ok (dirs, i)
        → (n : Name) → entry fs i n ≡ none
    pub outside : (i : ℕ) → node ≡ Node.dir i → (contains at.dirs i ≡ false) × (parent ≢ i)
    pub middle : AbstractFs
    pub put : dir_mut parent (put_child name node) fs ≡ (ok tt, middle)
    pub put_tree : (j : ℕ) (n : Name) → entry middle j n ≡ link parent name node (entry fs) j n
    pub old_parent : ℕ
    pub old_name : Name
    pub old_at : At middle old_path old_parent old_name
    pub tree : (j : ℕ) (n : Name) → t j n ≡ unlink old_parent old_name (entry middle) j n

  -- What an operation does to the tree. An open, a close, a read, a write and a sync leave it alone.
  abbrev pub Effect : Operation → AbstractFs → Tree → Type 0
  Effect (Operation.mk_dir path mode) fs t = Linked fs path (Node.dir (length fs.dirs)) t
  Effect (Operation.create path mode) fs t = Linked fs path (Node.file (length fs.files)) t
  Effect (Operation.symlink target linkpath) fs t =
      Linked fs linkpath (Node.symlink (length fs.symlinks)) t
  Effect (Operation.hardlink old_path new_path) fs t =
      (file : ℕ) × (dirs : List ℕ) × (resolve_file fs fuel old_path ≡ ok (dirs, file))
      × Linked fs new_path (Node.file file) t
  Effect (Operation.remove path) fs t = Unlinked fs path t
  Effect (Operation.rename old_path new_path) fs t = Moved fs old_path new_path t
  Effect (Operation.open_file path des) fs t = (j : ℕ) (n : Name) → t j n ≡ entry fs j n
  Effect (Operation.close des) fs t = (j : ℕ) (n : Name) → t j n ≡ entry fs j n
  Effect (Operation.read des size) fs t = (j : ℕ) (n : Name) → t j n ≡ entry fs j n
  Effect (Operation.write des src_offset size) fs t = (j : ℕ) (n : Name) → t j n ≡ entry fs j n
  Effect (Operation.fsync des) fs t = (j : ℕ) (n : Name) → t j n ≡ entry fs j n
