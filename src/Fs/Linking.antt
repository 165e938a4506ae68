-- ===== src/Fs/Linking.antt =====
-- The operations of fs.rs that link, move and drop names, on a valid file system.
use diffuzzer.Prelude.{ℕ, List, ◌<◌, ◌≡◌, refl, false, not, [], ◌∷◌, arith, length, length-append}
use diffuzzer.Content.Bytes.{IsFit}
use diffuzzer.Flags.{Mode}
use diffuzzer.PathName.{PathName, Name, is_root}
use diffuzzer.Node.{Node}
use diffuzzer.Node.Children
use diffuzzer.Node.Children.{Values-insert, Values-remove}
use diffuzzer.Operation.{Operation}
use diffuzzer.Fs.State.{
  AbstractFs, Result, ok, err, panic, overflow, record_op, put_child, pure, query, ◌>>=◌, ◌>>◌, dir,
  dir_mut, drop_child,
}
use diffuzzer.Fs.Ops
use diffuzzer.Fs.Ops.{parent_of, has_children, into_itself, is_symlink}
use diffuzzer.Fs.Resolve.{resolve_file}
use diffuzzer.Fs.Valid.{IsValid, NodeOf}
use diffuzzer.Fs.Valid.Pushes.{push_file-IsValid, push_symlink-IsValid}
use diffuzzer.Fs.Resolved.{
  Good, Good-ok, Good-bind, Good-unwrap, Good-mono, Good-overflow, resolve_node-Good,
  resolve_dir-Good, resolve_file-Good,
}
use diffuzzer.Fs.Safe.{Safe, Safe-pure, Safe-raise, Safe-query, Safe-if, Safe-modify, Safe-bind}
use diffuzzer.Fs.Keeps.{
  HasSlash, WithDir, Good-split, parent_of-Safe, query_dir-Safe, name_exists-Safe, dir_mut-Safe,
  record_op-Safe, link-Safe, query_length-Safe,
}

empty_file-IsFit : IsFit Ops.empty_file.content
empty_file-IsFit = record { slices = tt; sized = omega arith }

pub create-Safe :
    (fuel : ℕ) (path : PathName) (mode : Mode)
    → HasSlash path
    → Safe IsValid (Ops.create fuel path mode) (λ _. IsValid)
unfolding Ops.create Ops.push_file
create-Safe fuel path mode h =
    Safe-bind _ (λ x. WithDir x.0) _ _ _ (parent_of-Safe _ fuel path (λ s v. v) h)
      λ x.
        Safe-bind _ (λ _. WithDir x.0) _ _ _ (name_exists-Safe _ x.0 x.1 (λ s v. v))
          λ exists.
            Safe-if _ _ exists _ _ (λ _. Safe-raise _ _ _ (λ s v. v.0))
              λ _.
                Safe-bind _ (λ i s. WithDir x.0 s × (i ≡ length s.files)) _ _ _
                  (query_length-Safe _ _ (λ s v. v.0))
                  λ i.
                    Safe-bind _ (λ _ s. WithDir x.0 s × (i < length s.files)) _ _ _
                      (Safe-modify _ _ _ (λ s v. (
                        (push_file-IsValid s Ops.empty_file empty_file-IsFit v.0.0, v.0.1),
                        omega (arith, v, length-append s.files (Ops.empty_file ∷ [])),
                      )))
                      λ _. link-Safe _ x.0 x.1 (Node.file i) _ i (λ s v. v)

pub symlink-Safe :
    (fuel : ℕ) (target linkpath : PathName)
    → HasSlash linkpath
    → Safe IsValid (Ops.symlink fuel target linkpath) (λ _. IsValid)
unfolding Ops.symlink Ops.push_symlink
symlink-Safe fuel target linkpath h =
    Safe-bind _ (λ x. WithDir x.0) _ _ _ (parent_of-Safe _ fuel linkpath (λ s v. v) h)
      λ x.
        Safe-bind _ (λ _. WithDir x.0) _ _ _ (name_exists-Safe _ x.0 x.1 (λ s v. v))
          λ exists.
            Safe-if _ _ exists _ _ (λ _. Safe-raise _ _ _ (λ s v. v.0))
              λ _.
                Safe-bind _ (λ i s. WithDir x.0 s × (i ≡ length s.symlinks)) _ _ _
                  (query_length-Safe _ _ (λ s v. v.0))
                  λ i.
                    Safe-bind _ (λ _ s. WithDir x.0 s × (i < length s.symlinks)) _ _ _
                      (Safe-modify _ _ _ (λ s v. (
                        (push_symlink-IsValid s (record { target = target }) v.0.0, v.0.1),
                        omega
                            (arith, v, length-append s.symlinks (record { target = target } ∷ [])),
                      )))
                      λ _. link-Safe _ x.0 x.1 (Node.symlink i) _ i (λ s v. v)

-- Reading of a file that the path leads to.
pub query_file-Safe :
    (P : AbstractFs → Type 0) (fuel : ℕ) (path : PathName)
    → ((s : AbstractFs) → P s → IsValid s)
    → Safe P (query (λ fs. resolve_file fs fuel path)) (λ x s. P s × (x.1 < length s.files))
query_file-Safe P fuel path v =
    Safe-query _ _ _ v
      (λ s p. Good-mono _ _ _ (λ _ lt. (p, lt)) (resolve_file-Good s (v s p) fuel path))

pub hardlink-Safe :
    (fuel : ℕ) (old_path new_path : PathName)
    → HasSlash old_path
    → HasSlash new_path
    → Safe IsValid (Ops.hardlink fuel old_path new_path) (λ _. IsValid)
unfolding Ops.hardlink
hardlink-Safe fuel old_path new_path ho hn =
    Safe-bind _ (λ x. WithDir x.0) _ _ _ (parent_of-Safe _ fuel old_path (λ s v. v) ho)
      λ x.
        Safe-bind _ (λ _. WithDir x.0) _ _ _ (query_dir-Safe _ x.0 (λ s v. v))
          λ d.
            Safe-if _ _ (is_symlink (Children.get x.1 d.children)) _ _
              (λ _. Safe-raise _ _ _ (λ s v. v.0))
              λ _.
                Safe-bind _ (λ y s. WithDir x.0 s × (y.1 < length s.files)) _ _ _
                  (query_file-Safe _ fuel old_path (λ s v. v.0))
                  λ y.
                    Safe-bind _
                      (λ z s. (WithDir x.0 s × (y.1 < length s.files)) × (z.0 < length s.dirs)) _ _
                      _ (parent_of-Safe _ fuel new_path (λ s v. v.0.0) hn)
                      λ z.
                        Safe-bind _
                          (λ _ s. (WithDir x.0 s × (y.1 < length s.files)) × (z.0 < length s.dirs))
                          _ _ _ (name_exists-Safe _ z.0 z.1 (λ s v. (v.0.0.0, v.1)))
                          λ exists.
                            Safe-if _ _ exists _ _ (λ _. Safe-raise _ _ _ (λ s v. v.0.0.0))
                              λ _.
                                link-Safe _ z.0 z.1 (Node.file y.1) _ y.1
                                  (λ s v. ((v.0.0.0, v.1), v.0.1))

-- A name dropped from a directory.
drop-Safe :
    (P : AbstractFs → Type 0) (idx : ℕ) (name : Name)
    → ((s : AbstractFs) → P s → WithDir idx s)
    → Safe P (dir_mut idx (drop_child name)) (λ _. IsValid)
drop-Safe P idx name v =
    dir_mut-Safe P idx _ v (λ s p d h. Values-remove (NodeOf s) name d.children h)

pub remove-Safe :
    (fuel : ℕ) (path : PathName)
    → HasSlash path
    → Safe IsValid (Ops.remove fuel path) (λ _. IsValid)
unfolding Ops.remove
remove-Safe fuel path h =
    Safe-if _ _ (is_root path) _ _ (λ _. Safe-raise _ _ _ (λ s v. v))
      λ _.
        Safe-bind _ (λ x. WithDir x.0) _ _ _ (parent_of-Safe _ fuel path (λ s v. v) h)
          λ x.
            Safe-bind _ (λ _. WithDir x.0) _ _ _ (name_exists-Safe _ x.0 x.1 (λ s v. v))
              λ found.
                Safe-bind _ (λ _. IsValid) _ _ _ (drop-Safe _ x.0 x.1 (λ s v. v))
                  λ _.
                    Safe-if _ _ (not found) _ _ (λ _. Safe-raise _ _ _ (λ s v. v))
                      λ _. record_op-Safe _

has_children-Good :
    (s : AbstractFs) (r : Result (List ℕ × ℕ))
    → Good (λ x. x.1 < length s.dirs) r
    → Good (λ _. Unit {0}) (has_children s r)
unfolding has_children dir
has_children-Good s (ok (dirs, idx)) g =
    Good-bind _ _ _ _ (Good-unwrap s.dirs idx (g.value _ refl)) λ d _. Good-ok _ _ tt
has_children-Good s (err e) g = Good-ok _ _ tt
has_children-Good s panic g = absurd (g.no_panic refl)
has_children-Good s overflow g = Good-overflow _

-- The end of a renaming, once the node is found and the target directory is known.
move-Safe :
    (fuel : ℕ) (old_path new_path : PathName) (node : Node) (parent : ℕ) (name : Name)
    → HasSlash old_path
    → Safe
        (λ s. WithDir parent s × NodeOf s node)
        (do
          dir_mut parent (put_child name node)
          (old_parent, old_name) ← parent_of fuel old_path
          dir_mut old_parent (drop_child old_name)
          record_op (Operation.rename old_path new_path)
          pure node)
        (λ _. IsValid)
move-Safe fuel old_path new_path node parent name h =
    Safe-bind _ (λ _. IsValid) _ _ _
      (dir_mut-Safe _ parent _ (λ s v. v.0)
        (λ s v d hd. Values-insert (NodeOf s) name node d.children v.1 hd))
      λ _.
        Safe-bind _ (λ x. WithDir x.0) _ _ _ (parent_of-Safe _ fuel old_path (λ s v. v) h)
          λ x.
            Safe-bind _ (λ _. IsValid) _ _ _ (drop-Safe _ x.0 x.1 (λ s v. v))
              λ _.
                Safe-bind _ (λ _. IsValid) _ _ _ (record_op-Safe _) λ _. Safe-pure _ _ _ (λ s v. v)

pub rename-Safe :
    (fuel : ℕ) (old_path new_path : PathName)
    → HasSlash old_path
    → HasSlash new_path
    → Safe IsValid (Ops.rename fuel old_path new_path) (λ _. IsValid)
unfolding Ops.rename
rename-Safe fuel old_path new_path ho hn =
    Safe-bind _ (λ _. IsValid) _ _ _
      (Safe-query _ _ _ (λ s v. v)
        (λ s v.
          Good-mono _ _ _ (λ _ _. v) (has_children-Good s _ (resolve_dir-Good s v fuel new_path))))
      λ busy.
        Safe-if _ _ busy _ _ (λ _. Safe-raise _ _ _ (λ s v. v))
          λ _.
            Safe-bind _ (λ x s. IsValid s × NodeOf s x.1) _ _ _
              (Safe-query _ _ _ (λ s v. v)
                (λ s v.
                  Good-mono _ _ _ (λ _ n. (v, n)) (resolve_node-Good s v fuel old_path false)))
              λ x.
                Safe-bind _ (λ _ s. IsValid s × NodeOf s x.1) _ _ _
                  (Safe-query _ _ _ (λ s v. v.0)
                    (λ s v. Good-mono _ _ _ (λ _ _. v) (Good-split new_path hn)))
                  λ y.
                    Safe-bind _ (λ z s. WithDir z.1 s × NodeOf s x.1) _ _ _
                      (Safe-query _ _ _ (λ s v. v.0)
                        (λ s v.
                          Good-mono _ _ _ (λ _ lt. ((v.0, lt), v.1))
                            (resolve_dir-Good s v.0 fuel y.0)))
                      λ z.
                        Safe-if _ _ (into_itself x.1 z.0 z.1) _ _
                          (λ _. Safe-raise _ _ _ (λ s v. v.0.0))
                          λ _. move-Safe fuel old_path new_path x.1 z.1 y.1 ho
