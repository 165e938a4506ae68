-- ===== src/Fs/Resolve.antt =====
-- fs.rs, path resolution. A symbolic link on the way restarts the resolution with an empty list of
-- visited links, so nothing in the code bounds the recursion: `fuel` is the depth of the stack, and
-- `overflow` its end.
use diffuzzer.Prelude.{
  ℕ, zero, suc, Bool, true, false, List, [], ◌∷◌, ◌++◌, if◌then◌else◌, ◌==◌, ◌||◌,
}
use diffuzzer.PathName.{PathName, Name, slash, is_valid, segments}
use diffuzzer.Node.{Node}
use diffuzzer.Node.Children
use diffuzzer.Fs.State.{
  AbstractFs, Result, ok, err, panic, overflow, bind, ok_or, dir, sym, root_index, not_a_file,
  not_a_dir, not_found, invalid_path, loop_exists,
}

abbrev pub contains : List ℕ → ℕ → Bool
contains [] x = false
contains (y ∷ ys) x = y == x || contains ys x

-- The nodes on the way, and the node found.
abbrev pub Resolved : Type 0
Resolved = Result (List ℕ × Node)

-- `resolve_dir` and `resolve_file`, given what `resolve_node` returns.
unfoldable pub as_dir : PathName → Resolved → Result (List ℕ × ℕ)
as_dir path (ok (dirs, Node.dir idx)) = ok (dirs, idx)
as_dir path (ok (dirs, Node.file idx)) = err (not_a_dir path)
as_dir path (ok (dirs, Node.symlink idx)) = err (not_a_dir path)
as_dir path (err e) = err e
as_dir path panic = panic
as_dir path overflow = overflow

unfoldable pub as_file : PathName → Resolved → Result (List ℕ × ℕ)
as_file path (ok (dirs, Node.file idx)) = ok (dirs, idx)
as_file path (ok (dirs, Node.dir idx)) = err (not_a_file path)
as_file path (ok (dirs, Node.symlink idx)) = err (not_a_file path)
as_file path (err e) = err e
as_file path panic = panic
as_file path overflow = overflow

module _ (fs : AbstractFs) where
  -- The directory that the next segment is looked up in, and the directories passed so far.
  unfoldable pub enter :
      (PathName → Result (List ℕ × ℕ)) → PathName → List ℕ → Node → Result (List ℕ × ℕ)
  enter resolve path dirs (Node.dir idx) = ok (dirs ++ (idx ∷ []), idx)
  enter resolve path dirs (Node.symlink idx) =
      bind (sym fs idx)
        λ s. bind (resolve s.target) λ found. ok (dirs ++ (found.0 ++ (found.1 ∷ [])), found.1)
  enter resolve path dirs (Node.file idx) = err (not_a_dir path)

  -- The loop over the segments, `resolve` being the recursive call of `resolve_dir`.
  unfoldable pub walk :
      (PathName → Result (List ℕ × ℕ))
      → List Name
      → PathName
      → List ℕ
      → Node
      → Result (PathName × List ℕ × Node)
  walk resolve [] path dirs last = ok (path, dirs, last)
  walk resolve (segment ∷ segs) path dirs last =
      bind (enter resolve (path ++ (slash ∷ segment)) dirs last) λ at. bind (dir fs at.1) λ d.
        bind (ok_or (Children.get segment d.children) (not_found (path ++ (slash ∷ segment))))
          λ node. walk resolve segs (path ++ (slash ∷ segment)) at.0 node

  -- The end of the resolution, `resolve` being the recursive call.
  unfoldable pub follow :
      (PathName → List ℕ → Resolved) → Bool → List ℕ → PathName → List ℕ → Node → Resolved
  follow resolve true visited path dirs (Node.symlink idx) =
      if contains visited idx
      then err (loop_exists path)
      else bind (sym fs idx) λ s.
        bind (resolve s.target (visited ++ (idx ∷ []))) λ found. ok (dirs ++ found.0, found.1)
  follow resolve false visited path dirs (Node.symlink idx) = ok (dirs, Node.symlink idx)
  follow resolve follow_symlinks visited path dirs (Node.file idx) = ok (dirs, Node.file idx)
  follow resolve follow_symlinks visited path dirs (Node.dir idx) = ok (dirs, Node.dir idx)

  unfoldable pub resolve_node_rec : ℕ → PathName → Bool → List ℕ → Resolved
  resolve_node_rec zero path follow_symlinks visited = overflow
  resolve_node_rec (suc fuel) path follow_symlinks visited =
      if is_valid path
      then (bind
          (walk (λ target. as_dir target (resolve_node_rec fuel target true [])) (segments path) []
            [] (Node.dir root_index))
          λ (path', dirs, last).
            follow (λ target visited'. resolve_node_rec fuel target follow_symlinks visited')
              follow_symlinks visited path' dirs last)
      else err (invalid_path path)

  unfoldable pub resolve_node : ℕ → PathName → Bool → Resolved
  resolve_node fuel path follow_symlinks = resolve_node_rec fuel path follow_symlinks []

  unfoldable pub resolve_file : ℕ → PathName → Result (List ℕ × ℕ)
  resolve_file fuel path = as_file path (resolve_node fuel path true)

  unfoldable pub resolve_dir : ℕ → PathName → Result (List ℕ × ℕ)
  resolve_dir fuel path = as_dir path (resolve_node fuel path true)
