-- ===== src/Fs/Ops.antt =====
-- fs.rs, the operations. Each is an action; `fuel` bounds the depth of path resolution.
use diffuzzer.Prelude.{
  ℕ, Bool, true, false, not, ◌||◌, Option, none, some, List, [], ◌∷◌, ◌++◌, if◌then◌else◌, length,
  is_empty, ◌==◌, leb, add64,
}
use diffuzzer.Content
use diffuzzer.Content.{Content}
use diffuzzer.Flags.{Mode}
use diffuzzer.PathName.{PathName, Name, is_root, split}
use diffuzzer.Node.{Node, File, Dir, Symlink, FileDescriptor}
use diffuzzer.Node.Children
use diffuzzer.Operation.{Operation}
use diffuzzer.Fs.State.{
  AbstractFs, Result, ok, err, panic, overflow, bind, unwrap, Exec, pure, raise, query, modify,
  ◌>>=◌, ◌>>◌, dir, file, descriptor, dir_mut, file_mut, descriptor_mut, record_op, put_child,
  drop_child, assert, name_already_exists, not_found, dir_not_empty, root_removal_forbidden,
  descriptor_was_closed, file_already_opened, hardlink_to_symlink_forbidden,
  rename_to_subdirectory_error, content_error,
}
use diffuzzer.Fs.Resolve.{contains, resolve_node, resolve_file, resolve_dir}

-- `path.split()`, and the directory of the first part.
unfoldable pub parent_of : ℕ → PathName → Exec (ℕ × Name)
parent_of fuel path = do
  (parent_path, name) ← query (λ fs. unwrap (split path))
  (dirs, parent) ← query (λ fs. resolve_dir fs fuel parent_path)
  pure (parent, name)

unfoldable pub name_exists : ℕ → Name → Exec Bool
name_exists idx name = do d ← query (λ fs. dir fs idx); pure (Children.contains_key name d.children)

unfoldable pub remove : ℕ → PathName → Exec (Unit {0})
remove fuel path = if is_root path then raise root_removal_forbidden else do
  (parent_idx, name) ← parent_of fuel path
  found ← name_exists parent_idx name
  dir_mut parent_idx (drop_child name)
  if not found then raise (not_found path) else record_op (Operation.remove path)

-- `dirs.push`, `files.push`, `symlinks.push`, `descriptors.push`
unfoldable pub push_dir : Dir → Exec (Unit {0})
push_dir d = modify (λ fs. record fs { dirs = fs.dirs ++ (d ∷ []) })

unfoldable pub push_file : File → Exec (Unit {0})
push_file f = modify (λ fs. record fs { files = fs.files ++ (f ∷ []) })

unfoldable pub push_symlink : Symlink → Exec (Unit {0})
push_symlink l = modify (λ fs. record fs { symlinks = fs.symlinks ++ (l ∷ []) })

unfoldable pub push_descriptor : FileDescriptor → Exec (Unit {0})
push_descriptor d = modify (λ fs. record fs { descriptors = fs.descriptors ++ (d ∷ []) })

abbrev pub empty_dir : Dir
empty_dir = record { children = [] }

unfoldable pub mkdir : ℕ → PathName → Mode → Exec ℕ
mkdir fuel path mode = do
  (parent, name) ← parent_of fuel path
  exists ← name_exists parent name
  if exists then raise (name_already_exists path) else do
    dir_idx ← query (λ fs. ok (length fs.dirs))
    push_dir empty_dir
    dir_mut parent (put_child name (Node.dir dir_idx))
    record_op (Operation.mk_dir path mode)
    pure dir_idx

abbrev pub empty_file : File
empty_file = record { descriptor = none; content = Content.new }

unfoldable pub create : ℕ → PathName → Mode → Exec ℕ
create fuel path mode = do
  (parent, name) ← parent_of fuel path
  exists ← name_exists parent name
  if exists then raise (name_already_exists path) else do
    file_idx ← query (λ fs. ok (length fs.files))
    push_file empty_file
    dir_mut parent (put_child name (Node.file file_idx))
    record_op (Operation.create path mode)
    pure file_idx

abbrev pub is_symlink : Option Node → Bool
is_symlink (some (Node.symlink idx)) = true
is_symlink (some (Node.file idx)) = false
is_symlink (some (Node.dir idx)) = false
is_symlink none = false

unfoldable pub hardlink : ℕ → PathName → PathName → Exec ℕ
hardlink fuel old_path new_path = do
  (old_parent, old_name) ← parent_of fuel old_path
  d ← query (λ fs. dir fs old_parent)
  if is_symlink (Children.get old_name d.children)
      then raise (hardlink_to_symlink_forbidden old_path)
      else do
        (old_dirs, old_file) ← query (λ fs. resolve_file fs fuel old_path)
        (parent, name) ← parent_of fuel new_path
        exists ← name_exists parent name
        if exists then raise (name_already_exists new_path) else do
          dir_mut parent (put_child name (Node.file old_file))
          record_op (Operation.hardlink old_path new_path)
          pure old_file

unfoldable pub symlink : ℕ → PathName → PathName → Exec ℕ
symlink fuel target linkpath = do
  (parent, name) ← parent_of fuel linkpath
  exists ← name_exists parent name
  if exists then raise (name_already_exists linkpath) else do
    sym_idx ← query (λ fs. ok (length fs.symlinks))
    push_symlink (record { target = target })
    dir_mut parent (put_child name (Node.symlink sym_idx))
    record_op (Operation.symlink target linkpath)
    pure sym_idx

-- `if let Ok((_, dir_idx)) = …`, and whether that directory has children.
unfoldable pub has_children : AbstractFs → Result (List ℕ × ℕ) → Result Bool
has_children fs (ok (dirs, idx)) = bind (dir fs idx) λ d. ok (not (is_empty d.children))
has_children fs (err e) = ok false
has_children fs panic = panic
has_children fs overflow = overflow

-- A directory that would move into itself or below itself.
unfoldable pub into_itself : Node → List ℕ → ℕ → Bool
into_itself (Node.dir old_idx) old_dirs parent = contains old_dirs old_idx || parent == old_idx
into_itself (Node.file old_idx) old_dirs parent = false
into_itself (Node.symlink old_idx) old_dirs parent = false

unfoldable pub rename : ℕ → PathName → PathName → Exec Node
rename fuel old_path new_path = do
  busy ← query (λ fs. has_children fs (resolve_dir fs fuel new_path))
  if busy then raise (dir_not_empty new_path) else do
    (node_dirs, node) ← query (λ fs. resolve_node fs fuel old_path false)
    (parent_path, name) ← query (λ fs. unwrap (split new_path))
    (old_dirs, parent) ← query (λ fs. resolve_dir fs fuel parent_path)
    if into_itself node old_dirs parent
        then raise (rename_to_subdirectory_error old_path new_path)
        else do
          dir_mut parent (put_child name node)
          (old_parent, old_name) ← parent_of fuel old_path
          dir_mut old_parent (drop_child old_name)
          record_op (Operation.rename old_path new_path)
          pure node

abbrev pub is_some {ℓ} : {A : Type ℓ} → Option A → Bool
is_some none = false
is_some (some a) = true

-- `file.descriptor == Some(des_idx)`
abbrev pub opened_by : Option ℕ → ℕ → Bool
opened_by none des_idx = false
opened_by (some d) des_idx = d == des_idx

unfoldable pub open_file : ℕ → PathName → Exec ℕ
open_file fuel path = do
  des ← query (λ fs. ok (length fs.descriptors))
  (dirs, file_idx) ← query (λ fs. resolve_file fs fuel path)
  f ← query (λ fs. file fs file_idx)
  if is_some f.descriptor then raise (file_already_opened path) else do
    file_mut file_idx (λ x. record x { descriptor = some des })
    push_descriptor (record { file = file_idx; offset = 0 })
    record_op (Operation.open_file path des)
    pure des

-- The descriptor and its file, which must still be open under it.
unfoldable pub opened : ℕ → Exec (FileDescriptor × File)
opened des_idx = do
  des ← query (λ fs. descriptor fs des_idx)
  f ← query (λ fs. file fs des.file)
  if not (opened_by f.descriptor des_idx)
      then raise (descriptor_was_closed des_idx)
      else pure (des, f)

unfoldable pub close : ℕ → Exec (Unit {0})
close des_idx = do
  (des, f) ← opened des_idx
  file_mut des.file (λ x. record x { descriptor = none })
  record_op (Operation.close des_idx)

-- The `?` on a call of `Content`.
abbrev pub of_content {ℓ} : {A : Type ℓ} → Content.Outcome A → Result A
of_content (Content.Outcome.ok a) = ok a
of_content (Content.Outcome.bad_offset o n) = err (content_error o n)
of_content Content.Outcome.panic = panic

unfoldable pub read : ℕ → ℕ → Exec Content
read des_idx size = do
  (des, f) ← opened des_idx
  content ← query (λ fs. of_content (Content.read des.offset size f.content))
  descriptor_mut des_idx (λ d. record d { offset = add64 d.offset (Content.size content) })
  assert (leb (add64 des.offset (Content.size content)) (Content.size f.content))
  record_op (Operation.read des_idx size)
  pure content

unfoldable pub write : ℕ → ℕ → ℕ → Exec (Unit {0})
write des_idx src_offset size = do
  (des, f) ← opened des_idx
  content ← query (λ fs. of_content (Content.write src_offset des.offset size f.content))
  file_mut des.file (λ x. record x { content = content })
  descriptor_mut des_idx (λ d. record d { offset = add64 d.offset size })
  assert (leb (add64 des.offset size) (Content.size content))
  record_op (Operation.write des_idx src_offset size)

unfoldable pub fsync : ℕ → Exec (Unit {0})
fsync des_idx = do (des, f) ← opened des_idx; record_op (Operation.fsync des_idx)
