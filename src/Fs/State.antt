-- ===== src/Fs/State.antt =====
-- fs.rs, `AbstractFS` and `FsError`, and the methods as actions on the state. An action returns a
-- value or an error, or panics (`unwrap`, `assert!`), or runs out of the stack that symbolic links
-- may make it use; what was written before an error stays written.
use diffuzzer.Prelude.{
  ℕ, Option, none, some, List, [], ◌∷◌, update_at, get_elem?, length, Bool, if◌then◌else◌,
}
use diffuzzer.PathName.{PathName, Name}
use diffuzzer.Node.{Node, File, Dir, Symlink, FileDescriptor}
use diffuzzer.Node.Children
use diffuzzer.Operation.{Operation, Workload, push}

pub record AbstractFs : Type 0 where
  pub dirs : List Dir
  pub files : List File
  pub symlinks : List Symlink
  pub descriptors : List FileDescriptor
  pub recording : Workload

abbrev pub new : AbstractFs
new = record {
  dirs = record { children = [] } ∷ [];
  files = [];
  symlinks = [];
  descriptors = [];
  recording = [];
}

abbrev pub root_index : ℕ
root_index = 0

pub data FsError : Type 0 where
  not_a_file not_a_dir name_already_exists not_found invalid_path dir_not_empty : PathName → FsError
  root_removal_forbidden : FsError
  bad_descriptor : ℕ → ℕ → FsError
  descriptor_was_closed : ℕ → FsError
  file_already_opened loop_exists hardlink_to_symlink_forbidden : PathName → FsError
  rename_to_subdirectory_error : PathName → PathName → FsError
  content_error : ℕ → ℕ → FsError

pub data Result {ℓ} (A : Type ℓ) : Type ℓ where
  ok : A → Result A
  err : FsError → Result A
  panic : Result A
  overflow : Result A

abbrev pub bind {ℓ κ} : {A : Type ℓ} {B : Type κ} → Result A → (A → Result B) → Result B
bind (ok a) f = f a
bind (err e) f = err e
bind panic f = panic
bind overflow f = overflow

-- `Option::unwrap`
abbrev pub unwrap {ℓ} : {A : Type ℓ} → Option A → Result A
unwrap none = panic
unwrap (some a) = ok a

abbrev pub ok_or {ℓ} : {A : Type ℓ} → Option A → FsError → Result A
ok_or none e = err e
ok_or (some a) e = ok a

abbrev pub Exec {ℓ} : Type ℓ → Type ℓ
Exec A = AbstractFs → Result A × AbstractFs

module _ {ℓ} {A : Type ℓ} where
  unfoldable pub pure : A → Exec A
  pure a s = (ok a, s)

  unfoldable pub raise : FsError → Exec A
  raise e s = (err e, s)

  -- A call of a method on `&self`.
  unfoldable pub query : (AbstractFs → Result A) → Exec A
  query f s = (f s, s)

unfoldable pub modify : (AbstractFs → AbstractFs) → Exec (Unit {0})
modify f s = (ok tt, f s)

module _ {ℓ κ} {A : Type ℓ} {B : Type κ} where
  abbrev pub continue : Result A → (A → Exec B) → Exec B
  continue (ok a) f s = f a s
  continue (err e) f s = (err e, s)
  continue panic f s = (panic, s)
  continue overflow f s = (overflow, s)

infixl 5 ◌>>=◌ ◌>>◌
unfoldable pub ◌>>=◌ {ℓ κ} : {A : Type ℓ} {B : Type κ} → Exec A → (A → Exec B) → Exec B
unfolding pure raise query modify
◌>>=◌ m f s = let (r, s') = m s in continue r f s'

abbrev pub ◌>>◌ {ℓ} : {B : Type ℓ} → Exec (Unit {0}) → Exec B → Exec B
m >> n = m >>= λ _. n

-- `dir`, `file`, `sym`: the index is unwrapped.
unfoldable pub dir : AbstractFs → ℕ → Result Dir
dir fs idx = unwrap (get_elem? fs.dirs idx)

unfoldable pub file : AbstractFs → ℕ → Result File
file fs idx = unwrap (get_elem? fs.files idx)

unfoldable pub sym : AbstractFs → ℕ → Result Symlink
sym fs idx = unwrap (get_elem? fs.symlinks idx)

unfoldable pub descriptor : AbstractFs → ℕ → Result FileDescriptor
descriptor fs idx =
    ok_or (get_elem? fs.descriptors idx) (bad_descriptor idx (length fs.descriptors))

-- `dir_mut` and `file_mut`, with what is done to the directory or file.
unfoldable pub dir_mut : ℕ → (Dir → Dir) → Exec (Unit {0})
dir_mut idx f = do
  d ← query (λ fs. dir fs idx)
  modify (λ fs. record fs { dirs = update_at fs.dirs idx f })

unfoldable pub file_mut : ℕ → (File → File) → Exec (Unit {0})
file_mut idx f = do
  x ← query (λ fs. file fs idx)
  modify (λ fs. record fs { files = update_at fs.files idx f })

-- `descriptor_mut`, with what is added to the offset.
unfoldable pub descriptor_mut : ℕ → (FileDescriptor → FileDescriptor) → Exec (Unit {0})
descriptor_mut idx f = do
  x ← query (λ fs. descriptor fs idx)
  modify (λ fs. record fs { descriptors = update_at fs.descriptors idx f })

-- `self.recording.push(op)`
unfoldable pub record_op : Operation → Exec (Unit {0})
unfolding push
record_op op = modify (λ fs. record fs { recording = push fs.recording op })

abbrev pub put_child : Name → Node → Dir → Dir
put_child name node d = record d { children = Children.insert name node d.children }

abbrev pub drop_child : Name → Dir → Dir
drop_child name d = record d { children = Children.remove name d.children }

-- `assert!`
unfoldable pub assert : Bool → Exec (Unit {0})
assert b = query (λ fs. if b then ok tt else panic)
