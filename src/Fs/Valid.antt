-- ===== src/Fs/Valid.antt =====
-- The invariant of the abstract file system of fs.rs.
pub mod Pushes
pub mod Updates
use diffuzzer.Prelude.{
  ℕ, zero, suc, ◌+◌, ◌≤◌, ◌<◌, ◌≡◌, ◌≢◌, refl, ◌∙◌, some, List, [], ◌∷◌, ◌++◌, arith, length,
  get_elem?, update_at, length-update_at, get_elem?-update_at, length-append, ◌==◌, inl, inr,
  Bool-cases, update_at_found, concat_found, get_elem?-append_left, get_elem?-lt, ⊎_elim,
}
use diffuzzer.Content.Bytes.{IsFit, bytes}
use diffuzzer.PathName.{Name}
use diffuzzer.Node.{Node, File, Dir, Symlink, FileDescriptor}
use diffuzzer.Node.Children.{Values, Values-mono}
use diffuzzer.Operation.{Workload}
use diffuzzer.Fs.State.{AbstractFs, new}

-- The node's index is one of the file system's, with so many directories, files and links.
abbrev pub InRange : ℕ → ℕ → ℕ → Node → Type 0
InRange dirs files symlinks (Node.dir i) = i < dirs
InRange dirs files symlinks (Node.file i) = i < files
InRange dirs files symlinks (Node.symlink i) = i < symlinks

abbrev pub NodeOf : AbstractFs → Node → Type 0
NodeOf s = InRange (length s.dirs) (length s.files) (length s.symlinks)

-- The descriptor is of a file, at an offset within its contents.
pub record Points (s : AbstractFs) (fd : FileDescriptor) : Type 0 where
  pub target : File
  pub found : get_elem? s.files fd.file ≡ some target
  pub within : fd.offset ≤ length (bytes target.content)

pub record IsValid (s : AbstractFs) : Type 0 where
  pub root : 0 < length s.dirs
  pub children : (i : ℕ) (d : Dir) → get_elem? s.dirs i ≡ some d → Values (NodeOf s) d.children
  pub points : (i : ℕ) (fd : FileDescriptor) → get_elem? s.descriptors i ≡ some fd → Points s fd
  pub fits : (i : ℕ) (f : File) → get_elem? s.files i ≡ some f → IsFit f.content

InRange-mono :
    (a b c a' b' c' : ℕ)
    → a ≤ a'
    → b ≤ b'
    → c ≤ c'
    → (n : Node) → InRange a b c n
    → InRange a' b' c' n
InRange-mono a b c a' b' c' ha hb hc (Node.dir i) h = omega arith
InRange-mono a b c a' b' c' ha hb hc (Node.file i) h = omega arith
InRange-mono a b c a' b' c' ha hb hc (Node.symlink i) h = omega arith

-- No fewer nodes than before.
pub record Grows (s t : AbstractFs) : Type 0 where
  pub dirs : length s.dirs ≤ length t.dirs
  pub files : length s.files ≤ length t.files
  pub symlinks : length s.symlinks ≤ length t.symlinks

pub NodeOf-mono : (s t : AbstractFs) → Grows s t → (n : Node) → NodeOf s n → NodeOf t n
NodeOf-mono s t g = InRange-mono _ _ _ _ _ _ g.dirs g.files g.symlinks

Values-Grows :
    (s t : AbstractFs)
    → Grows s t
    → (m : List (Name × Node)) → Values (NodeOf s) m
    → Values (NodeOf t) m
Values-Grows s t g = Values-mono (NodeOf s) (NodeOf t) (NodeOf-mono s t g)

Points-files :
    (s t : AbstractFs) (fd : FileDescriptor) → s.files ≡ t.files → Points s fd → Points t fd
Points-files s t fd e p = record { target = p.target; found = rw (← e) p.found; within = p.within }

pub new-IsValid : IsValid new
new-IsValid = record {
  root = omega arith;
  children = children;
  points = λ i fd e. cc;
  fits = λ i f e. cc;
}
  where
    children : (i : ℕ) (d : Dir) → get_elem? new.dirs i ≡ some d → Values (NodeOf new) d.children
    children zero d e = let same : d ≡ record { children = [] } = ground arith in rw same tt
    children (suc i) d e = absurd (cc)

pub record-IsValid :
    (s : AbstractFs) (w : Workload) → IsValid s → IsValid (record s { recording = w })
record-IsValid s w h = record {
  root = h.root;
  children = λ j d e. Values-Grows s t grows d.children (h.children j d e);
  points = λ j fd e. Points-files s t fd refl (h.points j fd e);
  fits = h.fits;
}
  where
    t : AbstractFs
    t = record s { recording = w }

    grows : Grows s t
    grows = record { dirs = omega arith; files = omega arith; symlinks = omega arith }
