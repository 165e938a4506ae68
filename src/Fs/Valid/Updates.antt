-- ===== src/Fs/Valid/Updates.antt =====
-- The invariant of the abstract file system when a node or a descriptor is changed.
use diffuzzer.Prelude.{
  ℕ, ◌≤◌, ◌≡◌, ◌≢◌, refl, ◌∙◌, some, arith, length, get_elem?, update_at, length-update_at,
  get_elem?-update_at, ◌==◌, inl, inr, Bool-cases, update_at_found, ⊎_elim,
}
use diffuzzer.Content.Bytes.{IsFit, bytes}
use diffuzzer.Node.{File, Dir, FileDescriptor}
use diffuzzer.Node.Children.{Values}
use diffuzzer.Fs.State.{AbstractFs}
use diffuzzer.Fs.Valid.{NodeOf, Points, IsValid, Grows, Values-Grows, Points-files}

-- A directory changed in a way that keeps its children in range.
pub update_dir-IsValid :
    (s : AbstractFs) (i : ℕ) (f : Dir → Dir)
    → ((d : Dir) → Values (NodeOf s) d.children → Values (NodeOf s) (f d).children)
    → IsValid s
    → IsValid (record s { dirs = update_at s.dirs i f })
update_dir-IsValid s i f keep h = record {
  root = omega (arith, h.root, len);
  children = λ j d e.
      let (x, ex, how) = update_at_found s.dirs i j f d e in
      Values-Grows s t grows d.children (
        ⊎_elim (λ (here : (i ≡ j) × (d ≡ f x)). rw here.1 (keep x (h.children j x ex)))
          (λ (there : (i ≢ j) × (d ≡ x)). rw there.1 (h.children j x ex)) how);
  points = λ j fd e. Points-files s t fd refl (h.points j fd e);
  fits = h.fits;
}
  where
    t : AbstractFs
    t = record s { dirs = update_at s.dirs i f }

    len : length (update_at s.dirs i f) ≡ length s.dirs
    len = length-update_at s.dirs i f

    grows : Grows s t
    grows = record { dirs = omega (arith, len); files = omega arith; symlinks = omega arith }

-- A file whose contents fit and do not get shorter.
pub update_file-IsValid :
    (s : AbstractFs) (i : ℕ) (g : File → File)
    → ((f : File)
        → get_elem? s.files i ≡ some f
        → IsFit (g f).content × (length (bytes f.content) ≤ length (bytes (g f).content)))
    → IsValid s
    → IsValid (record s { files = update_at s.files i g })
update_file-IsValid s i g keep h = record {
  root = h.root;
  children = λ j d e. Values-Grows s t grows d.children (h.children j d e);
  points = λ j fd e. moved fd (h.points j fd e);
  fits = λ j f e.
      let (x, ex, how) = update_at_found s.files i j g f e in
      ⊎_elim (λ (here : (i ≡ j) × (f ≡ g x)). rw here.1 (keep x (rw here.0 ex)).0)
        (λ (there : (i ≢ j) × (f ≡ x)). rw there.1 (h.fits j x ex)) how;
}
  where
    t : AbstractFs
    t = record s { files = update_at s.files i g }

    grows : Grows s t
    grows = record {
      dirs = omega arith;
      files = omega (arith, length-update_at s.files i g);
      symlinks = omega arith;
    }

    moved : (fd : FileDescriptor) → Points s fd → Points t fd
    moved fd p = elim (Bool-cases (i == fd.file)) [
      | inl same ↦
          let here : i ≡ fd.file = ground arith in
          record {
            target = g p.target;
            found = get_elem?-update_at s.files i fd.file g ∙ rw (same, p.found) refl;
            within = omega (arith, p.within, (keep p.target (rw here p.found)).1);
          }
      | inr other ↦ record {
        target = p.target;
        found = get_elem?-update_at s.files i fd.file g ∙ rw other p.found;
        within = p.within;
      }
    ]

-- A descriptor moved to an offset within the contents of its file.
pub update_descriptor-IsValid :
    (s : AbstractFs) (i : ℕ) (g : FileDescriptor → FileDescriptor)
    → ((fd : FileDescriptor) → get_elem? s.descriptors i ≡ some fd → Points s (g fd))
    → IsValid s
    → IsValid (record s { descriptors = update_at s.descriptors i g })
update_descriptor-IsValid s i g keep h = record {
  root = h.root;
  children = λ j d e. Values-Grows s t grows d.children (h.children j d e);
  points = λ j fd e.
      let (x, ex, how) = update_at_found s.descriptors i j g fd e in
      Points-files s t fd refl (
        ⊎_elim (λ (here : (i ≡ j) × (fd ≡ g x)). rw here.1 (keep x (rw here.0 ex)))
          (λ (there : (i ≢ j) × (fd ≡ x)). rw there.1 (h.points j x ex)) how);
  fits = h.fits;
}
  where
    t : AbstractFs
    t = record s { descriptors = update_at s.descriptors i g }

    grows : Grows s t
    grows = record { dirs = omega arith; files = omega arith; symlinks = omega arith }
