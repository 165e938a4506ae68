-- ===== src/Fs/Valid/Pushes.antt =====
-- The invariant of the abstract file system when a node or a descriptor is added.
use diffuzzer.Prelude.{
  ℕ, ◌+◌, ◌<◌, ◌≡◌, refl, some, [], ◌∷◌, ◌++◌, arith, length, get_elem?, length-append,
  concat_found, get_elem?-append_left, get_elem?-lt, ⊎_elim,
}
use diffuzzer.Content.Bytes.{IsFit}
use diffuzzer.Node.{File, Symlink}
use diffuzzer.Fs.State.{AbstractFs}
use diffuzzer.Fs.Valid.{IsValid, Grows, Values-Grows, Points-files}

pub push_dir-IsValid :
    (s : AbstractFs)
    → IsValid s
    → IsValid (record s { dirs = s.dirs ++ (record { children = [] } ∷ []) })
push_dir-IsValid s h = record {
  root = omega (arith, h.root, len);
  children = λ j d e. Values-Grows s t grows d.children (
      ⊎_elim (λ (old : get_elem? s.dirs j ≡ some d). h.children j d old)
        (λ (last : d ≡ record { children = [] }). rw last tt)
        (concat_found s.dirs (record { children = [] }) j d e));
  points = λ j fd e. Points-files s t fd refl (h.points j fd e);
  fits = h.fits;
}
  where
    t : AbstractFs
    t = record s { dirs = s.dirs ++ (record { children = [] } ∷ []) }

    len : length t.dirs ≡ length s.dirs + 1
    len = length-append s.dirs (record { children = [] } ∷ [])

    grows : Grows s t
    grows = record { dirs = omega (arith, len); files = omega arith; symlinks = omega arith }

pub push_symlink-IsValid :
    (s : AbstractFs) (l : Symlink)
    → IsValid s
    → IsValid (record s { symlinks = s.symlinks ++ (l ∷ []) })
push_symlink-IsValid s l h = record {
  root = h.root;
  children = λ j d e. Values-Grows s t grows d.children (h.children j d e);
  points = λ j fd e. Points-files s t fd refl (h.points j fd e);
  fits = h.fits;
}
  where
    t : AbstractFs
    t = record s { symlinks = s.symlinks ++ (l ∷ []) }

    grows : Grows s t
    grows = record {
      dirs = omega arith;
      files = omega arith;
      symlinks = omega (arith, length-append s.symlinks (l ∷ []));
    }

pub push_file-IsValid :
    (s : AbstractFs) (x : File)
    → IsFit x.content
    → IsValid s
    → IsValid (record s { files = s.files ++ (x ∷ []) })
push_file-IsValid s x fit h = record {
  root = h.root;
  children = λ j d e. Values-Grows s t grows d.children (h.children j d e);
  points = λ j fd e.
      let p = h.points j fd e in
      record {
        target = p.target;
        found = get_elem?-append_left s.files (x ∷ []) fd.file p.target p.found;
        within = p.within;
      };
  fits = λ j f e.
      ⊎_elim (λ (old : get_elem? s.files j ≡ some f). h.fits j f old)
        (λ (last : f ≡ x). rw last fit) (concat_found s.files x j f e);
}
  where
    t : AbstractFs
    t = record s { files = s.files ++ (x ∷ []) }

    grows : Grows s t
    grows = record {
      dirs = omega arith;
      files = omega (arith, length-append s.files (x ∷ []));
      symlinks = omega arith;
    }

-- A descriptor on a file of the system, at its start.
pub push_descriptor-IsValid :
    (s : AbstractFs) (i : ℕ)
    → i < length s.files
    → IsValid s
    → IsValid (record s { descriptors = s.descriptors ++ (record { file = i; offset = 0 } ∷ []) })
push_descriptor-IsValid s i lt h = record {
  root = h.root;
  children = λ j d e. Values-Grows s t grows d.children (h.children j d e);
  points = λ j fd e.
      ⊎_elim
        (λ (old : get_elem? s.descriptors j ≡ some fd).
          Points-files s t fd refl (h.points j fd old))
        (λ (last : fd ≡ record { file = i; offset = 0 }).
          let (f, ef) = get_elem?-lt s.files i lt in
          rw last (record { target = f; found = ef; within = omega arith }))
        (concat_found s.descriptors (record { file = i; offset = 0 }) j fd e);
  fits = h.fits;
}
  where
    t : AbstractFs
    t = record s { descriptors = s.descriptors ++ (record { file = i; offset = 0 } ∷ []) }

    grows : Grows s t
    grows = record { dirs = omega arith; files = omega arith; symlinks = omega arith }
