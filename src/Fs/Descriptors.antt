-- ===== src/Fs/Descriptors.antt =====
-- The operations of fs.rs on descriptors, on a valid file system.
use diffuzzer.Prelude.{
  ℕ, ◌+◌, ◌≤◌, ◌<◌, ◌≡◌, refl, ap, ◌∙◌, Bool, true, not, some, arith, length, get_elem?, leb, add64,
  u64_mod, add64_lem, subst, drop, length-take, length-drop, lt_of_get_elem?, length-update_at,
  Option, none,
}
use diffuzzer.Content
use diffuzzer.Content.{Content, size}
use diffuzzer.Content.Bytes.{bytes, size-length}
use diffuzzer.Content.Read.{read_slice}
use diffuzzer.PathName.{PathName}
use diffuzzer.Node.{File, FileDescriptor}
use diffuzzer.Fs.State.{AbstractFs, file, descriptor, file_mut, descriptor_mut, assert}
use diffuzzer.Fs.Ops
use diffuzzer.Fs.Ops.{opened, opened_by, is_some, of_content}
use diffuzzer.Fs.Valid.{IsValid}
use diffuzzer.Fs.Valid.Pushes.{push_descriptor-IsValid}
use diffuzzer.Fs.Valid.Updates.{update_file-IsValid, update_descriptor-IsValid}
use diffuzzer.Fs.Resolved.{Good, Good-ok, Good-mono, Good-unwrap, Good-ok_or}
use diffuzzer.Fs.Safe.{
  Safe, Safe-pure, Safe-raise, Safe-query, Safe-if, Safe-mono, Safe-modify, Safe-bind,
}
use diffuzzer.Fs.Keeps.{record_op-Safe}
use diffuzzer.Fs.Linking.{query_file-Safe}

-- A valid state in which file `i` is `f`.
abbrev pub WithFile : ℕ → File → AbstractFs → Type 0
WithFile i f s = IsValid s × (get_elem? s.files i ≡ some f)

-- A valid state in which descriptor `i` is `fd`, of the file `f`.
abbrev pub WithOpen : ℕ → FileDescriptor × File → AbstractFs → Type 0
WithOpen i x s =
    (IsValid s × (get_elem? s.descriptors i ≡ some x.0)) × (get_elem? s.files x.0.file ≡ some x.1)

pub file-Good :
    (s : AbstractFs) (i : ℕ)
    → i < length s.files
    → Good (λ f. get_elem? s.files i ≡ some f) (file s i)
unfolding file
file-Good s i lt = Good-unwrap s.files i lt

descriptor-Good :
    (s : AbstractFs) (i : ℕ) → Good (λ d. get_elem? s.descriptors i ≡ some d) (descriptor s i)
unfolding descriptor
descriptor-Good s i = Good-ok_or (get_elem? s.descriptors i) _

-- The offset of an open descriptor is within its file.
pub within :
    (i : ℕ) (x : FileDescriptor × File) (s : AbstractFs)
    → WithOpen i x s
    → x.0.offset ≤ length (bytes x.1.content)
within i x s v =
    let p = v.0.0.points i x.0 v.0.1 in
    let same : p.target ≡ x.1 = ground (arith, p.found, v.1) in
    subst (λ f. x.0.offset ≤ length (bytes f.content)) same p.within

pub opened-Safe :
    (P : AbstractFs → Type 0) (i : ℕ)
    → ((s : AbstractFs) → P s → IsValid s)
    → Safe P (opened i) (λ x s. P s × WithOpen i x s)
unfolding opened file
opened-Safe P i v =
    Safe-bind _ (λ d s. P s × (get_elem? s.descriptors i ≡ some d)) _ _ _
      (Safe-query _ _ _ v (λ s p. Good-mono _ _ _ (λ _ e. (p, e)) (descriptor-Good s i)))
      λ d.
        Safe-bind _ (λ f s. P s × WithOpen i (d, f) s) _ _ _
          (Safe-query _ _ _ (λ s p. v s p.0)
            (λ s p. Good-mono _ _ _ (λ _ e. (p.0, ((v s p.0, p.1), e))) (found s d (v s p.0, p.1))))
          λ f.
            Safe-if _ _ (not (opened_by f.descriptor i)) _ _
              (λ _. Safe-raise _ _ _ (λ s p. v s p.0)) λ _. Safe-pure _ _ _ (λ s p. p)
  where
    found :
        (s : AbstractFs) (d : FileDescriptor)
        → IsValid s × (get_elem? s.descriptors i ≡ some d)
        → Good (λ f. get_elem? s.files d.file ≡ some f) (file s d.file)
    found s d v = let p = v.0.points i d v.1 in rw p.found (Good-ok _ _ refl)

-- A change of a file that keeps its contents, and then also the number of files.
mark_counted-Safe :
    (i : ℕ) (d : Option ℕ)
    → Safe
        (λ s. IsValid s × (i < length s.files))
        (file_mut i (λ x. record x { descriptor = d }))
        (λ _ s. IsValid s × (i < length s.files))
unfolding file_mut
mark_counted-Safe i d =
    Safe-bind _ (λ _ s. IsValid s × (i < length s.files)) _ _ _
      (Safe-query _ _ _ (λ s p. p.0) (λ s p. Good-mono _ _ _ (λ _ _. p) (file-Good s i p.1)))
      λ f. Safe-modify _ _ _ λ s p. (
        update_file-IsValid s i _ (λ f e. (p.0.fits i f e, omega arith)) p.0,
        omega (arith, p.1, length-update_at s.files i (λ x. record x { descriptor = d })),
      )

mark-Safe :
    (P : AbstractFs → Type 0) (i : ℕ) (d : Option ℕ)
    → ((s : AbstractFs) → P s → IsValid s × (i < length s.files))
    → Safe P (file_mut i (λ x. record x { descriptor = d })) (λ _. IsValid)
mark-Safe P i d v = Safe-mono _ _ _ _ _ v (λ _ s h. h.0) (mark_counted-Safe i d)

pub open_file-Safe :
    (fuel : ℕ) (path : PathName) → Safe IsValid (Ops.open_file fuel path) (λ _. IsValid)
unfolding Ops.open_file Ops.push_descriptor
open_file-Safe fuel path =
    Safe-bind _ (λ _. IsValid) _ _ _ (Safe-query _ _ _ (λ s v. v) (λ s v. Good-ok _ _ v))
      λ des.
        Safe-bind _ (λ x s. IsValid s × (x.1 < length s.files)) _ _ _
          (query_file-Safe _ fuel path (λ s v. v))
          λ x.
            Safe-bind _ (λ _ s. IsValid s × (x.1 < length s.files)) _ _ _
              (Safe-query _ _ _ (λ s v. v.0)
                (λ s v. Good-mono _ _ _ (λ _ _. v) (file-Good s x.1 v.1)))
              λ f.
                Safe-if _ _ (is_some f.descriptor) _ _ (λ _. Safe-raise _ _ _ (λ s v. v.0))
                  λ _.
                    Safe-bind _ (λ _ s. IsValid s × (x.1 < length s.files)) _ _ _
                      (mark_counted-Safe x.1 (some des))
                      λ _.
                        Safe-bind _ (λ _. IsValid) _ _ _
                          (Safe-modify _ _ _ (λ s v. push_descriptor-IsValid s x.1 v.1 v.0))
                          λ _.
                            Safe-bind _ (λ _. IsValid) _ _ _ (record_op-Safe _)
                              λ _. Safe-pure _ _ _ (λ s v. v)

pub close-Safe : (i : ℕ) → Safe IsValid (Ops.close i) (λ _. IsValid)
unfolding Ops.close
close-Safe i =
    Safe-bind _ (λ x s. IsValid s × WithOpen i x s) _ _ _ (opened-Safe _ i (λ s v. v))
      λ x.
        Safe-bind _ (λ _. IsValid) _ _ _
          (mark-Safe _ x.0.file none (λ s v. (v.0, lt_of_get_elem? s.files x.0.file x.1 v.1.1)))
          λ _. record_op-Safe _

pub fsync-Safe : (i : ℕ) → Safe IsValid (Ops.fsync i) (λ _. IsValid)
unfolding Ops.fsync
fsync-Safe i =
    Safe-bind _ (λ x s. IsValid s × WithOpen i x s) _ _ _ (opened-Safe _ i (λ s v. v))
      λ x. Safe-mono _ _ _ _ _ (λ s v. v.0) (λ _ s v. v) (record_op-Safe _)

-- `assert!` of what holds in every state.
pub assert-Safe :
    (P : AbstractFs → Type 0) (b : Bool)
    → ((s : AbstractFs) → P s → IsValid s × (b ≡ true))
    → Safe P (assert b) (λ _. P)
unfolding assert
assert-Safe P b v = Safe-query _ _ _ (λ s p. (v s p).0) (λ s p. rw (v s p).1 (Good-ok _ _ p))

-- The descriptor moved over bytes that its file has, and the check that it is within the file.
pub advance-Safe :
    (i : ℕ) (x : FileDescriptor × File) (n : ℕ)
    → Safe
        (λ s. WithOpen i x s × (x.0.offset + n ≤ length (bytes x.1.content)))
        (descriptor_mut i (λ d. record d { offset = add64 d.offset n }))
        (λ _ s. IsValid s × (leb (add64 x.0.offset n) (size x.1.content) ≡ true))
unfolding descriptor_mut
advance-Safe i x n =
    Safe-bind _ (λ _ s. WithOpen i x s × (x.0.offset + n ≤ length (bytes x.1.content))) _ _ _
      (Safe-query _ _ _ (λ s v. v.0.0.0) (λ s v. Good-mono _ _ _ (λ _ _. v) (descriptor-Good s i)))
      λ d. Safe-modify _ _ _ λ s v.
        let fit = v.0.0.0.fits x.0.file x.1 v.0.1 in
        let sum : add64 x.0.offset n ≡ x.0.offset + n =
          add64_lem x.0.offset n (omega (arith, v, fit.sized)) in
        (
          update_descriptor-IsValid s i _
              (λ fd e.
                let same : fd ≡ x.0 = ground (arith, e, v.0.0.1) in
                rw same record { target = x.1; found = v.0.1; within = rw sum v.1 })
              v.0.0.0,
          rw (sum, size-length x.1.content fit) (ground (arith, v)),
        )

pub read-Safe : (i n : ℕ) → n < u64_mod → Safe IsValid (Ops.read i n) (λ _. IsValid)
unfolding Ops.read
read-Safe i n hn =
    Safe-bind _ (λ x s. IsValid s × WithOpen i x s) _ _ _ (opened-Safe _ i (λ s v. v))
      λ x.
        Safe-bind _ (λ c s. WithOpen i x s × (x.0.offset + size c ≤ length (bytes x.1.content))) _ _
          _ (Safe-query _ _ _ (λ s v. v.0) (λ s v. fetched s x v.1))
          λ c.
            Safe-bind _
              (λ _ s. IsValid s × (leb (add64 x.0.offset (size c)) (size x.1.content) ≡ true)) _ _ _
              (advance-Safe i x (size c))
              λ _.
                Safe-bind _ (λ _. IsValid) _ _ _
                  (Safe-mono _ _ _ _ _ (λ s v. v) (λ _ s v. v.0) (assert-Safe _ _ (λ s v. v)))
                  λ _.
                    Safe-bind _ (λ _. IsValid) _ _ _ (record_op-Safe _)
                      λ _. Safe-pure _ _ _ (λ s v. v)
  where
    fetched :
        (s : AbstractFs) (x : FileDescriptor × File)
        → WithOpen i x s
        → Good
            (λ c. WithOpen i x s × (x.0.offset + size c ≤ length (bytes x.1.content)))
            (of_content (Content.read x.0.offset n x.1.content))
    fetched s x v =
        let le = within i x s v in
        let r = read_slice x.0.offset n x.1.content (v.0.0.fits x.0.file x.1 v.1) le hn in
        let taken = ap length r.bytes_eq ∙ length-take n (drop x.0.offset (bytes x.1.content)) in
        let left = length-drop x.0.offset (bytes x.1.content) in
        rw r.returned
          (Good-ok _ _ (v, rw (size-length r.found r.fits) (omega (arith, le, taken, left))))
