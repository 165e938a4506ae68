-- ===== src/Fs/Writing.antt =====
-- `write` of fs.rs on a valid file system.
use diffuzzer.Prelude.{
  ℕ, ◌+◌, ◌≤◌, ◌<◌, ◌≡◌, refl, ap, ◌∙◌, true, some, arith, length, get_elem?, leb, add64, u64_mod,
  get_elem?-update_at, ◌==◌, lt_of_get_elem?,
}
use diffuzzer.Content
use diffuzzer.Content.{Content, size}
use diffuzzer.Content.Bytes.{IsFit, bytes}
use diffuzzer.Content.Write.{write_splices, length-splice}
use diffuzzer.Node.{File, FileDescriptor}
use diffuzzer.Fs.State.{AbstractFs, file_mut}
use diffuzzer.Fs.Ops
use diffuzzer.Fs.Ops.{opened, opened_by, is_some, of_content}
use diffuzzer.Fs.Valid.{IsValid}
use diffuzzer.Fs.Valid.Updates.{update_file-IsValid}
use diffuzzer.Fs.Resolved.{Good, Good-ok, Good-mono}
use diffuzzer.Fs.Safe.{Safe, Safe-query, Safe-mono, Safe-modify, Safe-bind}
use diffuzzer.Fs.Keeps.{record_op-Safe}
use diffuzzer.Fs.Descriptors.{WithOpen, file-Good, within, opened-Safe, assert-Safe, advance-Safe}

-- A write at the descriptor's offset does not reach past the largest 64-bit number.
abbrev pub HasRoom : ℕ → ℕ → AbstractFs → Type 0
HasRoom i n s =
    (fd : FileDescriptor) → get_elem? s.descriptors i ≡ some fd → fd.offset + n < u64_mod

-- The contents after a write fit, are no shorter, and hold what was written.
abbrev Written : FileDescriptor × File → ℕ → Content → Type 0
Written x n c =
    (IsFit c × (length (bytes x.1.content) ≤ length (bytes c)))
    × (x.0.offset + n ≤ length (bytes c))

==_refl : (n : ℕ) → (n == n) ≡ true
==_refl n = ground arith

store-Safe :
    (i n : ℕ) (x : FileDescriptor × File) (c : Content)
    → Safe
        (λ s. WithOpen i x s × Written x n c)
        (file_mut x.0.file (λ f. record f { content = c }))
        (λ _ s.
          WithOpen i (x.0, record x.1 { content = c }) s × (x.0.offset + n ≤ length (bytes c)))
unfolding file_mut
store-Safe i n x c =
    Safe-bind _ (λ _ s. WithOpen i x s × Written x n c) _ _ _
      (Safe-query _ _ _ (λ s v. v.0.0.0)
        (λ s v.
          Good-mono _ _ _ (λ _ _. v)
            (file-Good s x.0.file (lt_of_get_elem? s.files x.0.file x.1 v.0.1))))
      λ f. Safe-modify _ _ _ λ s v. (
        (
          (
            update_file-IsValid s x.0.file _
                (λ f e. let same : f ≡ x.1 = ground (arith, e, v.0.1) in rw same (v.1.0.0, v.1.0.1))
                v.0.0.0,
            v.0.0.1,
          ),
          get_elem?-update_at s.files x.0.file x.0.file (λ f. record f { content = c })
              ∙ rw (==_refl x.0.file, v.0.1) refl,
        ),
        v.1.1,
      )

pub write-Safe :
    (i src n : ℕ)
    → src + n ≤ u64_mod
    → Safe (λ s. IsValid s × HasRoom i n s) (Ops.write i src n) (λ _. IsValid)
unfolding Ops.write
write-Safe i src n hi =
    Safe-bind _ (λ x s. (IsValid s × HasRoom i n s) × WithOpen i x s) _ _ _
      (opened-Safe _ i (λ s v. v.0))
      λ x.
        Safe-bind _ (λ c s. WithOpen i x s × Written x n c) _ _ _
          (Safe-query _ _ _ (λ s v. v.0.0) (λ s v. written s x v.1 (v.0.1 x.0 v.1.0.1)))
          λ c.
            Safe-bind _
              (λ _ s.
                WithOpen i (x.0, record x.1 { content = c }) s
                × (x.0.offset + n ≤ length (bytes c)))
              _ _ _ (store-Safe i n x c)
              λ _.
                Safe-bind _ (λ _ s. IsValid s × (leb (add64 x.0.offset n) (size c) ≡ true)) _ _ _
                  (advance-Safe i (x.0, record x.1 { content = c }) n)
                  λ _.
                    Safe-bind _ (λ _. IsValid) _ _ _
                      (Safe-mono _ _ _ _ _ (λ s v. v) (λ _ s v. v.0) (assert-Safe _ _ (λ s v. v)))
                      λ _. record_op-Safe _
  where
    written :
        (s : AbstractFs) (x : FileDescriptor × File)
        → WithOpen i x s
        → x.0.offset + n < u64_mod
        → Good
            (λ c. WithOpen i x s × Written x n c)
            (of_content (Content.write src x.0.offset n x.1.content))
    written s x v room =
        let le = within i x s v in
        let r =
          write_splices src x.0.offset n x.1.content (v.0.0.fits x.0.file x.1 v.1) le hi room in
        let len = ap length r.bytes_eq ∙ length-splice src x.0.offset n (bytes x.1.content) le in
        rw r.returned (Good-ok _ _ (v, ((r.fits, omega (arith, len)), omega (arith, len))))
