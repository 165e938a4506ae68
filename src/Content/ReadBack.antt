-- ===== src/Content/ReadBack.antt =====
-- `Content::read` of content.rs after `Content::write`.
use diffuzzer.Prelude.{
  ℕ, ◌+◌, ◌-◌, ◌≤◌, ◌<◌, ◌≡◌, ap, ◌∙◌, List, ◌++◌, arith, length, take, drop, length-take,
  length-append, take-append_le, take_all, drop-append_ge, u64_mod,
}
use diffuzzer.Content.{Content, ok, read, write}
use diffuzzer.Content.Bytes.{bytes, IsFit, upto, length-upto}
use diffuzzer.Content.Write.{splice, write_splices}
use diffuzzer.Content.Read.{read_slice}

read_splice :
    (src w n : ℕ) (e : List ℕ) → w ≤ length e → take n (drop w (splice src w n e)) ≡ upto src n
read_splice src w n e h =
    let len : length (take w e) ≡ w = omega (arith, length-take w e) in
    let rest = upto src n ++ drop (w + n) e in
    ap (take n) (drop-append_ge w (take w e) rest (omega (arith, len)))
    ∙ ap (λ k. take n (drop k rest)) {x = w - length (take w e)} {y = 0} (omega (arith, len))
    ∙ take-append_le n (upto src n) (drop (w + n) e) (omega (arith, length-upto src n))
    ∙ take_all n (upto src n) (omega (arith, length-upto src n))

-- A write and a read of as many bytes from the same offset both return, and what is read is what was
-- written.
pub record ReadBack (src w n : ℕ) (c : Content) : Type 0 where
  pub after : Content
  pub found : Content
  pub written : write src w n c ≡ ok after
  pub returned : read w n after ≡ ok found
  pub bytes_eq : bytes found ≡ upto src n

-- After a write that begins no later than the end, and in which no offset reaches 2^64, a read from the
-- same offset returns exactly the `n` source bytes from `src` on, also where the write has put them over
-- older slices, through slices or past the old end.
pub read-write :
    (src w n : ℕ) (c : Content)
    → IsFit c
    → w ≤ length (bytes c)
    → src + n ≤ u64_mod
    → w + n < u64_mod
    → ReadBack src w n c
read-write src w n c h le hi fit =
    let wrote = write_splices src w n c h le hi fit in
    let longer : w ≤ length (bytes wrote.after) = omega (
      arith,
      ap length wrote.bytes_eq,
      length-append (take w (bytes c)) (upto src n ++ drop (w + n) (bytes c)),
      length-take w (bytes c),
    ) in
    let read_back = read_slice w n wrote.after wrote.fits longer (omega arith) in
    record {
      after = wrote.after;
      found = read_back.found;
      written = wrote.returned;
      returned = read_back.returned;
      bytes_eq =
          read_back.bytes_eq
          ∙ ap (λ e. take n (drop w e)) wrote.bytes_eq
          ∙ read_splice src w n (bytes c) le;
    }
