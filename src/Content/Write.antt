-- ===== src/Content/Write.antt =====
-- `Content::write` of content.rs on the bytes of a content.
use diffuzzer.Prelude.{
  ℕ, zero, suc, ◌+◌, ◌≤◌, ◌<◌, ◌≡◌, refl, sym, ap, ap₂, ◌∙◌, true, List, [], ◌∷◌, ◌++◌, append-nil,
  arith, length, take, drop, All, length-append, length-take, length-drop, take_all, drop_all,
  take-append-drop, subst, max, dec_lt, All-append, leb, u64_mod, add64_lem, retain,
}
use diffuzzer.Content.{
  SourceSlice, Content, Located, ok, nonempty, locate, truncate, all_nonempty, overwrite,
  check_written, write, write_back, max64,
}
use diffuzzer.Content.Bytes.{
  upto, expand, bytes, total, OfSlice, IsFit, length-upto, length-expand, expand-append,
  nonempty_of_OfSlice, size-length,
}
use diffuzzer.Content.Append.{written, to-written, slices-write_back, bytes-write_back}
use diffuzzer.Content.Locate.{Cut, locate-Cut}
use diffuzzer.Content.Truncate.{
  insert-append, truncate_from-append, retain-append, Truncated, retain-truncate,
}

-- What `write` makes of the bytes `e`: `n` source bytes from `src` on at offset `w`.
abbrev pub splice : ℕ → ℕ → ℕ → List ℕ → List ℕ
splice src w n e = take w e ++ (upto src n ++ drop (w + n) e)

pub record Spliced (src w n : ℕ) (e : List ℕ) (ts : List SourceSlice) : Type 0 where
  pub slices : All OfSlice ts
  pub bytes_eq : expand ts ≡ splice src w n e

drop-drop {ℓ} : {A : Type ℓ} (w n : ℕ) (e : List A) → drop n (drop w e) ≡ drop (w + n) e
drop-drop zero n e = ap (λ k. drop k e) {x = n} {y = zero + n} (omega arith)
drop-drop (suc w) n [] = drop_all n [] (omega arith) ∙ sym (drop_all (suc w + n) [] (omega arith))
drop-drop (suc w) n (x ∷ e) =
    drop-drop w n e ∙ ap (λ k. drop k (x ∷ e)) {x = suc (w + n)} {y = suc w + n} (omega arith)

-- The write proper: after the split, the new slice goes in and what it covers goes out.
overwrite_lem :
    (src w n : ℕ) (ss : List SourceSlice) (r : Located)
    → Cut 0 w ss r
    → total ss < u64_mod
    → 0 < n
    → src + n ≤ u64_mod
    → n < u64_mod
    → (ts : List SourceSlice) × (overwrite src n r ≡ ok ts) × Spliced src w n (expand ss) ts
overwrite_lem src w n ss r c fit lo hi small = (
  ts,
  result,
  record {
    slices = All-append OfSlice c.pre (written src n ∷ tail) c.pre_slices (omega arith, cut.slices);
    bytes_eq =
        expand-append c.pre (written src n ∷ tail)
        ∙ ap₂ ◌++◌ c.pre_bytes (
            ap₂ ◌++◌ (ap (upto src) (omega arith))
              (cut.cut ∙ ap (drop n) c.post_bytes ∙ drop-drop w n (expand ss)));
  },
)
  where
    tail : List SourceSlice
    tail = retain nonempty (truncate n c.post)

    ts : List SourceSlice
    ts = c.pre ++ written src n ∷ tail

    pre_fit : total c.pre < u64_mod
    pre_fit = omega (
      arith,
      length-expand c.pre,
      length-expand ss,
      ap length c.pre_bytes,
      length-take w (expand ss),
    )

    post_fit : total c.post < u64_mod
    post_fit = omega (
      arith,
      length-expand c.post,
      length-expand ss,
      ap length c.post_bytes,
      length-drop w (expand ss),
    )

    cut : Truncated n c.post tail
    cut = retain-truncate n c.post c.post_slices post_fit small

    zero_add : 0 + length c.pre ≡ length c.pre
    zero_add = omega arith

    succ : length c.pre + 1 ≡ suc (length c.pre)
    succ = omega arith

    within : leb (length c.pre) (length (c.pre ++ c.post)) ≡ true
    within = ground (arith, length-append c.pre c.post)

    new_fits : OfSlice (written src n)
    new_fits = omega arith

    result : overwrite src n r ≡ ok ts
    result = rw c.result (
        unfold overwrite in
        rw
          (
            zero_add,
            within,
            to-written src n lo hi,
            insert-append c.pre c.post (written src n),
            succ,
            truncate_from-append c.pre c.post (written src n) n,
            retain-append c.pre (written src n ∷ truncate n c.post) c.pre_slices pre_fit,
            nonempty_of_OfSlice (written src n) new_fits (omega arith),
          )
          refl)

-- At the end a write appends.
splice-length : (src n : ℕ) (e : List ℕ) → splice src (length e) n e ≡ e ++ upto src n
splice-length src n e =
    rw (take_all (length e) e (omega arith), drop_all (length e + n) e (omega arith))
      (ap (◌++◌ e) (append-nil (upto src n)))

splice_nothing : (src w : ℕ) (e : List ℕ) → splice src w 0 e ≡ e
splice_nothing src w e =
    ap (λ k. take w e ++ drop k e) {x = w + 0} {y = w} (omega arith) ∙ take-append-drop w e

-- The length of the result, if the write begins no later than the end.
pub length-splice :
    (src w n : ℕ) (e : List ℕ) → w ≤ length e → length (splice src w n e) ≡ max (w + n) (length e)
length-splice src w n e h = omega (
  arith,
  length-append (take w e) (upto src n ++ drop (w + n) e),
  length-append (upto src n) (drop (w + n) e),
  length-take w e,
  length-upto src n,
  length-drop (w + n) e,
)

all_nonempty_lem :
    (ss : List SourceSlice) → All OfSlice ss → total ss < u64_mod → all_nonempty ss ≡ true
unfolding all_nonempty
all_nonempty_lem [] h fit = refl
all_nonempty_lem (s ∷ ss) h fit =
    rw (nonempty_of_OfSlice s h.0 (omega arith)) (all_nonempty_lem ss h.1 (omega arith))

-- A write has its effect: it returns, without a failed assertion, the content with these bytes.
pub record Wrote (src w n : ℕ) (c : Content) : Type 0 where
  pub after : Content
  pub returned : write src w n c ≡ ok after
  pub fits : IsFit after
  pub bytes_eq : bytes after ≡ splice src w n (bytes c)

write_at_end :
    (src n : ℕ) (c : Content)
    → IsFit c
    → src + n ≤ u64_mod
    → length (bytes c) + n < u64_mod
    → Wrote src (length (bytes c)) n c
unfolding write
write_at_end src n c h hi fit = record {
  after = write_back src n c;
  returned = rw (size-length c h) (ground arith);
  fits = record {
    slices = slices-write_back src n c hi h.slices;
    sized = omega (arith, ap length grown, length-append (bytes c) (upto src n), length-upto src n);
  };
  bytes_eq = grown ∙ sym (splice-length src n (bytes c));
}
  where
    grown : bytes (write_back src n c) ≡ bytes c ++ upto src n
    grown = bytes-write_back src n c hi

check_written_lem :
    (k : ℕ) (ts : List SourceSlice)
    → All OfSlice ts
    → length (expand ts) < u64_mod
    → k ≡ length (expand ts)
    → check_written k (ok ts) ≡ ok (record { slices = ts })
unfolding check_written
check_written_lem k ts h fit e =
    rw
      (
        size-length (record { slices = ts }) (record { slices = h; sized = fit }),
        all_nonempty_lem ts h (omega (arith, length-expand ts)),
      )
      (ground arith)

write_inside :
    (src w n : ℕ) (c : Content)
    → IsFit c
    → w < length (bytes c)
    → src + n ≤ u64_mod
    → w + n < u64_mod
    → Wrote src w n c
unfolding write
write_inside src w zero c h lt hi fit = record {
  after = c;
  returned =
      rw (size-length c h, add64_lem w 0 fit)
        (ground
          (arith, check_written_lem (max64 (w + 0) (length (bytes c))) c.slices h.slices h.sized));
  fits = h;
  bytes_eq = sym (splice_nothing src w (bytes c));
}
write_inside src w (suc n) c h lt hi fit =
    let (ts, e, s) =
      overwrite_lem src w (suc n) c.slices (locate 0 0 w c.slices) cut (omega (arith, len))
        (omega arith) hi (omega arith) in
    let sized : length (expand ts) ≡ max (w + suc n) (length (bytes c)) =
      ap length s.bytes_eq ∙ length-splice src w (suc n) (bytes c) (omega arith) in
    record {
      after = record { slices = ts };
      returned =
          rw (size-length c h, add64_lem w (suc n) fit, e)
            (ground (arith, check_written_lem (max64 (w + suc n) (length (bytes c))) ts s.slices));
      fits = record { slices = s.slices; sized = omega (arith, h.sized) };
      bytes_eq = s.bytes_eq;
    }
  where
    len : length (bytes c) ≡ total c.slices
    len = length-expand c.slices

    cut : Cut 0 w c.slices (locate 0 0 w c.slices)
    cut =
        subst (λ k. Cut 0 k c.slices (locate 0 0 w c.slices)) (omega arith)
          (locate-Cut 0 0 w c.slices h.slices (omega (arith, len, h.sized)) (omega arith)
            (omega (arith, len)))

-- A write that begins no later than the end, and in which no offset reaches 2^64, returns the
-- content whose bytes are the old ones with `n` source bytes from `src` on put in at `w`. The new
-- content fits again, and no assertion fails.
pub write_splices :
    (src w n : ℕ) (c : Content)
    → IsFit c
    → w ≤ length (bytes c)
    → src + n ≤ u64_mod
    → w + n < u64_mod
    → Wrote src w n c
write_splices src w n c h le hi fit = elim (dec_lt w (length (bytes c))) [
  | yes lt ↦ write_inside src w n c h lt hi fit
  | no ge ↦ subst (λ k. Wrote src k n c) (omega arith) (write_at_end src n c h hi (omega arith))
]
