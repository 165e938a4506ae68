-- ===== src/Content/Locate.antt =====
-- The first loop of `Content::write` of content.rs, which looks for the offset of the write.
use diffuzzer.Prelude.{
  ℕ, ◌+◌, ◌-◌, ◌≤◌, ◌<◌, ◌≡◌, refl, sym, ap, subst, ◌∙◌, List, [], ◌∷◌, ◌++◌, append-nil, arith,
  length, take, drop, All, take-append_ge, drop-append_ge, u64_mod, add64_lem, sub64_lem, inl, inr,
  Bool-cases, ltb, ◌==◌,
}
use diffuzzer.Content.{SourceSlice, Located, located, split_slice, keep, locate}
use diffuzzer.Content.Bytes.{
  upto, width, expand, total, OfSlice, length-upto, take-upto-append, drop-upto-append,
  slice_size-eq,
}

-- Where the first loop splits the slices: before the write and from the write on.
pub record Cut (i n : ℕ) (ss : List SourceSlice) (r : Located) : Type 0 where
  pub pre : List SourceSlice
  pub post : List SourceSlice
  pub result : r ≡ located (pre ++ post) (i + length pre)
  pub pre_slices : All OfSlice pre
  pub post_slices : All OfSlice post
  pub pre_bytes : expand pre ≡ take n (expand ss)
  pub post_bytes : expand post ≡ drop n (expand ss)

split_slice-Cut :
    (s : SourceSlice) (n : ℕ) (ss : List SourceSlice) (i : ℕ)
    → OfSlice s
    → All OfSlice ss
    → width s < u64_mod
    → 0 < n
    → n < width s
    → Cut i n (s ∷ ss) (split_slice s n ss i)
split_slice-Cut s n ss i hs hss fit lo hi = record {
  pre = fst ∷ [];
  post = snd ∷ ss;
  result =
      unfold split_slice in
      rw
        (
          sub64_lem n 1 (omega arith) (omega arith),
          add64_lem s.from (n - 1) (omega arith),
          add64_lem (s.from + (n - 1)) 1 (omega arith),
          slice_size-eq s hs fit,
          mid,
          next,
          slice_size-eq fst (omega arith) (omega arith),
          slice_size-eq snd (omega arith) (omega arith),
          add64_lem (width fst) (width snd) (omega arith),
        )
        (ground arith);
  pre_slices = omega arith;
  post_slices = (omega arith, hss);
  pre_bytes =
      append-nil _
      ∙ ap (upto s.from) (omega arith)
      ∙ sym (take-upto-append n s.from (width s) (expand ss) (omega arith));
  post_bytes =
      ap (λ k. upto (s.from + n) k ++ expand ss) (omega arith)
      ∙ sym (drop-upto-append n s.from (width s) (expand ss) (omega arith));
}
  where
    fst : SourceSlice
    fst = record { from = s.from; to = s.from + n - 1 }

    snd : SourceSlice
    snd = record { from = s.from + n; to = s.to }

    mid : s.from + (n - 1) ≡ s.from + n - 1
    mid = omega arith

    next : s.from + n - 1 + 1 ≡ s.from + n
    next = omega arith

-- A slice that ends before the write stays where it is.
keep-Cut :
    (i n : ℕ) (s : SourceSlice) (ss : List SourceSlice) (r : Located)
    → OfSlice s
    → width s ≤ n
    → Cut (i + 1) (n - width s) ss r
    → Cut i n (s ∷ ss) (keep s r)
keep-Cut i n s ss r hs h c = record {
  pre = s ∷ c.pre;
  post = c.post;
  result = rw c.result (ap (located (s ∷ (c.pre ++ c.post))) (omega arith));
  pre_slices = (hs, c.pre_slices);
  post_slices = c.post_slices;
  pre_bytes = rw (c.pre_bytes, take-append_ge n (upto s.from (width s)) (expand ss) long, len) refl;
  post_bytes = rw (drop-append_ge n (upto s.from (width s)) (expand ss) long, len) c.post_bytes;
}
  where
    len : length (upto s.from (width s)) ≡ width s
    len = length-upto s.from (width s)

    long : length (upto s.from (width s)) ≤ n
    long = omega (arith, len)

pub locate-Cut :
    (i curr w : ℕ) (ss : List SourceSlice)
    → All OfSlice ss
    → curr + total ss < u64_mod
    → curr ≤ w
    → w < curr + total ss
    → Cut i (w - curr) ss (locate i curr w ss)
unfolding locate
locate-Cut i curr w [] h fit lo hi = absurd (omega arith)
locate-Cut i curr w (s ∷ ss) h fit lo hi =
    rw (slice_size-eq s h.0 (omega arith), add64_lem curr (width s) (omega arith))
      (elim (Bool-cases (curr == w)) [
        | inl e ↦ rw e (at_start (ground arith))
        | inr ne ↦ rw ne (elim (Bool-cases (ltb w (curr + width s))) [
          | inl inside ↦
              rw (inside, sub64_lem w curr lo (omega arith))
                (split_slice-Cut s (w - curr) ss i h.0 h.1 (omega arith) (ground arith)
                  (ground arith))
          | inr past ↦ rw past (
              keep-Cut i (w - curr) s ss (locate (i + 1) (curr + width s) w ss) h.0 (ground arith) (
                subst (λ k. Cut (i + 1) k ss (locate (i + 1) (curr + width s) w ss)) (omega arith)
                  (locate-Cut (i + 1) (curr + width s) w ss h.1 (omega arith) (ground arith)
                    (omega arith))))
        ])
      ])
  where
    zero_left : curr ≡ w → w - curr ≡ 0
    zero_left e = omega arith

    at_start : curr ≡ w → Cut i (w - curr) (s ∷ ss) (located (s ∷ ss) i)
    at_start e = record {
      pre = [];
      post = s ∷ ss;
      result = ap (located (s ∷ ss)) (omega arith);
      pre_slices = tt;
      post_slices = h;
      pre_bytes = sym (ap (λ k. take k (expand (s ∷ ss))) (zero_left e));
      post_bytes = sym (ap (λ k. drop k (expand (s ∷ ss))) (zero_left e));
    }
