-- ===== src/Content/Truncate.antt =====
-- The second loop of `Content::write` of content.rs, which cuts off what the write covers.
use diffuzzer.Prelude.{
  ℕ, suc, ◌+◌, ◌-◌, ◌≤◌, ◌<◌, ◌≡◌, refl, sym, ap, ◌∙◌, false, List, [], ◌∷◌, ◌++◌, arith, length,
  drop, All, drop_all, drop-append_ge, u64_mod, add64_lem, sub64_lem, retain, inl, inr, Bool-cases,
  ltb,
}
use diffuzzer.Content.{SourceSlice, slice_size, nonempty, insert, truncate, truncate_from, emptied}
use diffuzzer.Content.Bytes.{
  upto, width, expand, total, OfSlice, length-upto, drop-upto-append, slice_size-eq,
  nonempty_of_OfSlice,
}

pub insert-append :
    (pre post : List SourceSlice) (x : SourceSlice)
    → insert (length pre) x (pre ++ post) ≡ pre ++ x ∷ post
unfolding insert
insert-append [] post x = refl
insert-append (s ∷ pre) post x = ap (◌∷◌ s) (insert-append pre post x)

pub truncate_from-append :
    (pre post : List SourceSlice) (x : SourceSlice) (n : ℕ)
    → truncate_from (suc (length pre)) n (pre ++ x ∷ post) ≡ pre ++ x ∷ truncate n post
unfolding truncate_from
truncate_from-append [] post x n = refl
truncate_from-append (s ∷ pre) post x n = ap (◌∷◌ s) (truncate_from-append pre post x n)

-- Slices that fit pass the test of `retain`.
pub retain-append :
    (pre post : List SourceSlice)
    → All OfSlice pre
    → total pre < u64_mod
    → retain nonempty (pre ++ post) ≡ pre ++ retain nonempty post
retain-append [] post h fit = refl
retain-append (s ∷ pre) post h fit =
    rw (nonempty_of_OfSlice s h.0 (omega arith))
      (ap (◌∷◌ s) (retain-append pre post h.1 (omega arith)))

retain-All : (ss : List SourceSlice) → All OfSlice ss → total ss < u64_mod → retain nonempty ss ≡ ss
retain-All [] h fit = refl
retain-All (s ∷ ss) h fit =
    rw (nonempty_of_OfSlice s h.0 (omega arith)) (ap (◌∷◌ s) (retain-All ss h.1 (omega arith)))

nonempty-emptied : nonempty emptied ≡ false
unfolding slice_size
nonempty-emptied = refl

-- The second loop and `retain` drop the first `n` bytes of what follows the write.
pub record Truncated (n : ℕ) (ss ts : List SourceSlice) : Type 0 where
  pub slices : All OfSlice ts
  pub cut : expand ts ≡ drop n (expand ss)

pub retain-truncate :
    (n : ℕ) (ss : List SourceSlice)
    → All OfSlice ss
    → total ss < u64_mod
    → n < u64_mod
    → Truncated n ss (retain nonempty (truncate n ss))
unfolding truncate
retain-truncate n [] h fit k = record { slices = tt; cut = sym (drop_all n [] (omega arith)) }
retain-truncate n (s ∷ ss) h fit k =
    rw (slice_size-eq s h.0 (omega arith)) (elim (Bool-cases (ltb n (width s))) [
      | inl inside ↦ rw (inside, add64_lem s.from n (ground arith)) (cut_here (ground arith))
      | inr past ↦
          rw (past, sub64_lem n (width s) (ground arith) k)
            (gone (ground arith) (retain-truncate (n - width s) ss h.1 (omega arith) (omega arith)))
    ])
  where
    rest : SourceSlice
    rest = record { from = s.from + n; to = s.to }

    cut_here : n < width s → Truncated n (s ∷ ss) (retain nonempty (rest ∷ ss))
    cut_here lt = rw (retain-All (rest ∷ ss) (omega arith, h.1) (omega arith)) (record {
      slices = (omega arith, h.1);
      cut =
          ap (λ j. upto (s.from + n) j ++ expand ss) (omega arith)
          ∙ sym (drop-upto-append n s.from (width s) (expand ss) (omega arith));
    })

    len : length (upto s.from (width s)) ≡ width s
    len = length-upto s.from (width s)

    gone :
        width s ≤ n
        → Truncated (n - width s) ss (retain nonempty (truncate (n - width s) ss))
        → Truncated n (s ∷ ss) (retain nonempty (emptied ∷ truncate (n - width s) ss))
    gone le t = rw nonempty-emptied (record {
      slices = t.slices;
      cut =
          rw (drop-append_ge n (upto s.from (width s)) (expand ss) (omega (arith, len)), len) t.cut;
    })
