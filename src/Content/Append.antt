-- ===== src/Content/Append.antt =====
-- `Content::write_back` of content.rs on the bytes of a content.
use diffuzzer.Prelude.{
  ℕ, zero, suc, ◌+◌, ◌-◌, ◌≤◌, ◌<◌, ◌≡◌, sym, ap, ◌∙◌, [], ◌∷◌, ◌++◌, append-nil, arith, All,
  All-append, lt→ltb, u64_mod, add64, sub64,
}
use diffuzzer.Content.{SourceSlice, Content, write_back}
use diffuzzer.Content.Bytes.{upto, bytes, OfSlice, expand-append}

abbrev pub written : ℕ → ℕ → SourceSlice
written src n = record { from = src; to = src + n - 1 }

-- The end may be the last offset there is: then the sum wraps, and the difference wraps back.
pub to-written : (src n : ℕ) → 0 < n → src + n ≤ u64_mod → sub64 (add64 src n) 1 ≡ src + n - 1
unfolding add64 sub64
to-written src n lo hi = omega arith

pub slices-write_back :
    (src n : ℕ) (c : Content)
    → src + n ≤ u64_mod
    → All OfSlice c.slices
    → All OfSlice (write_back src n c).slices
unfolding write_back
slices-write_back src zero c hi h = h
slices-write_back src (suc n) c hi h =
    rw (lt→ltb 0 (suc n) (omega arith), to-written src (suc n) (omega arith) hi)
      (All-append OfSlice c.slices _ h (omega arith))

pub bytes-write_back :
    (src n : ℕ) (c : Content)
    → src + n ≤ u64_mod
    → bytes (write_back src n c) ≡ bytes c ++ upto src n
unfolding write_back
bytes-write_back src zero c hi = sym (append-nil (bytes c))
bytes-write_back src (suc n) c hi =
    rw (lt→ltb 0 (suc n) (omega arith), to-written src (suc n) (omega arith) hi)
      (expand-append c.slices (written src (suc n) ∷ [])
        ∙ ap (◌++◌ (bytes c)) (append-nil _ ∙ ap (upto src) {y = suc n} (omega arith)))
