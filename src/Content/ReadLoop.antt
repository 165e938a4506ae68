-- ===== src/Content/ReadLoop.antt =====
-- The loop of `Content::read` of content.rs.
use diffuzzer.Prelude.{
  ℕ, ◌+◌, ◌-◌, ◌≤◌, ◌<◌, ◌≡◌, refl, sym, ap, ◌∙◌, true, false, List, [], ◌∷◌, ◌++◌, append_assoc,
  append-nil, arith, length, take, drop, All, length-append, drop-append_ge, u64_mod, add64, sub64,
  add64_lem, sub64_lem, inl, inr, Bool-cases, ltb, leb, min, take_nil, drop_nil, take-append,
  if◌then◌else◌,
}
use diffuzzer.Content.{
  SourceSlice, Reading, slice_size, read_loop, read_next, read_first, write_back,
}
use diffuzzer.Content.Bytes.{
  upto, width, expand, bytes, total, OfSlice, length-upto, take-upto-min, drop-upto-append,
  slice_size-eq,
}
use diffuzzer.Content.Append.{slices-write_back, bytes-write_back}

-- What the loop has read: a content whose bytes are these, as many as `read_size` counts.
pub record HasRead (e : List ℕ) (r : Reading) : Type 0 where
  pub slices : All OfSlice r.content.slices
  pub bytes_eq : bytes r.content ≡ e
  pub counted : r.read_size ≡ length e

module _ (n : ℕ) (hn : n < u64_mod) where
  -- `j` more bytes, from source offset `a` on.
  grow-HasRead :
      (a j : ℕ) (r t : Reading) (e : List ℕ)
      → a + j ≤ u64_mod
      → t.content ≡ write_back a j r.content
      → t.read_size ≡ r.read_size + j
      → HasRead e r
      → HasRead (e ++ upto a j) t
  grow-HasRead a j r t e fit ec es h = record {
    slices = rw ec (slices-write_back a j r.content fit h.slices);
    bytes_eq = rw (ec, bytes-write_back a j r.content fit, h.bytes_eq) refl;
    counted = rw (es, h.counted) (omega (arith, length-append e (upto a j), length-upto a j));
  }

  read_next-HasRead :
      (s : SourceSlice) (r : Reading) (e : List ℕ)
      → OfSlice s
      → r.read_size + width s < u64_mod
      → r.read_size ≤ n
      → HasRead e r
      → HasRead (e ++ upto s.from (min (n - length e) (width s))) (read_next n s r)
  unfolding read_next
  read_next-HasRead s r e hs fit le h =
      rw
        (
          slice_size-eq s hs (omega arith),
          add64_lem r.read_size (width s) fit,
          sub64_lem n r.read_size le hn,
          amount,
        )
        (grow-HasRead s.from (min (n - length e) (width s)) r _ e (omega arith) refl
          (add64_lem r.read_size (min (n - length e) (width s)) (omega arith)) h)
    where
      amount :
          (if ltb n (r.read_size + width s) then n - r.read_size else width s)
          ≡ min (n - length e) (width s)
      amount = rw (← h.counted) (ground arith)

  read_first-HasRead :
      (k : ℕ) (s : SourceSlice) (r : Reading)
      → OfSlice s
      → width s < u64_mod
      → k < width s
      → HasRead [] r
      → HasRead (upto (s.from + k) (min n (width s - k))) (read_first n k s r)
  unfolding read_first
  read_first-HasRead k s r hs fit lt h =
      rw
        (
          slice_size-eq s hs fit,
          sub64_lem (width s) k (omega arith) fit,
          add64_lem s.from k (omega arith),
          amount,
        )
        (grow-HasRead (s.from + k) (min n (width s - k)) r _ [] (omega arith) refl
          (add64_lem r.read_size (min n (width s - k)) (omega (arith, h.counted))) h)
    where
      amount : (if ltb n (width s - k) then n else width s - k) ≡ min n (width s - k)
      amount = ground arith

  reading-read_next : (s : SourceSlice) (r : Reading) → (read_next n s r).reading ≡ r.reading
  unfolding read_next
  reading-read_next s r = refl

  reading-read_first : (k : ℕ) (s : SourceSlice) (r : Reading) → (read_first n k s r).reading ≡ true
  unfolding read_first
  reading-read_first k s r = refl

  read_loop_full :
      (offset : ℕ) (s : SourceSlice) (ss : List SourceSlice) (r : Reading)
      → r.reading ≡ true
      → leb n r.read_size ≡ true
      → read_loop offset n (s ∷ ss) r ≡ record r { end_of_file = false }
  unfolding read_loop
  read_loop_full offset s ss r on full = ground arith

  read_loop_more :
      (offset : ℕ) (s : SourceSlice) (ss : List SourceSlice) (r : Reading)
      → r.reading ≡ true
      → leb n r.read_size ≡ false
      → read_loop offset n (s ∷ ss) r ≡ read_loop offset n ss (read_next n s r)
  unfolding read_loop
  read_loop_more offset s ss r on more = ground arith

  -- Once the reading has begun, the loop goes on to the `n` bytes or to the end.
  read_loop_on :
      (offset : ℕ) (ss : List SourceSlice) (r : Reading) (e : List ℕ)
      → All OfSlice ss
      → r.reading ≡ true
      → length e + total ss < u64_mod
      → length e ≤ n
      → HasRead e r
      → HasRead (e ++ take (n - length e) (expand ss)) (read_loop offset n ss r)
  read_loop_on offset [] r e hs on fit le h =
      unfold read_loop in rw (take_nil {A = ℕ} (n - length e), append-nil e) h
  read_loop_on offset (s ∷ ss) r e hs on fit le h = elim (Bool-cases (leb n r.read_size)) [
    | inl full ↦
        rw (read_loop_full offset s ss r on full, none_left full, append-nil e)
          (record { slices = h.slices; bytes_eq = h.bytes_eq; counted = h.counted })
    | inr more ↦
        rw
          (
            read_loop_more offset s ss r on more,
            take-append (n - length e) run (expand ss),
            len,
            regroup,
          )
          (read_loop_on offset ss (read_next n s r) (e ++ upto s.from j) hs.1
            (reading-read_next s r ∙ on) (omega (arith, len')) (omega (arith, len'))
            (read_next-HasRead s r e hs.0 (omega (arith, h.counted)) (omega (arith, h.counted)) h))
  ]
    where
      run : List ℕ
      run = upto s.from (width s)

      len : length run ≡ width s
      len = length-upto s.from (width s)

      j : ℕ
      j = min (n - length e) (width s)

      len' : length (e ++ upto s.from j) ≡ length e + j
      len' = length-append e (upto s.from j) ∙ ap (λ k. length e + k) (length-upto s.from j)

      none_left : leb n r.read_size ≡ true → take (n - length e) (expand (s ∷ ss)) ≡ []
      none_left full =
          ap (λ k. take k (expand (s ∷ ss))) {y = 0} (let c = h.counted in ground arith)

      regroup :
          e ++ (take (n - length e) run ++ take (n - length e - width s) (expand ss))
          ≡ (e ++ upto s.from j) ++ take (n - length (e ++ upto s.from j)) (expand ss)
      regroup =
          ap (λ xs. e ++ (xs ++ take (n - length e - width s) (expand ss)))
            (take-upto-min (n - length e) s.from (width s))
          ∙ sym (append_assoc e (upto s.from j) _)
          ∙ ap (λ k. (e ++ upto s.from j) ++ take k (expand ss)) (omega (arith, len'))

  read_loop_begin :
      (offset : ℕ) (s : SourceSlice) (ss : List SourceSlice) (r : Reading)
      → r.reading ≡ false
      → ltb offset (add64 r.current_offset (slice_size s)) ≡ true
      → read_loop offset n (s ∷ ss) r
        ≡ read_loop offset n ss (read_first n (sub64 offset r.current_offset) s r)
  unfolding read_loop
  read_loop_begin offset s ss r off inside = ground arith

  read_loop_skip :
      (offset : ℕ) (s : SourceSlice) (ss : List SourceSlice) (r : Reading)
      → r.reading ≡ false
      → ltb offset (add64 r.current_offset (slice_size s)) ≡ false
      → read_loop offset n (s ∷ ss) r
        ≡ read_loop offset n ss
            (record r { current_offset = add64 r.current_offset (slice_size s) })
  unfolding read_loop
  read_loop_skip offset s ss r off past = ground arith

  -- From `current_offset` on, the loop skips to `offset` and reads from there.
  pub read_loop_from :
      (offset : ℕ) (ss : List SourceSlice) (r : Reading)
      → All OfSlice ss
      → r.reading ≡ false
      → r.current_offset ≤ offset
      → r.current_offset + total ss < u64_mod
      → HasRead [] r
      → HasRead (take n (drop (offset - r.current_offset) (expand ss))) (read_loop offset n ss r)
  read_loop_from offset [] r hs off le fit h =
      unfold read_loop in rw (drop_nil {A = ℕ} (offset - r.current_offset), take_nil {A = ℕ} n) h
  read_loop_from offset (s ∷ ss) r hs off le fit h =
      elim (Bool-cases (ltb offset (r.current_offset + width s))) [
        | inl inside ↦
            rw
              (
                read_loop_begin offset s ss r off (rw next inside),
                sub64_lem offset r.current_offset le (ground arith),
              )
              (begin (ground arith))
        | inr past ↦
            rw (read_loop_skip offset s ss r off (rw next past), next, ← skipped (ground arith))
              (read_loop_from offset ss (record r { current_offset = r.current_offset + width s })
                hs.1 off (ground arith) (omega arith)
                (record { slices = h.slices; bytes_eq = h.bytes_eq; counted = h.counted }))
      ]
    where
      next : add64 r.current_offset (slice_size s) ≡ r.current_offset + width s
      next =
          ap (add64 r.current_offset) (slice_size-eq s hs.0 (omega arith))
          ∙ add64_lem r.current_offset (width s) (omega arith)

      len : length (upto s.from (width s)) ≡ width s
      len = length-upto s.from (width s)

      k : ℕ
      k = offset - r.current_offset

      j : ℕ
      j = min n (width s - k)

      len' : length (upto (s.from + k) j) ≡ j
      len' = length-upto (s.from + k) j

      rest :
          take (n - (width s - k)) (expand ss) ≡ take (n - length (upto (s.from + k) j)) (expand ss)
      rest = ap (λ m. take m (expand ss)) (omega (arith, len'))

      begin :
          k < width s
          → HasRead (take n (drop k (expand (s ∷ ss)))) (read_loop offset n ss (read_first n k s r))
      begin lt =
          rw
            (
              drop-upto-append k s.from (width s) (expand ss) (omega arith),
              take-append n (upto (s.from + k) (width s - k)) (expand ss),
              take-upto-min n (s.from + k) (width s - k),
              length-upto (s.from + k) (width s - k),
              rest,
            )
            (read_loop_on offset ss (read_first n k s r) (upto (s.from + k) j) hs.1
              (reading-read_first k s r) (omega (arith, len')) (omega (arith, len'))
              (read_first-HasRead k s r hs.0 (omega arith) lt h))

      skipped :
          width s ≤ k
          → drop (offset - (r.current_offset + width s)) (expand ss)
            ≡ drop k (upto s.from (width s) ++ expand ss)
      skipped past =
          ap (λ m. drop m (expand ss)) (omega (arith, len))
          ∙ sym (drop-append_ge k (upto s.from (width s)) (expand ss) (omega (arith, len)))
