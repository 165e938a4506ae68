-- ===== src/Content/Read.antt =====
-- `Content::read` of content.rs on the bytes of a content.
use diffuzzer.Prelude.{
  ℕ, ◌≤◌, ◌<◌, ◌≡◌, refl, ap, List, arith, length, take, drop, length-take, length-drop, u64_mod,
  subst,
}
use diffuzzer.Content.{Content, Reading, ok, read, read_loop, read_start, check_read}
use diffuzzer.Content.Bytes.{bytes, IsFit, length-expand, size-length}
use diffuzzer.Content.ReadLoop.{HasRead, read_loop_from}

check_read_lem :
    (r : Reading) (e : List ℕ) → HasRead e r → length e < u64_mod → check_read r ≡ ok r.content
unfolding check_read
check_read_lem r e h fit =
    rw
      (
        size-length r.content
            (record { slices = h.slices; sized = omega (arith, ap length h.bytes_eq) }),
        h.bytes_eq,
        h.counted,
      )
      (ground arith)

-- A read returns, without a failed assertion, a content that fits and has these bytes.
pub record ReadTo (offset n : ℕ) (c : Content) : Type 0 where
  pub found : Content
  pub returned : read offset n c ≡ ok found
  pub fits : IsFit found
  pub bytes_eq : bytes found ≡ take n (drop offset (bytes c))

-- A read that begins no later than the end returns the bytes from `offset` on, `n` of them or as
-- many as there are.
pub read_slice :
    (offset n : ℕ) (c : Content)
    → IsFit c
    → offset ≤ length (bytes c)
    → n < u64_mod
    → ReadTo offset n c
unfolding read
read_slice offset n c h le hn = record {
  found = (read_loop offset n c.slices read_start).content;
  returned =
      rw (size-length c h)
        (ground (arith, check_read_lem (read_loop offset n c.slices read_start) e out small));
  fits = record { slices = out.slices; sized = omega (arith, ap length out.bytes_eq, small) };
  bytes_eq = out.bytes_eq;
}
  where
    e : List ℕ
    e = take n (drop offset (bytes c))

    small : length e < u64_mod
    small =
        omega (arith, length-take n (drop offset (bytes c)), length-drop offset (bytes c), h.sized)

    out : HasRead e (read_loop offset n c.slices read_start)
    out =
        subst (λ k. HasRead (take n (drop k (bytes c))) (read_loop offset n c.slices read_start))
          (omega arith)
          (read_loop_from n hn offset c.slices read_start h.slices refl (omega arith)
            (omega (arith, length-expand c.slices, h.sized))
            (record { slices = tt; bytes_eq = refl; counted = refl }))
