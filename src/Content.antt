-- ===== src/Content.antt =====
-- diffuzzer/src/abstract_fs/content.rs: the contents of a file as slices of some source. Offsets
-- and sizes are `u64`, with the wrap-around of a release build.
pub mod Bytes
mod Append
mod Locate
pub mod Truncate
pub mod Write
pub mod ReadLoop
pub mod Read
pub mod ReadBack
use diffuzzer.Prelude.{
  ℕ, ◌+◌, suc, Bool, true, false, ◌&&◌, ◌||◌, List, [], ◌∷◌, ◌++◌, if◌then◌else◌, ltb, leb, ◌==◌,
  add64, sub64, retain, length,
}

-- The bytes `from` to `to` of the source, both inclusive.
pub record SourceSlice : Type 0 where
  pub from : ℕ
  pub to : ℕ

unfoldable pub slice_size : SourceSlice → ℕ
slice_size s = if leb s.from s.to then add64 (sub64 s.to s.from) 1 else 0

pub record Content : Type 0 where
  pub slices : List SourceSlice

-- `ContentError`, and the assertions of the file, which panic.
pub data Outcome {ℓ} (A : Type ℓ) : Type ℓ where
  ok : A → Outcome A
  bad_offset : ℕ → ℕ → Outcome A
  panic : Outcome A

abbrev pub new : Content
new = record { slices = [] }

unfoldable pub size_from : ℕ → List SourceSlice → ℕ
size_from acc [] = acc
size_from acc (s ∷ ss) = size_from (add64 acc (slice_size s)) ss

unfoldable pub size : Content → ℕ
size c = size_from 0 c.slices

unfoldable pub write_back : ℕ → ℕ → Content → Content
write_back src_offset n c =
    if ltb 0 n
    then record {
      slices = c.slices ++ record { from = src_offset; to = sub64 (add64 src_offset n) 1 } ∷ [];
    }
    else c

-- What the first loop of `write` leaves: the slices, one of them split if the write begins inside
-- it, and `write_at_index`.
pub data Located : Type 0 where
  located : List SourceSlice → ℕ → Located
  assert_failed : Located

abbrev pub keep : SourceSlice → Located → Located
keep s (located ss k) = located (s ∷ ss) k
keep s assert_failed = assert_failed

-- The two halves of a slice that the write splits `n` bytes in, and the assertion on their sizes.
unfoldable pub split_slice : SourceSlice → ℕ → List SourceSlice → ℕ → Located
split_slice s n ss i =
    let fst_half_to = add64 s.from (sub64 n 1) in
    let fst : SourceSlice = record { from = s.from; to = fst_half_to } in
    let snd : SourceSlice = record { from = add64 fst_half_to 1; to = s.to } in
    if slice_size s == add64 (slice_size fst) (slice_size snd)
    then located (fst ∷ snd ∷ ss) (i + 1)
    else assert_failed

unfoldable pub locate : ℕ → ℕ → ℕ → List SourceSlice → Located
locate i curr_offset write_offset [] = located [] 0
locate i curr_offset write_offset (s ∷ ss) =
    let next_offset = add64 curr_offset (slice_size s) in
    let rest = keep s (locate (i + 1) next_offset write_offset ss) in
    if curr_offset == write_offset
    then located (s ∷ ss) i
    else if ltb write_offset next_offset
    then split_slice s (sub64 write_offset curr_offset) ss i
    else rest

-- `VecDeque::insert`
unfoldable pub insert : ℕ → SourceSlice → List SourceSlice → List SourceSlice
insert ℕ.zero x ss = x ∷ ss
insert (suc i) x [] = x ∷ []
insert (suc i) x (s ∷ ss) = s ∷ insert i x ss

abbrev pub emptied : SourceSlice
emptied = record { from = 100000; to = 0 }

-- The second loop of `write`, from `truncate_from_index` on.
unfoldable pub truncate : ℕ → List SourceSlice → List SourceSlice
truncate truncate_size [] = []
truncate truncate_size (s ∷ ss) =
    let rest = truncate (sub64 truncate_size (slice_size s)) ss in
    if ltb truncate_size (slice_size s)
    then record s { from = add64 s.from truncate_size } ∷ ss
    else emptied ∷ rest

unfoldable pub truncate_from : ℕ → ℕ → List SourceSlice → List SourceSlice
truncate_from ℕ.zero n ss = truncate n ss
truncate_from (suc i) n [] = []
truncate_from (suc i) n (s ∷ ss) = s ∷ truncate_from i n ss

abbrev pub nonempty : SourceSlice → Bool
nonempty s = ltb 0 (slice_size s)

unfoldable pub all_nonempty : List SourceSlice → Bool
all_nonempty [] = true
all_nonempty (s ∷ ss) = nonempty s && all_nonempty ss

abbrev pub max64 : ℕ → ℕ → ℕ
max64 a b = if ltb a b then b else a

-- The body of `if size > 0`, given what the first loop left. An insertion past the end panics.
unfoldable pub overwrite : ℕ → ℕ → Located → Outcome (List SourceSlice)
overwrite src_offset n assert_failed = panic
overwrite src_offset n (located ss k) =
    if leb k (length ss)
    then ok (
        retain nonempty (
          truncate_from (k + 1) n
            (insert k (record { from = src_offset; to = sub64 (add64 src_offset n) 1 }) ss)))
    else panic

-- The two assertions at the end of `write`.
unfoldable pub check_written : ℕ → Outcome (List SourceSlice) → Outcome Content
check_written expected_size (ok ss) =
    if (size (record { slices = ss }) == expected_size) && all_nonempty ss
    then ok (record { slices = ss })
    else panic
check_written expected_size (bad_offset a b) = bad_offset a b
check_written expected_size panic = panic

unfoldable pub write : ℕ → ℕ → ℕ → Content → Outcome Content
write src_offset write_offset n c =
    if write_offset == size c
    then ok (write_back src_offset n c)
    else if ltb (size c) write_offset
    then bad_offset write_offset (size c)
    else check_written (max64 (add64 write_offset n) (size c))
        (if ltb 0 n then overwrite src_offset n (locate 0 0 write_offset c.slices) else ok c.slices)

-- The variables of the loop in `read`.
pub record Reading : Type 0 where
  pub content : Content
  pub current_offset : ℕ
  pub read_size : ℕ
  pub reading : Bool
  pub end_of_file : Bool

-- A slice after the first that is read.
unfoldable pub read_next : ℕ → SourceSlice → Reading → Reading
read_next n s r =
    let slice_read_size =
      if ltb n (add64 r.read_size (slice_size s)) then sub64 n r.read_size else slice_size s in
    record r {
      content = write_back s.from slice_read_size r.content;
      read_size = add64 r.read_size slice_read_size;
    }

-- The slice in which the reading begins, `read_from` bytes in.
unfoldable pub read_first : ℕ → ℕ → SourceSlice → Reading → Reading
read_first n read_from s r =
    let left = sub64 (slice_size s) read_from in
    let slice_read_size = if ltb n left then n else left in
    record r {
      content = write_back (add64 s.from read_from) slice_read_size r.content;
      read_size = add64 r.read_size slice_read_size;
      reading = true;
    }

unfoldable pub read_loop : ℕ → ℕ → List SourceSlice → Reading → Reading
read_loop offset n [] r = r
read_loop offset n (s ∷ ss) r =
    let next_offset = add64 r.current_offset (slice_size s) in
    let go_on = read_loop offset n ss (read_next n s r) in
    let begin = read_loop offset n ss (read_first n (sub64 offset r.current_offset) s r) in
    let skip = read_loop offset n ss (record r { current_offset = next_offset }) in
    if r.reading
    then (if leb n r.read_size then record r { end_of_file = false } else go_on)
    else (if ltb offset next_offset then begin else skip)

abbrev pub read_start : Reading
read_start = record {
  content = new;
  current_offset = 0;
  read_size = 0;
  reading = false;
  end_of_file = true;
}

-- The assertion at the end of `read`.
unfoldable pub check_read : Reading → Outcome Content
check_read r =
    if (size r.content == r.read_size) || r.end_of_file && leb (size r.content) r.read_size
    then ok r.content
    else panic

unfoldable pub read : ℕ → ℕ → Content → Outcome Content
read offset n c =
    if ltb (size c) offset
    then bad_offset offset (size c)
    else check_read (read_loop offset n c.slices read_start)
