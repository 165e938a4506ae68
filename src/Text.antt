-- ===== src/Text.antt =====
-- The functions of the standard library on strings that the program parses with. A text is the list
-- of its code points.
use Prim.Native.Nat.{◌/◌, ◌%◌}
use diffuzzer.Prelude.{
  ℕ, zero, suc, ◌+◌, ◌-◌, ◌*◌, Bool, ◌&&◌, ◌||◌, List, [], ◌∷◌, ◌++◌, if◌then◌else◌, ◌==◌, leb, ltb,
}

-- `char::is_whitespace`
unfoldable pub is_whitespace : ℕ → Bool
is_whitespace c =
    leb 9 c && leb c 13
    || c == 0x20
    || c == 0x85
    || c == 0xa0
    || c == 0x1680
    || leb 0x2000 c && leb c 0x200a
    || c == 0x2028
    || c == 0x2029
    || c == 0x202f
    || c == 0x205f
    || c == 0x3000

unfoldable pub trim_start : List ℕ → List ℕ
trim_start [] = []
trim_start (c ∷ s) = let rest = trim_start s in if is_whitespace c then rest else c ∷ s

abbrev pub cons_unless_blank : ℕ → List ℕ → List ℕ
cons_unless_blank c [] = if is_whitespace c then [] else c ∷ []
cons_unless_blank c (d ∷ s) = c ∷ d ∷ s

unfoldable pub trim_end : List ℕ → List ℕ
trim_end [] = []
trim_end (c ∷ s) = cons_unless_blank c (trim_end s)

unfoldable pub trim : List ℕ → List ℕ
trim s = trim_end (trim_start s)

abbrev pub put_first : ℕ → List (List ℕ) → List (List ℕ)
put_first c [] = (c ∷ []) ∷ []
put_first c (p ∷ ps) = (c ∷ p) ∷ ps

-- `str::split` at each character that passes the test: there is always a part.
unfoldable pub split_at : (ℕ → Bool) → List ℕ → List (List ℕ)
split_at b [] = [] ∷ []
split_at b (c ∷ s) = let rest = split_at b s in if b c then [] ∷ rest else put_first c rest

-- `std::num::IntErrorKind`
pub data IntErrorKind : Type 0 where
  empty invalid_digit pos_overflow neg_overflow : IntErrorKind

pub data ℤ : Type 0 where
  pos negsuc : ℕ → ℤ

pub data IntResult (A : Type 0) : Type 0 where
  ok : A → IntResult A
  err : IntErrorKind → IntResult A

-- The digits, most significant first, up to a largest value.
unfoldable pub parse_digits : ℕ → IntErrorKind → ℕ → List ℕ → IntResult ℕ
parse_digits largest overflow acc [] = IntResult.ok acc
parse_digits largest overflow acc (c ∷ s) =
    let next = acc * 10 + (c - b'0') in
    let rest = parse_digits largest overflow next s in
    if leb b'0' c && leb c b'9'
    then (if leb next largest then rest else IntResult.err overflow)
    else IntResult.err IntErrorKind.invalid_digit

-- `u32::from_str` and `u64::from_str`, by the largest value
unfoldable pub parse_unsigned : ℕ → List ℕ → IntResult ℕ
parse_unsigned largest [] = IntResult.err IntErrorKind.empty
parse_unsigned largest (c ∷ []) =
    if c == b'+'
    then IntResult.err IntErrorKind.invalid_digit
    else parse_digits largest IntErrorKind.pos_overflow 0 (c ∷ [])
parse_unsigned largest (c ∷ d ∷ s) =
    parse_digits largest IntErrorKind.pos_overflow 0 (if c == b'+' then d ∷ s else c ∷ d ∷ s)

abbrev pub negative : IntResult ℕ → IntResult ℤ
negative (IntResult.ok ℕ.zero) = IntResult.ok (pos 0)
negative (IntResult.ok (ℕ.suc n)) = IntResult.ok (negsuc n)
negative (IntResult.err e) = IntResult.err e

abbrev pub positive : IntResult ℕ → IntResult ℤ
positive (IntResult.ok n) = IntResult.ok (pos n)
positive (IntResult.err e) = IntResult.err e

-- `i32::from_str`
unfoldable pub parse_i32 : List ℕ → IntResult ℤ
parse_i32 [] = IntResult.err IntErrorKind.empty
parse_i32 (c ∷ []) =
    if (c == b'+') || (c == b'-')
    then IntResult.err IntErrorKind.invalid_digit
    else positive (parse_digits 2147483647 IntErrorKind.pos_overflow 0 (c ∷ []))
parse_i32 (c ∷ d ∷ s) =
    if c == b'-'
    then negative (parse_digits 2147483648 IntErrorKind.neg_overflow 0 (d ∷ s))
    else positive (
        parse_digits 2147483647 IntErrorKind.pos_overflow 0
          (if c == b'+' then d ∷ s else c ∷ d ∷ s))

-- `to_string` of a number; the fuel is its number of digits or more.
unfoldable pub digits : ℕ → ℕ → List ℕ
digits zero n = []
digits (suc fuel) n =
    let rest = digits fuel (n / 10) in
    if ltb n 10 then (b'0' + n) ∷ [] else rest ++ ((b'0' + n % 10) ∷ [])

abbrev pub to_string : ℕ → List ℕ
to_string n = digits (suc n) n
