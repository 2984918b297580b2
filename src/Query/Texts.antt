-- ===== src/Query/Texts.antt =====
-- The operations of the standard library on texts that crates/query uses. A text is the list of its
-- code points; where the code compares a length in bytes it also asks that all are ASCII.
pub mod Trimming
use Prim.Native.String.{String}
use qonduit.Common.{
  ℕ, zero, suc, ◌+◌, ◌-◌, ◌*◌, ◌/◌, ◌%◌, ◌^◌, [], ◌∷◌, reverse, Bool, true, ◌&&◌, ◌||◌, ◌==◌, leb,
  ltb, Option, none, some, if◌then◌else◌,
}
use qonduit.Bytes.{Bytes}
use Prim.Native.Char.{code}

-- The code points of a literal.
abbrev pub codes : String → Bytes
codes String.[] = []
codes (String.◌∷◌ c s) = code c ∷ codes s

unfoldable pub is_ascii_digit : ℕ → Bool
is_ascii_digit c = leb b'0' c && leb c b'9'

unfoldable pub is_ascii_hexdigit : ℕ → Bool
unfolding is_ascii_digit
is_ascii_hexdigit c = is_ascii_digit c || (leb b'a' c && leb c b'f') || (leb b'A' c && leb c b'F')

-- `chars().all(…)`
unfoldable pub all_chars : (ℕ → Bool) → Bytes → Bool
all_chars p [] = true
all_chars p (c ∷ cs) = p c && all_chars p cs

-- The digits of a number below the bound, after those already read.
unfoldable pub parse_digits : ℕ → ℕ → Bytes → Option ℕ
parse_digits bound acc [] = some acc
parse_digits bound acc (c ∷ cs) =
    let v = acc * 10 + (c - b'0') in
    let rest = parse_digits bound v cs in
    if is_ascii_digit c then if ltb v bound then rest else none else none

unfoldable pub parse_some : ℕ → Bytes → Option ℕ
parse_some bound [] = none
parse_some bound (c ∷ cs) = parse_digits bound 0 (c ∷ cs)

-- `str::parse` of an unsigned number below the bound: one plus sign and then digits.
unfoldable pub parse_number : ℕ → Bytes → Option ℕ
parse_number bound [] = none
parse_number bound (c ∷ cs) =
    if c == b'+' then parse_some bound cs else parse_digits bound 0 (c ∷ cs)

abbrev pub parse_u32 : Bytes → Option ℕ
parse_u32 = parse_number (2 ^ 32)

abbrev pub parse_u16 : Bytes → Option ℕ
parse_u16 = parse_number (2 ^ 16)

-- The Unicode property White_Space.
unfoldable pub is_whitespace : ℕ → Bool
is_whitespace c =
    (leb 9 c && leb c 13)
    || c == 32
    || c == 0x85
    || c == 0xA0
    || c == 0x1680
    || (leb 0x2000 c && leb c 0x200A)
    || c == 0x2028
    || c == 0x2029
    || c == 0x202F
    || c == 0x205F
    || c == 0x3000

unfoldable pub trim_start : Bytes → Bytes
trim_start [] = []
trim_start (c ∷ cs) = let rest = trim_start cs in if is_whitespace c then rest else c ∷ cs

unfoldable pub trim : Bytes → Bytes
trim s = reverse (trim_start (reverse (trim_start s)))

-- The decimal digits of a number of at most as many digits as there is fuel.
unfoldable pub decimal_digits : ℕ → ℕ → Bytes → Bytes
decimal_digits zero n rest = rest
decimal_digits (suc f) n rest =
    let more = decimal_digits f (n / 10) ((b'0' + n % 10) ∷ rest) in
    if ltb n 10 then (b'0' + n) ∷ rest else more

-- `to_string` of a usize, which has at most 20 digits.
unfoldable pub decimal : ℕ → Bytes
decimal n = decimal_digits 20 n []
