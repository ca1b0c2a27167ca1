-- ===== src/Libgen/Base64.antt =====
-- server/src/libgen/libgenUtils.cpp, base64Encode and base64Decode. Characters and bytes are numbers.
pub mod RoundTrip
use ozonebase.Prelude.{
  ℕ, zero, suc, ◌+◌, ◌-◌, ◌*◌, ◌/◌, ◌%◌, ◌^◌, Bool, true, false, ◌&&◌, ◌||◌, List, [], ◌∷◌, ◌++◌,
  leb, ltb, ◌==◌, if◌then◌else◌, length, take,
}
use ozonebase.Libgen.Outcome.{Outcome, ok, fault}

-- `base64Chars[ i ]`.
unfoldable pub base64_char : ℕ → ℕ
base64_char i =
    if leb i 25
    then b'A' + i
    else if leb i 51
    then b'a' + (i - 26)
    else if leb i 61
    then b'0' + (i - 52)
    else if i == 62
    then b'+'
    else b'/'

pub is_base64 : ℕ → Bool
is_base64 c =
    (leb b'A' c && leb c b'Z')
    || (leb b'a' c && leb c b'z')
    || (leb b'0' c && leb c b'9')
    || (c == b'+')
    || (c == b'/')

-- `base64Chars.find( c )` as an unsigned char; npos becomes 255.
pub find_char : ℕ → ℕ
find_char c =
    if leb b'A' c && leb c b'Z'
    then c - b'A'
    else if leb b'a' c && leb c b'z'
    then 26 + (c - b'a')
    else if leb b'0' c && leb c b'9'
    then 52 + (c - b'0')
    else if c == b'+'
    then 62
    else if c == b'/'
    then 63
    else 255

-- The four six-bit groups of three bytes.
pub group_0 : ℕ → ℕ
group_0 a = a / 2 ^ 2 % 2 ^ 6

pub group_1 : ℕ → ℕ → ℕ
group_1 a b = a % 2 ^ 2 * 2 ^ 4 + b / 2 ^ 4 % 2 ^ 4

pub group_2 : ℕ → ℕ → ℕ
group_2 b c = b % 2 ^ 4 * 2 ^ 2 + c / 2 ^ 6 % 2 ^ 2

pub group_3 : ℕ → ℕ
group_3 c = c % 2 ^ 6

-- Three bytes at a time, the remaining one or two with zeros and padding.
pub base64_encode : List ℕ → List ℕ
base64_encode [] = []
base64_encode (a ∷ []) = base64_char (group_0 a) ∷ base64_char (group_1 a 0) ∷ b'=' ∷ b'=' ∷ []
base64_encode (a ∷ b ∷ []) =
    base64_char (group_0 a) ∷ base64_char (group_1 a b) ∷ base64_char (group_2 b 0) ∷ b'=' ∷ []
base64_encode (a ∷ b ∷ c ∷ bytes) =
    base64_char (group_0 a)
    ∷ base64_char (group_1 a b)
    ∷ base64_char (group_2 b c)
    ∷ base64_char (group_3 c)
    ∷ base64_encode bytes

-- The three bytes of four groups, in the arithmetic of an unsigned char.
pub byte_0 : ℕ → ℕ → ℕ
byte_0 p q = (p * 2 ^ 2 + q / 2 ^ 4 % 2 ^ 2) % 2 ^ 8

pub byte_1 : ℕ → ℕ → ℕ
byte_1 q r = (q % 2 ^ 4 * 2 ^ 4 + r / 2 ^ 2 % 2 ^ 4) % 2 ^ 8

pub byte_2 : ℕ → ℕ → ℕ
byte_2 r s = (r % 2 ^ 2 * 2 ^ 6 + s) % 2 ^ 8

-- What the loop of the decoder reads: the characters up to the first that is none of the 64.
pub base64_run : List ℕ → List ℕ
base64_run [] = []
base64_run (c ∷ cs) = if is_base64 c then c ∷ base64_run cs else []

-- Four characters at a time. The groups that are missing at the end are `find( '\0' )`, 255.
pub decode_groups : List ℕ → List ℕ
decode_groups [] = []
decode_groups (p ∷ []) = []
decode_groups (p ∷ q ∷ []) = byte_0 (find_char p) (find_char q) ∷ []
decode_groups (p ∷ q ∷ r ∷ []) =
    byte_0 (find_char p) (find_char q) ∷ byte_1 (find_char q) (find_char r) ∷ []
decode_groups (p ∷ q ∷ r ∷ s ∷ cs) =
    byte_0 (find_char p) (find_char q)
    ∷ byte_1 (find_char q) (find_char r)
    ∷ byte_2 (find_char r) (find_char s)
    ∷ decode_groups cs

-- The size becomes an int. One that is not negative bounds the loop. A negative one does not, so that the
-- loop goes on to the first character that is none of the 64, at the latest the one that ends the text, if
-- it does not count down below the smallest int before: that overflow is a fault.
pub base64_decode : List ℕ → Outcome (List ℕ)
base64_decode cs =
    let in_len : ℕ = length cs % 2 ^ 32 in
    if ltb in_len (2 ^ 31)
    then ok (decode_groups (base64_run (take in_len cs)))
    else if ltb (length (base64_run cs)) (in_len - 2 ^ 31)
    then ok (decode_groups (base64_run cs))
    else fault
