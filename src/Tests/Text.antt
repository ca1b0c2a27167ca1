-- ===== src/Tests/Text.antt =====
-- Text encodings at work.
use Prim.Native.Char.{code}
use Prim.Native.String.{String}
use ozonebase.Prelude.{ℕ, zero, suc, ◌+◌, ◌≡◌, refl, List, [], ◌∷◌, arith}
use ozonebase.Libgen.Outcome.{ok}
use ozonebase.Libgen.Base64.{base64_char, base64_encode, base64_decode}
use ozonebase.Libgen.Base64.RoundTrip.{base64_decode-base64_encode}

base64_decode-base64_encode_example :
    base64_decode (base64_encode (0 ∷ 255 ∷ 16 ∷ 131 ∷ [])) ≡ ok (0 ∷ 255 ∷ 16 ∷ 131 ∷ [])
base64_decode-base64_encode_example =
    base64_decode-base64_encode (0 ∷ 255 ∷ 16 ∷ 131 ∷ []) (omega arith) (omega arith)

-- `base64Chars` as the source spells it.
abbrev base64_chars : String
base64_chars = "ABCDEFGHIJKLMNOPQRSTUVWXYZabcdefghijklmnopqrstuvwxyz0123456789+/"

codes : String → List ℕ
codes String.[] = []
codes (String.◌∷◌ c s) = code c ∷ codes s

chars_from : ℕ → ℕ → List ℕ
unfolding base64_char
chars_from zero i = []
chars_from (suc n) i = base64_char i ∷ chars_from n (i + 1)

base64_chars_table : chars_from 64 0 ≡ codes base64_chars
unfolding chars_from codes
base64_chars_table = refl
