-- ===== src/Tests/Amf.antt =====
-- AMF0 records on the wire.
use ozonebase.Prelude.{ℕ, suc, ◌+◌, ◌≡◌, ◌≢◌, true, false, List, [], ◌∷◌, ◌++◌, arith, length}
use ozonebase.Libgen.Outcome.{ok, spent}
use ozonebase.Protocols.Amf.{
  Amf0Record, number, string, object, array, null, end, field, encode, decode,
}
use ozonebase.Protocols.Amf.Encode.{IsSound}
use ozonebase.Protocols.Amf.RoundTrip.{decode-encode}
use ozonebase.Protocols.Amf.Progress.{decode-ne-spent}

abbrev inner : Amf0Record
inner = object false (field (b'x' ∷ []) (number 1) end)

abbrev sample : Amf0Record
sample =
    object false
      (field (b'a' ∷ []) (string (1 ∷ 2 ∷ [])) (field [] inner (field (b'b' ∷ []) null end)))

sample-IsSound : IsSound sample
sample-IsSound = ground arith

decode-encode_example :
    (bytes : List ℕ) × (encode sample ≡ ok bytes)
    × (decode (suc (length bytes + 2)) (bytes ++ (7 ∷ [])) ≡ ok (sample, 7 ∷ []))
decode-encode_example = decode-encode sample (7 ∷ []) 2 sample-IsSound

decode-ne-spent_example : decode 4 (3 ∷ 0 ∷ 1 ∷ []) ≢ spent
decode-ne-spent_example = decode-ne-spent 4 (3 ∷ 0 ∷ 1 ∷ []) (omega arith)

-- An array of one field, `a` with null, as it is sent, and what the decoder makes of it.
abbrev sent_array : List ℕ
sent_array = 8 ∷ 0 ∷ 0 ∷ 0 ∷ 0 ∷ 0 ∷ 1 ∷ b'a' ∷ 5 ∷ 0 ∷ 0 ∷ 9 ∷ []

abbrev misread : Amf0Record
misread = array true (field [] (number 0x16105000009) end)
