-- ===== src/Signature.antt =====
-- agentsig/agentsig.go: the signature of a report. HMAC-SHA256 is a parameter, from the key's and
-- the message's bytes to the bytes of the code.
use heartpost.Common.{ℕ, ◌+◌, ◌/◌, ◌%◌, Bool, List, [], ◌∷◌, ◌++◌, ltb, if◌then◌else◌}
use heartpost.Common.Text.{Text, text_eq}

abbrev pub Bytes : Type 0
Bytes = List ℕ

-- The bytes of a text.
unfoldable pub utf8 : Text → Bytes
utf8 [] = []
utf8 (c ∷ s) =
    if ltb c 0x80
    then c ∷ utf8 s
    else if ltb c 0x800
    then (0xc0 + c / 64) ∷ (0x80 + c % 64) ∷ utf8 s
    else if ltb c 0x10000
    then (0xe0 + c / 4096) ∷ (0x80 + c / 64 % 64) ∷ (0x80 + c % 64) ∷ utf8 s
    else (0xf0 + c / 262144)
      ∷ (0x80 + c / 4096 % 64)
      ∷ (0x80 + c / 64 % 64)
      ∷ (0x80 + c % 64)
      ∷ utf8 s

abbrev pub hex_digit : ℕ → ℕ
hex_digit n = if ltb n 10 then b'0' + n else b'W' + n

-- hex.EncodeToString
unfoldable pub hex : Bytes → Text
hex [] = []
hex (b ∷ bs) = hex_digit (b / 16) ∷ hex_digit (b % 16) ∷ hex bs

abbrev pub Mac : Type 0
Mac = Bytes → Bytes → Bytes

unfoldable pub compute : Mac → Text → Text → Bytes → Text
compute mac key ts body = hex (mac (utf8 key) (utf8 (ts ++ b'.' ∷ []) ++ body))

-- hmac.Equal compares the bytes.
unfoldable pub verify : Mac → Text → Text → Bytes → Text → Bool
verify mac key ts body signature = text_eq (utf8 signature) (utf8 (compute mac key ts body))
