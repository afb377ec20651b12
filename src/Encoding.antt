-- ===== src/Encoding.antt =====
-- encoding/hex and encoding/base64 (RawURLEncoding) of the Go standard library, over lists of
-- bytes.
use Prim.Native.String.{slice}
use agent_events.Prelude.{ℕ, suc, ◌+◌, ◌*◌, ◌/◌, ◌%◌, String, List, [], ◌∷◌}
use agent_events.Text.{◌^^◌}

-- the character at a position of an alphabet
abbrev digit : String → ℕ → String
digit alphabet n = slice alphabet n (suc n)

abbrev hex_alphabet : String
hex_alphabet = "0123456789abcdef"

abbrev url_alphabet : String
url_alphabet = "ABCDEFGHIJKLMNOPQRSTUVWXYZabcdefghijklmnopqrstuvwxyz0123456789-_"

-- `hex.EncodeToString`
unfoldable pub hex_encode : List ℕ → String
hex_encode [] = ""
hex_encode (b ∷ bytes) =
    digit hex_alphabet (b / 16) ^^ digit hex_alphabet (b % 16) ^^ hex_encode bytes

-- `base64.RawURLEncoding.EncodeToString`: three bytes to four characters, with no padding
unfoldable pub base64_encode : List ℕ → String
base64_encode [] = ""
base64_encode (a ∷ []) = digit url_alphabet (a / 4) ^^ digit url_alphabet (a % 4 * 16)
base64_encode (a ∷ b ∷ []) =
    digit url_alphabet (a / 4)
    ^^ digit url_alphabet (a % 4 * 16 + b / 16)
    ^^ digit url_alphabet (b % 16 * 4)
base64_encode (a ∷ b ∷ c ∷ bytes) =
    digit url_alphabet (a / 4)
    ^^ digit url_alphabet (a % 4 * 16 + b / 16)
    ^^ digit url_alphabet (b % 16 * 4 + c / 64)
    ^^ digit url_alphabet (c % 64)
    ^^ base64_encode bytes
