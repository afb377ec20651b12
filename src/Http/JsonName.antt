-- ===== src/Http/JsonName.antt =====
-- `jsonName` of server/internal/transport/http/handler/event.go.
use Prim.Native.Char.{Char, code}
use Prim.Native.String.{String, [], ◌∷◌}
use agent_events.Prelude.{eqb, if◌then◌else◌}

-- The letter of the second text that stands where the first has the character.
abbrev letter_at : String → String → Char → Char
letter_at [] lower c = c
letter_at (u ∷ upper) [] c = c
letter_at (u ∷ upper) (l ∷ lower) c = if eqb (code c) (code u) then l else letter_at upper lower c

-- `strings.ToLower` on the first byte of a name in Go, which is a letter of ASCII
unfoldable lower_first : Char → Char
lower_first = letter_at "ABCDEFGHIJKLMNOPQRSTUVWXYZ" "abcdefghijklmnopqrstuvwxyz"

-- `jsonName`
unfoldable pub json_name : String → String
unfolding lower_first
json_name [] = []
json_name (c ∷ rest) = lower_first c ∷ rest
