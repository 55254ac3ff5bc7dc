-- ===== src/Common/Texts.antt =====
-- Texts as Go's strings package treats them: order, splitting at a separator, trimming.
use Prim.Native.Char.{Char, code}
use Prim.Native.String.{String, compare, char_at}
use text.Mathlib.Text.{is_lt}
use Prim.Native.Nat.{ℕ, ◌-◌}
use mathlib.Core.Bool.{Bool, false, ◌&&◌, ◌||◌}
use mathlib.Core.Option.{Option, none, some}
use mathlib.Core.List.{List, [], ◌∷◌}
use apisix_developer_portal.Common.Tests.{ltb, ◌==◌, if◌then◌else◌}

-- The order of strings in Go: by bytes.
abbrev pub text_lt : String → String → Bool
text_lt s t = is_lt (compare s t)

-- `strings.Contains`, of one character.
unfoldable pub has_char : ℕ → String → Bool
has_char n String.[] = false
has_char n (String.◌∷◌ c s) = code c == n || has_char n s

-- `strings.HasPrefix` and `strings.TrimPrefix` at once: what follows the prefix.
unfoldable pub strip_prefix : String → String → Option String
strip_prefix String.[] s = some s
strip_prefix (String.◌∷◌ c p) String.[] = none
strip_prefix (String.◌∷◌ c p) (String.◌∷◌ d s) =
    let rest = strip_prefix p s in if code c == code d then rest else none

-- The first piece grows by a character.
abbrev pub grow : Char → List String → List String
grow c [] = String.◌∷◌ c "" ∷ []
grow c (p ∷ ps) = String.◌∷◌ c p ∷ ps

-- `strings.Split`, at one character.
unfoldable pub split : ℕ → String → List String
split n String.[] = "" ∷ []
split n (String.◌∷◌ c s) =
    let pieces = split n s in if code c == n then "" ∷ pieces else grow c pieces

-- `strings.ToLower` on the capital letters of ASCII; any other character is kept.
abbrev pub lower_char : Char → Char
lower_char c =
    if ltb 64 (code c) && ltb (code c) 91
    then char_at "abcdefghijklmnopqrstuvwxyz" (code c - 65)
    else c

unfoldable pub to_lower : String → String
to_lower String.[] = ""
to_lower (String.◌∷◌ c s) = String.◌∷◌ (lower_char c) (to_lower s)

module _ (space : ℕ → Bool) where
  unfoldable pub trim_left : String → String
  trim_left String.[] = ""
  trim_left (String.◌∷◌ c s) =
      let rest = trim_left s in if space (code c) then rest else String.◌∷◌ c s

  -- A space is dropped if nothing but spaces follows it.
  unfoldable pub trim_right : String → String
  trim_right String.[] = ""
  trim_right (String.◌∷◌ c s) = elim (trim_right s) [
    | String.[] ↦ if space (code c) then "" else String.◌∷◌ c ""
    | String.◌∷◌ d t ↦ String.◌∷◌ c (String.◌∷◌ d t)
  ]

  -- `strings.TrimSpace`
  unfoldable pub trim : String → String
  unfolding trim_left trim_right
  trim s = trim_right (trim_left s)
