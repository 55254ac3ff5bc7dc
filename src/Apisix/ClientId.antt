-- ===== src/Apisix/ClientId.antt =====
-- internal/apisix/client.go: `ValidClientID`, the charset that guards the Lua function of a route.
-- The regular expression `^[A-Za-z0-9._:@-]{1,200}$` as the test that it is: between 1 and 200
-- characters, each in the set.
use Prim.Native.Char.{code}
use Prim.Native.String.{String, [], ◌∷◌}
use apisix_developer_portal.Common.{ℕ, suc, Bool, true, ◌&&◌, ◌||◌, leb, ◌==◌}

abbrev pub between : ℕ → ℕ → ℕ → Bool
between lo hi c = leb lo c && leb c hi

unfoldable pub is_client_char : ℕ → Bool
is_client_char c =
    between b'A' b'Z' c
    || between b'a' b'z' c
    || between b'0' b'9' c
    || c == b'.'
    || c == b'_'
    || c == b':'
    || c == b'@'
    || c == b'-'

abbrev pub all_chars : (ℕ → Bool) → String → Bool
all_chars p [] = true
all_chars p (c ∷ s) = p (code c) && all_chars p s

abbrev pub char_count : String → ℕ
char_count [] = 0
char_count (c ∷ s) = suc (char_count s)

unfoldable pub valid_client_id : String → Bool
unfolding is_client_char
valid_client_id s = between 1 200 (char_count s) && all_chars is_client_char s
