-- ===== src/Paging.antt =====
-- internal/paging/paging.go: the page that a listing is asked for, and its LIMIT and OFFSET. `int`
-- has 64 bits.
pub mod Bounds
use Prim.Native.Char.{code}
use Prim.Native.String
use apisix_developer_portal.Common.{
  ℕ, ◌+◌, ◌-◌, ◌*◌, ◌%◌, String, Bool, true, false, ◌&&◌, Option, none, some, List, [], ◌∷◌, ltb,
  leb, ◌==◌, if◌then◌else◌,
}

-- A number with its sign, as `strconv.Atoi` answers it.
pub data Number : Type 0 where
  nonneg negative : ℕ → Number

abbrev pub two_to_63 : ℕ
two_to_63 = 9223372036854775808

abbrev pub two_to_64 : ℕ
two_to_64 = 18446744073709551616

abbrev pub read_digits : ℕ → String → Option ℕ
read_digits acc String.[] = some acc
read_digits acc (String.◌∷◌ c s) =
    let rest = read_digits (acc * 10 + (code c - 48)) s in
    if leb 48 (code c) && leb (code c) 57 then rest else none

-- The digits of a number, of which there is at least one.
abbrev pub unsigned : String → Option ℕ
unsigned String.[] = none
unsigned (String.◌∷◌ c s) = read_digits 0 (String.◌∷◌ c s)

abbrev pub in_range : ℕ → (ℕ → Number) → Option ℕ → Option Number
in_range bound sign none = none
in_range bound sign (some n) = if ltb n bound then some (sign n) else none

-- `strconv.Atoi`; no number is an error.
unfoldable pub atoi : String → Option Number
atoi String.[] = none
atoi (String.◌∷◌ c s) =
    if code c == 45
    then in_range (two_to_63 + 1) negative (unsigned s)
    else if code c == 43
    then in_range two_to_63 nonneg (unsigned s)
    else in_range two_to_63 nonneg (unsigned (String.◌∷◌ c s))

abbrev pub default_page : ℕ
default_page = 1

abbrev pub default_page_size : ℕ
default_page_size = 20

abbrev pub max_page_size : ℕ
max_page_size = 100

pub record Params : Type 0 where
  pub page : ℕ
  pub size : ℕ

-- `if n, err := strconv.Atoi(…); err == nil && n >= 1`
abbrev pub at_least_one : ℕ → Option Number → ℕ
at_least_one other none = other
at_least_one other (some (negative n)) = other
at_least_one other (some (nonneg n)) = if leb 1 n then n else other

-- `Parse`, on the texts of the two parameters, empty where the request has none.
unfoldable pub parse : String → String → Params
parse page page_size =
    let size = at_least_one default_page_size (atoi page_size) in
    record {
      page = at_least_one default_page (atoi page);
      size = if ltb max_page_size size then max_page_size else size;
    }

abbrev pub limit : Params → ℕ
limit p = p.size

-- A product of `int`s, which wraps around.
abbrev pub wrapped : ℕ → Number
wrapped n = let u = n % two_to_64 in if ltb u two_to_63 then nonneg u else negative (two_to_64 - u)

unfoldable pub offset : Params → Number
offset p = wrapped ((p.page - 1) * p.size)
