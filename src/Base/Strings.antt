-- ===== src/Base/Strings.antt =====
-- The methods of `str` that the program calls, on ASCII text: `strip`, `lower`, `startswith`,
-- `split(c, 1)[0]`, `rpartition(c)`, `isdigit` and `int`.
use inferna_next.Base.{
  Bool, Option, [], all, false, if◌then◌else◌, leb, ltb, map, none, some, suc, true, zero, ℕ, ◌%◌,
  ◌&&◌, ◌*◌, ◌++◌, ◌+◌, ◌-◌, ◌/◌, ◌==◌, ◌||◌, ◌∷◌,
}
use inferna_next.Base.Text.{Text}

-- `s[::-1]`
unfoldable pub reverse_onto : Text → Text → Text
reverse_onto [] acc = acc
reverse_onto (c ∷ s) acc = reverse_onto s (c ∷ acc)

unfoldable pub is_space : ℕ → Bool
is_space c = c == 32 || (leb 9 c && leb c 13) || (leb 28 c && leb c 31)

unfoldable pub lstrip : Text → Text
unfolding is_space
lstrip [] = []
lstrip (c ∷ s) = let rest = lstrip s in if is_space c then rest else c ∷ s

-- `s.strip()`
unfoldable pub strip : Text → Text
unfolding lstrip reverse_onto
strip s = reverse_onto (lstrip (reverse_onto (lstrip s) [])) []

unfoldable pub lower_char : ℕ → ℕ
lower_char c = if leb b'A' c && leb c b'Z' then c + 32 else c

-- `s.lower()`
unfoldable pub lower : Text → Text
unfolding lower_char
lower s = map lower_char s

-- `s[len(prefix):] if s.lower().startswith(prefix) else s`, for a prefix in lower case
unfoldable pub drop_prefix : Text → Text → Option Text
unfolding lower_char
drop_prefix [] s = some s
drop_prefix (p ∷ ps) [] = none
drop_prefix (p ∷ ps) (c ∷ s) = if lower_char c == p then drop_prefix ps s else none

-- `s.split(c, 1)[0]`
unfoldable pub before : ℕ → Text → Text
before c [] = []
before c (d ∷ s) = if d == c then [] else d ∷ before c s

unfoldable pub contains_char : ℕ → Text → Bool
contains_char c [] = false
contains_char c (d ∷ s) = d == c || contains_char c s

-- `s.rpartition(c)` without the separator: with no `c` in `s` the first part is empty.
unfoldable pub rpartition : ℕ → Text → Text × Text
unfolding contains_char
rpartition c [] = ([], [])
rpartition c (d ∷ s) =
    let (a, b) = rpartition c s in
    if contains_char c s then (d ∷ a, b) else if d == c then ([], s) else ([], d ∷ s)

abbrev pub is_digit : ℕ → Bool
is_digit c = leb b'0' c && leb c b'9'

-- `s.isdigit()`
unfoldable pub isdigit : Text → Bool
isdigit [] = false
isdigit (c ∷ s) = all is_digit (c ∷ s)

-- `int(s)` of a text of digits
unfoldable pub int_from : ℕ → Text → ℕ
int_from acc [] = acc
int_from acc (c ∷ s) = int_from (acc * 10 + (c - b'0')) s

abbrev pub is_empty : Text → Bool
is_empty [] = true
is_empty (c ∷ s) = false

-- `s or t`
abbrev pub or_text : Text → Text → Text
or_text [] t = t
or_text (c ∷ s) t = c ∷ s

-- The decimal digits of `n`, with fuel.
unfoldable pub digits_from : ℕ → ℕ → Text
digits_from zero n = []
digits_from (suc fuel) n =
    let rest = digits_from fuel (n / 10) in
    if ltb n 10 then (b'0' + n) ∷ [] else rest ++ (b'0' + n % 10) ∷ []

-- `str(n)`; a number has fewer digits than `n + 1`.
unfoldable pub str_nat : ℕ → Text
unfolding digits_from
str_nat n = digits_from (n + 1) n
