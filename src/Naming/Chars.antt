-- ===== src/Naming/Chars.antt =====
-- The passes that the three sanitizers share, and strings.Trim over "-".
use dploy.Prelude.{
  ℕ, ◌+◌, Bool, ◌&&◌, ◌||◌, [], ◌∷◌, map, ltb, leb, ◌==◌, if◌then◌else◌, length, take, is_empty,
  select,
}
use dploy.Prelude.Text.{Text}

-- unicode.ToLower, where its result can be ASCII: U+212A (Kelvin) and U+0130 become "k" and "i".
-- It sends all other code points outside ASCII to such code points, which are left as they are.
unfoldable pub to_lower : ℕ → ℕ
to_lower c =
    if leb b'A' c && leb c b'Z'
    then c + 32
    else if c == 0x212a
    then b'k'
    else if c == 0x130
    then b'i'
    else c

-- ReplaceAll of one character by "-".
unfoldable pub to_dash : ℕ → ℕ → ℕ
to_dash d c = if c == d then b'-' else c

unfoldable pub is_key_char : ℕ → Bool
is_key_char c = (leb b'a' c && leb c b'z') || (leb b'0' c && leb c b'9') || c == b'-'

-- Lower case, "." and "@" to "-", and only letters, digits and dashes kept.
unfoldable pub clean : Text → Text
clean s = select is_key_char (map (to_dash b'@') (map (to_dash b'.') (map to_lower s)))

unfoldable pub trim_left : Text → Text
trim_left [] = []
trim_left (c ∷ s) = if c == b'-' then trim_left s else c ∷ s

unfoldable pub trim_right : Text → Text
trim_right [] = []
trim_right (c ∷ s) = let r = trim_right s in if (c == b'-') && is_empty r then [] else c ∷ r

unfoldable pub trim : Text → Text
trim s = trim_right (trim_left s)

unfoldable pub truncate : Text → ℕ → Text
truncate s n = if ltb n (length s) then trim (take n s) else s
