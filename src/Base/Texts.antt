-- ===== src/Base/Texts.antt =====
-- Go's text functions that tags are read with: strings.Fields, Split and Trim, and the digits of
-- strconv.ParseInt in base 10.
use Prim.Native.Nat.{ℕ, ◌+◌, ◌-◌, ◌*◌}
use Prim.Native.Char.{Char, code}
use Prim.Native.String.{String}
use mathlib.Core.Bool.{Bool, ◌&&◌, ◌||◌}
use mathlib.Core.Option.{Option, none, some}
use mathlib.Core.List.{List, [], ◌∷◌}
use text.Mathlib.Text.{◌==◌ as str_eq}
use ssz.Base.Tests.{leb, ◌==◌, if◌then◌else◌}

unfoldable pub prepend : Char → List String → List String
prepend c [] = String.◌∷◌ c String.[] ∷ []
prepend c (w ∷ ws) = String.◌∷◌ c w ∷ ws

-- The pieces between the characters that a test finds.
unfoldable pub split_where : (ℕ → Bool) → String → List String
split_where test String.[] = String.[] ∷ []
split_where test (String.◌∷◌ c s) =
    let rest = split_where test s in if test (code c) then String.[] ∷ rest else prepend c rest

-- unicode.IsSpace.
abbrev pub is_space : ℕ → Bool
is_space c =
    (leb 9 c && leb c 13)
    || (c == 32)
    || (c == 133)
    || (c == 160)
    || (c == 5760)
    || (leb 8192 c && leb c 8202)
    || (c == 8232)
    || (c == 8233)
    || (c == 8239)
    || (c == 8287)
    || (c == 12288)

unfoldable pub drop_empty : List String → List String
drop_empty [] = []
drop_empty (w ∷ ws) = let rest = drop_empty ws in if str_eq w "" then rest else w ∷ rest

unfoldable pub fields : String → List String
fields s = drop_empty (split_where is_space s)

-- The character is given by its code.
unfoldable pub split : ℕ → String → List String
split separator s = split_where (λ c. c == separator) s

unfoldable pub trim_left : ℕ → String → String
trim_left cut String.[] = String.[]
trim_left cut (String.◌∷◌ c s) =
    let rest = trim_left cut s in if code c == cut then rest else String.◌∷◌ c s

unfoldable pub trim_right : ℕ → String → String
trim_right cut String.[] = String.[]
trim_right cut (String.◌∷◌ c s) =
    let rest = trim_right cut s in
    if (code c == cut) && str_eq rest "" then String.[] else String.◌∷◌ c rest

unfoldable pub trim : ℕ → String → String
trim cut s = trim_right cut (trim_left cut s)

-- The number that decimal digits write behind those already read.
unfoldable pub digits : String → ℕ → Option ℕ
digits String.[] n = some n
digits (String.◌∷◌ c s) n =
    let rest = digits s (n * 10 + (code c - 48)) in
    if leb 48 (code c) && leb (code c) 57 then rest else none
