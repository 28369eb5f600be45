-- ===== src/Generator/Parsed.antt =====
-- cmd/sszgen/tags.go: the numbers that parseTags finds in a whole tag.
use ssz.Base.{
  suc, ◌+◌, ◌≤◌, ◌≡◌, refl, sym, ◌∙◌, inl, inr, false, Bool-cases, ◌&&◌, Option, none, some, List,
  [], ◌∷◌, ◌++◌, append-nil, ap, length, ◌==◌, ==_false, if◌then◌else◌, arith,
}
use Prim.Native.String.{String}
use mathlib.Core.Path.{subst}
use text.Mathlib.Text.{◌==◌ as str_eq}
use text.Mathlib.TextEquality.{eq_iff}
use ssz.Base.Texts.{fields, split, trim, drop_empty, split_where}
use ssz.Generator.{ℤ, SizeTag}
use ssz.Generator.Container.{Parsed, unparsed, parsed}
use ssz.Generator.Tags.{Tags, Read, unread, reading, read_parts, read_words, parse_end, parse_tags}
use ssz.Generator.Tagged.{numbers, Ends, Ends-unread, Ends-then, read_tag-Word}

-- The numbers of a word, if it has the identifier, and of all words.
unfoldable pub word_numbers : String → List String → List ℤ
word_numbers want (ident ∷ remain ∷ []) =
    if str_eq ident want then numbers (split 44 (trim 34 remain)) else []
word_numbers want parts = []

unfoldable pub all_numbers : String → List String → List ℤ
all_numbers want [] = []
all_numbers want (word ∷ words) = word_numbers want (split 58 word) ++ all_numbers want words

-- A size tag has the numbers, and at least one of them; without it there are none.
unfoldable pub Matches : List ℤ → List ℤ → Option SizeTag → Type 0
Matches sizes limits none = (sizes ≡ []) × (limits ≡ [])
Matches sizes limits (some t) =
    (t.size ≡ sizes) × (t.limit ≡ limits) × (1 ≤ length t.size + length t.limit)

unfoldable pub HasNumbers : List ℤ → List ℤ → Parsed → Type 0
HasNumbers sizes limits (unparsed message) = Unit
HasNumbers sizes limits (parsed ignore tags fork) = Matches sizes limits tags

read_parts-Ends :
    (parts : List String) (t : Tags)
    → Ends (word_numbers "ssz-size" parts) (word_numbers "ssz-max" parts) t (read_parts parts t)
unfolding word_numbers read_parts
read_parts-Ends [] t = Ends-unread [] [] t _
read_parts-Ends (ident ∷ []) t = Ends-unread [] [] t _
read_parts-Ends (ident ∷ remain ∷ []) t = read_tag-Word ident (trim 34 remain) t
read_parts-Ends (ident ∷ remain ∷ more ∷ parts) t = Ends-unread [] [] t _

read_rest-Ends :
    (s s' l l' : List ℤ) (words : List String) (t : Tags) (r : Read)
    → Ends s l t r
    → ((u : Tags) → Ends s' l' u (read_words words (reading u)))
    → Ends (s ++ s') (l ++ l') t (read_words words r)
unfolding read_words Ends
read_rest-Ends s s' l l' words t (unread message) e later = tt
read_rest-Ends s s' l l' words t (reading u) e later =
    Ends-then s s' l l' t u (read_words words (reading u)) e (later u)

read_words-Ends :
    (words : List String) (t : Tags)
    → Ends
        (all_numbers "ssz-size" words)
        (all_numbers "ssz-max" words)
        t
        (read_words words (reading t))
unfolding read_words all_numbers Ends
read_words-Ends [] t = (sym (append-nil t.size), sym (append-nil t.limit))
read_words-Ends (word ∷ words) t =
    read_rest-Ends _ _ _ _ words t (read_parts (split 58 word) t)
      (read_parts-Ends (split 58 word) t) (read_words-Ends words)

some_or_none-HasNumbers :
    (xs ys : List ℤ) {sizes limits : List ℤ} (u : Tags)
    → xs ≡ sizes
    → ys ≡ limits
    → HasNumbers sizes limits (
        if (length xs == 0) && (length ys == 0)
        then parsed u.ignore none u.fork
        else parsed u.ignore (some record { bits = u.bits; size = xs; limit = ys }) u.fork)
unfolding HasNumbers Matches
some_or_none-HasNumbers [] [] u s l = (sym s, sym l)
some_or_none-HasNumbers [] (y ∷ ys) u s l =
    rw (==_false (suc (length ys)) 0 (λ e. omega arith)) (s, l, omega arith)
some_or_none-HasNumbers (x ∷ xs) ys u s l =
    rw (==_false (suc (length xs)) 0 (λ e. omega arith)) (s, l, omega arith)

parse_end-HasNumbers :
    (sizes limits : List ℤ) (t : Tags) (r : Read)
    → t.size ≡ []
    → t.limit ≡ []
    → Ends sizes limits t r
    → HasNumbers sizes limits (parse_end r)
unfolding parse_end HasNumbers Matches Ends
parse_end-HasNumbers sizes limits t (unread message) s l e = tt
parse_end-HasNumbers sizes limits t (reading u) s l (size, limit) =
    some_or_none-HasNumbers u.size u.limit u (size ∙ ap (λ xs. xs ++ sizes) s)
      (limit ∙ ap (λ xs. xs ++ limits) l)

abbrev no_tags : Tags
no_tags = record { ignore = false; bits = false; size = []; limit = []; fork = "" }

abbrev Numbered : String → Type 0
Numbered input =
    HasNumbers (all_numbers "ssz-size" (fields input)) (all_numbers "ssz-max" (fields input))
      (parse_tags input)

empty-HasNumbers : Numbered ""
unfolding parse_tags HasNumbers Matches all_numbers fields split_where drop_empty
empty-HasNumbers = (refl, refl)

-- If parseTags succeeds, the sizes and the limits of the size tag are the numbers, a question mark
-- being 0, of all ssz-size words and of all ssz-max words of the input, in their order; there is a size
-- tag exactly if there is such a number.
pub parse_tags-HasNumbers :
    (input : String)
    → HasNumbers
        (all_numbers "ssz-size" (fields input))
        (all_numbers "ssz-max" (fields input))
        (parse_tags input)
unfolding parse_tags
parse_tags-HasNumbers input = elim (Bool-cases (str_eq input "")) [
  | inl e ↦ subst Numbered (sym ((eq_iff input "").0 e)) empty-HasNumbers
  | inr e ↦ rw e (
      parse_end-HasNumbers _ _ no_tags (read_words (fields input) (reading no_tags)) refl refl
        (read_words-Ends (fields input) no_tags))
]
