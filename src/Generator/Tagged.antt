-- ===== src/Generator/Tagged.antt =====
-- cmd/sszgen/tags.go: the numbers that one word of a tag adds.
use ssz.Base.{
  ◌≡◌, refl, sym, ap, ◌∙◌, inl, inr, Bool, true, Bool-cases, Option, none, some, List, [], ◌∷◌,
  ◌++◌, append_assoc, append-nil, if◌then◌else◌, if-both,
}
use Prim.Native.String.{String, ◌++◌ as concat}
use mathlib.Core.Path.{subst}
use text.Mathlib.Text.{◌==◌ as str_eq}
use text.Mathlib.TextEquality.{eq_iff}
use ssz.Base.Texts.{split}
use ssz.Generator.{ℤ}
use ssz.Generator.Tags.{
  Tags, Read, unread, reading, set_tag, value_of, set_tags, set_fork, read_tag, lookup,
  fork_mapping,
}

-- The numbers of the parts, up to one that is none.
unfoldable pub numbers : List String → List ℤ
numbers [] = []
numbers (part ∷ parts) = elim (value_of part) [ none ↦ [] | some v ↦ v ∷ numbers parts ]

abbrev pub Adds : List ℤ → List ℤ → Tags → Tags → Type 0
Adds sizes limits t u = (u.size ≡ t.size ++ sizes) × (u.limit ≡ t.limit ++ limits)

unfoldable pub Ends : List ℤ → List ℤ → Tags → Read → Type 0
Ends sizes limits t (unread message) = Unit
Ends sizes limits t (reading u) = Adds sizes limits t u

pub Ends-unread : (s l : List ℤ) (t : Tags) (message : String) → Ends s l t (unread message)
unfolding Ends
Ends-unread s l t message = tt

unchanged : (t u : Tags) → u.size ≡ t.size → u.limit ≡ t.limit → Ends [] [] t (reading u)
unfolding Ends
unchanged t u s l = (s ∙ sym (append-nil t.size), l ∙ sym (append-nil t.limit))

-- What a word adds, and then the rest.
pub Ends-then :
    (s s' l l' : List ℤ) (t u : Tags) (r : Read)
    → Adds s l t u
    → Ends s' l' u r
    → Ends (s ++ s') (l ++ l') t r
unfolding Ends
Ends-then s s' l l' t u (unread message) a e = tt
Ends-then s s' l l' t u (reading v) (sizes, limits) (more, above) = (
  more ∙ ap (λ xs. xs ++ s') sizes ∙ append_assoc t.size s s',
  above ∙ ap (λ xs. xs ++ l') limits ∙ append_assoc t.limit l l',
)

set_tags-size :
    (parts : List String) (t : Tags) → Ends (numbers parts) [] t (set_tags "ssz-size" parts t)
unfolding set_tags numbers set_tag
set_tags-size [] t = unchanged t t refl refl
set_tags-size (part ∷ parts) t = one_part (value_of part) (set_tags-size parts)
  where
    one_part :
        (v : Option ℤ)
        → ((u : Tags) → Ends (numbers parts) [] u (set_tags "ssz-size" parts u))
        → Ends
            (elim v [ none ↦ [] | some n ↦ n ∷ numbers parts ])
            []
            t
            (elim v [
              | none ↦ unread "strconv.ParseInt: parsing %s: %v"
              | some n ↦ set_tags "ssz-size" parts (set_tag n "ssz-size" t)
            ])
    one_part none later = Ends-unread _ _ t _
    one_part (some n) later =
        Ends-then (n ∷ []) (numbers parts) [] [] t (set_tag n "ssz-size" t)
          (set_tags "ssz-size" parts (set_tag n "ssz-size" t)) (refl, sym (append-nil t.limit))
          (later (set_tag n "ssz-size" t))

set_tags-max :
    (parts : List String) (t : Tags) → Ends [] (numbers parts) t (set_tags "ssz-max" parts t)
unfolding set_tags numbers set_tag
set_tags-max [] t = unchanged t t refl refl
set_tags-max (part ∷ parts) t = one_part (value_of part) (set_tags-max parts)
  where
    one_part :
        (v : Option ℤ)
        → ((u : Tags) → Ends [] (numbers parts) u (set_tags "ssz-max" parts u))
        → Ends []
            (elim v [ none ↦ [] | some n ↦ n ∷ numbers parts ])
            t
            (elim v [
              | none ↦ unread "strconv.ParseInt: parsing %s: %v"
              | some n ↦ set_tags "ssz-max" parts (set_tag n "ssz-max" t)
            ])
    one_part none later = Ends-unread _ _ t _
    one_part (some n) later =
        Ends-then [] [] (n ∷ []) (numbers parts) t (set_tag n "ssz-max" t)
          (set_tags "ssz-max" parts (set_tag n "ssz-max" t)) (sym (append-nil t.size), refl)
          (later (set_tag n "ssz-max" t))

set_fork-Ends : (remain : String) (t : Tags) → Ends [] [] t (set_fork remain t)
unfolding set_fork
set_fork-Ends remain t = found (lookup fork_mapping _) _
  where
    found :
        (e : Option String) (b : Bool)
        → Ends [] [] t (elim e [
          | none ↦ unread "invalid fork tag %s"
          | some enum ↦ reading (record t { fork = if b then concat "!" enum else enum })
        ])
    found none b = Ends-unread [] [] t _
    found (some enum) b =
        unchanged t (record t { fork = if b then concat "!" enum else enum }) refl refl

abbrev pub Word : String → String → Tags → Type 0
Word ident remain t =
    Ends (if str_eq ident "ssz-size" then numbers (split 44 remain) else [])
      (if str_eq ident "ssz-max" then numbers (split 44 remain) else []) t (read_tag ident remain t)

-- The word of an identifier that is one of the four, and of any other.
read_tag-ssz : (remain : String) (t : Tags) → Word "ssz" remain t
unfolding read_tag
read_tag-ssz remain t =
    if-both (Ends [] [] t) (str_eq remain "-") (unchanged t (record t { ignore = true }) refl refl)
      (if-both (Ends [] [] t) (str_eq remain "bits")
        (unchanged t (record t { bits = true }) refl refl) (unchanged t t refl refl))

read_tag-fork : (remain : String) (t : Tags) → Word "ssz-fork" remain t
unfolding read_tag
read_tag-fork remain t =
    if-both (Ends [] [] t) (str_eq remain "") (Ends-unread [] [] t _) (set_fork-Ends remain t)

read_tag-size : (remain : String) (t : Tags) → Word "ssz-size" remain t
unfolding read_tag
read_tag-size remain t = set_tags-size (split 44 remain) t

read_tag-max : (remain : String) (t : Tags) → Word "ssz-max" remain t
unfolding read_tag
read_tag-max remain t = set_tags-max (split 44 remain) t

pub read_tag-Word : (ident remain : String) (t : Tags) → Word ident remain t
unfolding read_tag
read_tag-Word ident remain t = elim (Bool-cases (str_eq ident "ssz")) [
  | inl a ↦ subst (λ i. Word i remain t) (sym ((eq_iff ident "ssz").0 a)) (read_tag-ssz remain t)
  | inr a ↦ elim (Bool-cases (str_eq ident "ssz-max")) [
    | inl b ↦
        subst (λ i. Word i remain t) (sym ((eq_iff ident "ssz-max").0 b)) (read_tag-max remain t)
    | inr b ↦ elim (Bool-cases (str_eq ident "ssz-size")) [
      | inl c ↦
          subst (λ i. Word i remain t) (sym ((eq_iff ident "ssz-size").0 c))
            (read_tag-size remain t)
      | inr c ↦ elim (Bool-cases (str_eq ident "ssz-fork")) [
        | inl d ↦
            subst (λ i. Word i remain t) (sym ((eq_iff ident "ssz-fork").0 d))
              (read_tag-fork remain t)
        | inr d ↦ rw (a, b, c, d) (unchanged t t refl refl)
      ]
    ]
  ]
]
