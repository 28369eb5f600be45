-- ===== src/Generator/Made.antt =====
-- cmd/sszgen/types.go and gen.go: the container of a struct, and the DefineSSZ method printed of it.
use ssz.Base.{
  ◌≡◌, refl, sym, ap, ◌∙◌, Bool, true, false, ◌&&◌, Bool-cases, inl, inr, Option, List, [], ◌∷◌,
  ◌++◌, append_assoc, append-nil, if◌then◌else◌,
}
use Prim.Native.String.{String}
use mathlib.Core.Bool.{not, true≢false}
use mathlib.Core.Path.{subst}
use ssz.Generator.{
  SizeTag, ParseContext, Opset, opset_static, opset_dynamic, Resolved, failed, resolved,
}
use ssz.Generator.Resolve.Pointers.{resolve_opset}
use ssz.Generator.Container.{
  StructField, Parsed, unparsed, parsed, ContainerField, SszContainer, Made, unmade, made,
  is_dynamic, append_field, add_parsed, add_field, make_loop, make_container,
}
use ssz.Generator.Printed.{Heads, Contents, define_calls-Heads, content_calls-Contents}
use ssz.Generator.Define.{CallText, define_calls, content_calls, generate_define_ssz}

unfoldable pub all_static : List ContainerField → Bool
all_static [] = true
all_static (f ∷ fs) = not (is_dynamic f.opset) && all_static fs

-- What holds of the container, if there is one.
unfoldable pub Outcome : (SszContainer → Type 0) → Made → Type 0
Outcome P (unmade message) = Unit
Outcome P (made c) = P c

and-if : (b d c : Bool) → (b && (if d then false else c)) ≡ (if d then false else (b && c))
and-if true d c = refl
and-if false true c = refl
and-if false false c = refl

all_static-snoc :
    (fs : List ContainerField) (f : ContainerField)
    → all_static (fs ++ (f ∷ [])) ≡ (if is_dynamic f.opset then false else all_static fs)
unfolding all_static
all_static-snoc [] f = last-static (is_dynamic f.opset)
  where
    last-static : (b : Bool) → (not b && true) ≡ (if b then false else true)
    last-static true = refl
    last-static false = refl
all_static-snoc (g ∷ fs) f =
    ap (λ b. not (is_dynamic g.opset) && b) (all_static-snoc fs f)
    ∙ and-if (not (is_dynamic g.opset)) (is_dynamic f.opset) (all_static fs)

-- Without dynamic fields, there is no content to define.
content_calls-static : (fs : List ContainerField) → all_static fs ≡ true → content_calls fs ≡ []
unfolding all_static content_calls is_dynamic
content_calls-static [] h = refl
content_calls-static (f ∷ fs) h = head-static f.opset h (content_calls-static fs)
  where
    head-static :
        (o : Opset)
        → (not (is_dynamic o) && all_static fs) ≡ true
        → (all_static fs ≡ true → content_calls fs ≡ [])
        → content_calls (record f { opset = o } ∷ fs) ≡ []
    head-static (opset_static s) e k = k e
    head-static (opset_dynamic d) e k = absurd (true≢false (sym e))

empty-static : true ≡ all_static []
unfolding all_static
empty-static = refl

unless-static :
    (b : Bool) (cs : List CallText) → (b ≡ true → cs ≡ []) → (if not b then cs else []) ≡ cs
unless-static true cs h = sym (h refl)
unless-static false cs h = refl

module _ (p : ParseContext) (parse_tags : String → Parsed) where
  -- The container's fields of a struct field: none, if it is private or ignored, or the field with
  -- its opset and its fork tag.
  pub data Takes (f : StructField) : List ContainerField → Type 0 where
    hidden : f.is_exported ≡ false → Takes f []
    ignored :
        (tags : Option SizeTag) (fork : String)
        → parse_tags f.tag ≡ parsed true tags fork
        → Takes f []
    taken :
        (tags : Option SizeTag) (fork : String) (opset : Opset)
        → f.is_exported ≡ true
        → parse_tags f.tag ≡ parsed false tags fork
        → resolve_opset p f.typ tags false ≡ resolved opset
        → Takes f (record { name = f.name; typ = f.typ; opset = opset; fork = fork } ∷ [])

  -- The container's fields of all struct fields, in their order.
  unfoldable pub Selects : List StructField → List ContainerField → Type 0
  Selects [] cs = cs ≡ []
  Selects (f ∷ fs) cs =
      (xs : List ContainerField) × (ys : List ContainerField) × Takes f xs
      × Selects fs ys
      × (cs ≡ xs ++ ys)

  abbrev IsFlagged : SszContainer → Type 0
  IsFlagged c = c.static ≡ all_static c.fields

  abbrev Adds : StructField → SszContainer → SszContainer → Type 0
  Adds f c d = IsFlagged d × ((xs : List ContainerField) × Takes f xs × (d.fields ≡ c.fields ++ xs))

  Outcome-map :
      (P Q : SszContainer → Type 0)
      → ((c : SszContainer) → P c → Q c)
      → (m : Made) → Outcome P m
      → Outcome Q m
  unfolding Outcome
  Outcome-map P Q h (unmade message) o = tt
  Outcome-map P Q h (made c) o = h c o

  append_field-Adds :
      (f : StructField) (tags : Option SizeTag) (fork : String) (c : SszContainer) (r : Resolved)
      → f.is_exported ≡ true
      → parse_tags f.tag ≡ parsed false tags fork
      → resolve_opset p f.typ tags false ≡ r
      → IsFlagged c
      → Outcome (Adds f c) (append_field f fork r c)
  unfolding append_field Outcome
  append_field-Adds f tags fork c (failed message) e t s h = tt
  append_field-Adds f tags fork c (resolved opset) e t s h = (
    ap (λ b. if is_dynamic opset then false else b) h ∙ sym (all_static-snoc c.fields _),
    (_, taken tags fork opset e t s, refl),
  )

  same-Adds : (f : StructField) (c : SszContainer) → Takes f [] → IsFlagged c → Adds f c c
  same-Adds f c t h = (h, ([], t, sym (append-nil c.fields)))

  add_parsed-Adds :
      (f : StructField) (c : SszContainer) (t : Parsed)
      → f.is_exported ≡ true
      → parse_tags f.tag ≡ t
      → IsFlagged c
      → Outcome (Adds f c) (add_parsed p parse_tags f t c)
  unfolding add_parsed Outcome
  add_parsed-Adds f c (unparsed message) e t h = tt
  add_parsed-Adds f c (parsed true tags fork) e t h = same-Adds f c (ignored tags fork t) h
  add_parsed-Adds f c (parsed false tags fork) e t h = append_field-Adds f tags fork c _ e t refl h

  abbrev Shown : StructField → SszContainer → Bool → Type 0
  Shown f c b =
      Outcome (Adds f c) (if not b then made c else add_parsed p parse_tags f (parse_tags f.tag) c)

  add_field-Adds :
      (f : StructField) (c : SszContainer)
      → IsFlagged c
      → Outcome (Adds f c) (add_field p parse_tags f c)
  unfolding add_field Outcome
  add_field-Adds f c h = elim (Bool-cases f.is_exported) [
    | inl e ↦ subst (Shown f c) (sym e) (add_parsed-Adds f c (parse_tags f.tag) e refl h)
    | inr e ↦ subst (Shown f c) (sym e) (same-Adds f c (hidden e) h)
  ]

  abbrev Extends : List StructField → SszContainer → SszContainer → Type 0
  Extends fs c d =
      IsFlagged d × ((ys : List ContainerField) × Selects fs ys × (d.fields ≡ c.fields ++ ys))

  make_rest-Extends :
      (f : StructField) (fs : List StructField) (c : SszContainer) (m : Made)
      → ((d : SszContainer)
          → IsFlagged d
          → Outcome (Extends fs d) (make_loop p parse_tags fs (made d)))
      → Outcome (Adds f c) m
      → Outcome (Extends (f ∷ fs) c) (make_loop p parse_tags fs m)
  unfolding make_loop Outcome Selects
  make_rest-Extends f fs c (unmade message) later o = tt
  make_rest-Extends f fs c (made d) later (flagged, (xs, takes, same)) =
      Outcome-map (Extends fs d) (Extends (f ∷ fs) c)
        (λ e (flag, (ys, selects, equal)). (
          flag,
          (
            xs ++ ys,
            (xs, ys, takes, selects, refl),
            equal ∙ ap (λ l. l ++ ys) same ∙ append_assoc c.fields xs ys,
          ),
        ))
        (make_loop p parse_tags fs (made d)) (later d flagged)

  make_loop-Extends :
      (fs : List StructField) (c : SszContainer)
      → IsFlagged c
      → Outcome (Extends fs c) (make_loop p parse_tags fs (made c))
  unfolding make_loop Outcome Selects
  make_loop-Extends [] c h = (h, ([], refl, sym (append-nil c.fields)))
  make_loop-Extends (f ∷ fs) c h =
      make_rest-Extends f fs c (add_field p parse_tags f c) (make_loop-Extends fs)
        (add_field-Adds f c h)

  -- The container that makeContainer makes of a struct has exactly the fields that are exported and
  -- not ignored, in their order, each with the opset that resolveOpset gives to its type and tags; it
  -- is static exactly if all their opsets are; and the DefineSSZ method printed of it has one call for
  -- each field, in that order, of its definition or that of its offset, and then one for each dynamic
  -- field, in that order, of the definition of its content, all on the codec and the field, with the
  -- limits of the opset and the filter of the field's fork.
  pub make_container-Selects :
      (fs : List StructField) (c : SszContainer)
      → make_container p parse_tags fs ≡ made c
      → Selects fs c.fields
        × (c.static ≡ all_static c.fields)
        × ((heads : List CallText) × (contents : List CallText) × Heads c.fields heads
            × Contents c.fields contents
            × (generate_define_ssz c ≡ heads ++ contents))
  unfolding make_container Outcome generate_define_ssz
  make_container-Selects fs c h =
      let (flag, (ys, selects, same)) =
        subst (Outcome (Extends fs record { static = true; fields = [] })) h
          (make_loop-Extends fs record { static = true; fields = [] } empty-static) in
      (
        subst (Selects fs) (sym same) selects,
        flag,
        (
          define_calls c.fields,
          content_calls c.fields,
          define_calls-Heads c.fields,
          content_calls-Contents c.fields,
          ap (λ l. define_calls c.fields ++ l)
              (unless-static c.static (content_calls c.fields)
                (λ e. content_calls-static c.fields (sym flag ∙ e))),
        ),
      )
