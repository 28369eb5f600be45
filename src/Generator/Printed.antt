-- ===== src/Generator/Printed.antt =====
-- cmd/sszgen/gen.go: what stands in the DefineSSZ method, told from the fields alone.
use ssz.Base.{◌≡◌, refl, sym, Bool, true, false, none, some, List, [], ◌∷◌, if◌then◌else◌}
use Prim.Native.String.{String}
use mathlib.Core.Path.{subst}
use text.Mathlib.Text.{◌==◌ as str_eq, starts_with}
use ssz.Generator.{ℤ, Call, OpsetStatic, OpsetDynamic, Opset, opset_static, opset_dynamic}
use ssz.Generator.Container.{ContainerField}
use ssz.Generator.Accumulator.{tail}
use ssz.Generator.Define.{
  FilterText, unfiltered, removed_at, added_at, CallText, last, last_but_one, generate_call, spread,
  define_call, content_calls, define_calls,
}

-- The last number of the limits is the maximal size, the one before the maximal number of items.
unfoldable pub IsLimited : List ℤ → CallText → Type 0
IsLimited [] t = (t.max_size ≡ none) × (t.max_items ≡ none)
IsLimited (n ∷ []) t = (t.max_size ≡ some n) × (t.max_items ≡ none)
IsLimited (m ∷ n ∷ []) t = (t.max_size ≡ some n) × (t.max_items ≡ some m)
IsLimited (k ∷ m ∷ n ∷ ns) t = IsLimited (m ∷ n ∷ ns) t

-- A field without a fork is always there, one of "!Fork" until this fork, one of "Fork" from it on.
pub data Filters (fork : String) : FilterText → Type 0 where
  always : str_eq fork "" ≡ true → Filters fork unfiltered
  until :
      str_eq fork "" ≡ false → starts_with fork "!" ≡ true → Filters fork (removed_at (tail fork))
  since : str_eq fork "" ≡ false → starts_with fork "!" ≡ false → Filters fork (added_at fork)

-- The text is the call on the field, with the limits and the field's filter.
abbrev pub Prints : Call → List ℤ → ContainerField → CallText → Type 0
Prints call limits f t =
    (t.call ≡ call)
    × (t.recv ≡ "codec")
    × (t.field ≡ f.name)
    × IsLimited limits t
    × Filters f.fork t.filter

-- One text for each field, in order: its definition, or of a dynamic field that of its offset.
pub data Heads : List ContainerField → List CallText → Type 0 where
  no_heads : Heads [] []
  static_head :
      (f : ContainerField) (fs : List ContainerField) (s : OpsetStatic) (t : CallText)
      (ts : List CallText)
      → f.opset ≡ opset_static s
      → Prints s.define (spread s.bytes) f t
      → Heads fs ts
      → Heads (f ∷ fs) (t ∷ ts)
  dynamic_head :
      (f : ContainerField) (fs : List ContainerField) (d : OpsetDynamic) (t : CallText)
      (ts : List CallText)
      → f.opset ≡ opset_dynamic d
      → Prints d.define_offset (spread d.limits) f t
      → Heads fs ts
      → Heads (f ∷ fs) (t ∷ ts)

-- One text for each dynamic field, in order: the definition of its content.
pub data Contents : List ContainerField → List CallText → Type 0 where
  no_contents : Contents [] []
  skips :
      (f : ContainerField) (fs : List ContainerField) (s : OpsetStatic) (ts : List CallText)
      → f.opset ≡ opset_static s
      → Contents fs ts
      → Contents (f ∷ fs) ts
  defines :
      (f : ContainerField) (fs : List ContainerField) (d : OpsetDynamic) (t : CallText)
      (ts : List CallText)
      → f.opset ≡ opset_dynamic d
      → Prints d.define_content (spread d.limits) f t
      → Contents fs ts
      → Contents (f ∷ fs) (t ∷ ts)

choose-Filters :
    (fork : String) (b c : Bool)
    → str_eq fork "" ≡ b
    → starts_with fork "!" ≡ c
    → Filters fork (if b then unfiltered else (if c then removed_at (tail fork) else added_at fork))
choose-Filters fork true c e i = always e
choose-Filters fork false true e i = until e i
choose-Filters fork false false e i = since e i

IsLimited-of_last :
    (limits : List ℤ) (t : CallText)
    → t.max_size ≡ last limits
    → t.max_items ≡ last_but_one limits
    → IsLimited limits t
unfolding IsLimited last last_but_one
IsLimited-of_last [] t e i = (e, i)
IsLimited-of_last (n ∷ []) t e i = (e, i)
IsLimited-of_last (m ∷ n ∷ []) t e i = (e, i)
IsLimited-of_last (k ∷ m ∷ n ∷ ns) t e i = IsLimited-of_last (m ∷ n ∷ ns) t e i

generate_call-Prints :
    (call : Call) (limits : List ℤ) (f : ContainerField)
    → Prints call limits f (generate_call call f.fork "codec" f.name limits)
unfolding generate_call
generate_call-Prints call limits f = (
  refl,
  refl,
  refl,
  IsLimited-of_last limits (generate_call call f.fork "codec" f.name limits) refl refl,
  choose-Filters f.fork (str_eq f.fork "") (starts_with f.fork "!") refl refl,
)

pub define_calls-Heads : (fs : List ContainerField) → Heads fs (define_calls fs)
unfolding define_calls define_call
define_calls-Heads [] = no_heads
define_calls-Heads (f ∷ fs) = by_opset f.opset refl (define_calls-Heads fs)
  where
    by_opset :
        (o : Opset)
        → f.opset ≡ o
        → Heads fs (define_calls fs)
        → Heads (f ∷ fs) (define_call f ∷ define_calls fs)
    by_opset (opset_static s) e h =
        static_head f fs s _ _ e (rw e (generate_call-Prints s.define (spread s.bytes) f)) h
    by_opset (opset_dynamic d) e h =
        dynamic_head f fs d _ _ e (rw e (generate_call-Prints d.define_offset (spread d.limits) f))
          h

content_calls-skips :
    (f : ContainerField) (fs : List ContainerField) (s : OpsetStatic)
    → f.opset ≡ opset_static s
    → content_calls (f ∷ fs) ≡ content_calls fs
unfolding content_calls
content_calls-skips f fs s e = rw e refl

content_calls-defines :
    (f : ContainerField) (fs : List ContainerField) (d : OpsetDynamic)
    → f.opset ≡ opset_dynamic d
    → content_calls (f ∷ fs)
      ≡ generate_call d.define_content f.fork "codec" f.name (spread d.limits) ∷ content_calls fs
unfolding content_calls
content_calls-defines f fs d e = rw e refl

pub content_calls-Contents : (fs : List ContainerField) → Contents fs (content_calls fs)
unfolding content_calls
content_calls-Contents [] = no_contents
content_calls-Contents (f ∷ fs) = by_opset f.opset refl (content_calls-Contents fs)
  where
    by_opset :
        (o : Opset)
        → f.opset ≡ o
        → Contents fs (content_calls fs)
        → Contents (f ∷ fs) (content_calls (f ∷ fs))
    by_opset (opset_static s) e h =
        subst (Contents (f ∷ fs)) (sym (content_calls-skips f fs s e)) (skips f fs s _ e h)
    by_opset (opset_dynamic d) e h =
        subst (Contents (f ∷ fs)) (sym (content_calls-defines f fs d e))
          (defines f fs d _ _ e (generate_call-Prints d.define_content (spread d.limits) f) h)
