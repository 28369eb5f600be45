-- ===== src/Generator/Define.antt =====
-- cmd/sszgen/gen.go: the calls of which generateDefineSSZ composes a DefineSSZ method. A call is
-- kept as what generateCall fills into its template; the comments behind the calls are left out.
use ssz.Base.{Option, none, some, List, [], ◌∷◌, ◌++◌, if◌then◌else◌}
use Prim.Native.String.{String}
use mathlib.Core.Bool.{not}
use text.Mathlib.Text.{◌==◌ as str_eq, starts_with}
use ssz.Generator.{ℤ, Call, opset_static, opset_dynamic}
use ssz.Generator.Container.{ContainerField, SszContainer}
use ssz.Generator.Accumulator.{tail}

-- The filter that is injected as the last argument of a call's OnFork variant.
pub data FilterText : Type 0 where
  unfiltered : FilterText
  removed_at added_at : String → FilterText

pub record CallText : Type 0 where
  pub call : Call
  pub recv : String
  pub field : String
  pub max_size : Option ℤ
  pub max_items : Option ℤ
  pub filter : FilterText

unfoldable pub last : List ℤ → Option ℤ
last [] = none
last (n ∷ []) = some n
last (m ∷ n ∷ ns) = last (n ∷ ns)

unfoldable pub last_but_one : List ℤ → Option ℤ
last_but_one [] = none
last_but_one (n ∷ []) = none
last_but_one (m ∷ n ∷ []) = some m
last_but_one (k ∷ m ∷ n ∷ ns) = last_but_one (m ∷ n ∷ ns)

unfoldable pub generate_call : Call → String → String → String → List ℤ → CallText
generate_call call fork recv field limits = record {
  call = call;
  recv = recv;
  field = field;
  max_size = last limits;
  max_items = last_but_one limits;
  filter =
      if str_eq fork ""
      then unfiltered
      else (if starts_with fork "!" then removed_at (tail fork) else added_at fork);
}

-- Spreading a nil slice gives no limits.
abbrev pub spread : Option (List ℤ) → List ℤ
spread none = []
spread (some numbers) = numbers

unfoldable pub define_call : ContainerField → CallText
define_call f = elim f.opset [
  | opset_static s ↦ generate_call s.define f.fork "codec" f.name (spread s.bytes)
  | opset_dynamic d ↦ generate_call d.define_offset f.fork "codec" f.name (spread d.limits)
]

-- The second loop runs over the dynamic fields only.
unfoldable pub content_calls : List ContainerField → List CallText
content_calls [] = []
content_calls (f ∷ fs) =
    let rest = content_calls fs in
    elim f.opset [
      | opset_static s ↦ rest
      | opset_dynamic d ↦
          generate_call d.define_content f.fork "codec" f.name (spread d.limits) ∷ rest
    ]

unfoldable pub define_calls : List ContainerField → List CallText
define_calls [] = []
define_calls (f ∷ fs) = define_call f ∷ define_calls fs

unfoldable pub generate_define_ssz : SszContainer → List CallText
generate_define_ssz c =
    define_calls c.fields ++ (if not c.static then content_calls c.fields else [])
