-- ===== src/Generator/Every.antt =====
-- What holds of the opset that a resolution ends in, if it does not end in an error.
use ssz.Base.{◌≡◌, refl, Bool, true, false, if◌then◌else◌}
use Prim.Native.String.{String}
use ssz.Generator.{Opset, Resolved, failed, resolved, reject}

pub data Every (P : Opset → Type 0) : Resolved → Type 0 where
  failing : (message : String) → Every P (failed message)
  passing : (opset : Opset) → P opset → Every P (resolved opset)

module _ {P : Opset → Type 0} where
  pub reject-Every :
      (b : Bool) (message : String) (r : Resolved)
      → (b ≡ false → Every P r)
      → Every P (reject b message r)
  unfolding reject
  reject-Every true message r h = failing message
  reject-Every false message r h = h refl

  pub if-Every :
      (b : Bool) (r s : Resolved)
      → (b ≡ true → Every P r)
      → (b ≡ false → Every P s)
      → Every P (if b then r else s)
  if-Every true r s h k = h refl
  if-Every false r s h k = k refl

  -- The two calls of a pointer and of a value.
  pub by_pointer-Every :
      (b : Bool) (o q : Opset) → P o → P q → Every P (if b then resolved o else resolved q)
  by_pointer-Every true o q h k = passing o h
  by_pointer-Every false o q h k = passing q k

pub Every-map :
    {P Q : Opset → Type 0} → ((o : Opset) → P o → Q o) → (r : Resolved) → Every P r → Every Q r
Every-map h r (failing message) = failing message
Every-map h r (passing opset holds) = passing opset (h opset holds)
