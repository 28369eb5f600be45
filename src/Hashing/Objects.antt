-- ===== src/Hashing/Objects.antt =====
-- hasher.go: objects and lists of them. `define` is the DefineSSZ method of the type, as run by the
-- hasher, and `zero_value` what zeroes.go makes for a nil object.
use ssz.Base.{ℕ, Option, none, some, List, length, if◌then◌else◌, ◌>>=◌}
use ssz.Fork.{Fork, ForkFilter, is_absent}
use ssz.Hasher.{Sha, Hasher, descend_layer, descend_mixin_layer, ascend_layer, ascend_mixin_layer}
use ssz.Hashing.{hash_all}

module _ (sha : Sha) {A : Type 0} (define : A → Hasher → Option Hasher) where
  -- The body of the loops over objects.
  unfoldable pub hash_object : A → Hasher → Option Hasher
  hash_object obj h = define obj (descend_layer h) >>= ascend_layer sha 0

  module _ (zero_value : A) where
    unfoldable pub hash_static_object : Option A → Hasher → Option Hasher
    hash_static_object none h = define zero_value (descend_layer h) >>= ascend_layer sha 0
    hash_static_object (some obj) h = define obj (descend_layer h) >>= ascend_layer sha 0

    unfoldable pub hash_static_object_on_fork :
        Fork → Option A → ForkFilter → Hasher → Option Hasher
    hash_static_object_on_fork fork obj filter h =
        if is_absent fork filter then some h else hash_static_object obj h

    unfoldable pub hash_dynamic_object : Option A → Hasher → Option Hasher
    hash_dynamic_object none h = define zero_value (descend_layer h) >>= ascend_layer sha 0
    hash_dynamic_object (some obj) h = define obj (descend_layer h) >>= ascend_layer sha 0

    unfoldable pub hash_dynamic_object_on_fork :
        Fork → Option A → ForkFilter → Hasher → Option Hasher
    hash_dynamic_object_on_fork fork obj filter h =
        if is_absent fork filter then some h else hash_dynamic_object obj h

  unfoldable pub hash_slice_of_dynamic_objects : List A → ℕ → Hasher → Option Hasher
  hash_slice_of_dynamic_objects objects max_items h =
      hash_all hash_object objects (descend_mixin_layer h)
      >>= ascend_mixin_layer sha (length objects) max_items

  unfoldable pub hash_slice_of_dynamic_objects_on_fork :
      Fork → List A → ℕ → ForkFilter → Hasher → Option Hasher
  hash_slice_of_dynamic_objects_on_fork fork objects max_items filter h =
      if is_absent fork filter then some h else hash_slice_of_dynamic_objects objects max_items h
