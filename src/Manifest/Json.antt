-- ===== src/Manifest/Json.antt =====
-- The values that `JSON.parse` returns to manifest.ts, and the numbers in them. A finite number is
-- a sign with the fraction `num / suc den`; every finite double is one.
use tube.Common.{ℕ, Bool, Option, none, some, ◌==◌, text_eq, if◌then◌else◌}
use tube.Common.Text.{Text}

pub data Number : Type 0 where
  nan : Number
  infinite : Bool → Number
  finite : Bool → ℕ → ℕ → Number

mutual
  pub data Json : Type 0 where
    null : Json
    bool : Bool → Json
    num : Number → Json
    str : Text → Json
    arr : Items → Json
    obj : Fields → Json

  pub data Items : Type 0 where
    nil : Items
    cons : Json → Items → Items

  pub data Fields : Type 0 where
    end : Fields
    field : Text → Json → Fields → Fields

abbrev pub lookup_field : Text → Fields → Option Json
lookup_field k end = none
lookup_field k (field j v fs) = if j == k then some v else lookup_field k fs

-- `v.k`, on a value that is neither `null` nor `undefined`: only an object has fields of its own.
abbrev pub member : Json → Text → Option Json
member (obj fs) k = lookup_field k fs
member _ k = none

non_null : Option Json → Json
non_null none = obj end
non_null (some null) = obj end
non_null (some v) = v

-- `v.k ?? {}`
unfoldable pub member_or_empty : Json → Text → Json
unfolding non_null
member_or_empty v k = non_null (member v k)
