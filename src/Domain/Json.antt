-- ===== src/Domain/Json.antt =====
-- JSON values, as `dict[str, JsonValue]` holds them.
use trackrelay.Prelude.{
  ℕ, ℤ, String, Bool, true, false, ◌||◌, ◌&&◌, List, [], ◌∷◌, Option, none, some, ◌==◌,
  string_equality, if◌then◌else◌,
}

-- A float is given by the bits of its binary64 pattern.
mutual
  pub data Json : Type 0 where
    null : Json
    bool : Bool → Json
    int : ℤ → Json
    float : ℕ → Json
    str : String → Json
    arr : Items → Json
    obj : Fields → Json

  pub data Items : Type 0 where
    nil : Items
    cons : Json → Items → Items

  pub data Fields : Type 0 where
    end : Fields
    field : String → Json → Fields → Fields

-- `d.get(key)`; the keys of a dict are distinct.
abbrev pub get : String → Fields → Option Json
get key end = none
get key (field k v rest) = if k == key then some v else get key rest

abbrev pub contains : List String → String → Bool
contains [] key = false
contains (k ∷ ks) key = k == key || contains ks key

-- What `extra="forbid"` asks: every key of the object is a field of the model.
abbrev pub only_keys : List String → Fields → Bool
only_keys names end = true
only_keys names (field k v rest) = contains names k && only_keys names rest
