-- ===== src/Domain/Json.antt =====
-- The documents that `json.Marshal` is given, by their values. Identifiers and times keep their own
-- constructors, since their text is the library's.
use ms_go_comment.Base.{
  Bool, List, Option, Text, [], false, if◌then◌else◌, none, some, text_eq, true, ℕ, ℤ, ◌∷◌,
}

mutual
  pub data Json : Type 0 where
    null : Json
    bool : Bool → Json
    int : ℤ → Json
    text : Text → Json
    uuid : ℕ → Json
    time : ℕ → Json
    arr : Items → Json
    obj : Fields → Json
    malformed : Text → Json

  pub data Items : Type 0 where
    nil : Items
    cons : Json → Items → Items

  pub data Fields : Type 0 where
    end : Fields
    field : Text → Json → Fields → Fields

-- A member by its name.
unfoldable pub member : Text → Fields → Option Json
member k end = none
member k (field j v fs) = let rest = member k fs in if text_eq j k then some v else rest

-- `delete(m, k)`
unfoldable pub without : Text → Fields → Fields
without k end = end
without k (field j v fs) = let rest = without k fs in if text_eq j k then rest else field j v rest

abbrev pub uuid_ptr : Option ℕ → Json
uuid_ptr none = null
uuid_ptr (some id) = uuid id

abbrev pub items {ℓ} : {A : Type ℓ} → (A → Json) → List A → Items
items f [] = nil
items f (x ∷ xs) = cons (f x) (items f xs)

-- `json.Valid`, and the braces of an object.
abbrev pub is_object : Json → Bool
is_object (obj _) = true
is_object _ = false
