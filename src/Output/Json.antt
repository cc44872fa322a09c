-- ===== src/Output/Json.antt =====
-- The values that src/output.rs hands to serde_json. The printers belong to that crate: they are
-- the parameter `Printer`.
use new_p2p_crawler.Io.{Result}
use new_p2p_crawler.Prelude.{ℤ, pos, Text, ℕ, Bool, Option, none, some, List, [], ◌∷◌}

mutual
  pub data Json : Type 0 where
    null : Json
    bool : Bool → Json
    number : ℤ → Json
    string : Text → Json
    array : Items → Json
    object : Fields → Json

  pub data Items : Type 0 where
    nil : Items
    cons : Json → Items → Items

  pub data Fields : Type 0 where
    end : Fields
    field : Text → Json → Fields → Fields

abbrev pub items : List Json → Items
items [] = nil
items (v ∷ vs) = cons v (items vs)

abbrev pub fields : List (Text × Json) → Fields
fields [] = end
fields ((k, v) ∷ vs) = field k v (fields vs)

abbrev pub unsigned : ℕ → Json
unsigned n = number (pos n)

-- `Option` as serde writes it.
abbrev pub optional : {A : Type 0} → (A → Json) → Option A → Json
optional f none = null
optional f (some a) = f a

-- `serde_json::to_string`, with its error as text.
pub record Printer : Type 0 where
  pub to_string : Json → Result Text Text
