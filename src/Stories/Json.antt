-- ===== src/Stories/Json.antt =====
-- contracts/stories.py: the JSON values of a draft, and Python's `dict.get` and `d[k] = v` on them.
use ai_rpg.Prelude.{Bool, Option, none, some, if◌then◌else◌, ◌==◌, list_eq, id_eq}
use ai_rpg.Prelude.Int.{ℤ}
use ai_rpg.Text.{Text}

mutual
  pub data Json : Type 0 where
    null : Json
    bool : Bool → Json
    int : ℤ → Json
    str : Text → Json
    list : Rows → Json
    dict : Fields → Json

  pub data Rows : Type 0 where
    nil : Rows
    cons : Json → Rows → Rows

  pub data Fields : Type 0 where
    end : Fields
    field : Text → Json → Fields → Fields

pub get : Text → Fields → Option Json
get k end = none
get k (field j v d) = if j == k then some v else get k d

pub set : Text → Json → Fields → Fields
set k v end = field k v end
set k v (field j w d) = if j == k then field k v d else field j w (set k v d)
