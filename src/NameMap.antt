-- ===== src/NameMap.antt =====
-- src/workers/camera_tasks.py, on_embedding_reload: the map from names to user ids that the task thread
-- reads is brought up to date in place, one key at a time, while it is read.
pub mod Reload
use lum_model_face_recogniti.Base.{
  ℕ, ◌||◌, not, Bool, true, false, Option, none, some, List, [], ◌∷◌, if◌then◌else◌, String, str_eq,
}

abbrev pub Names : Type 0
Names = List (String × ℕ)

abbrev pub find : String → Names → Option ℕ
find k [] = none
find k ((x, id) ∷ m) = if str_eq x k then some id else find k m

abbrev pub has : String → Names → Bool
has k [] = false
has k ((x, id) ∷ m) = str_eq x k || has k m

abbrev pub put : String → ℕ → Names → Names
put k id [] = (k, id) ∷ []
put k id ((x, old) ∷ m) = if str_eq x k then (x, id) ∷ m else (x, old) ∷ put k id m

-- `pop(name, None)`
abbrev pub pop : String → Names → Names
pop k [] = []
pop k ((x, id) ∷ m) = let rest = pop k m in if str_eq x k then rest else (x, id) ∷ rest

-- `target.update(new_map)`, and the maps that a reader may see meanwhile.
unfoldable pub update : Names → Names → Names
update [] m = m
update ((k, id) ∷ new) m = update new (put k id m)

unfoldable pub update_states : Names → Names → List Names
update_states [] m = []
update_states ((k, id) ∷ new) m = put k id m ∷ update_states new (put k id m)

-- The names that are not in the new map.
abbrev pub old_names : Names → Names → List String
old_names new [] = []
old_names new ((x, id) ∷ m) = let rest = old_names new m in if has x new then rest else x ∷ rest

unfoldable pub pop_all : List String → Names → Names
pop_all [] m = m
pop_all (k ∷ ks) m = pop_all ks (pop k m)

unfoldable pub pop_states : List String → Names → List Names
pop_states [] m = []
pop_states (k ∷ ks) m = pop k m ∷ pop_states ks (pop k m)

-- Growing, then shrinking.
unfoldable pub reload : Names → Names → Names
unfolding update pop_all
reload new target = let grown = update new target in pop_all (old_names new grown) grown
