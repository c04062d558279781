-- ===== src/Tests/Names.antt =====
-- One name stays, one goes and one comes.
use lum_model_face_recogniti.Base.{◌≡◌, [], ◌∷◌, All, refl}
use lum_model_face_recogniti.NameMap.{
  Names, find, update, update_states, old_names, pop_states, reload,
}
use lum_model_face_recogniti.NameMap.Reload.{Seen, find-reload_states}

abbrev before_reload : Names
before_reload = ("Ann", 1) ∷ ("Bob", 2) ∷ []

abbrev after_reload : Names
after_reload = ("Bob", 5) ∷ ("Cid", 3) ∷ []

reload_test : reload after_reload before_reload ≡ after_reload
unfolding reload
reload_test = refl

find-reload_states_example :
    let grown = update after_reload before_reload in
    All (Seen "Bob" after_reload before_reload) (update_states after_reload before_reload)
    × All (Seen "Bob" after_reload before_reload) (pop_states (old_names after_reload grown) grown)
    × (find "Bob" (reload after_reload before_reload) ≡ find "Bob" after_reload)
find-reload_states_example = find-reload_states "Bob" after_reload before_reload refl
