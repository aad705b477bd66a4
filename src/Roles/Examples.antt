-- ===== src/Roles/Examples.antt =====
-- Copies and initialisation of one small object.
use gca.Base.{◌≡◌, refl, ◌⊎◌, inl, true, false, some, [], arith}
use gca.Base.Result.{bad_api_usage}
use gca.Handle.{Handle, new_handle, mark_garbage}
use gca.Roles.{root, ro_pin, rw_pin, done, raises, copy, destroy}
use gca.Roles.Laws.{from_root, as_rw_pin, destroy-copy, destroy-last_root, copy-raises, misuse}

abbrev object : Handle
object = new_handle 4096 24 0

destroy-copy_example :
    (h' : Handle) × (copy 5 [] (some object) root rw_pin ≡ done (some h'))
    × (destroy 5 [] (some h') rw_pin ≡ done (some object))
unfolding new_handle
destroy-copy_example =
    destroy-copy 5 object from_root as_rw_pin refl (omega arith) (omega arith) refl
      (inl (omega arith))

destroy-last_root_example :
    destroy 5 [] (some object) root
    ≡ done (some (record object { root_handle_count = 0; flags = (mark_garbage object).flags }))
unfolding new_handle
destroy-last_root_example = destroy-last_root 5 object refl (omega arith) refl

copy-raises_example :
    (misuse ro_pin rw_pin ≡ true) × (copy 5 [] (some object) ro_pin rw_pin ≡ raises bad_api_usage)
    ⊎ (misuse ro_pin rw_pin ≡ false)
      × ((h' : Handle) × (copy 5 [] (some object) ro_pin rw_pin ≡ done (some h')))
unfolding new_handle
copy-raises_example = copy-raises 5 object ro_pin rw_pin refl refl
