-- ===== src/Destruction/Examples.antt =====
-- An object that refers to itself, with its lock held for writing by the thread that destroys it.
use gca.Base.{◌+◌, ◌≡◌, refl, [], ◌∷◌, ◌==◌, if◌then◌else◌, arith}
use gca.RwLock.{write_word, unlocked}
use gca.Handle.{new_handle}
use gca.Page.{u64}
use gca.Roles.{waits}
use gca.World.{World, empty_world}
use gca.Destruction.{Env, drop_field}
use gca.Destruction.SelfReference.{drop_field-waits}

abbrev env : Env
env = record { thread = 1; fields = λ ty object. 8200 ∷ []; others = (λ w. w) ∷ []; depth = 3 }

abbrev self_reference : World
self_reference = record empty_world {
  heap = λ n. record (new_handle 8192 16 0) { object_lock = record unlocked { word = write_word } };
  field = λ a. if a == 8200 then 1 else 0;
}

drop_field-waits_example :
    (drop_field env 1
      (self_reference.heap 1).address
      (u64 ((self_reference.heap 1).address + (self_reference.heap 1).size))
      8200
      self_reference).1
    ≡ waits
drop_field-waits_example =
    drop_field-waits env 1 8200 self_reference (λ w. refl, tt) (omega arith) (omega arith) refl refl
