-- ===== src/Page/Examples.antt =====
-- Requests to a page at address 4096 that has one entry.
use gca.Base.{ℕ, ◌-◌, ◌≡◌, refl, ◌⊎◌, true, List, [], ◌∷◌, ◌++◌, arith}
use gca.Page.{Entry, entry, is_empty, try_allocate}
use gca.Page.Laws.{IsPage, IsRequest, IsFree, try_allocate_lem}
use gca.Page.Record.{Misplaced, try_allocate-recorded}

abbrev one_entry : List Entry
one_entry = entry 0 24 ∷ []

one_entry-IsPage : IsPage 4096 one_entry
one_entry-IsPage = (omega arith, (omega arith, omega arith))

sample-IsRequest : IsRequest 40 16
sample-IsRequest = record { fits = omega arith; positive = omega arith; small = omega arith }

try_allocate_lem_example :
    (((try_allocate 4096 one_entry 40 16).1.size ≡ 40)
      × IsFree 4096 4096 one_entry 40 16 (try_allocate 4096 one_entry 40 16).1.address)
    ⊎ ((is_empty (try_allocate 4096 one_entry 40 16).1 ≡ true)
        × ((a : ℕ) → ¬ IsFree 4096 4096 one_entry 40 16 a))
try_allocate_lem_example =
    try_allocate_lem 4096 one_entry 40 16 one_entry-IsPage sample-IsRequest (omega arith)

try_allocate-recorded_example :
    (((try_allocate 4096 one_entry 40 16).0
        ≡ one_entry ++ entry ((try_allocate 4096 one_entry 40 16).1.address - 4096) 40 ∷ [])
      × IsPage 4096 (try_allocate 4096 one_entry 40 16).0)
    ⊎ Misplaced 4096 40 one_entry
        (try_allocate 4096 one_entry 40 16).0
        (try_allocate 4096 one_entry 40 16).1
unfolding try_allocate
try_allocate-recorded_example =
    try_allocate-recorded 4096 one_entry 40 16 one_entry-IsPage sample-IsRequest refl
