-- ===== src/Allocation/NewPage.antt =====
-- Allocating an object on a new page: the page has room for it, so that the code after that is not
-- reached.
use gca.Base.{
  ℕ, ◌^◌, ◌≤◌, ◌<◌, ◌≡◌, refl, ap, ◌∙◌, true, false, List, [], ◌∷◌, length, ◌==◌, ==_refl,
  Bool-cases, inl, inr, All, arith,
}
use gca.Base.Result.{Result, ok, throw}
use gca.Types.{ObjectType, max_type_index}
use gca.Types.Laws.{get_or_register_type-Registered}
use gca.Slots.Laws.{IsFilled}
use gca.Page.{Entry, Span, entry, page_size, get_alignment_correction, try_allocate}
use gca.Roles.{Answer, done}
use gca.World.{World, M, resume, ◌>>=◌, change_page, release_after, finally}
use gca.Registration.{with_types, register_type, register_object, register}
use gca.Registration.Laws.{register_object-returns, done_recover}
use gca.Allocation.{
  Memory, page_alignment, with_entries, try_on_page, give_back, place_object, with_allocation_lock,
  release_page, add_page, with_page_memory, new_page, span_on_new_page, try_allocate_on_new_page,
}
use gca.World.Lands.{Lands, done-Lands, bind-Lands, release_after-Lands}
use gca.Allocation.Pages.{Allotted, place_object-Allotted, Allotted-release}
use gca.Allocation.Room.{Divides, page_span, room}

-- Memory for a page lies at a 64-bit address.
abbrev pub IsMemory : Memory → Type 0
IsMemory mem = (w : World) (begin : ℕ) → mem.page_memory w ≡ ok begin → begin < 2 ^ 64

-- An operation that returns `a` in the state `v` goes on from there.
bind-done :
    {A B : Type 0} (m : M A) (f : A → M B) (w v : World) (a : A)
    → m w ≡ (v, done a)
    → (m >>= f) w ≡ f a v
bind-done m f w v a e = ap (λ r. resume f r.0 r.1) e

done_release :
    (cleanup : World → World) (w : World) (answer : Answer ℕ) (n : ℕ)
    → answer ≡ done n
    → (release_after cleanup w answer).1 ≡ done n
done_release cleanup w answer n h = rw h refl

-- A page that was just made
record IsFresh (w : World) (p : ℕ) : Type 0 where
  bound : (w.page p).begin < 2 ^ 64
  aligned : get_alignment_correction (w.page p).begin page_alignment ≡ 0
  empty : (w.page p).entries ≡ []

abbrev opened : ℕ → World → World
opened begin w = change_page (length w.pages) (with_allocation_lock true) (add_page begin w)

opened-IsFresh :
    (w : World) (begin : ℕ)
    → begin < 2 ^ 64
    → get_alignment_correction begin page_alignment ≡ 0
    → IsFresh (opened begin w) (length w.pages)
opened-IsFresh w begin bound aligned =
    let e = ==_refl (length w.pages) in
    record { bound = rw e bound; aligned = rw e aligned; empty = rw e refl }

new_page-opened :
    (mem : Memory) (w : World) (begin : ℕ)
    → mem.page_memory w ≡ ok begin
    → get_alignment_correction begin page_alignment ≡ 0
    → new_page mem true w ≡ (opened begin w, done (length w.pages))
unfolding new_page
new_page-opened mem w begin got aligned = rw (got, aligned) refl

module _ (mem : Memory) (size : ℕ) (ty : ObjectType) (divides : Divides ty.alignment page_alignment)
    (fits : size ≤ page_size) where
  try_on_page-room :
      (p : ℕ) (w : World)
      → IsFresh w p
      → try_on_page p size ty.alignment w ≡ (
        change_page p (with_entries (entry 0 size ∷ [])) w,
        done (page_span (w.page p).begin size),
      )
  unfolding try_on_page
  try_on_page-room p w fresh =
      let full = room size (w.page p).begin ty.alignment divides fresh.bound fresh.aligned fits in
      ap (λ (r : List Entry × Span). (change_page p (with_entries r.0) w, done r.1))
        (ap (λ es. try_allocate (w.page p).begin es size ty.alignment) fresh.empty ∙ full)

  -- From the new page on
  abbrev body : ℕ → M ℕ
  body p = try_on_page p size ty.alignment >>= span_on_new_page mem p ty

  body-place :
      (p : ℕ) (w : World)
      → 0 < size
      → IsFresh w p
      → body p w
        ≡ place_object p
            (page_span (w.page p).begin size)
            ty
            (change_page p (with_entries (entry 0 size ∷ [])) w)
  body-place p w some_size fresh =
      let v = change_page p (with_entries (entry 0 size ∷ [])) w in
      let filled : (size == 0) ≡ false = ground (arith, some_size) in
      bind-done (try_on_page p size ty.alignment) (span_on_new_page mem p ty) w v _
        (try_on_page-room p w fresh)
      ∙ rw filled refl

  page_memory-Fresh :
      (w : World) (r : Result ℕ)
      → ((begin : ℕ) → r ≡ ok begin → begin < 2 ^ 64)
      → Lands IsFresh (
          resume
            (λ p v. (change_page p (with_allocation_lock true) v, done p))
            (with_page_memory w r).0
            (with_page_memory w r).1)
  page_memory-Fresh w (throw e) bound = λ p h. cc
  page_memory-Fresh w (ok begin) bound =
      elim (Bool-cases (get_alignment_correction begin page_alignment == 0)) [
        | inl e ↦ rw e (
            done-Lands IsFresh (opened begin w) (length w.pages)
              (opened-IsFresh w begin (bound begin refl) (ground (arith, e))))
        | inr e ↦ rw e λ p h. cc
      ]

  new_page-Fresh : (w : World) → IsMemory mem → Lands IsFresh (new_page mem true w)
  unfolding new_page
  new_page-Fresh w memory = page_memory-Fresh w (mem.page_memory w) (memory w)

  -- Where an object is allocated on a new page and a handle is returned, it leads to such an object,
  -- whatever the code taken for unreachable does.
  pub try_allocate_on_new_page-Allotted :
      0 < size
      → IsMemory mem
      → (w : World) → Lands (Allotted size) (try_allocate_on_new_page mem size ty w)
  unfolding try_allocate_on_new_page
  try_allocate_on_new_page-Allotted some_size memory w =
      bind-Lands IsFresh (Allotted size) (new_page mem true)
        (λ p. finally (release_page p) (body p)) w (new_page-Fresh w memory)
        λ p v fresh.
          release_after-Lands (Allotted size) (release_page p) (body p v).0 (body p v).1
            (λ n h. Allotted-release size p (body p v).0 n h)
            (let u = change_page p (with_entries (entry 0 size ∷ [])) v in
              rw (body-place p v some_size fresh) (
                place_object-Allotted size p (page_span (v.page p).begin size) ty u
                  (ground (arith, some_size)) refl))

  register-returns :
      (begin : ℕ) (w : World)
      → length w.types ≤ max_type_index
      → All IsFilled w.handles
      → w.lookup begin ≡ 0
      → (n : ℕ) × ((register (page_span begin size) ty w).1 ≡ done n)
  unfolding register register_type
  register-returns begin w few filled free =
      let (types, i, e, _) = get_or_register_type-Registered w.types ty few in
      let v = record w { types = types } in
      let (n, end) = register_object-returns (page_span begin size) i v filled free in
      (
        n,
        ap (λ r. r.1)
              (bind-done (register_type ty) (register_object (page_span begin size)) w v i
                (ap (with_types w) e))
            ∙ end,
      )

  -- `TryAllocateOnNewPage` does return a handle where the resource gives memory for a page that is
  -- aligned and at which no object lies, there are fewer than 65536 types, and the places of
  -- handles are taken from below: there is room on a new page for every size up to a page and every
  -- alignment that divides a page's.
  pub try_allocate_on_new_page-returns :
      (w : World) (begin : ℕ)
      → 0 < size
      → begin < 2 ^ 64
      → mem.page_memory w ≡ ok begin
      → get_alignment_correction begin page_alignment ≡ 0
      → length w.types ≤ max_type_index
      → All IsFilled w.handles
      → w.lookup begin ≡ 0
      → (n : ℕ) × ((try_allocate_on_new_page mem size ty w).1 ≡ done n)
  unfolding try_allocate_on_new_page place_object
  try_allocate_on_new_page-returns w begin some_size bound got aligned few filled free =
      let p = length w.pages in
      let v = opened begin w in
      let fresh = opened-IsFresh w begin bound aligned in
      let first =
        bind-done (new_page mem true) (λ p. finally (release_page p) (body p)) w v p
          (new_page-opened mem w begin got aligned) in
      let second = body-place p v some_size fresh in
      let lies : (v.page p).begin ≡ begin = rw (==_refl p) refl in
      let u = change_page p (with_entries (entry 0 size ∷ [])) v in
      let s = page_span (v.page p).begin size in
      let (n, end) = register-returns (v.page p).begin u few filled (ap w.lookup lies ∙ free) in
      let placed = done_recover (give_back p s) (register s ty u).0 (register s ty u).1 n end in
      (
        n,
        ap (λ r. r.1) first
            ∙ done_release (release_page p) (body p v).0 (body p v).1 n
                (ap (λ r. r.1) second ∙ placed),
      )
