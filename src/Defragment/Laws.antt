-- ===== src/Defragment/Laws.antt =====
-- A defragmented page is a page: entries in order, none larger, none further from the beginning.
use gca.Base.{
  ℕ, ◌+◌, ◌^◌, ◌≤◌, ◌<◌, ◌≡◌, ◌≢◌, refl, sym, ap, ◌∙◌, subst, Option, none, List, [], ◌∷◌, All,
  arith,
}
use gca.Base.Result.{Error, ok}
use gca.Handle.{Handle}
use gca.Types.{ObjectType}
use gca.Page.{u64, page_size, Entry, get_alignment_correction}
use gca.Page.Alignment.{padding_least}
use gca.Page.Laws.{IsAligned, IsLaid, IsPage, last-le}
use gca.Defragment.{
  Objects, try_get_handle, get_handle, rekey, relocate_object, settle, defragment_from,
  defragment_on_page,
}

-- The entry has an object: its handle is known, stands at the entry's place, and has a type whose
-- alignment that place respects.
pub record TenantOf (types : ℕ → ObjectType) (begin : ℕ) (e : Entry) (n : ℕ) (h : Handle)
    : Type 0 where
  pub known : 0 < n
  pub place : h.address ≡ begin + e.offset
  pub positive : 0 < (types h.object_type).alignment
  pub small : (types h.object_type).alignment ≤ 2 ^ 62
  pub aligned : IsAligned (types h.object_type).alignment (begin + e.offset)
  pub extent : 0 < e.size

abbrev pub IsTenant : (types : ℕ → ObjectType) (begin : ℕ) → Objects → Entry → Type 0
IsTenant types begin o e =
    TenantOf types begin e (o.lookup (begin + e.offset)) (o.heap (o.lookup (begin + e.offset)))

-- Same sizes, and no entry further from the beginning.
abbrev pub IsCompacted : List Entry → List Entry → Type 0
IsCompacted [] [] = Unit {0}
IsCompacted (e ∷ es) (k ∷ ks) = (k.size ≡ e.size) × (k.offset ≤ e.offset) × IsCompacted es ks
IsCompacted [] (k ∷ ks) = ⊥
IsCompacted (e ∷ es) [] = ⊥

-- What one turn of the loop leaves.
record Settled (begin last n : ℕ) (e : Entry) (o : Objects) (r : Objects × Entry) : Type 0 where
  same_size : r.1.size ≡ e.size
  low : last ≤ begin + r.1.offset
  high : r.1.offset ≤ e.offset
  later : (a : ℕ) → begin + e.offset < a → r.0.lookup a ≡ o.lookup a
  others : (m : ℕ) → m ≢ n → r.0.heap m ≡ o.heap m

rekey-later :
    (lookup : ℕ → ℕ) (old new n a : ℕ) → new ≤ old → old < a → rekey lookup old new n a ≡ lookup a
unfolding rekey
rekey-later lookup old new n a h k = ground arith

module _ (t : ℕ) (types : ℕ → ObjectType) (begin : ℕ) (room : begin + page_size < 2 ^ 64) where
  settle-Settled :
      (last : ℕ) (e : Entry) (o : Objects)
      → IsTenant types begin o e
      → begin ≤ last
      → last ≤ begin + e.offset
      → begin + e.offset + e.size ≤ begin + page_size
      → Settled begin last
          (o.lookup (begin + e.offset))
          e
          o
          (settle t types begin last (o.lookup (begin + e.offset)) e o)
  unfolding settle relocate_object
  settle-Settled last e o tenant h k fits =
      let alignment = (types (o.heap (o.lookup (begin + e.offset))).object_type).alignment in
      let pad = get_alignment_correction last alignment in
      let below : last + pad ≤ begin + e.offset =
        let (q, p) = tenant.aligned in
        omega (
          arith,
          p,
          padding_least last alignment q tenant.positive tenant.small (omega (arith, p, k)),
        ) in
      record {
        same_size = ground arith;
        low = ground (arith, below);
        high = ground (arith, below);
        later = λ a lt. ground (
          arith,
          below,
          tenant.place,
          rekey-later o.lookup (begin + e.offset) (u64 (last + pad)) (o.lookup (begin + e.offset))
              a,
        );
        others = λ m ne. ground (arith, ne);
      }

  -- What lies further from the beginning is untouched by a turn.
  unmoved_object :
      (last : ℕ) (e k : Entry) (o : Objects) (r : Objects × Entry)
      → IsTenant types begin o e
      → IsTenant types begin o k
      → begin + e.offset < begin + k.offset
      → Settled begin last (o.lookup (begin + e.offset)) e o r
      → IsTenant types begin r.0 k
  unmoved_object last e k o r first tenant lt s =
      let apart : o.lookup (begin + k.offset) ≢ o.lookup (begin + e.offset) = λ p.
        let same : (o.heap (o.lookup (begin + k.offset))).address
            ≡ (o.heap (o.lookup (begin + e.offset))).address =
          ap (λ n. (o.heap n).address) p in
        omega (arith, same, first.place, tenant.place, lt) in
      let found : r.0.lookup (begin + k.offset) ≡ o.lookup (begin + k.offset) =
        s.later (begin + k.offset) lt in
      let kept : r.0.heap (r.0.lookup (begin + k.offset)) ≡ o.heap (o.lookup (begin + k.offset)) =
        ap r.0.heap found ∙ s.others (o.lookup (begin + k.offset)) apart in
      subst (λ x. x) (λ i. TenantOf types begin k (sym found i) (sym kept i)) tenant

  unmoved_objects :
      (last from : ℕ) (e : Entry) (es : List Entry) (o : Objects) (r : Objects × Entry)
      → IsTenant types begin o e
      → begin + e.offset < from
      → IsLaid begin from es
      → All (IsTenant types begin o) es
      → Settled begin last (o.lookup (begin + e.offset)) e o r
      → All (IsTenant types begin r.0) es
  unmoved_objects last from e [] o r first lt laid tenants s = tt
  unmoved_objects last from e (k ∷ ks) o r first lt laid tenants s = (
    unmoved_object last e k o r first tenants.0 (omega (arith, lt, laid.0)) s,
    unmoved_objects last (begin + k.offset + k.size) e ks o r first (omega (arith, lt, laid.0))
        laid.1 tenants.1 s,
  )

  -- The page's entries from `last'` on may be laid from an earlier place on.
  IsLaid-earlier :
      (last last' : ℕ) (es : List Entry)
      → last ≤ last'
      → IsLaid begin last' es
      → IsLaid begin last es
  IsLaid-earlier last last' [] h laid = omega (arith, h, laid)
  IsLaid-earlier last last' (e ∷ es) h laid = (omega (arith, h, laid.0), laid.1)

  found_handle :
      (e : Entry) (o : Objects)
      → IsTenant types begin o e
      → begin + e.offset ≤ begin + page_size
      → get_handle o (u64 (begin + e.offset)) ≡ ok (o.lookup (begin + e.offset))
  unfolding get_handle try_get_handle
  found_handle e o tenant h =
      let fits : u64 (begin + e.offset) ≡ begin + e.offset = omega arith in
      let known = tenant.known in rw fits (ground (arith, known))

  defragment_from-cons :
      (last next n : ℕ) (e : Entry) (es : List Entry) (o : Objects)
      → get_handle o (u64 (begin + e.offset)) ≡ ok n
      → u64 (
          begin
          + (settle t types begin last n e o).1.offset
          + (settle t types begin last n e o).1.size)
        ≡ next
      → defragment_from t types begin last (e ∷ es) o ≡ (
        (defragment_from t types begin next es (settle t types begin last n e o).0).0,
        (settle t types begin last n e o).1
            ∷ (defragment_from t types begin next es (settle t types begin last n e o).0).1,
        (defragment_from t types begin next es (settle t types begin last n e o).0).2,
      )
  unfolding defragment_from
  defragment_from-cons last next n e es o found fits = rw (defragment_from, found, fits) refl

  defragment_from-compacts :
      (last : ℕ) (es : List Entry) (o : Objects)
      → begin ≤ last
      → IsLaid begin last es
      → All (IsTenant types begin o) es
      → ((defragment_from t types begin last es o).2 ≡ none)
        × IsLaid begin last (defragment_from t types begin last es o).1
        × IsCompacted es (defragment_from t types begin last es o).1
  unfolding defragment_from
  defragment_from-compacts last [] o h laid tenants = (refl, laid, tt)
  defragment_from-compacts last (e ∷ es) o h laid tenants =
      let end = last-le begin (begin + e.offset + e.size) es laid.1 in
      let r = settle t types begin last (o.lookup (begin + e.offset)) e o in
      let s = settle-Settled last e o tenants.0 h laid.0 end in
      let extent = tenants.0.extent in
      let fits : u64 (begin + r.1.offset + r.1.size) ≡ begin + r.1.offset + r.1.size =
        omega (arith, s.same_size, s.high, end) in
      let rest =
        defragment_from-compacts (begin + r.1.offset + r.1.size) es r.0 (omega (arith, h, s.low))
          (IsLaid-earlier (begin + r.1.offset + r.1.size) (begin + e.offset + e.size) es
            (omega (arith, s.same_size, s.high)) laid.1)
          (unmoved_objects last (begin + e.offset + e.size) e es o r tenants.0
            (omega (arith, extent)) laid.1 tenants.1 s) in
      let found = found_handle e o tenants.0 (omega (arith, end)) in
      subst
        (λ (x : Objects × List Entry × Option Error).
          (x.2 ≡ none) × IsLaid begin last x.1 × IsCompacted (e ∷ es) x.1)
        (sym (defragment_from-cons last _ _ e es o found fits))
        (rest.0, (s.low, rest.1), (s.same_size, s.high, rest.2))

-- On a page whose entries each have an object, defragmenting throws nothing, and it leaves the
-- entries in order, apart and inside the page, as many as before, each of its old size and none
-- further from the beginning.
pub defragment_on_page-compacts :
    (t : ℕ) (types : ℕ → ObjectType) (begin : ℕ) (es : List Entry) (o : Objects)
    → IsPage begin es
    → All (IsTenant types begin o) es
    → ((defragment_on_page t types begin es o).2 ≡ none)
      × IsPage begin (defragment_on_page t types begin es o).1
      × IsCompacted es (defragment_on_page t types begin es o).1
unfolding defragment_on_page
defragment_on_page-compacts t types begin es o page tenants =
    let r = defragment_from-compacts t types begin page.0 begin es o (omega arith) page.1 tenants in
    (r.0, (page.0, r.1), r.2)
