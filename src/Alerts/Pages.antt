-- ===== src/Alerts/Pages.antt =====
-- To read the alerts page by page.
use trace_runtime.Prelude.{
  take, drop, take-drop, ℕ, zero, suc, ◌<◌, ◌≡◌, refl, sym, ap, ◌∙◌, subst, true, false, Option,
  none, some, List, [], ◌∷◌, ◌++◌, map, length, arith, leb, if◌then◌else◌, select, Bool-cases, inl,
  inr,
}
use trace_runtime.Healing.{HealingEvent, Table}
use trace_runtime.Chaos.{Runs}
use trace_runtime.Alerts.{
  AlertListParams, Alert, shown, before, newest_first, last_created, page_limit, alert, rows,
  list_alerts,
}
use trace_runtime.Alerts.Sorted.{
  Apart, Descending, Apart-select, newest_first-Descending, select-newest_first,
}
use trace_runtime.Alerts.Cursors.{
  length-drop, rest-drop_pos, select-select, select-both, Descending-select, before-earlier,
  select-true, full-le, take-short, last_created-full,
}

page_limit-positive : (limit : ℕ) → 0 < page_limit limit
page_limit-positive limit = ground arith

map-append : (f : HealingEvent → Alert) (s t : Table) → map f (s ++ t) ≡ map f s ++ map f t
map-append f [] t = refl
map-append f (e ∷ s) t = ap (λ r. f e ∷ r) (map-append f s t)

append-none : (s : List Alert) → s ++ [] ≡ s
append-none [] = refl
append-none (a ∷ s) = ap (λ r. a ∷ r) (append-none s)

module _ (fetch : Option ℕ → List Alert × Option ℕ) where
  abbrev follow : (Option ℕ → List Alert) → Option ℕ → List Alert
  follow more none = []
  follow more (some c) = more (some c)

  -- A client that follows the cursors, for at most so many pages.
  unfoldable pub read_pages : ℕ → Option ℕ → List Alert
  read_pages zero cursor = []
  read_pages (suc n) cursor = (fetch cursor).0 ++ follow (read_pages n) (fetch cursor).1

module _ (runs : Runs) (now : ℕ) (params : AlertListParams) (t : Table) where
  abbrev pub fetch : Option ℕ → List Alert × Option ℕ
  fetch cursor = list_alerts runs now (record params { cursor = cursor }) t

  -- All that the query would show.
  abbrev pub listing : Table
  listing = newest_first (select (shown runs now params) t)

  remaining : Option ℕ → Table
  remaining cursor = select (before cursor) listing

  abbrev page : ℕ → Table → List Alert × Option ℕ
  page k r = (
    map (alert now) (take k r),
    if leb k (length (take k r)) then last_created (take k r) else none,
  )

  remaining-none : remaining none ≡ listing
  unfolding remaining
  remaining-none = select-true listing

  module _ (apart : Apart t) where
    rows-remaining :
        (cursor : Option ℕ)
        → rows runs now (record params { cursor = cursor }) t
          ≡ take (page_limit params.limit) (remaining cursor)
    unfolding remaining shown
    rows-remaining cursor =
        ap (λ x. take (page_limit params.limit) (newest_first x))
          (select-both (shown runs now params) (before cursor) t)
        ∙ ap (take (page_limit params.limit)) (
            sym (
              select-newest_first (before cursor) (select (shown runs now params) t)
                (Apart-select (shown runs now params) t apart)))

    fetch-remaining :
        (cursor : Option ℕ) → fetch cursor ≡ page (page_limit params.limit) (remaining cursor)
    unfolding list_alerts
    fetch-remaining cursor =
        ap
          (λ r. (
            map (alert now) r,
            if leb (page_limit params.limit) (length r) then last_created r else none,
          ))
          (rows-remaining cursor)

    remaining-Descending : (cursor : Option ℕ) → Descending (remaining cursor)
    unfolding remaining
    remaining-Descending cursor = Descending-select (before cursor) listing (
        newest_first-Descending (select (shown runs now params) t)
          (Apart-select (shown runs now params) t apart))

    remaining-next :
        (k : ℕ) (cursor : Option ℕ) (c : ℕ)
        → 0 < k
        → last_created (take k (remaining cursor)) ≡ some c
        → remaining (some c) ≡ drop k (remaining cursor)
    unfolding remaining
    remaining-next k cursor c h e =
        select-select (before (some c)) (before cursor) listing
          (before-earlier cursor k listing c e)
        ∙ rest-drop_pos k (remaining cursor) c h (remaining-Descending cursor) e

    next_page : (n : ℕ) (cursor : Option ℕ) → List Alert
    next_page n cursor =
        follow fetch (read_pages fetch n) (page (page_limit params.limit) (remaining cursor)).1

    read_pages-step :
        (n : ℕ) (cursor : Option ℕ)
        → read_pages fetch (suc n) cursor
          ≡ map (alert now) (take (page_limit params.limit) (remaining cursor))
            ++ next_page n cursor
    unfolding read_pages next_page
    read_pages-step n cursor = rw (fetch-remaining cursor) refl

    next_page-full :
        (n : ℕ) (cursor : Option ℕ) (c : ℕ)
        → leb (page_limit params.limit) (length (take (page_limit params.limit) (remaining cursor)))
          ≡ true
        → last_created (take (page_limit params.limit) (remaining cursor)) ≡ some c
        → next_page n cursor ≡ read_pages fetch n (some c)
    unfolding next_page
    next_page-full n cursor c full e = rw (full, e) refl

    next_page-short :
        (n : ℕ) (cursor : Option ℕ)
        → leb (page_limit params.limit) (length (take (page_limit params.limit) (remaining cursor)))
          ≡ false
        → next_page n cursor ≡ []
    unfolding next_page
    next_page-short n cursor short = rw short refl

    read_pages-remaining :
        (n : ℕ) (cursor : Option ℕ)
        → length (remaining cursor) < n
        → read_pages fetch n cursor ≡ map (alert now) (remaining cursor)
    read_pages-remaining zero cursor h = absurd (omega (arith, h))
    read_pages-remaining (suc n) cursor h =
        let k = page_limit params.limit in
        let left = remaining cursor in
        elim (Bool-cases (leb k (length (take k left)))) [
          | inl full ↦
              let (c, e) = last_created-full k left (page_limit-positive params.limit) full in
              let next = remaining-next k cursor c (page_limit-positive params.limit) e in
              let fewer : length (remaining (some c)) < n = rw next (
                omega (
                  arith,
                  h,
                  page_limit-positive params.limit,
                  length-drop k left (full-le k left full),
                )) in
              read_pages-step n cursor
              ∙ rw (next_page-full n cursor c full e, read_pages-remaining n (some c) fewer, next)
                  (pages-join k left)
          | inr short ↦
              read_pages-step n cursor
              ∙ rw (next_page-short n cursor short, take-short k left short)
                  (append-none (map (alert now) left))
        ]
      where
        pages-join :
            (k : ℕ) (r : Table)
            → map (alert now) (take k r) ++ map (alert now) (drop k r) ≡ map (alert now) r
        pages-join k r =
            sym (map-append (alert now) (take k r) (drop k r))
            ∙ ap (map (alert now)) (take-drop k r)

-- Given that no two events have the same time: a client that starts without a cursor and follows the cursors that it gets reads every alert that the query would show exactly once, newest first, if it reads more pages than there are alerts (an empty one ends it); the table and the clock stand still meanwhile.
pub read_pages_complete :
    (runs : Runs) (now : ℕ) (params : AlertListParams) (t : Table) (n : ℕ)
    → Apart t
    → length (listing runs now params t) < n
    → read_pages (fetch runs now params t) n none ≡ map (alert now) (listing runs now params t)
read_pages_complete runs now params t n apart h =
    let all = remaining-none runs now params t in
    read_pages-remaining runs now params t apart n none (subst (λ r. length r < n) (sym all) h)
    ∙ ap (map (alert now)) all
