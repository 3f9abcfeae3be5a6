-- ===== src/Cmd/Status/Sections.antt =====
-- What `photinus status` shows of cmd/photinus/status.go, and in which order.
use photinus.Prelude.{
  ℕ, ◌+◌, ◌≤◌, ◌≡◌, refl, sym, arith, eq_iff, String, Bool, true, false, not, ◌&&◌, ◌||◌, List, [],
  ◌∷◌, map, ◌==◌, keep, count, count-sort_by, sort_by, str_ltb, contains, contains-add,
  add-Distinct, Distinct, All, All-map, sum, sum-sort_by, Ranked, sort_by-Ranked,
}
use photinus.Lantern.Blackout.{SubjectStatus}
use photinus.Cmd.Status.{
  state_rank, HostSection, row_before, service_before, makes_box, boxes, is_in, is_row, section,
  sections, is_service, services,
}

row_lower : (a b : SubjectStatus) → row_before a b ≡ true → state_rank a ≤ state_rank b
row_lower a b h = ground (arith, h)

row_higher : (a b : SubjectStatus) → row_before a b ≡ false → state_rank b ≤ state_rank a
row_higher a b h = ground (arith, h)

service_lower : (a b : SubjectStatus) → service_before a b ≡ true → state_rank a ≤ state_rank b
service_lower a b h = ground (arith, h)

service_higher : (a b : SubjectStatus) → service_before a b ≡ false → state_rank b ≤ state_rank a
service_higher a b h = ground (arith, h)

-- The worst stands first: in every box and among the services, what is down comes before what warns,
-- then what is suspected, then what nobody has word of, then what is up.
pub worst_first :
    (ss : List SubjectStatus) (name : String)
    → Ranked state_rank (section ss name).rows × Ranked state_rank (services ss)
unfolding section services
worst_first ss name = (
  sort_by-Ranked state_rank row_before row_lower row_higher (keep (is_row name) ss),
  sort_by-Ranked state_rank service_before service_lower service_higher (keep (is_service ss) ss),
)

-- Liveness and clocks, which a box's header shows.
abbrev pub is_header : SubjectStatus → Bool
is_header s = s.decision.check == "lantern" || s.decision.check == "skew"

-- How many rows of a section pass a test.
abbrev pub rows_that : (SubjectStatus → Bool) → HostSection → ℕ
rows_that p sec = count p sec.rows

contains-boxes :
    (s : SubjectStatus) (ss : List SubjectStatus) (name : String)
    → contains (boxes (s ∷ ss)) name ≡ (makes_box s && is_in name s || contains (boxes ss) name)
unfolding boxes
contains-boxes s ss name = ground (arith, contains-add s.decision.target name (boxes ss))

boxes-Distinct : (ss : List SubjectStatus) → Distinct (boxes ss)
unfolding boxes
boxes-Distinct [] = tt
boxes-Distinct (s ∷ ss) =
    ground (arith, boxes-Distinct ss, add-Distinct s.decision.target (boxes ss) (boxes-Distinct ss))

-- What has a header has a box.
boxes_complete :
    (ss : List SubjectStatus)
    → All (λ s. is_header s ≡ true → contains (boxes ss) s.decision.target ≡ true) ss
boxes_complete [] = tt
boxes_complete (s ∷ ss) = (
  λ h.
      ground (
        arith,
        h,
        contains-boxes s ss s.decision.target,
        eq_iff s.decision.target s.decision.target,
      ),
  All-map _ _ ss (λ t k h. ground (arith, k h, contains-boxes s ss t.decision.target))
      (boxes_complete ss),
)

-- The rows of some boxes.
abbrev in_boxes : (SubjectStatus → Bool) → List String → SubjectStatus → Bool
in_boxes p names s = p s && (contains names s.decision.target && not (is_header s))

count-keep_row :
    (p : SubjectStatus → Bool) (name : String) (names : List String) (ss : List SubjectStatus)
    → contains names name ≡ false
    → count p (keep (is_row name) ss) + count (in_boxes p names) ss
      ≡ count (in_boxes p (name ∷ names)) ss
unfolding count keep contains
count-keep_row p name names [] h = refl
count-keep_row p name names (s ∷ ss) h = ground (
  arith,
  h,
  count-keep_row p name names ss h,
  eq_iff s.decision.target name,
  eq_iff name s.decision.target,
)

none_in : (p : SubjectStatus → Bool) (ts : List SubjectStatus) → count (in_boxes p []) ts ≡ 0
unfolding count contains
none_in p [] = refl
none_in p (t ∷ ts) = ground (arith, none_in p ts)

sum_rows :
    (p : SubjectStatus → Bool) (ss : List SubjectStatus) (names : List String)
    → Distinct names
    → sum (λ name. count p (keep (is_row name) ss)) names ≡ count (in_boxes p names) ss
unfolding sum
sum_rows p ss [] d = sym (none_in p ss)
sum_rows p ss (name ∷ names) d =
    ground (arith, sum_rows p ss names d.1, count-keep_row p name names ss d.0)

sum-sections :
    (p : SubjectStatus → Bool) (ss : List SubjectStatus) (names : List String)
    → sum (rows_that p) (map (section ss) names)
      ≡ sum (λ name. count p (keep (is_row name) ss)) names
unfolding sum section
sum-sections p ss [] = refl
sum-sections p ss (name ∷ names) =
    ground (arith, sum-sections p ss names, count-sort_by row_before p (keep (is_row name) ss))

count-places :
    (p : SubjectStatus → Bool) (names : List String) (ss : List SubjectStatus)
    → All (λ s. is_header s ≡ true → contains names s.decision.target ≡ true) ss
    → count (in_boxes p names) ss
        + count p (keep (λ s. not (contains names s.decision.target)) ss)
        + count (λ s. p s && is_header s) ss
      ≡ count p ss
unfolding count keep
count-places p names [] h = refl
count-places p names (s ∷ ss) h = ground (arith, h.0, count-places p names ss h.1)

-- Nothing is hidden and nothing is shown twice: of whatever kind, there are as many rows of boxes and
-- services as subjects, those aside on which a box's header reports, liveness and clocks.
pub shown_once :
    (p : SubjectStatus → Bool) (ss : List SubjectStatus)
    → sum (rows_that p) (sections ss) + count p (services ss) + count (λ s. p s && is_header s) ss
      ≡ count p ss
unfolding sections services
shown_once p ss = ground (
  arith,
  sum-sections p ss (sort_by str_ltb (boxes ss)),
  sum-sort_by (λ name. count p (keep (is_row name) ss)) str_ltb (boxes ss),
  sum_rows p ss (boxes ss) (boxes-Distinct ss),
  count-sort_by service_before p (keep (is_service ss) ss),
  count-places p (boxes ss) ss (boxes_complete ss),
)
