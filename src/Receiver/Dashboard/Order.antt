-- ===== src/Receiver/Dashboard/Order.antt =====
-- The rows of a page: which they are, and in which order.
use heartpost.Common.{
  ◌≡◌, refl, sym, ◌∙◌, ◌⊎◌, Bool, true, false, not, ◌&&◌, List, [], ◌∷◌, arith, length, select,
}
use heartpost.Common.Text.{Text, text_ltb}
use heartpost.Common.Int.{◌<ℤ◌, eqb_ℤ_iff}
use heartpost.Clock.{Time, is_zero}
use heartpost.Receiver.State.{AgentState}
use heartpost.Receiver.Liveness.{Thresholds, is_down}
use heartpost.Receiver.Store.{Store, snapshot}
use heartpost.Receiver.Dashboard.{
  Row, before, insert_row, sort_rows, rows_of, row_of, count_down, build_page,
}

-- Which row of two may stand first: a silent one before one that is not, then an unknown one before
-- a known one, then the one with the longer silence, then the one whose id is not the greater.
abbrev pub StandsFirst : Row → Row → Type 0
StandsFirst x y =
    ((x.down ≡ true) × (y.down ≡ false))
    ⊎ ((x.down ≡ y.down)
        × (((x.unknown ≡ true) × (y.unknown ≡ false))
            ⊎ ((x.unknown ≡ y.unknown)
                × ((y.silence <ℤ x.silence)
                    ⊎ ((x.silence ≡ y.silence) × (text_ltb y.agent_id x.agent_id ≡ false))))))

abbrev pub IsOrdered : List Row → Type 0
IsOrdered [] = Unit
IsOrdered (x ∷ []) = Unit
IsOrdered (x ∷ y ∷ rs) = StandsFirst x y × IsOrdered (y ∷ rs)

-- The comparator keeps to that order.
after-StandsFirst : (x y : Row) → before y x ≡ false → StandsFirst x y
unfolding before
after-StandsFirst x y h = ground (arith, eqb_ℤ_iff y.silence x.silence)

-- No row stands before one that the comparator puts before it.
abbrev InOrder : List Row → Type 0
InOrder [] = Unit
InOrder (x ∷ []) = Unit
InOrder (x ∷ y ∷ rs) = (before y x ≡ false) × InOrder (y ∷ rs)

InOrder-IsOrdered : (rs : List Row) → InOrder rs → IsOrdered rs
InOrder-IsOrdered [] h = tt
InOrder-IsOrdered (x ∷ []) h = tt
InOrder-IsOrdered (x ∷ y ∷ rs) h = (after-StandsFirst x y h.0, InOrder-IsOrdered (y ∷ rs) h.1)

text_ltb_asym : (s t : Text) → text_ltb s t ≡ true → text_ltb t s ≡ false
unfolding text_ltb
text_ltb_asym s [] h = absurd (ground arith)
text_ltb_asym [] (d ∷ t) h = refl
text_ltb_asym (c ∷ s) (d ∷ t) h = ground (arith, text_ltb_asym s t)

before_asym : (a b : Row) → before a b ≡ true → before b a ≡ false
unfolding before
before_asym a b h = ground (arith, text_ltb_asym a.agent_id b.agent_id)

-- The length of the members that pass is the same for every order.
select-insert_row :
    (p : Row → Bool) (r : Row) (rs : List Row)
    → length (select p (insert_row r rs)) ≡ length (select p (r ∷ rs))
unfolding insert_row
select-insert_row p r [] = refl
select-insert_row p r (x ∷ xs) = ground (arith, select-insert_row p r xs)

select-sort_rows :
    (p : Row → Bool) (rs : List Row) → length (select p (sort_rows rs)) ≡ length (select p rs)
unfolding sort_rows
select-sort_rows p [] = refl
select-sort_rows p (r ∷ rs) =
    ground (arith, select-insert_row p r (sort_rows rs), select-sort_rows p rs)

insert_row-InOrder : (r : Row) (rs : List Row) → InOrder rs → InOrder (insert_row r rs)
unfolding insert_row
insert_row-InOrder r [] h = tt
insert_row-InOrder r (x ∷ []) h = ground (arith, before_asym x r)
insert_row-InOrder r (x ∷ y ∷ rs) h =
    ground (arith, before_asym x r, before_asym y r, insert_row-InOrder r (y ∷ rs))

sort_rows-InOrder : (rs : List Row) → InOrder (sort_rows rs)
unfolding sort_rows
sort_rows-InOrder [] = tt
sort_rows-InOrder (r ∷ rs) = insert_row-InOrder r (sort_rows rs) (sort_rows-InOrder rs)

abbrev pub is_row_down : Row → Bool
is_row_down r = r.down

-- An agent that has been seen, and not within its threshold.
abbrev pub is_silent : Thresholds → Time → AgentState → Bool
is_silent ths now st = not (is_zero st.last_seen) && is_down ths now st

count_down-select : (rs : List Row) → count_down rs ≡ length (select is_row_down rs)
unfolding count_down
count_down-select [] = refl
count_down-select (r ∷ rs) = ground (arith, count_down-select rs)

all_rows : Row → Bool
all_rows r = true

length-select : (rs : List Row) → length (select all_rows rs) ≡ length rs
unfolding all_rows
length-select [] = refl
length-select (r ∷ rs) = ground (arith, length-select rs)

length-sort_rows : (rs : List Row) → length (sort_rows rs) ≡ length rs
length-sort_rows rs =
    sym (length-select (sort_rows rs)) ∙ select-sort_rows all_rows rs ∙ length-select rs

length-rows_of :
    (ths : Thresholds) (now : Time) (sts : List AgentState)
    → length (rows_of ths now sts) ≡ length sts
unfolding rows_of
length-rows_of ths now [] = refl
length-rows_of ths now (st ∷ sts) = ground (arith, length-rows_of ths now sts)

down-rows_of :
    (ths : Thresholds) (now : Time) (sts : List AgentState)
    → length (select is_row_down (rows_of ths now sts)) ≡ length (select (is_silent ths now) sts)
unfolding rows_of row_of
down-rows_of ths now [] = refl
down-rows_of ths now (st ∷ sts) = ground (arith, down-rows_of ths now sts)

-- The rows of the page are those of the agents, each as often as there. Each stands before the next
-- as it should: the silent ones first, then the unknown ones, then the longest silence first, then
-- the ids in their order. The counts are those of the silent rows, which are as many as the agents
-- that were seen and not within their threshold, and of all rows, as many as the agents.
pub build_page-IsOrdered :
    {D : Type 0} (ths : Thresholds) (now : Time) (s : Store D)
    → let page = build_page ths now s in
      IsOrdered page.rows
      × ((p : Row → Bool)
          → length (select p page.rows) ≡ length (select p (rows_of ths now (snapshot s))))
      × (page.down_count ≡ length (select is_row_down page.rows))
      × (page.down_count ≡ length (select (is_silent ths now) (snapshot s)))
      × (page.total_count ≡ length page.rows)
      × (page.total_count ≡ length (snapshot s))
unfolding build_page
build_page-IsOrdered ths now s =
    let rows = rows_of ths now (snapshot s) in
    (
      InOrder-IsOrdered (sort_rows rows) (sort_rows-InOrder rows),
      λ p. select-sort_rows p rows,
      count_down-select rows ∙ sym (select-sort_rows is_row_down rows),
      count_down-select rows ∙ down-rows_of ths now (snapshot s),
      refl,
      length-sort_rows rows ∙ length-rows_of ths now (snapshot s),
    )
