-- ===== src/Receiver/Dashboard.antt =====
-- core/receiver/web.go: who may see the dashboard, and the rows of its page. A row holds the times
-- whose texts the page shows.
pub mod Order
pub mod Access
use heartpost.Common.{
  ℕ, zero, suc, ◌+◌, Bool, true, false, ◌&&◌, ◌||◌, not, Option, none, some, List, [], ◌∷◌, ◌==◌,
  if◌then◌else◌, length,
}
use heartpost.Common.Text.{Text, codes, text_eq, text_ltb, is_empty, has_prefix}
use heartpost.Common.Int.{ℤ, pos, ltb_ℤ, eqb_ℤ}
use heartpost.Clock.{Time, Duration, sub, is_zero}
use heartpost.Receiver.State.{AgentState, label}
use heartpost.Receiver.Liveness.{Thresholds, is_down, same_bool}
use heartpost.Receiver.Store.{Store, snapshot}

pub record BasicAuth : Type 0 where
  pub user : Text
  pub password : Text
  pub realm : Text

-- checkAuth on the user and the password of the request, if it has them.
unfoldable pub check_auth : BasicAuth → Option (Text × Text) → Bool
check_auth auth credentials = is_empty auth.user || elim credentials [
  | none ↦ false
  | some (user, password) ↦ text_eq user auth.user && text_eq password auth.password
]

pub record Row : Type 0 where
  pub agent_id : Text
  pub agent_type : Text
  pub label : Text
  pub down : Bool
  pub unknown : Bool
  pub last_seen : Time
  pub silence : Duration
  pub root_disk : Text
  pub load : Option (ℕ × ℕ × ℕ)

unfoldable pub or_dash : Text → Text
or_dash s = if is_empty s then codes "-" else s

unfoldable pub row_of : Thresholds → Time → AgentState → Row
unfolding or_dash
row_of ths now st =
    let unknown = is_zero st.last_seen in
    record {
      agent_id = st.agent_id;
      agent_type = st.agent_type;
      label = label st;
      down = if unknown then false else is_down ths now st;
      unknown = unknown;
      last_seen = st.last_seen;
      silence = if unknown then pos 0 else sub now st.last_seen;
      root_disk = or_dash st.root_disk_percent;
      load = if st.has_load then some (st.load1, st.load5, st.load15) else none;
    }

unfoldable pub rows_of : Thresholds → Time → List AgentState → List Row
unfolding row_of
rows_of ths now [] = []
rows_of ths now (st ∷ sts) = row_of ths now st ∷ rows_of ths now sts

-- The order of the rows: the silent ones, the unknown ones, the longest silence, the agent id.
unfoldable pub before : Row → Row → Bool
before a b =
    if not (same_bool a.down b.down)
    then a.down
    else if not (same_bool a.unknown b.unknown)
    then a.unknown
    else if not (eqb_ℤ a.silence b.silence)
    then ltb_ℤ b.silence a.silence
    else text_ltb a.agent_id b.agent_id

-- sort.SliceStable
unfoldable pub insert_row : Row → List Row → List Row
unfolding before
insert_row r [] = r ∷ []
insert_row r (x ∷ xs) = if before x r then x ∷ insert_row r xs else r ∷ x ∷ xs

unfoldable pub sort_rows : List Row → List Row
unfolding insert_row
sort_rows [] = []
sort_rows (r ∷ rs) = insert_row r (sort_rows rs)

unfoldable pub count_down : List Row → ℕ
count_down [] = 0
count_down (r ∷ rs) = if r.down then suc (count_down rs) else count_down rs

pub record Page : Type 0 where
  pub rows : List Row
  pub down_count : ℕ
  pub total_count : ℕ

unfoldable pub build_page : {D : Type 0} → Thresholds → Time → Store D → Page
unfolding rows_of sort_rows count_down
build_page ths now s =
    let rows = rows_of ths now (snapshot s) in
    let sorted = sort_rows rows in
    record { rows = sorted; down_count = count_down rows; total_count = length sorted }

-- What a request gets: the page, a static file of that path, or an error.
pub data Reply : Type 0 where
  page : Page → Reply
  static_file : Text → Reply
  not_found unauthorized : Reply

unfoldable pub serve_dashboard :
    {D : Type 0} → BasicAuth → Thresholds → Time → Store D → Option (Text × Text) → Text → Reply
unfolding check_auth build_page
serve_dashboard auth ths now s credentials path =
    if not (check_auth auth credentials)
    then unauthorized
    else if has_prefix path (codes "/static/")
    then static_file path
    else if text_eq path (codes "/")
    then page (build_page ths now s)
    else not_found
