-- ===== src/Tests/Dashboard.antt =====
-- The dashboard of a store with one agent.
use heartpost.Common.{◌≡◌, ◌+◌, ◌*◌, refl, Bool, Option, none, some, length, select}
use heartpost.Common.Text.{Text, codes, text_eq, has_prefix}
use heartpost.Clock.{minute}
use heartpost.Receiver.Store.{snapshot}
use heartpost.Receiver.Dashboard.{
  BasicAuth, check_auth, static_file, Row, serve_dashboard, build_page, rows_of,
}
use heartpost.Receiver.Dashboard.Order.{IsOrdered, is_row_down, is_silent, build_page-IsOrdered}
use heartpost.Tests.Data.{defaults, noon, one_agent}

abbrev admin : BasicAuth
admin = record { user = codes "admin"; password = codes "secret"; realm = codes "" }

abbrev no_credentials : Option (Text × Text)
no_credentials = none

build_page-IsOrdered_example :
    let page = build_page defaults (noon + 20 * minute) one_agent in
    IsOrdered page.rows
    × ((p : Row → Bool)
        → length (select p page.rows)
          ≡ length (select p (rows_of defaults (noon + 20 * minute) (snapshot one_agent))))
    × (page.down_count ≡ length (select is_row_down page.rows))
    × (page.down_count
        ≡ length (select (is_silent defaults (noon + 20 * minute)) (snapshot one_agent)))
    × (page.total_count ≡ length page.rows)
    × (page.total_count ≡ length (snapshot one_agent))
build_page-IsOrdered_example = build_page-IsOrdered defaults (noon + 20 * minute) one_agent

style_served :
    serve_dashboard admin defaults noon one_agent
      (some (codes "admin", codes "secret"))
      (codes "/static/a.css")
    ≡ static_file (codes "/static/a.css")
unfolding serve_dashboard check_auth has_prefix text_eq
style_served = refl
