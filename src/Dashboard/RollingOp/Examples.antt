-- ===== src/Dashboard/RollingOp/Examples.antt =====
-- cmd/dashboard/rollingop.go: `rollingOpManager` on a concrete job.
use proxy_manager.Prelude.{◌≡◌, refl, List, [], ◌∷◌, Bytes, codes}
use proxy_manager.Prelude.Results.{ok, err}
use proxy_manager.Dashboard.RollingOp.{active_rolling_replace, new_op, start_with}
use proxy_manager.Dashboard.RollingOp.Exclusive.{
  OpEvent, progressed, ended, op_run, start_with-exclusive,
}

abbrev web : Bytes
web = codes "web"

abbrev reports : List OpEvent
reports = progressed web 1 2 (codes "web-1") (codes "healthy") ∷ ended (codes "db") [] (ok tt) ∷ []

web_starts : (start_with web (codes "web:2") [] 7 []).0 ≡ ok (new_op web (codes "web:2") [] 7)
unfolding start_with
web_starts = refl

start_with-exclusive_example :
    start_with web (codes "web:3") [] 9 (op_run reports (start_with web (codes "web:2") [] 7 []).1)
    ≡ (err (active_rolling_replace web), op_run reports (start_with web (codes "web:2") [] 7 []).1)
start_with-exclusive_example =
    start_with-exclusive web (codes "web:2") [] (codes "web:3") [] 7 9 []
      (new_op web (codes "web:2") [] 7) reports web_starts (refl, (refl, tt))
