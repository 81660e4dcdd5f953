-- ===== src/Graceful/Examples.antt =====
-- The drain's theorems at concrete inputs.
use proxy_manager.Prelude.{◌≡◌, ◌↔◌, refl, true, false, List, [], ◌∷◌, none, some, All, In}
use proxy_manager.Graceful.{Tracker, new_tracker, active_count, timeout_from_env, cut_streams}
use proxy_manager.Graceful.Draining.{
  TrackerEvent, began, ended, upgraded, streams_cut, IsCut, AllCutOnArrival, tracker_events,
}
use proxy_manager.Graceful.Cut.{IsCancelled, cut_streams-ends}
use proxy_manager.Graceful.Counting.{
  running, Clamped, active_count-drained_iff, timeout_from_env-bounds,
}

abbrev one_stream : Tracker
one_stream = record {
  active = 1;
  reqs = (7, record { long = true; cancelled = false }) ∷ [];
  hijacked = 3 ∷ [];
  cut = false;
  closed = [];
}

abbrev later_on : List TrackerEvent
later_on = began 8 true ∷ upgraded 4 ∷ ended 8 4 ∷ []

abbrev until_then : List TrackerEvent
until_then = began 9 true ∷ upgraded 5 ∷ began 6 true ∷ upgraded 2 ∷ ended 6 2 ∷ []

cut_streams-ends_example :
    All (IsCancelled (cut_streams (tracker_events until_then one_stream))) (9 ∷ [])
    × IsCut (tracker_events later_on (cut_streams (tracker_events until_then one_stream)))
    × AllCutOnArrival later_on (cut_streams (tracker_events until_then one_stream))
    × All
        (λ c.
          In c
            (tracker_events later_on (cut_streams (tracker_events until_then one_stream))).closed)
        (5 ∷ 3 ∷ [])
    × All
        (λ c.
          In c
            (tracker_events later_on (cut_streams (tracker_events until_then one_stream))).closed)
        (4 ∷ [])
cut_streams-ends_example = cut_streams-ends one_stream until_then later_on

abbrev a_day : List TrackerEvent
a_day = began 7 false ∷ began 8 true ∷ ended 7 1 ∷ streams_cut ∷ ended 8 2 ∷ []

active_count-drained_iff_example :
    (active_count (tracker_events a_day new_tracker) ≡ 0)
    × ((active_count (tracker_events a_day new_tracker) ≡ 0) ↔ (running a_day [] ≡ []))
active_count-drained_iff_example =
    active_count-drained_iff a_day (refl, (refl, (refl, (tt, (refl, tt)))))

timeout_from_env-bounds_example :
    Clamped 1000000000 120000000000 7200000000000 (timeout_from_env (some 7200000000000) none).0
    × Clamped 0
        (timeout_from_env (some 7200000000000) none).0
        5000000000
        (timeout_from_env (some 7200000000000) none).1
timeout_from_env-bounds_example = timeout_from_env-bounds (some 7200000000000) none
