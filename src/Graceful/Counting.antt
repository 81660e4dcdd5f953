-- ===== src/Graceful/Counting.antt =====
-- internal/graceful/graceful.go: the count that waitIdle reads, and the clamps of the timeouts.
use proxy_manager.Prelude.{
  ℕ, ◌≤◌, ◌<◌, ◌≡◌, ◌↔◌, ◌⊎◌, refl, Bool, true, false, ◌||◌, if◌then◌else◌, List, [], ◌∷◌, Option,
  none, some, nat_eq, ◌==◌, length, min, max, ◌+◌, Bool-cases, inl, inr, arith,
}
use proxy_manager.Graceful.{
  Tracker, new_tracker, begin_request, end_request, on_hijacked, cut_streams, cancel_all,
  close_hijacked, active_count, timeout_from_env,
}
use proxy_manager.Graceful.Draining.{
  TrackerEvent, began, ended, upgraded, streams_cut, all_cancelled, all_closed, tracker_event,
  tracker_events,
}

abbrev pub is_running : ℕ → List ℕ → Bool
is_running id [] = false
is_running id (r ∷ rs) = (r == id) || is_running id rs

abbrev stop : ℕ → List ℕ → List ℕ
stop id [] = []
stop id (r ∷ rs) = let rest = stop id rs in if r == id then rs else r ∷ rest

-- The requests that have begun and not ended, read from the events alone.
abbrev runs_after : TrackerEvent → List ℕ → List ℕ
runs_after (began id is_long) rs = id ∷ rs
runs_after (ended id conn) rs = stop id rs
runs_after _ rs = rs

abbrev pub running : List TrackerEvent → List ℕ → List ℕ
running [] rs = rs
running (x ∷ xs) rs = running xs (runs_after x rs)

-- A request begins while it does not run, and ends while it does.
abbrev MayHappen : TrackerEvent → List ℕ → Type 0
MayHappen (began id is_long) rs = is_running id rs ≡ false
MayHappen (ended id conn) rs = is_running id rs ≡ true
MayHappen _ rs = Unit

abbrev pub IsFair : List TrackerEvent → List ℕ → Type 0
IsFair [] rs = Unit
IsFair (x ∷ xs) rs = MayHappen x rs × IsFair xs (runs_after x rs)

length-stop : (id : ℕ) (rs : List ℕ) → is_running id rs ≡ true → length rs ≡ length (stop id rs) + 1
length-stop id [] h = absurd (cc)
length-stop id (r ∷ rs) h = elim (Bool-cases (r == id)) [
  | inl same ↦ rw same (omega arith)
  | inr other ↦
      let shorter = length-stop id rs (ground (arith, other, h)) in
      rw other (omega (arith, shorter))
]

on_hijacked-active : (c : ℕ) (t : Tracker) → (on_hijacked c t).active ≡ t.active
unfolding on_hijacked
on_hijacked-active c t = elim (Bool-cases t.cut) [
  | inl cutting ↦ rw cutting refl
  | inr waiting ↦ rw waiting refl
]

event-counts :
    (x : TrackerEvent) (rs : List ℕ) (t : Tracker)
    → MayHappen x rs
    → t.active ≡ length rs
    → (tracker_event x t).active ≡ length (runs_after x rs)
unfolding begin_request end_request cut_streams cancel_all close_hijacked
event-counts (began id is_long) rs t may h = omega (arith, h)
event-counts (ended id conn) rs t may h = omega (arith, h, length-stop id rs may)
event-counts (upgraded c) rs t may h = rw (on_hijacked-active c t) h
event-counts streams_cut rs t may h = h
event-counts all_cancelled rs t may h = h
event-counts all_closed rs t may h = h

events-count :
    (xs : List TrackerEvent) (rs : List ℕ) (t : Tracker)
    → IsFair xs rs
    → t.active ≡ length rs
    → (tracker_events xs t).active ≡ length (running xs rs)
events-count [] rs t fair h = h
events-count (x ∷ xs) rs t fair h =
    events-count xs (runs_after x rs) (tracker_event x t) fair.1 (event-counts x rs t fair.0 h)

empty_iff : (n : ℕ) (rs : List ℕ) → n ≡ length rs → (n ≡ 0) ↔ (rs ≡ [])
empty_iff n [] h = ((λ _. refl), (λ _. h))
empty_iff n (r ∷ rs) h = ((λ z. absurd (omega (arith, h, z))), (λ z. absurd (cc)))

-- After any events in which each request begins while it does not run and ends while it does, the
-- count is the number of requests that have begun and not ended, so that it is 0, and a drain
-- complete, exactly when each that began has ended.
pub active_count-drained_iff :
    (xs : List TrackerEvent)
    → IsFair xs []
    → (active_count (tracker_events xs new_tracker) ≡ length (running xs []))
      × ((active_count (tracker_events xs new_tracker) ≡ 0) ↔ (running xs [] ≡ []))
unfolding active_count new_tracker
active_count-drained_iff xs fair =
    let counted = events-count xs [] new_tracker fair refl in (counted, empty_iff _ _ counted)

-- A duration moved to the nearest bound where it is outside of them.
abbrev pub Clamped : ℕ → ℕ → ℕ → ℕ → Type 0
Clamped low high asked d =
    ((low ≤ asked) × (asked ≤ high) × (d ≡ asked))
    ⊎ (((asked < low) × (d ≡ low)) ⊎ ((high < asked) × (d ≡ high)))

abbrev pub asked : Option ℕ → ℕ → ℕ
asked none default = default
asked (some d) default = d

clamps : (low high d : ℕ) → low ≤ high → Clamped low high d (min (max d low) high)
clamps low high d h = ground (arith, h)

-- In nanoseconds: the timeout is the environment's, or 25 s, moved into the bounds of 1 s and 120 s,
-- and the streams' grace is the environment's, or 5 s, and at most the timeout.
pub timeout_from_env-bounds :
    (timeout grace : Option ℕ)
    → Clamped 1000000000 120000000000 (asked timeout 25000000000) (timeout_from_env timeout grace).0
      × Clamped 0
          (timeout_from_env timeout grace).0
          (asked grace 5000000000)
          (timeout_from_env timeout grace).1
unfolding timeout_from_env
timeout_from_env-bounds timeout grace = (clamps _ _ _ (omega arith), clamps _ _ _ (omega arith))
