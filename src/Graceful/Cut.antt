-- ===== src/Graceful/Cut.antt =====
-- internal/graceful/graceful.go: the events before cutStreams, the cut, and those after it.
use proxy_manager.Prelude.{
  ℕ, ◌≡◌, ◌∙◌, ap, refl, Bool, true, false, List, [], ◌∷◌, ◌++◌, map, Option, some, nat_eq, ◌==◌,
  All, In, In-append_left, In-append_right, ◌⊎◌, inl, inr, if◌then◌else◌, Bool-cases, arith,
}
use proxy_manager.Prelude.Assoc.{lookup, lookup-insert, lookup-delete}
use proxy_manager.Graceful.{
  TrackedReq, Tracker, begin_request, without, end_request, on_hijacked, cancel_long, cut_streams,
  cancel, cancel_all, close_hijacked,
}
use proxy_manager.Graceful.Draining.{
  TrackerEvent, began, ended, upgraded, streams_cut, all_cancelled, all_closed, tracker_event,
  tracker_events, IsCut, cut_streams-IsCut, on_hijacked-cut, on_hijacked-waiting,
  events-keep_closed, upgrades, AllCutOnArrival, events-AfterCut,
}

abbrev others : ℕ → List ℕ → List ℕ
others n [] = []
others n (x ∷ xs) = let rest = others n xs in if x == n then rest else x ∷ rest

-- The connections that are upgraded and whose request has not ended, read from the events alone.
abbrev conns_after : TrackerEvent → List ℕ → List ℕ
conns_after (upgraded c) cs = c ∷ cs
conns_after (ended id conn) cs = others conn cs
conns_after _ cs = cs

abbrev pub open_conns : List TrackerEvent → List ℕ → List ℕ
open_conns [] cs = cs
open_conns (x ∷ xs) cs = open_conns xs (conns_after x cs)

-- The long-lived requests that have begun and not ended, likewise.
abbrev streams_after : TrackerEvent → List ℕ → List ℕ
streams_after (began id true) ids = id ∷ others id ids
streams_after (began id false) ids = others id ids
streams_after (ended id conn) ids = others id ids
streams_after _ ids = ids

abbrev pub open_streams : List TrackerEvent → List ℕ → List ℕ
open_streams [] ids = ids
open_streams (x ∷ xs) ids = open_streams xs (streams_after x ids)

All-others :
    (P Q : ℕ → Type 0) (n : ℕ)
    → ((x : ℕ) → (x == n) ≡ false → P x → Q x)
    → (xs : List ℕ) → All P xs
    → All Q (others n xs)
All-others P Q n each [] h = tt
All-others P Q n each (x ∷ xs) h = elim (Bool-cases (x == n)) [
  | inl same ↦ rw same (All-others P Q n each xs h.1)
  | inr other ↦ rw other (each x other h.0, All-others P Q n each xs h.1)
]

All-each : (P Q : ℕ → Type 0) → ((x : ℕ) → P x → Q x) → (xs : List ℕ) → All P xs → All Q xs
All-each P Q each [] h = tt
All-each P Q each (x ∷ xs) h = (each x h.0, All-each P Q each xs h.1)

-- The tracker has the connection, or has closed it.
abbrev IsHeld : Tracker → ℕ → Type 0
IsHeld t c = In c t.hijacked ⊎ In c t.closed

In-without : (c conn : ℕ) (cs : List ℕ) → (c == conn) ≡ false → In c cs → In c (without conn cs)
unfolding without
In-without c conn [] other m = elim m [ ]
In-without c conn (d ∷ cs) other m = elim (Bool-cases (d == conn)) [
  | inl same ↦ rw same (elim m [
    | inl e ↦ absurd (ground (arith, e, same, other))
    | inr n ↦ In-without c conn cs other n
  ])
  | inr apart ↦ rw apart (elim m [ inl e ↦ inl e | inr n ↦ inr (In-without c conn cs other n) ])
]

closes_all : (t : Tracker) (c : ℕ) → IsHeld t c → In c (t.hijacked ++ t.closed)
closes_all t c (inl m) = In-append_left c t.hijacked t.closed m
closes_all t c (inr m) = In-append_right c t.hijacked t.closed m

on_hijacked-IsHeld : (d : ℕ) (t : Tracker) (c : ℕ) → IsHeld t c → IsHeld (on_hijacked d t) c
on_hijacked-IsHeld d t c h = elim (Bool-cases t.cut) [
  | inl cutting ↦ rw (on_hijacked-cut d t cutting) (elim h [ inl m ↦ inl m | inr m ↦ inr (inr m) ])
  | inr waiting ↦
      rw (on_hijacked-waiting d t waiting) (elim h [ inl m ↦ inl (inr m) | inr m ↦ inr m ])
]

on_hijacked-holds : (c : ℕ) (t : Tracker) → IsHeld (on_hijacked c t) c
on_hijacked-holds c t = elim (Bool-cases t.cut) [
  | inl cutting ↦ rw (on_hijacked-cut c t cutting) (inr (inl refl))
  | inr waiting ↦ rw (on_hijacked-waiting c t waiting) (inl (inl refl))
]

event-IsHeld :
    (x : TrackerEvent) (cs : List ℕ) (t : Tracker)
    → All (IsHeld t) cs
    → All (IsHeld (tracker_event x t)) (conns_after x cs)
unfolding begin_request end_request cut_streams cancel_all close_hijacked
event-IsHeld (began id is_long) cs t h = h
event-IsHeld (ended id conn) cs t h = All-others (IsHeld t) _ conn kept cs h
  where
    kept : (c : ℕ) → (c == conn) ≡ false → IsHeld t c → IsHeld (tracker_event (ended id conn) t) c
    kept c other (inl m) = inl (In-without c conn t.hijacked other m)
    kept c other (inr m) = inr m
event-IsHeld (upgraded d) cs t h =
    (on_hijacked-holds d t, All-each (IsHeld t) _ (on_hijacked-IsHeld d t) cs h)
event-IsHeld streams_cut cs t h = All-each (IsHeld t) _ (λ c k. inr (closes_all t c k)) cs h
event-IsHeld all_cancelled cs t h = h
event-IsHeld all_closed cs t h = All-each (IsHeld t) _ (λ c k. inr (closes_all t c k)) cs h

events-IsHeld :
    (xs : List TrackerEvent) (cs : List ℕ) (t : Tracker)
    → All (IsHeld t) cs
    → All (IsHeld (tracker_events xs t)) (open_conns xs cs)
events-IsHeld [] cs t h = h
events-IsHeld (x ∷ xs) cs t h =
    events-IsHeld xs (conns_after x cs) (tracker_event x t) (event-IsHeld x cs t h)

All-IsHeld : (t : Tracker) → All (IsHeld t) t.hijacked
All-IsHeld t = within t.hijacked (λ c m. inl m)
  where
    within : (cs : List ℕ) → ((c : ℕ) → In c cs → IsHeld t c) → All (IsHeld t) cs
    within [] h = tt
    within (c ∷ cs) h = (h c (inl refl), within cs (λ d m. h d (inr m)))

-- The tracker has the request as a long-lived one.
abbrev IsStream : Tracker → ℕ → Type 0
IsStream t id = (r : TrackedReq) × (lookup id t.reqs ≡ some r) × (r.long ≡ true)

lookup-map_values :
    (f : TrackedReq → TrackedReq) (k : ℕ) (r : TrackedReq) (m : List (ℕ × TrackedReq))
    → lookup k m ≡ some r
    → lookup k (map (λ e. (e.0, f e.1)) m) ≡ some (f r)
lookup-map_values f k r [] h = cc
lookup-map_values f k r (e ∷ m) h = elim (Bool-cases (e.0 == k)) [
  | inl hit ↦ rw hit (ap some (ap f (found e.1 (ground (arith, hit, h)))))
  | inr apart ↦ rw apart (lookup-map_values f k r m (ground (arith, apart, h)))
]
  where
    found : (v : TrackedReq) → ◌≡◌ {A = Option TrackedReq} (some v) (some r) → v ≡ r
    found v same = ground (arith, same)

cut_streams-cancels :
    (t : Tracker) (id : ℕ)
    → IsStream t id
    → (r : TrackedReq) × (lookup id (cut_streams t).reqs ≡ some r)
      × (r.cancelled ≡ true)
      × (r.long ≡ true)
unfolding cut_streams cancel_long
cut_streams-cancels t id (r, found, long) = (
  record r { cancelled = true },
  lookup-map_values (λ v. if v.long then record v { cancelled = true } else v) id r t.reqs found
      ∙ ap some (cut_long r long),
  refl,
  long,
)
  where
    cut_long :
        (v : TrackedReq)
        → v.long ≡ true
        → (if v.long then record v { cancelled = true } else v) ≡ record v { cancelled = true }
    cut_long v e = simp (e)

eq_test_sym : (j id : ℕ) → (j == id) ≡ false → (id == j) ≡ false
eq_test_sym j id other = ground (arith, other)

begun-keeps :
    (id : ℕ) (is_long : Bool) (t : Tracker) (j : ℕ)
    → (j == id) ≡ false
    → IsStream t j
    → IsStream (begin_request id is_long t) j
unfolding begin_request
begun-keeps id is_long t j other (r, found, long) =
    (r, rw (lookup-insert id j _ t.reqs, eq_test_sym j id other) found, long)

event-IsStream :
    (x : TrackerEvent) (ids : List ℕ) (t : Tracker)
    → All (IsStream t) ids
    → All (IsStream (tracker_event x t)) (streams_after x ids)
unfolding begin_request end_request cut_streams cancel_all cancel cancel_long close_hijacked
event-IsStream (began id true) ids t h =
    (begun, All-others (IsStream t) _ id (begun-keeps id true t) ids h)
  where
    r : TrackedReq
    r = record { long = true; cancelled = t.cut }

    begun : IsStream (tracker_event (began id true) t) id
    begun = (r, rw (lookup-insert id id r t.reqs, (nat_eq.eq_test_iff id id).1 refl) refl, refl)
event-IsStream (began id false) ids t h =
    All-others (IsStream t) _ id (begun-keeps id false t) ids h
event-IsStream (ended id conn) ids t h = All-others (IsStream t) _ id kept ids h
  where
    kept : (j : ℕ) → (j == id) ≡ false → IsStream t j → IsStream (tracker_event (ended id conn) t) j
    kept j other (r, found, long) =
        (r, rw (lookup-delete id j t.reqs, eq_test_sym j id other) found, long)
event-IsStream (upgraded c) ids t h = All-each (IsStream t) _ kept ids h
  where
    kept : (j : ℕ) → IsStream t j → IsStream (on_hijacked c t) j
    kept j (r, found, long) = elim (Bool-cases t.cut) [
      | inl cutting ↦ rw (on_hijacked-cut c t cutting) (r, found, long)
      | inr waiting ↦ rw (on_hijacked-waiting c t waiting) (r, found, long)
    ]
event-IsStream streams_cut ids t h = All-each (IsStream t) _ kept ids h
  where
    kept : (j : ℕ) → IsStream t j → IsStream (cut_streams t) j
    kept j s = let (r, found, gone, long) = cut_streams-cancels t j s in (r, found, long)
event-IsStream all_cancelled ids t h = All-each (IsStream t) _ kept ids h
  where
    kept : (j : ℕ) → IsStream t j → IsStream (cancel_all t) j
    kept j (r, found, long) = (
      record r { cancelled = true },
      lookup-map_values (λ v. record v { cancelled = true }) j r t.reqs found,
      long,
    )
event-IsStream all_closed ids t h = h

events-IsStream :
    (xs : List TrackerEvent) (ids : List ℕ) (t : Tracker)
    → All (IsStream t) ids
    → All (IsStream (tracker_events xs t)) (open_streams xs ids)
events-IsStream [] ids t h = h
events-IsStream (x ∷ xs) ids t h =
    events-IsStream xs (streams_after x ids) (tracker_event x t) (event-IsStream x ids t h)

-- The tracker has the request still, and it is cancelled.
abbrev pub IsCancelled : Tracker → ℕ → Type 0
IsCancelled t id = (r : TrackedReq) × (lookup id t.reqs ≡ some r) × (r.cancelled ≡ true)

-- After any events, the cut cancels each long-lived request that has begun and not ended, and from
-- then on, whatever begins, ends or is upgraded, each long-lived request is cancelled, one that
-- begins later on its arrival, and each connection is closed that was upgraded before the cut, and
-- whose request had not ended by then, or that is upgraded after it.
pub cut_streams-ends :
    (t : Tracker) (before after : List TrackerEvent)
    → All (IsCancelled (cut_streams (tracker_events before t))) (open_streams before [])
      × IsCut (tracker_events after (cut_streams (tracker_events before t)))
      × AllCutOnArrival after (cut_streams (tracker_events before t))
      × All
          (λ c. In c (tracker_events after (cut_streams (tracker_events before t))).closed)
          (open_conns before t.hijacked)
      × All
          (λ c. In c (tracker_events after (cut_streams (tracker_events before t))).closed)
          (upgrades after)
cut_streams-ends t before after =
    let t1 = tracker_events before t in
    let rest = events-AfterCut after (cut_streams t1) (cut_streams-IsCut t1) in
    (
      All-each (IsStream t1) _ cancelled _ (events-IsStream before [] t tt),
      rest.ends,
      rest.arrivals,
      All-each (IsHeld t1) _ shut _ (events-IsHeld before t.hijacked t (All-IsHeld t)),
      rest.upgrades_shut,
    )
  where
    cancelled :
        (id : ℕ)
        → IsStream (tracker_events before t) id
        → IsCancelled (cut_streams (tracker_events before t)) id
    cancelled id s =
        let (r, found, gone, long) = cut_streams-cancels (tracker_events before t) id s in
        (r, found, gone)

    shut :
        (c : ℕ)
        → IsHeld (tracker_events before t) c
        → In c (tracker_events after (cut_streams (tracker_events before t))).closed
    shut c held =
        events-keep_closed after (cut_streams (tracker_events before t)) c
          (unfold cut_streams in closes_all (tracker_events before t) c held)
