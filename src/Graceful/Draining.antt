-- ===== src/Graceful/Draining.antt =====
-- internal/graceful/graceful.go: the streams of a drain, over the events of a tracker.
use proxy_manager.Prelude.{
  ℕ, ◌≡◌, refl, Bool, true, false, ◌&&◌, some, subst, List, [], ◌∷◌, ◌++◌, nat_eq, ◌==◌, All,
  All-map_any, In, In-append_right, Bool-cases, inl, inr,
}
use proxy_manager.Prelude.Assoc.{lookup, insert, lookup-insert, insert-All, delete-All}
use proxy_manager.Graceful.{
  TrackedReq, Tracker, begin_request, without, end_request, on_hijacked, cancel_long, cut_streams,
  cancel, cancel_all, close_hijacked,
}

pub data TrackerEvent : Type 0 where
  began : ℕ → Bool → TrackerEvent
  ended : ℕ → ℕ → TrackerEvent
  upgraded : ℕ → TrackerEvent
  streams_cut : TrackerEvent
  all_cancelled : TrackerEvent
  all_closed : TrackerEvent

abbrev pub tracker_event : TrackerEvent → Tracker → Tracker
tracker_event (began id is_long) t = begin_request id is_long t
tracker_event (ended id conn) t = end_request id conn t
tracker_event (upgraded c) t = on_hijacked c t
tracker_event streams_cut t = cut_streams t
tracker_event all_cancelled t = cancel_all t
tracker_event all_closed t = close_hijacked t

abbrev pub tracker_events : List TrackerEvent → Tracker → Tracker
tracker_events [] t = t
tracker_events (x ∷ xs) t = tracker_events xs (tracker_event x t)

abbrev IsEnded : ℕ × TrackedReq → Type 0
IsEnded e = e.1.long ≡ true → e.1.cancelled ≡ true

-- Each stream is cancelled and each hijacked connection is closed.
pub record IsCut (t : Tracker) : Type 0 where
  pub cutting : t.cut ≡ true
  pub cancelled : All IsEnded t.reqs
  pub shut : All (λ c. In c t.closed) t.hijacked

shut-left :
    (xs ys zs : List ℕ)
    → All (λ c. In c (xs ++ zs)) ys
    → (c : ℕ) → All (λ d. In d (c ∷ xs ++ zs)) ys
shut-left xs [] zs h c = tt
shut-left xs (y ∷ ys) zs h c = (inr h.0, shut-left xs ys zs h.1 c)

pub shut_self : (xs zs : List ℕ) → All (λ c. In c (xs ++ zs)) xs
shut_self [] zs = tt
shut_self (x ∷ xs) zs = (inl refl, shut-left xs xs zs (shut_self xs zs) x)

shut-without : (c : ℕ) (P : ℕ → Type 0) (cs : List ℕ) → All P cs → All P (without c cs)
unfolding without
shut-without c P [] h = tt
shut-without c P (d ∷ cs) h = elim (Bool-cases (d == c)) [
  | inl same ↦ rw same (shut-without c P cs h.1)
  | inr other ↦ rw other (h.0, shut-without c P cs h.1)
]

cancel_long-IsEnded : (e : ℕ × TrackedReq) → IsEnded (cancel_long e)
unfolding cancel_long
cancel_long-IsEnded e = elim (Bool-cases e.1.long) [
  | inl long ↦ rw long (λ _. refl)
  | inr short ↦ rw short (λ l. absurd (cc))
]

pub cut_streams-IsCut : (t : Tracker) → IsCut (cut_streams t)
unfolding cut_streams
cut_streams-IsCut t = record {
  cutting = refl;
  cancelled = All-map_any IsEnded cancel_long t.reqs cancel_long-IsEnded;
  shut = shut_self t.hijacked t.closed;
}

pub on_hijacked-cut :
    (c : ℕ) (t : Tracker) → t.cut ≡ true → on_hijacked c t ≡ record t { closed = c ∷ t.closed }
unfolding on_hijacked
on_hijacked-cut c t h = rw h refl

pub on_hijacked-waiting :
    (c : ℕ) (t : Tracker) → t.cut ≡ false → on_hijacked c t ≡ record t { hijacked = c ∷ t.hijacked }
unfolding on_hijacked
on_hijacked-waiting c t h = rw h refl

event-IsCut : (x : TrackerEvent) (t : Tracker) → IsCut t → IsCut (tracker_event x t)
unfolding begin_request end_request cancel_all cancel close_hijacked
event-IsCut (began id is_long) t k = record {
  cutting = k.cutting;
  cancelled = insert-All IsEnded id _ t.reqs (λ l. rw (k.cutting, l) refl) k.cancelled;
  shut = k.shut;
}
event-IsCut (ended id conn) t k = record {
  cutting = k.cutting;
  cancelled = delete-All IsEnded id t.reqs k.cancelled;
  shut = shut-without conn (λ c. In c t.closed) t.hijacked k.shut;
}
event-IsCut (upgraded c) t k = rw (on_hijacked-cut c t k.cutting) (record {
  cutting = k.cutting;
  cancelled = k.cancelled;
  shut = shut-left [] t.hijacked t.closed k.shut c;
})
event-IsCut streams_cut t k = cut_streams-IsCut t
event-IsCut all_cancelled t k = record {
  cutting = k.cutting;
  cancelled = All-map_any IsEnded cancel t.reqs (λ e _. refl);
  shut = k.shut;
}
event-IsCut all_closed t k = record {
  cutting = refl;
  cancelled = k.cancelled;
  shut = shut_self t.hijacked t.closed;
}

pub event-keeps_closed :
    (x : TrackerEvent) (t : Tracker) (c : ℕ) → In c t.closed → In c (tracker_event x t).closed
unfolding begin_request end_request cut_streams cancel_all close_hijacked
event-keeps_closed (began id is_long) t c h = h
event-keeps_closed (ended id conn) t c h = h
event-keeps_closed (upgraded d) t c h = elim (Bool-cases t.cut) [
  | inl cutting ↦ rw (on_hijacked-cut d t cutting) (inr h)
  | inr waiting ↦ rw (on_hijacked-waiting d t waiting) h
]
event-keeps_closed streams_cut t c h = In-append_right c t.hijacked t.closed h
event-keeps_closed all_cancelled t c h = h
event-keeps_closed all_closed t c h = In-append_right c t.hijacked t.closed h

pub events-keep_closed :
    (xs : List TrackerEvent) (t : Tracker) (c : ℕ)
    → In c t.closed
    → In c (tracker_events xs t).closed
events-keep_closed [] t c h = h
events-keep_closed (x ∷ xs) t c h =
    events-keep_closed xs (tracker_event x t) c (event-keeps_closed x t c h)

-- The connections that the events upgrade.
abbrev pub upgrades : List TrackerEvent → List ℕ
upgrades [] = []
upgrades (upgraded c ∷ xs) = c ∷ upgrades xs
upgrades (began id is_long ∷ xs) = upgrades xs
upgrades (ended id conn ∷ xs) = upgrades xs
upgrades (streams_cut ∷ xs) = upgrades xs
upgrades (all_cancelled ∷ xs) = upgrades xs
upgrades (all_closed ∷ xs) = upgrades xs

-- The event leaves a stream that it begins tracked and cancelled.
abbrev pub CutOnArrival : TrackerEvent → Tracker → Type 0
CutOnArrival (began id is_long) t =
    (r : TrackedReq) × (lookup id t.reqs ≡ some r) × (r.cancelled ≡ is_long)
CutOnArrival _ t = Unit

abbrev pub AllCutOnArrival : List TrackerEvent → Tracker → Type 0
AllCutOnArrival [] t = Unit
AllCutOnArrival (x ∷ xs) t =
    CutOnArrival x (tracker_event x t) × AllCutOnArrival xs (tracker_event x t)

cut-CutOnArrival :
    (x : TrackerEvent) (t : Tracker) → t.cut ≡ true → CutOnArrival x (tracker_event x t)
unfolding begin_request
cut-CutOnArrival (began id is_long) t h =
    let r : TrackedReq = record { long = is_long; cancelled = is_long && t.cut } in
    (r, found r, kept is_long t.cut h)
  where
    found : (r : TrackedReq) → lookup id (insert id r t.reqs) ≡ some r
    found r = rw (lookup-insert id id r t.reqs, (nat_eq.eq_test_iff id id).1 refl) refl

    kept : (a b : Bool) → b ≡ true → (a && b) ≡ a
    kept true b e = e
    kept false b e = refl
cut-CutOnArrival (ended id conn) t h = tt
cut-CutOnArrival (upgraded c) t h = tt
cut-CutOnArrival streams_cut t h = tt
cut-CutOnArrival all_cancelled t h = tt
cut-CutOnArrival all_closed t h = tt

-- What holds of the events after a cut, and of the tracker that they lead to.
pub record AfterCut (xs : List TrackerEvent) (t : Tracker) : Type 0 where
  pub ends : IsCut (tracker_events xs t)
  pub arrivals : AllCutOnArrival xs t
  pub upgrades_shut : All (λ c. In c (tracker_events xs t).closed) (upgrades xs)

pub events-AfterCut : (xs : List TrackerEvent) (t : Tracker) → IsCut t → AfterCut xs t
events-AfterCut [] t k = record { ends = k; arrivals = tt; upgrades_shut = tt }
events-AfterCut (x ∷ xs) t k =
    let rest = events-AfterCut xs (tracker_event x t) (event-IsCut x t k) in
    record {
      ends = rest.ends;
      arrivals = (cut-CutOnArrival x t k.cutting, rest.arrivals);
      upgrades_shut = with_own x (on_arrival x refl) rest.upgrades_shut;
    }
  where
    final : Tracker
    final = tracker_events xs (tracker_event x t)

    OwnShut : TrackerEvent → Type 0
    OwnShut (upgraded c) = In c final.closed
    OwnShut _ = Unit

    on_arrival : (y : TrackerEvent) → y ≡ x → OwnShut y
    on_arrival (upgraded c) e = events-keep_closed xs (tracker_event x t) c (
        subst (λ y. In c (tracker_event y t).closed) e
          (rw (on_hijacked-cut c t k.cutting) (inl refl)))
    on_arrival (began id is_long) e = tt
    on_arrival (ended id conn) e = tt
    on_arrival streams_cut e = tt
    on_arrival all_cancelled e = tt
    on_arrival all_closed e = tt

    with_own :
        (y : TrackerEvent)
        → OwnShut y
        → All (λ c. In c final.closed) (upgrades xs)
        → All (λ c. In c final.closed) (upgrades (y ∷ xs))
    with_own (upgraded c) own h = (own, h)
    with_own (began id is_long) own h = h
    with_own (ended id conn) own h = h
    with_own streams_cut own h = h
    with_own all_cancelled own h = h
    with_own all_closed own h = h
