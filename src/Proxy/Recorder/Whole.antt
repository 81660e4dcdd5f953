-- ===== src/Proxy/Recorder/Whole.antt =====
-- cmd/proxy/cache.go: what a recorder keeps of the calls on it.
use proxy_manager.Prelude.{
  ℕ, ◌≤◌, ◌≡◌, ◌∙◌, sym, ap, subst, refl, Bool, true, false, not, ◌||◌, List, [], ◌∷◌, ◌++◌,
  append_assoc, append-nil, Option, none, some, Bytes, codes, Bool-cases, inl, inr, arith, length,
  ltb, if◌then◌else◌,
}
use proxy_manager.Prelude.Strings.{Header, header_set}
use proxy_manager.Proxy.Cache.{CacheEntry, cache_max_body}
use proxy_manager.Proxy.Recorder.{
  Writer, new_writer, CacheMode, mode_text, CacheRecorder, new_recorder, write_header, write,
  is_short, entry,
}
use proxy_manager.Proxy.Recorder.Keeping.{
  IsKeptFrom, IsKeeping, new_recorder-IsKeeping, write_header-sent, write_header-wrote,
  write_header-early, write_header-statuses, write_header-IsKeeping, write-sent, write-wrote,
  write-statuses, write-IsKeeping,
}

-- What the reverse proxy does to the recorder: a status, some bytes, or a change of the headers.
pub data Call : Type 0 where
  status_call : ℕ → Call
  bytes_call : Bytes → Call
  header_call : (Header → Header) → Call

abbrev pub call : Call → CacheRecorder × Writer → CacheRecorder × Writer
call (status_call code) (w, out) = write_header code w out
call (bytes_call p) (w, out) = write p w out
call (header_call f) (w, out) = (w, record out { head = f out.head })

abbrev pub calls : List Call → CacheRecorder × Writer → CacheRecorder × Writer
calls [] s = s
calls (x ∷ xs) s = calls xs (call x s)

abbrev pub bytes_of : List Call → Bytes
bytes_of [] = []
bytes_of (status_call code ∷ xs) = bytes_of xs
bytes_of (bytes_call p ∷ xs) = p ++ bytes_of xs
bytes_of (header_call f ∷ xs) = bytes_of xs

-- Nothing that passes the recorder is lost on its way to the client.
calls-sent :
    (xs : List Call) (w : CacheRecorder) (out : Writer)
    → (calls xs (w, out)).1.sent ≡ out.sent ++ bytes_of xs
calls-sent [] w out = sym (append-nil out.sent)
calls-sent (status_call code ∷ xs) w out =
    let (w', out') = write_header code w out in
    calls-sent xs w' out' ∙ ap (λ s. s ++ bytes_of xs) (write_header-sent code w out)
calls-sent (bytes_call p ∷ xs) w out =
    let (w', out') = write p w out in
    calls-sent xs w' out'
    ∙ ap (λ s. s ++ bytes_of xs) (write-sent p w out)
    ∙ append_assoc out.sent p (bytes_of xs)
calls-sent (header_call f ∷ xs) w out = calls-sent xs w (record out { head = f out.head })

-- The status of the response and its headers at that time, with the X-Cache of the recorder.
abbrev pub final_head : CacheMode → Header → List Call → Option (ℕ × Header)
final_head m h [] = none
final_head m h (status_call code ∷ xs) =
    let later = final_head m h xs in
    if ltb code 200 then later else some (code, header_set (codes "X-Cache") (mode_text m) h)
final_head m h (bytes_call p ∷ xs) = some (200, header_set (codes "X-Cache") (mode_text m) h)
final_head m h (header_call f ∷ xs) = final_head m (f h) xs

-- The codes of the calls, and a 200 for bytes that come before the final one.
abbrev pub statuses_of : Bool → List Call → List ℕ
statuses_of wrote [] = []
statuses_of wrote (status_call code ∷ xs) = code ∷ statuses_of (wrote || not (ltb code 200)) xs
statuses_of wrote (bytes_call p ∷ xs) =
    let rest = statuses_of true xs in if wrote then rest else 200 ∷ rest
statuses_of wrote (header_call f ∷ xs) = statuses_of wrote xs

write_header-wrote_iff :
    (code : ℕ) (w : CacheRecorder) (out : Writer)
    → (write_header code w out).0.wrote_header ≡ (w.wrote_header || not (ltb code 200))
write_header-wrote_iff code w out = elim (Bool-cases (ltb code 200)) [
  | inl early ↦ rw (write_header-early code w out early, early) (ground arith)
  | inr final ↦ rw (write_header-wrote code w out final, final) (ground arith)
]

calls-statuses :
    (xs : List Call) (w : CacheRecorder) (out : Writer)
    → (calls xs (w, out)).1.statuses ≡ out.statuses ++ statuses_of w.wrote_header xs
calls-statuses [] w out = sym (append-nil out.statuses)
calls-statuses (status_call code ∷ xs) w out =
    let (w', out') = write_header code w out in
    calls-statuses xs w' out'
    ∙ ap (λ s. s ++ statuses_of w'.wrote_header xs) (write_header-statuses code w out)
    ∙ append_assoc out.statuses (code ∷ []) (statuses_of w'.wrote_header xs)
    ∙ ap (λ b. out.statuses ++ code ∷ statuses_of b xs) (write_header-wrote_iff code w out)
calls-statuses (bytes_call p ∷ xs) w out =
    let after = write p w out in
    calls-statuses xs after.0 after.1
    ∙ ap (λ b. after.1.statuses ++ statuses_of b xs) (write-wrote p w out)
    ∙ elim (Bool-cases w.wrote_header) [
      | inl wrote ↦ rw (write-statuses p w out, wrote) refl
      | inr unwritten ↦
          rw (write-statuses p w out, unwritten)
            (append_assoc out.statuses (200 ∷ []) (statuses_of true xs))
    ]
calls-statuses (header_call f ∷ xs) w out = calls-statuses xs w (record out { head = f out.head })

module _ (m : CacheMode) (final : Option (ℕ × Header)) where
  -- The headers of the response, where it is a 200.
  abbrev IsHead : Header → Type 0
  IsHead h = final ≡ some (200, h)

  -- What comes of the calls that are left decides while nothing is written.
  abbrev IsOpen : List Call → CacheRecorder → Writer → Type 0
  IsOpen xs w out = w.wrote_header ≡ false → (w.mode ≡ m) × (final ≡ final_head m out.head xs)

  call-IsKeeping :
      (x : Call) (xs : List Call) (w : CacheRecorder) (out : Writer)
      → IsOpen (x ∷ xs) w out
      → IsKeeping IsHead w out.sent
      → IsKeeping IsHead (call x (w, out)).0 (call x (w, out)).1.sent
  call-IsKeeping (status_call code) xs w out o k = rw (write_header-sent code w out) (
      write_header-IsKeeping IsHead code w out
        (λ unwritten late ok. let (same, left) = o unwritten in rw same (left ∙ of_final late ok))
        k)
    where
      of_final :
          ltb code 200 ≡ false
          → code ≡ 200
          → final_head m out.head (status_call code ∷ xs)
            ≡ some (200, header_set (codes "X-Cache") (mode_text m) out.head)
      of_final late ok = rw (late, ok) refl
  call-IsKeeping (bytes_call p) xs w out o k = rw (write-sent p w out) (
      write-IsKeeping IsHead p w out (λ unwritten. let (same, left) = o unwritten in rw same left)
        k)
  call-IsKeeping (header_call f) xs w out o k = k

  call-IsOpen :
      (x : Call) (xs : List Call) (w : CacheRecorder) (out : Writer)
      → IsOpen (x ∷ xs) w out
      → IsOpen xs (call x (w, out)).0 (call x (w, out)).1
  call-IsOpen (status_call code) xs w out o = elim (Bool-cases (ltb code 200)) [
    | inl early ↦
        rw (write_header-early code w out early)
          (λ unwritten. let (same, left) = o unwritten in (same, left ∙ skip early))
    | inr late ↦ λ unwritten. absurd (let wrote = write_header-wrote code w out late in cc)
  ]
    where
      skip :
          ltb code 200 ≡ true
          → final_head m out.head (status_call code ∷ xs) ≡ final_head m out.head xs
      skip early = rw early refl
  call-IsOpen (bytes_call p) xs w out o =
      λ unwritten. absurd (let wrote = write-wrote p w out in cc)
  call-IsOpen (header_call f) xs w out o = o

  calls-IsKeeping :
      (xs : List Call) (w : CacheRecorder) (out : Writer)
      → IsOpen xs w out
      → IsKeeping IsHead w out.sent
      → IsKeeping IsHead (calls xs (w, out)).0 (calls xs (w, out)).1.sent
  calls-IsKeeping [] w out o k = k
  calls-IsKeeping (x ∷ xs) w out o k =
      let (w', out') = call x (w, out) in
      calls-IsKeeping xs w' out' (call-IsOpen x xs w out o) (call-IsKeeping x xs w out o k)

-- A stored response against the calls that it was recorded from, the headers that the response had
-- at the first of them, and the recorder's mode.
pub record IsWhole (m : CacheMode) (head : Header) (xs : List Call) (e : CacheEntry) : Type 0 where
  pub body_whole : e.body ≡ bytes_of xs
  pub body_small : length e.body ≤ cache_max_body
  pub from :
      (h : Header) × (n : Option ℕ) × (final_head m head xs ≡ some (200, h))
      × IsKeptFrom e.status e.header n h
      × (is_short (length e.body) n ≡ false)

pub entry-some :
    (at : ℕ) (w : CacheRecorder) (e : CacheEntry)
    → entry at w ≡ some e
    → (w.storable ≡ true)
      × (w.overflow ≡ false)
      × (is_short (length w.buf) w.declared_len ≡ false)
      × (record { status = w.status; header = w.header; body = w.buf; stored_at = at } ≡ e)
unfolding entry
entry-some at w e h = ground (arith, h)

of_entry :
    (m : CacheMode) (head : Header) (xs : List Call) (w : CacheRecorder) (sent : Bytes) (at : ℕ)
    (e : CacheEntry)
    → IsKeeping (IsHead m (final_head m head xs)) w sent
    → sent ≡ bytes_of xs
    → entry at w ≡ some e
    → IsWhole m head xs e
of_entry m head xs w sent at e k same h =
    let (storable, room, long, stored) = entry-some at w e h in
    let (whole, small) = k.whole storable room in
    let (h', is_head, kept) = k.response storable in
    subst (IsWhole m head xs) stored (record {
      body_whole = whole ∙ same;
      body_small = small;
      from = (h', w.declared_len, is_head, kept, long);
    })

-- The bytes and the status codes pass to the client unchanged, with a 200 before bytes that have no
-- final code before them. What the cache stores is a response with the final code 200, whose
-- headers, as they stood when that code was written and with X-Cache set, allow to share it; it has
-- those of these headers that may be stored, and all the bytes, at most 1 MiB of them and as many
-- as the headers declared.
pub recorder-IsWhole :
    (m : CacheMode) (recording : Bool) (head : Header) (xs : List Call) (at : ℕ)
    → (e : CacheEntry)
    → ((calls xs (new_recorder m recording, new_writer head)).1.sent ≡ bytes_of xs)
      × ((calls xs (new_recorder m recording, new_writer head)).1.statuses ≡ statuses_of false xs)
      × (entry at (calls xs (new_recorder m recording, new_writer head)).0 ≡ some e
          → IsWhole m head xs e)
unfolding entry new_recorder
recorder-IsWhole m recording head xs at e =
    let out = new_writer head in
    let w = new_recorder m recording in
    let sent = calls-sent xs w out in
    let k =
      calls-IsKeeping m (final_head m head xs) xs w out (λ _. (refl, refl))
        (new_recorder-IsKeeping (IsHead m (final_head m head xs)) m recording) in
    (sent, calls-statuses xs w out, λ h. of_entry m head xs (calls xs (w, out)).0 _ at e k sent h)
