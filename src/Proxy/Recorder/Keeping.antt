-- ===== src/Proxy/Recorder/Keeping.antt =====
-- cmd/proxy/cache.go: what each call on a recorder does to what it keeps.
use proxy_manager.Prelude.{
  ℕ, ◌+◌, ◌≤◌, ◌≡◌, ◌∙◌, sym, ap, refl, Bool, true, false, ◌&&◌, ◌||◌, [], ◌∷◌, ◌++◌, Option, Bytes,
  nat_eq, codes, Bool-cases, inl, inr, arith, length, length-append, ltb, ◌==◌, ltb-false→le,
  or-false, if◌then◌else◌,
}
use proxy_manager.Prelude.Strings.{Header, header_get, header_set}
use proxy_manager.Proxy.Cache.{cache_max_body}
use proxy_manager.Proxy.Cacheable.{cache_response_storable, clone_storable_header}
use proxy_manager.Proxy.Recorder.{
  Writer, CacheMode, mode_text, CacheRecorder, new_recorder, declared_length, take_header,
  write_header, record_bytes, with_header, write,
}

-- Kept of a response with these headers.
pub record IsKeptFrom (status : ℕ) (header : Header) (declared_len : Option ℕ) (h : Header)
    : Type 0 where
  pub allowed : cache_response_storable h ≡ true
  pub ok : status ≡ 200
  pub copied : header ≡ clone_storable_header h
  pub declared : declared_len ≡ declared_length (header_get (codes "Content-Length") h)

pub write_header-sent :
    (code : ℕ) (w : CacheRecorder) (out : Writer) → (write_header code w out).1.sent ≡ out.sent
unfolding write_header
write_header-sent code w out = ground arith

take_header-wrote :
    (code : ℕ) (h : Header) (w : CacheRecorder)
    → (take_header code h w).wrote_header ≡ w.wrote_header
unfolding take_header
take_header-wrote code h w = elim (Bool-cases (code == 200 && cache_response_storable h)) [
  | inl kept ↦ rw kept refl
  | inr not_kept ↦ rw not_kept refl
]

pub write_header-wrote :
    (code : ℕ) (w : CacheRecorder) (out : Writer)
    → ltb code 200 ≡ false
    → (write_header code w out).0.wrote_header ≡ true
unfolding write_header
write_header-wrote code w out final = elim (Bool-cases w.wrote_header) [
  | inl wrote ↦ rw (final, wrote) refl
  | inr unwritten ↦
      rw (final, unwritten)
        (elim (Bool-cases w.recording) [
          | inl on ↦ rw on (take_header-wrote code _ _)
          | inr off ↦ rw off refl
        ])
]

fits : (m a b : ℕ) → ltb m (a + b) ≡ false → a + b ≤ m
fits m a b h = ltb-false→le m (a + b) h

with_header-sent :
    (b : Bool) (w : CacheRecorder) (out : Writer) → (with_header b w out).1.sent ≡ out.sent
unfolding with_header
with_header-sent true w out = refl
with_header-sent false w out = write_header-sent 200 w out

pub write-sent :
    (p : Bytes) (w : CacheRecorder) (out : Writer) → (write p w out).1.sent ≡ out.sent ++ p
unfolding write
write-sent p w out = ap (λ s. s ++ p) (with_header-sent w.wrote_header w out)

with_header-wrote :
    (b : Bool) (w : CacheRecorder) (out : Writer)
    → w.wrote_header ≡ b
    → (with_header b w out).0.wrote_header ≡ true
unfolding with_header
with_header-wrote true w out e = e
with_header-wrote false w out e = write_header-wrote 200 w out refl

record_bytes-wrote :
    (p : Bytes) (w : CacheRecorder) → (record_bytes p w).wrote_header ≡ w.wrote_header
unfolding record_bytes
record_bytes-wrote p w = ground arith

pub write-wrote :
    (p : Bytes) (w : CacheRecorder) (out : Writer) → (write p w out).0.wrote_header ≡ true
unfolding write
write-wrote p w out =
    record_bytes-wrote p (with_header w.wrote_header w out).0
    ∙ with_header-wrote w.wrote_header w out refl

-- An informational status changes nothing of the recorder.
pub write_header-early :
    (code : ℕ) (w : CacheRecorder) (out : Writer)
    → ltb code 200 ≡ true
    → write_header code w out ≡ (w, record out { statuses = out.statuses ++ code ∷ [] })
unfolding write_header
write_header-early code w out early = rw early refl

pub write_header-statuses :
    (code : ℕ) (w : CacheRecorder) (out : Writer)
    → (write_header code w out).1.statuses ≡ out.statuses ++ code ∷ []
unfolding write_header
write_header-statuses code w out = elim (Bool-cases (ltb code 200 || w.wrote_header)) [
  | inl passed ↦ rw passed refl
  | inr final ↦ rw final refl
]

with_header-statuses :
    (b : Bool) (w : CacheRecorder) (out : Writer)
    → (with_header b w out).1.statuses ≡ (if b then out.statuses else out.statuses ++ 200 ∷ [])
unfolding with_header
with_header-statuses true w out = refl
with_header-statuses false w out = write_header-statuses 200 w out

pub write-statuses :
    (p : Bytes) (w : CacheRecorder) (out : Writer)
    → (write p w out).1.statuses
      ≡ (if w.wrote_header then out.statuses else out.statuses ++ 200 ∷ [])
unfolding write
write-statuses p w out = with_header-statuses w.wrote_header w out

-- `T` says of headers that they are the response's.
module _ (T : Header → Type 0) where
  pub record IsKeeping (w : CacheRecorder) (sent : Bytes) : Type 0 where
    pub unwritten :
        w.wrote_header ≡ false
        → (w.storable ≡ false) × (sent ≡ []) × (w.buf ≡ []) × (w.overflow ≡ false)
    pub response :
        w.storable ≡ true → (h : Header) × T h × IsKeptFrom w.status w.header w.declared_len h
    pub whole :
        w.storable ≡ true → w.overflow ≡ false → (w.buf ≡ sent) × (length w.buf ≤ cache_max_body)

  pub new_recorder-IsKeeping : (m : CacheMode) (r : Bool) → IsKeeping (new_recorder m r) []
  unfolding new_recorder
  new_recorder-IsKeeping m r = record {
    unwritten = λ _. (refl, refl, refl, refl);
    response = λ e. absurd (cc);
    whole = λ e. absurd (cc);
  }

  take_header-IsKeeping :
      (code : ℕ) (h : Header) (w : CacheRecorder) (sent : Bytes)
      → w.wrote_header ≡ true
      → w.status ≡ code
      → sent ≡ []
      → w.buf ≡ []
      → (code ≡ 200 → T h)
      → IsKeeping (take_header code h w) sent
  unfolding take_header
  take_header-IsKeeping code h w sent wrote ok none_sent none_kept from =
      elim (Bool-cases (code == 200)) [
        | inr other ↦ rw other (record {
          unwritten = λ e. absurd (cc);
          response = λ e. absurd (cc);
          whole = λ e. absurd (cc);
        })
        | inl two_hundred ↦ elim (Bool-cases (cache_response_storable h)) [
          | inr barred ↦
              rw (two_hundred, barred)
                (record {
                  unwritten = λ e. absurd (cc);
                  response = λ e. absurd (cc);
                  whole = λ e. absurd (cc);
                })
          | inl allowed ↦
              rw (two_hundred, allowed)
                (record {
                  unwritten = λ e. absurd (cc);
                  response = λ e. (
                    h,
                    from ((nat_eq.eq_test_iff code 200).0 two_hundred),
                    record {
                      allowed = allowed;
                      ok = ok ∙ (nat_eq.eq_test_iff code 200).0 two_hundred;
                      copied = refl;
                      declared = refl;
                    },
                  );
                  whole = λ _ _. (none_kept ∙ sym none_sent, rw none_kept (omega arith));
                })
        ]
      ]

  pub write_header-IsKeeping :
      (code : ℕ) (w : CacheRecorder) (out : Writer)
      → (w.wrote_header ≡ false
          → ltb code 200 ≡ false
          → code ≡ 200
          → T (header_set (codes "X-Cache") (mode_text w.mode) out.head))
      → IsKeeping w out.sent
      → IsKeeping (write_header code w out).0 out.sent
  unfolding write_header
  write_header-IsKeeping code w out from k = elim (Bool-cases (ltb code 200 || w.wrote_header)) [
    | inl passed ↦ rw passed k
    | inr final ↦
        let unwritten : w.wrote_header ≡ false = (or-false (ltb code 200) w.wrote_header final).1 in
        let final_code : ltb code 200 ≡ false = (or-false (ltb code 200) w.wrote_header final).0 in
        let fresh : w.storable ≡ false = (k.unwritten unwritten).0 in
        let (_, none_sent, none_kept, _) = k.unwritten unwritten in
        rw final (elim (Bool-cases w.recording) [
          | inl on ↦ rw on (
              take_header-IsKeeping code _ _ out.sent refl refl none_sent none_kept
                (from unwritten final_code))
          | inr off ↦ rw off (record {
            unwritten = λ e. absurd (cc);
            response = λ e. absurd (cc);
            whole = λ e. absurd (cc);
          })
        ])
  ]

  record_bytes-IsKeeping :
      (p sent : Bytes) (w : CacheRecorder)
      → w.wrote_header ≡ true
      → IsKeeping w sent
      → IsKeeping (record_bytes p w) (sent ++ p)
  unfolding record_bytes
  record_bytes-IsKeeping p sent w wrote k = elim (Bool-cases w.storable) [
    | inr barred ↦ rw barred (record {
      unwritten = λ e. absurd (cc);
      response = λ e. absurd (cc);
      whole = λ e. absurd (cc);
    })
    | inl storable ↦ elim (Bool-cases w.overflow) [
      | inl full ↦
          rw (storable, full)
            (record {
              unwritten = λ e. absurd (cc);
              response = λ _. k.response storable;
              whole = λ _ e. absurd (cc);
            })
      | inr room ↦ elim (Bool-cases (ltb cache_max_body (length w.buf + length p))) [
        | inl over ↦
            rw (storable, room, over)
              (record {
                unwritten = λ e. absurd (cc);
                response = λ _. k.response storable;
                whole = λ _ e. absurd (cc);
              })
        | inr within ↦
            let (same, _) = k.whole storable room in
            rw (storable, room, within)
              (record {
                unwritten = λ e. absurd (cc);
                response = λ _. k.response storable;
                whole = λ _ _. (
                  ap (λ s. s ++ p) same,
                  rw (length-append w.buf p) (fits cache_max_body (length w.buf) (length p) within),
                );
              })
      ]
    ]
  ]

  with_header-IsKeeping :
      (b : Bool) (w : CacheRecorder) (out : Writer)
      → w.wrote_header ≡ b
      → (w.wrote_header ≡ false → T (header_set (codes "X-Cache") (mode_text w.mode) out.head))
      → IsKeeping w out.sent
      → ((with_header b w out).0.wrote_header ≡ true) × IsKeeping (with_header b w out).0 out.sent
  unfolding with_header
  with_header-IsKeeping true w out e from k = (e, k)
  with_header-IsKeeping false w out e from k =
      (write_header-wrote 200 w out refl, write_header-IsKeeping 200 w out (λ u _ _. from u) k)

  pub write-IsKeeping :
      (p : Bytes) (w : CacheRecorder) (out : Writer)
      → (w.wrote_header ≡ false → T (header_set (codes "X-Cache") (mode_text w.mode) out.head))
      → IsKeeping w out.sent
      → IsKeeping (write p w out).0 (out.sent ++ p)
  unfolding write
  write-IsKeeping p w out from k =
      let (wrote, keeping) = with_header-IsKeeping w.wrote_header w out refl from k in
      record_bytes-IsKeeping p out.sent (with_header w.wrote_header w out).0 wrote keeping
