-- ===== src/Dashboard/Claims/Lock.antt =====
-- cmd/dashboard/rollingop.go: `serviceClaims` beside a table of locks, one for each service.
use proxy_manager.Prelude.{
  ◌≡◌, ◌≢◌, refl, sym, ◌∙◌, Bool, true, false, not, List, [], ◌∷◌, Option, none, some, Bytes,
  bytes_eq, ◌==◌, ◌||◌, if◌then◌else◌, Bool-cases, inl, inr, arith,
}
use proxy_manager.Prelude.Assoc.{lookup, lookup-insert, lookup-delete}
use proxy_manager.Dashboard.Claims.{
  ServiceClaims, owners, or_nobody, taken_by_other, with_claim, holder, try_claim, dropped,
  release_claim, handed, transfer,
}

-- The abstract view: who holds each service, the empty name for nobody.
abbrev pub Table : Type 0
Table = Bytes → Bytes

abbrev pub set_holder : Table → Bytes → Bytes → Table
set_holder t svc o j = if svc == j then o else t j

-- The calls, by owners that have a name.
pub data ClaimOp : Type 0 where
  claim_op release_op : Bytes → (o : Bytes) → o ≢ [] → ClaimOp
  transfer_op : Bytes → (from to : Bytes) → from ≢ [] → to ≢ [] → ClaimOp

-- What a table of locks does on a call: a free service, or one that is held by the caller, is
-- with_claim; only the holder can release it or hand it on.
abbrev pub lock_step : ClaimOp → Table → Bool × Table
lock_step (claim_op svc o named) t =
    if t svc == [] || t svc == o then (true, set_holder t svc o) else (false, t)
lock_step (release_op svc o named) t = if t svc == o then (true, set_holder t svc []) else (true, t)
lock_step (transfer_op svc from to a b) t =
    if t svc == from then (true, set_holder t svc to) else (false, t)

abbrev pub lock_run : List ClaimOp → Table → List Bool × Table
lock_run [] t = ([], t)
lock_run (op ∷ ops) t =
    let (b, t') = lock_step op t in let (bs, t'') = lock_run ops t' in (b ∷ bs, t'')

-- The same calls on the code's map; a release answers nothing, which counts as true.
abbrev pub claims_step : ClaimOp → ServiceClaims → Option (Bool × ServiceClaims)
claims_step (claim_op svc o named) c = some (try_claim c svc o)
claims_step (release_op svc o named) c = some (true, release_claim c svc o)
claims_step (transfer_op svc from to a b) c = transfer c svc from to

-- The map stands for the table, and keeps no empty name.
pub record Represents (c : ServiceClaims) (t : Table) : Type 0 where
  pub same : (j : Bytes) → holder c j ≡ t j
  pub named : (j o : Bytes) → lookup j (owners c.owner) ≡ some o → o ≢ []

with_claim-Represents :
    (c : ServiceClaims) (t : Table) (svc o : Bytes)
    → o ≢ []
    → Represents c t
    → Represents (with_claim svc o c) (set_holder t svc o)
unfolding holder
with_claim-Represents c t svc o n r = record {
  same = λ j. elim (Bool-cases (svc == j)) [
    | inl hit ↦ rw (lookup-insert svc j o (owners c.owner), hit) refl
    | inr miss ↦ rw (lookup-insert svc j o (owners c.owner), miss) (r.same j)
  ];
  named = λ j x h. elim (Bool-cases (svc == j)) [
    | inl hit ↦
        let written = lookup-insert svc j o (owners c.owner) in
        let value : o ≡ x = ground (arith, h, hit, written) in rw (← value) n
    | inr miss ↦
        let kept = lookup-insert svc j o (owners c.owner) in
        r.named j x (ground (arith, h, miss, kept))
  ];
}

dropped-Represents :
    (m : Option (List (Bytes × Bytes))) (t : Table) (svc : Bytes)
    → Represents (record { owner = m }) t
    → Represents (dropped svc m) (set_holder t svc [])
unfolding holder
dropped-Represents none t svc r = record {
  same =
      λ j. elim (Bool-cases (svc == j)) [ inl hit ↦ rw hit refl | inr miss ↦ rw miss (r.same j) ];
  named = r.named;
}
dropped-Represents (some m) t svc r = record {
  same = λ j. elim (Bool-cases (svc == j)) [
    | inl hit ↦ rw (lookup-delete svc j m, hit) refl
    | inr miss ↦ rw (lookup-delete svc j m, miss) (r.same j)
  ];
  named = λ j x h. elim (Bool-cases (svc == j)) [
    | inl hit ↦ let gone = lookup-delete svc j m in absurd (ground (arith, h, hit, gone))
    | inr miss ↦ let kept = lookup-delete svc j m in r.named j x (ground (arith, h, miss, kept))
  ];
}

-- A call that went through, with the answer and the table of the abstract one.
pub record Agrees (r : Option (Bool × ServiceClaims)) (s : Bool × Table) : Type 0 where
  pub next : ServiceClaims
  pub ran : r ≡ some (s.0, next)
  pub still : Represents next s.1

pub not_empty : (cur : Bytes) → cur ≢ [] → (cur == []) ≡ false
not_empty [] n = absurd (n refl)
not_empty (c ∷ cur) n = refl

claim-Agrees :
    (c : ServiceClaims) (t : Table) (svc o : Bytes) (x : Option Bytes)
    → o ≢ []
    → Represents c t
    → ((cur : Bytes) → x ≡ some cur → cur ≢ [])
    → Agrees
        (some (if taken_by_other x o then (false, c) else (true, with_claim svc o c)))
        (if or_nobody x == [] || or_nobody x == o then (true, set_holder t svc o) else (false, t))
claim-Agrees c t svc o none n r named = record {
  next = with_claim svc o c;
  ran = refl;
  still = with_claim-Represents c t svc o n r;
}
claim-Agrees c t svc o (some cur) n r named = elim (Bool-cases (cur == o)) [
  | inl mine ↦
      rw (not_empty cur (named cur refl), mine)
        (record {
          next = with_claim svc o c;
          ran = refl;
          still = with_claim-Represents c t svc o n r;
        })
  | inr other ↦
      rw (not_empty cur (named cur refl), other) (record { next = c; ran = refl; still = r })
]

release-Agrees :
    (c : ServiceClaims) (t : Table) (svc : Bytes) (b : Bool)
    → Represents c t
    → Agrees
        (some (true, if b then dropped svc c.owner else c))
        (if b then (true, set_holder t svc []) else (true, t))
release-Agrees c t svc true r = record {
  next = dropped svc c.owner;
  ran = refl;
  still = dropped-Represents c.owner t svc r;
}
release-Agrees c t svc false r = record { next = c; ran = refl; still = r }

handed-Agrees :
    (m : Option (List (Bytes × Bytes))) (t : Table) (svc to : Bytes)
    → to ≢ []
    → holder (record { owner = m }) svc ≢ []
    → Represents (record { owner = m }) t
    → Agrees (handed svc to m) (true, set_holder t svc to)
unfolding holder
handed-Agrees none t svc to n held r = absurd (held refl)
handed-Agrees (some m) t svc to n held r = record {
  next = with_claim svc to (record { owner = some m });
  ran = refl;
  still = with_claim-Represents (record { owner = some m }) t svc to n r;
}

transfer-Agrees :
    (c : ServiceClaims) (t : Table) (svc from to : Bytes) (b : Bool)
    → (b ≡ true → holder c svc ≢ [])
    → to ≢ []
    → Represents c t
    → Agrees
        (if not b then some (false, c) else handed svc to c.owner)
        (if b then (true, set_holder t svc to) else (false, t))
transfer-Agrees c t svc from to true held n r = handed-Agrees c.owner t svc to n (held refl) r
transfer-Agrees c t svc from to false held n r = record { next = c; ran = refl; still = r }

pub claims_step-Agrees :
    (op : ClaimOp) (c : ServiceClaims) (t : Table)
    → Represents c t
    → Agrees (claims_step op c) (lock_step op t)
unfolding try_claim release_claim transfer holder
claims_step-Agrees (claim_op svc o n) c t r =
    rw (← r.same svc) (claim-Agrees c t svc o (lookup svc (owners c.owner)) n r (r.named svc))
claims_step-Agrees (release_op svc o n) c t r =
    rw (← r.same svc) (release-Agrees c t svc (holder c svc == o) r)
claims_step-Agrees (transfer_op svc from to a b) c t r = rw (← r.same svc) (
    transfer-Agrees c t svc from to (holder c svc == from)
      (λ e empty. a (sym ((bytes_eq.eq_test_iff (holder c svc) from).0 e) ∙ empty)) b r)
