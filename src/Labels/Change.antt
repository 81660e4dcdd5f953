-- ===== src/Labels/Change.antt =====
-- internal/labels/labels.go: what a change that ValidateChange passes does to the labels.
use proxy_manager.Prelude.{
  ℕ, ◌≤◌, ◌≡◌, ◌⊎◌, ◌∙◌, ap, subst, refl, Bool, true, false, not, List, [], ◌∷◌, Option, some,
  Bytes, bytes_eq, nat_eq, ◌==◌, leb, leb→le, length, All, In, contains, contains_iff, Bool-cases,
  inl, inr, arith,
}
use proxy_manager.Prelude.Assoc.{lookup, insert, delete, lookup-insert, lookup-delete}
use proxy_manager.Prelude.Strings.{sort_strings, split_list, canonical_key}
use proxy_manager.Prelude.Results.{ok, require, >>=-eq-ok, require-ok}
use proxy_manager.Labels.{
  Labels, managed, key_error, validate_value, unset_each, set_each, keys_of, next_labels,
  kept_headers, check_kept, check_loosening, validate_change, is_some, or_blank, set_and_unset,
  too_many_keys, loosens,
}
use proxy_manager.Labels.Validators.{max_keys, drop_headers_key}

module _ (pd : Bytes → Option (Bool × ℕ)) where
  -- The keys that may not be set centrally are left alone, and every label that may be is valid.
  pub record IsAllowed (current next : Labels) : Type 0 where
    pub untouched : (k : Bytes) → managed pd k ≡ false → lookup k next ≡ lookup k current
    pub validated :
        (k v : Bytes)
        → lookup k next ≡ some v
        → (lookup k current ≡ some v) ⊎ (validate_value pd k v ≡ ok tt)

  IsAllowed-same : (m next : Labels) → m ≡ next → IsAllowed m next
  IsAllowed-same m next e =
      subst (IsAllowed m) e (record { untouched = λ k u. refl; validated = λ k v h. inl h })

  IsAllowed-trans : (a b c : Labels) → IsAllowed a b → IsAllowed b c → IsAllowed a c
  IsAllowed-trans a b c p q = record {
    untouched = λ k u. q.untouched k u ∙ p.untouched k u;
    validated = λ k v h. elim (q.validated k v h) [
      | inl older ↦ p.validated k v older
      | inr valid ↦ inr valid
    ];
  }

  differs : (j k : Bytes) → managed pd j ≡ true → managed pd k ≡ false → (j == k) ≡ false
  differs j k m u = elim (Bool-cases (j == k)) [
    | inl same ↦ absurd (let both = ap (managed pd) ((bytes_eq.eq_test_iff j k).0 same) in cc)
    | inr other ↦ other
  ]

  IsAllowed-delete : (k : Bytes) (m : Labels) → managed pd k ≡ true → IsAllowed m (delete k m)
  IsAllowed-delete k m manages = record {
    untouched = λ j u. rw (lookup-delete k j m, differs k j manages u) refl;
    validated = λ j v h. inl (elim (Bool-cases (k == j)) [
      | inl same ↦ absurd (let gone = lookup-delete k j m in ground (arith, gone, same, h))
      | inr other ↦ let kept = lookup-delete k j m in ground (arith, kept, other, h)
    ]);
  }

  validate_value-managed : (k v : Bytes) → validate_value pd k v ≡ ok tt → managed pd k ≡ true
  unfolding validate_value
  validate_value-managed k v h =
      let (u, first, _) = >>=-eq-ok (require (managed pd k) (key_error pd k)) _ h in
      require-ok (managed pd k) (key_error pd k) first

  IsAllowed-insert :
      (k v : Bytes) (m : Labels) → validate_value pd k v ≡ ok tt → IsAllowed m (insert k v m)
  IsAllowed-insert k v m valid = record {
    untouched =
        λ j u. rw (lookup-insert k j v m, differs k j (validate_value-managed k v valid) u) refl;
    validated = λ j w h. elim (Bool-cases (k == j)) [
      | inl same ↦
          let written = lookup-insert k j v m in
          let value : v ≡ w = ground (arith, written, same, h) in
          inr (
            subst (λ i. validate_value pd i w ≡ ok tt) ((bytes_eq.eq_test_iff k j).0 same)
              (subst (λ x. validate_value pd k x ≡ ok tt) value valid))
      | inr other ↦ let kept = lookup-insert k j v m in inl (ground (arith, kept, other, h))
    ];
  }

  unset_each-IsAllowed :
      (set : Labels) (ks : List Bytes) (m next : Labels)
      → unset_each pd set ks m ≡ ok next
      → IsAllowed m next
  unfolding unset_each
  unset_each-IsAllowed set [] m next h = IsAllowed-same m next (ground (arith, h))
  unset_each-IsAllowed set (k ∷ ks) m next h =
      let (_, _, h1) = >>=-eq-ok (require (not (is_some (lookup k set))) (set_and_unset k)) _ h in
      let (_, manages, h2) = >>=-eq-ok (require (managed pd k) (key_error pd k)) _ h1 in
      IsAllowed-trans m (delete k m) next
        (IsAllowed-delete k m (require-ok (managed pd k) (key_error pd k) manages))
        (unset_each-IsAllowed set ks (delete k m) next h2)

  set_each-IsAllowed :
      (set : Labels) (ks : List Bytes) (m next : Labels)
      → set_each pd set ks m ≡ ok next
      → IsAllowed m next
  unfolding set_each
  set_each-IsAllowed set [] m next h = IsAllowed-same m next (ground (arith, h))
  set_each-IsAllowed set (k ∷ ks) m next h =
      let v = or_blank (lookup k set) in
      let (u, valid, h1) = >>=-eq-ok (validate_value pd k v) _ h in
      IsAllowed-trans m (insert k v m) next (IsAllowed-insert k v m valid)
        (set_each-IsAllowed set ks (insert k v m) next h1)

  next_labels-IsAllowed :
      (current set : Labels) (unset : List Bytes) (next : Labels)
      → next_labels pd current set unset ≡ ok next
      → IsAllowed current next
  unfolding next_labels
  next_labels-IsAllowed current set unset next h =
      let (m, unset_ok, h1) = >>=-eq-ok (unset_each pd set unset current) _ h in
      IsAllowed-trans current m next (unset_each-IsAllowed set unset current m unset_ok)
        (set_each-IsAllowed set (sort_strings (keys_of set)) m next h1)

  check_kept-All :
      (kept hs : List Bytes) → check_kept kept hs ≡ ok tt → All (λ h. In (canonical_key h) kept) hs
  unfolding check_kept
  check_kept-All kept [] e = tt
  check_kept-All kept (h ∷ hs) e =
      let (_, first, rest) =
        >>=-eq-ok (require (contains kept (canonical_key h)) (loosens h)) _ e in
      ((contains_iff kept (canonical_key h)).0 (require-ok _ _ first), check_kept-All kept hs rest)

  -- A change that is accepted leaves every label alone that is not managed centrally, those of the
  -- auth gate and of the routing identity among them; every label it leaves is an old one or has
  -- passed its validation; there are at most 64; and each header that was stripped before is
  -- stripped after it, unless loosening was allowed.
  pub validate_change-safe :
      (current set : Labels) (unset : List Bytes) (allow_loosen : Bool)
      → validate_change pd current set unset allow_loosen ≡ ok tt
      → (next : Labels) × (next_labels pd current set unset ≡ ok next)
        × IsAllowed current next
        × (length next ≤ max_keys)
        × (allow_loosen ≡ false
            → All
                (λ h. In (canonical_key h) (kept_headers next))
                (split_list (or_blank (lookup drop_headers_key current))))
  unfolding validate_change check_loosening
  validate_change-safe current set unset allow_loosen h =
      let (next, made, h1) = >>=-eq-ok (next_labels pd current set unset) _ h in
      let (_, few, h2) =
        >>=-eq-ok (require (leb (length next) max_keys) (too_many_keys (length next))) _ h1 in
      (
        next,
        made,
        next_labels-IsAllowed current set unset next made,
        leb→le _ _ (require-ok _ _ few),
        λ tight.
            check_kept-All (kept_headers next) _
              (subst (λ b. check_loosening b current next ≡ ok tt) tight h2),
      )
