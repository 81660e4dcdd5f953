-- ===== src/Prelude/Strings.antt =====
-- The functions of Go's strings and net/http that headers are read with, on ASCII.
use Prim.Native.Nat.{ℕ, zero, ◌^◌, ◌+◌, ◌*◌, ◌-◌}
use mathlib.Core.Bool.{Bool, true, false, ◌&&◌, ◌||◌}
use mathlib.Core.List.{List, [], ◌∷◌}
use mathlib.Core.Option.{Option, none, some}
use proxy_manager.Prelude.Tests.{nat_eq, ◌==◌, ltb, leb, if◌then◌else◌}
use proxy_manager.Prelude.Lists.{all, contains}
use proxy_manager.Prelude.Text.{Bytes, bytes_eq}
use proxy_manager.Prelude.Assoc.{lookup, insert, delete}

abbrev pub cons_head : ℕ → List Bytes → List Bytes
cons_head c [] = (c ∷ []) ∷ []
cons_head c (s ∷ rest) = (c ∷ s) ∷ rest

-- strings.Split at a separator of one byte: never empty.
abbrev pub split_on : ℕ → Bytes → List Bytes
split_on sep [] = [] ∷ []
split_on sep (c ∷ s) = let rest = split_on sep s in if c == sep then [] ∷ rest else cons_head c rest

-- The part of strings.Cut before a separator of one byte.
abbrev pub before_cut : ℕ → Bytes → Bytes
before_cut sep [] = []
before_cut sep (c ∷ s) = if c == sep then [] else c ∷ before_cut sep s

abbrev pub is_space : ℕ → Bool
is_space c = c == 32 || (leb 9 c && leb c 13)

abbrev trim_left : Bytes → Bytes
trim_left [] = []
trim_left (c ∷ s) = if is_space c then trim_left s else c ∷ s

abbrev cons_kept : ℕ → Bytes → Bytes
cons_kept c [] = if is_space c then [] else c ∷ []
cons_kept c (d ∷ s) = c ∷ d ∷ s

abbrev trim_right : Bytes → Bytes
trim_right [] = []
trim_right (c ∷ s) = cons_kept c (trim_right s)

-- strings.TrimSpace
abbrev pub trim_space : Bytes → Bytes
trim_space s = trim_right (trim_left s)

abbrev digits_from : ℕ → Bytes → Option ℕ
digits_from acc [] = some acc
digits_from acc (c ∷ s) =
    let rest = digits_from (acc * 10 + (c - b'0')) s in
    if leb b'0' c && leb c b'9' then rest else none

-- Digits, one at least.
abbrev pub parse_digits : Bytes → Option ℕ
parse_digits [] = none
parse_digits (c ∷ s) = digits_from 0 (c ∷ s)

-- http.Header: canonical names, each with its values.
abbrev pub Header : Type 0
Header = List (Bytes × List Bytes)

abbrev or_empty : Option (List Bytes) → List Bytes
or_empty none = []
or_empty (some vs) = vs

abbrev pub header_values : Bytes → Header → List Bytes
header_values k h = or_empty (lookup k h)

abbrev first_or_empty : List Bytes → Bytes
first_or_empty [] = []
first_or_empty (v ∷ vs) = v

abbrev pub header_get : Bytes → Header → Bytes
header_get k h = first_or_empty (header_values k h)

abbrev pub header_set : Bytes → Bytes → Header → Header
header_set k v h = insert k (v ∷ []) h

-- The bytes that a header's name may have, letters and digits aside.
abbrev token_marks : Bytes
token_marks = 33 ∷ 35 ∷ 36 ∷ 37 ∷ 38 ∷ 39 ∷ 42 ∷ 43 ∷ 45 ∷ 46 ∷ 94 ∷ 95 ∷ 96 ∷ 124 ∷ 126 ∷ []

abbrev is_upper : ℕ → Bool
is_upper c = leb b'A' c && leb c b'Z'

abbrev is_lower : ℕ → Bool
is_lower c = leb b'a' c && leb c b'z'

abbrev is_token : ℕ → Bool
is_token c = is_upper c || is_lower c || (leb b'0' c && leb c b'9') || contains token_marks c

abbrev canonical_from : Bool → Bytes → Bytes
canonical_from raise [] = []
canonical_from true (c ∷ s) = (if is_lower c then c - 32 else c) ∷ canonical_from (c == b'-') s
canonical_from false (c ∷ s) = (if is_upper c then c + 32 else c) ∷ canonical_from (c == b'-') s

-- http.CanonicalHeaderKey: a name that is no token stays as it is.
abbrev pub canonical_key : Bytes → Bytes
canonical_key k = if all is_token k then canonical_from true k else k

abbrev pub header_del : Bytes → Header → Header
header_del k h = delete (canonical_key k) h

-- The order of Go's strings.
abbrev bytes_leb : Bytes → Bytes → Bool
bytes_leb [] t = true
bytes_leb (c ∷ s) [] = false
bytes_leb (c ∷ s) (d ∷ t) = ltb c d || (c == d && bytes_leb s t)

abbrev insert_sorted : Bytes → List Bytes → List Bytes
insert_sorted s [] = s ∷ []
insert_sorted s (t ∷ ts) = if bytes_leb s t then s ∷ t ∷ ts else t ∷ insert_sorted s ts

-- sort.Strings
abbrev pub sort_strings : List Bytes → List Bytes
sort_strings [] = []
sort_strings (s ∷ ss) = insert_sorted s (sort_strings ss)

abbrev int64_text : Option ℕ → Option ℕ
int64_text none = none
int64_text (some n) = if ltb n (2 ^ 63) then some n else none

abbrev negated_text : Option ℕ → Option ℕ
negated_text (some zero) = some 0
negated_text _ = none

abbrev is_sign : ℕ → Bytes → Bool
is_sign c [] = false
is_sign c (d ∷ s) = d == c

abbrev after_sign : Bytes → Bytes
after_sign [] = []
after_sign (c ∷ s) = s

-- strconv.ParseInt in base 10, and Atoi: `none` for an error, and for a number below 0.
abbrev pub parse_int64 : Bytes → Option ℕ
parse_int64 s =
    if is_sign b'-' s
    then negated_text (parse_digits (after_sign s))
    else int64_text (parse_digits (if is_sign b'+' s then after_sign s else s))

-- Split at commas, trimmed, without the empty pieces.
abbrev keep_nonempty : List Bytes → List Bytes
keep_nonempty [] = []
keep_nonempty (tok ∷ toks) =
    let rest = keep_nonempty toks in elim (trim_space tok) [ [] ↦ rest | c ∷ s ↦ (c ∷ s) ∷ rest ]

abbrev pub split_list : Bytes → List Bytes
split_list s = keep_nonempty (split_on b',' s)
