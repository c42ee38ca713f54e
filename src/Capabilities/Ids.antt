-- ===== src/Capabilities/Ids.antt =====
-- The ids of apps/web/lib/capability-registry.ts, as the pattern
-- `/^[a-z][a-z0-9]*(?:[._-][a-z0-9]+)+$/` describes them.
use Prim.Native.Char.{Char, code}
use circuit_agent.Prelude.{◌≤◌, ◌≡◌, ◌⊎◌, inl, inr, String, true, some, arith, Bool-cases}
use circuit_agent.Capabilities.{
  first, separated, later, is_lower, is_lower_or_digit, is_separator, scan_all, is_capability_id,
}

-- `[a-z]`, `[a-z0-9]` and `[._-]`, by the codes of the characters.
abbrev pub IsLower : Char → Type 0
IsLower c = (97 ≤ code c) × (code c ≤ 122)

abbrev pub IsLowerOrDigit : Char → Type 0
IsLowerOrDigit c = IsLower c ⊎ ((48 ≤ code c) × (code c ≤ 57))

abbrev pub IsSeparator : Char → Type 0
IsSeparator c = (code c ≡ 46) ⊎ (code c ≡ 95) ⊎ (code c ≡ 45)

-- `[a-z0-9]*(?:[._-][a-z0-9]+)*`.
pub data IsRest : String → Type 0 where
  rest_end : IsRest String.[]
  rest_more : {c : Char} {s : String} → IsLowerOrDigit c → IsRest s → IsRest (String.◌∷◌ c s)
  rest_group :
      {c d : Char} {s : String}
      → IsSeparator c
      → IsLowerOrDigit d
      → IsRest s
      → IsRest (String.◌∷◌ c (String.◌∷◌ d s))

-- `[a-z0-9]*(?:[._-][a-z0-9]+)+`.
pub data IsTail : String → Type 0 where
  tail_more : {c : Char} {s : String} → IsLowerOrDigit c → IsTail s → IsTail (String.◌∷◌ c s)
  tail_group :
      {c d : Char} {s : String}
      → IsSeparator c
      → IsLowerOrDigit d
      → IsRest s
      → IsTail (String.◌∷◌ c (String.◌∷◌ d s))

pub data IsCapabilityId : String → Type 0 where
  named : {c : Char} {s : String} → IsLower c → IsTail s → IsCapabilityId (String.◌∷◌ c s)

lower_or_digit : (c : Char) → is_lower_or_digit c ≡ true → IsLowerOrDigit c
lower_or_digit c h = ground (arith, h)

separator : (c : Char) → is_separator c ≡ true → IsSeparator c
separator c h = ground (arith, h)

-- After a separator there is a character of a word.
separated_lem :
    (d : Char) (s : String)
    → scan_all (some separated) (String.◌∷◌ d s) ≡ true
    → IsLowerOrDigit d × (scan_all (some later) s ≡ true)
unfolding scan_all
separated_lem d s h = elim (Bool-cases (is_lower_or_digit d)) [
  | inl t ↦ (lower_or_digit d t, rw (t, scan_all) at h)
  | inr f ↦ absurd (cc (rw (f, scan_all) at h))
]

later-IsRest : (s : String) → scan_all (some later) s ≡ true → IsRest s
unfolding scan_all
later-IsRest String.[] h = IsRest.rest_end
later-IsRest (String.◌∷◌ c String.[]) h = elim (Bool-cases (is_lower_or_digit c)) [
  | inl t ↦ IsRest.rest_more (lower_or_digit c t) IsRest.rest_end
  | inr f ↦ elim (Bool-cases (is_separator c)) [
    | inl sep ↦ absurd (cc (rw (f, sep, scan_all) at h))
    | inr other ↦ absurd (cc (rw (f, other, scan_all) at h))
  ]
]
later-IsRest (String.◌∷◌ c (String.◌∷◌ d s)) h = elim (Bool-cases (is_lower_or_digit c)) [
  | inl t ↦
      IsRest.rest_more (lower_or_digit c t) (later-IsRest (String.◌∷◌ d s) (rw (t, scan_all) at h))
  | inr f ↦ elim (Bool-cases (is_separator c)) [
    | inl sep ↦
        let (word, rest) = separated_lem d s (rw (f, sep, scan_all) at h) in
        IsRest.rest_group (separator c sep) word (later-IsRest s rest)
    | inr other ↦ absurd (cc (rw (f, other, scan_all) at h))
  ]
]

first-IsTail : (s : String) → scan_all (some first) s ≡ true → IsTail s
unfolding scan_all
first-IsTail String.[] h = absurd (cc h)
first-IsTail (String.◌∷◌ c String.[]) h = elim (Bool-cases (is_lower_or_digit c)) [
  | inl t ↦ absurd (cc (rw (t, scan_all) at h))
  | inr f ↦ elim (Bool-cases (is_separator c)) [
    | inl sep ↦ absurd (cc (rw (f, sep, scan_all) at h))
    | inr other ↦ absurd (cc (rw (f, other, scan_all) at h))
  ]
]
first-IsTail (String.◌∷◌ c (String.◌∷◌ d s)) h = elim (Bool-cases (is_lower_or_digit c)) [
  | inl t ↦
      IsTail.tail_more (lower_or_digit c t) (first-IsTail (String.◌∷◌ d s) (rw (t, scan_all) at h))
  | inr f ↦ elim (Bool-cases (is_separator c)) [
    | inl sep ↦
        let (word, rest) = separated_lem d s (rw (f, sep, scan_all) at h) in
        IsTail.tail_group (separator c sep) word (later-IsRest s rest)
    | inr other ↦ absurd (cc (rw (f, other, scan_all) at h))
  ]
]

pub is_capability_id_lem : (id : String) → is_capability_id id ≡ true → IsCapabilityId id
unfolding is_capability_id scan_all
is_capability_id_lem String.[] h = absurd (cc h)
is_capability_id_lem (String.◌∷◌ c s) h = elim (Bool-cases (is_lower c)) [
  | inl t ↦
      IsCapabilityId.named (ground (arith, t))
        (first-IsTail s (rw (t, is_capability_id, scan_all) at h))
  | inr f ↦ absurd (cc (rw (f, is_capability_id, scan_all) at h))
]
