-- ===== src/Admission/Limits.antt =====
-- The limits of an organization that src/control_plane/organization_limits.rs reads from the environment.
use text.Mathlib.Text.{◌==◌ as str_eq}
use Prim.Native.Char.{code}
use durable_actors.Prelude.{
  ℕ, ◌+◌, ◌-◌, ◌*◌, ◌<◌, ◌≡◌, inl, inr, String, Bool, true, false, ◌&&◌, Option, none, some, ltb,
  leb, ◌==◌, if◌then◌else◌, arith, Result, ok, err, out_of_fuel, ◌>>=◌, ◌>>◌, ensure, context, IfOk,
  IfOk-ok, IfOk-bind, Unit-IfOk, Bool-cases, Option-cases, Result-cases,
}
use durable_actors.Prelude.Words.{u32_mod, to_u32}
use durable_actors.Admission.{OrganizationLimits}

-- `str::parse::<bool>`
abbrev pub parse_bool : String → Option Bool
parse_bool s = if str_eq s "true" then some true else if str_eq s "false" then some false else none

abbrev pub digit : ℕ → Option ℕ
digit c = if leb 48 c && leb c 57 then some (c - 48) else none

-- The digits of a number, after a number. It is too large for u32 as soon as its front is.
abbrev pub parse_digits : String → ℕ → Option ℕ
parse_digits String.[] n = to_u32 n
parse_digits (String.◌∷◌ c s) n = elim (digit (code c)) [
  | none ↦ none
  | some d ↦ parse_digits s (n * 10 + d)
]

abbrev pub parse_unsigned : String → Option ℕ
parse_unsigned String.[] = none
parse_unsigned (String.◌∷◌ c s) = parse_digits (String.◌∷◌ c s) 0

-- `str::parse::<u32>`
abbrev pub parse_u32 : String → Option ℕ
parse_u32 String.[] = none
parse_u32 (String.◌∷◌ c s) =
    if code c == 43 then parse_unsigned s else parse_unsigned (String.◌∷◌ c s)

-- `OrganizationLimits::default`
abbrev pub default_limits : OrganizationLimits
default_limits = record { max_active_actors = 500; starts_per_second = 50; start_burst = 100 }

-- The value under a name, if there is one, which must parse.
abbrev pub parsed_or {ℓ} :
    {A : Type ℓ} → (String → Option A) → Option String → A → String → Result A
parsed_or parse none fallback e = ok fallback
parsed_or parse (some value) fallback e = context (parse value) e

unfoldable pub positive : (String → Option String) → String → ℕ → Result ℕ
positive get name fallback = do
  value ← parsed_or parse_u32 (get name) fallback "must be a positive integer"
  ensure (ltb 0 value) "must be a positive integer"
  ok value

abbrev pub read_limits : (String → Option String) → Result OrganizationLimits
read_limits get = do
  max_active_actors ←
      positive get "DURABLE_ACTORS_ORGANIZATION_MAX_ACTIVE_ACTORS" default_limits.max_active_actors
  starts_per_second ←
      positive get "DURABLE_ACTORS_ORGANIZATION_ACTOR_STARTS_PER_SECOND"
        default_limits.starts_per_second
  start_burst ←
      positive get "DURABLE_ACTORS_ORGANIZATION_ACTOR_START_BURST" default_limits.start_burst
  ok (record {
    max_active_actors = max_active_actors;
    starts_per_second = starts_per_second;
    start_burst = start_burst;
  })

abbrev pub when_enabled : Bool → Result OrganizationLimits → Result (Option OrganizationLimits)
when_enabled false limits = ok none
when_enabled true limits = do read ← limits; ok (some read)

-- `OrganizationLimits::from_lookup`
unfoldable pub from_lookup : (String → Option String) → Bool → Result (Option OrganizationLimits)
from_lookup get enabled = do
  is_enabled ←
      parsed_or parse_bool (get "DURABLE_ACTORS_ORGANIZATION_LIMITS_ENABLED") enabled
        "DURABLE_ACTORS_ORGANIZATION_LIMITS_ENABLED must be boolean"
  when_enabled is_enabled (read_limits get)

abbrev pub IsLimit : ℕ → Type 0
IsLimit n = (0 < n) × (n < u32_mod)

pub data AreLimits : Option OrganizationLimits → Type 0 where
  unlimited : AreLimits none
  limited :
      (limits : OrganizationLimits)
      → IsLimit limits.max_active_actors
      → IsLimit limits.starts_per_second
      → IsLimit limits.start_burst
      → AreLimits (some limits)

parse_digits-lt : (s : String) (n v : ℕ) → parse_digits s n ≡ some v → v < u32_mod
parse_digits-lt String.[] n v h = ground (arith, h)
parse_digits-lt (String.◌∷◌ c s) n v h = elim (Option-cases (digit (code c))) [
  | inl other ↦ absurd (ground (arith, other, h))
  | inr (d, is_digit) ↦ parse_digits-lt s (n * 10 + d) v (ground (arith, is_digit, h))
]

parse_unsigned-lt : (s : String) (v : ℕ) → parse_unsigned s ≡ some v → v < u32_mod
parse_unsigned-lt String.[] v h = absurd (ground (arith, h))
parse_unsigned-lt (String.◌∷◌ c s) v h = parse_digits-lt (String.◌∷◌ c s) 0 v h

parse_u32-lt : (s : String) (v : ℕ) → parse_u32 s ≡ some v → v < u32_mod
parse_u32-lt String.[] v h = absurd (ground (arith, h))
parse_u32-lt (String.◌∷◌ c s) v h = elim (Bool-cases (code c == 43)) [
  | inl plus ↦ parse_unsigned-lt s v (ground (arith, plus, h))
  | inr other ↦ parse_unsigned-lt (String.◌∷◌ c s) v (ground (arith, other, h))
]

parsed_or-lt :
    (found : Option String) (fallback : ℕ) (e : String)
    → fallback < u32_mod
    → IfOk (λ v. v < u32_mod) (parsed_or parse_u32 found fallback e)
parsed_or-lt none fallback e small = small
parsed_or-lt (some value) fallback e small = elim (Option-cases (parse_u32 value)) [
  | inl other ↦ rw (other, parsed_or) tt
  | inr (v, is_v) ↦ rw (is_v, parsed_or) (parse_u32-lt value v is_v)
]

positive-IsLimit :
    (get : String → Option String) (name : String) (fallback : ℕ)
    → fallback < u32_mod
    → IfOk IsLimit (positive get name fallback)
unfolding positive
positive-IsLimit get name fallback small =
    elim (Result-cases (parsed_or parse_u32 (get name) fallback "must be a positive integer")) [
      | inr (inl (e, failed)) ↦ rw failed tt
      | inr (inr stuck) ↦ rw stuck tt
      | inl (v, read) ↦
          let below =
            IfOk-ok (λ v. v < u32_mod)
              (parsed_or parse_u32 (get name) fallback "must be a positive integer")
              (parsed_or-lt (get name) fallback "must be a positive integer" small) read in
          elim (Bool-cases (ltb 0 v)) [
            | inl positive_v ↦ rw read (rw positive_v (ground (arith, positive_v), below))
            | inr zero_v ↦ rw read (rw zero_v tt)
          ]
    ]

read_limits-AreLimits :
    (get : String → Option String) → IfOk (λ limits. AreLimits (some limits)) (read_limits get)
read_limits-AreLimits get =
    IfOk-bind IsLimit _ (positive get "DURABLE_ACTORS_ORGANIZATION_MAX_ACTIVE_ACTORS" 500) _
      (positive-IsLimit get "DURABLE_ACTORS_ORGANIZATION_MAX_ACTIVE_ACTORS" 500 (omega arith))
      (λ actors is_actors.
        IfOk-bind IsLimit _ (positive get "DURABLE_ACTORS_ORGANIZATION_ACTOR_STARTS_PER_SECOND" 50)
          _
          (positive-IsLimit get "DURABLE_ACTORS_ORGANIZATION_ACTOR_STARTS_PER_SECOND" 50
            (omega arith))
          (λ starts is_starts.
            IfOk-bind IsLimit _ (positive get "DURABLE_ACTORS_ORGANIZATION_ACTOR_START_BURST" 100) _
              (positive-IsLimit get "DURABLE_ACTORS_ORGANIZATION_ACTOR_START_BURST" 100
                (omega arith))
              (λ burst is_burst.
                limited
                  (record {
                    max_active_actors = actors;
                    starts_per_second = starts;
                    start_burst = burst;
                  })
                  is_actors is_starts is_burst)))

when_enabled-AreLimits :
    (is_enabled : Bool) (limits : Result OrganizationLimits)
    → IfOk (λ read. AreLimits (some read)) limits
    → IfOk AreLimits (when_enabled is_enabled limits)
when_enabled-AreLimits false limits h = unlimited
when_enabled-AreLimits true out_of_fuel h = tt
when_enabled-AreLimits true (err e) h = tt
when_enabled-AreLimits true (ok limits) h = h

-- The limits that are read from an environment, whatever is in it, if they are read and there are any,
-- are positive and fit u32.
pub from_lookup-AreLimits :
    (get : String → Option String) (enabled : Bool) {limits : Option OrganizationLimits}
    → from_lookup get enabled ≡ ok limits
    → AreLimits limits
unfolding from_lookup
from_lookup-AreLimits get enabled h =
    let flag =
      parsed_or parse_bool (get "DURABLE_ACTORS_ORGANIZATION_LIMITS_ENABLED") enabled
        "DURABLE_ACTORS_ORGANIZATION_LIMITS_ENABLED must be boolean" in
    IfOk-ok AreLimits (from_lookup get enabled)
      (IfOk-bind (λ is_enabled. Unit {0}) AreLimits flag
        (λ is_enabled. when_enabled is_enabled (read_limits get)) (Unit-IfOk flag)
        (λ is_enabled u.
          when_enabled-AreLimits is_enabled (read_limits get) (read_limits-AreLimits get)))
      h
