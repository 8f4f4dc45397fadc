-- ===== src/Embargo.antt =====
-- security/embargo.py: the embargo clock. A `datetime` is its instant in UTC and whether it carries
-- a time zone; `datetime.fromisoformat` is an argument, and so is the current time.
pub mod Release
use Prim.Native.Char.{code}
use Prim.Native.String.{◌++◌ as str_append}
use fragchain_core.Prelude.{
  ℕ, String, Bool, true, false, Option, none, some, ltb, ◌==◌, ◌>>=◌, if◌then◌else◌,
}
use fragchain_core.Tlp.{Level, Level-discrete, clear, red, Value, level, parse}

pub record Datetime : Type 0 where
  pub instant : ℕ
  pub aware : Bool

-- datetime | str | None
pub data Timestamp : Type 0 where
  never : Timestamp
  at : Datetime → Timestamp
  iso : String → Timestamp

-- value.replace("Z", "+00:00")
unfoldable pub replace_z : String → String
replace_z String.[] = ""
replace_z (String.◌∷◌ c s) =
    let rest = replace_z s in if code c == b'Z' then str_append "+00:00" rest else String.◌∷◌ c rest

-- value.replace(tzinfo=timezone.utc), for a value with no zone
abbrev pub in_utc : Datetime → Datetime
in_utc d = if d.aware then d else record d { aware = true }

unfoldable pub coerce_dt : (String → Option Datetime) → Timestamp → Option Datetime
unfolding replace_z
coerce_dt fromisoformat never = none
coerce_dt fromisoformat (at d) = some (in_utc d)
coerce_dt fromisoformat (iso s) = fromisoformat (replace_z s) >>= λ d. some (in_utc d)

unfoldable pub effective_tlp : (String → Option Datetime) → ℕ → Value → Timestamp → Option Level
unfolding coerce_dt
effective_tlp fromisoformat now declared_tlp embargo_until = parse declared_tlp >>= λ parsed.
    elim (coerce_dt fromisoformat embargo_until) [
      | none ↦ some parsed
      | some dt ↦ if ltb now dt.instant then some red else some parsed
    ]

abbrev pub is_red : Level → Bool
is_red red = true
is_red _ = false

unfoldable pub is_embargoed : (String → Option Datetime) → ℕ → Timestamp → Bool
unfolding coerce_dt effective_tlp parse
is_embargoed fromisoformat now embargo_until = elim (coerce_dt fromisoformat embargo_until) [
  | none ↦ false
  | some dt ↦ elim (effective_tlp fromisoformat now (level clear) (at dt)) [
    | none ↦ false
    | some t ↦ is_red t
  ]
]
