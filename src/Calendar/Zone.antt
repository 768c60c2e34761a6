-- ===== src/Calendar/Zone.antt =====
-- A time zone: the offsets of the zone database, which the program reads through `zoneinfo` and
-- does not define. An offset is kept with 24 hours added, so that it is a natural number.
use evi.Common.{ℕ, ◌+◌, ◌-◌, ◌*◌, ◌/◌, ◌%◌, ◌≤◌, ◌<◌, ◌≡◌, Bool, arith}

-- 24 hours in microseconds
abbrev pub day_us : ℕ
day_us = 86400000000

pub record Zone : Type 0 where
  -- the offset in force at an instant, and whether the wall clock then shows its time again
  pub offset_at : ℕ → ℕ
  pub fold_at : ℕ → Bool
  -- the offset that a wall clock means: fold, ordinal of the date, time of day
  pub offset_of : Bool → ℕ → ℕ → ℕ

-- Offsets lie strictly between -24 and 24 hours, and those of one zone within 24 hours of one
-- another.
pub record IsZone (z : Zone) : Type 0 where
  pub least : ℕ
  pub least_le : least ≤ day_us
  pub at_ge : (t : ℕ) → least ≤ z.offset_at t
  pub at_le : (t : ℕ) → z.offset_at t ≤ least + day_us
  pub of_ge : (f : Bool) (d w : ℕ) → least ≤ z.offset_of f d w
  pub of_le : (f : Bool) (d w : ℕ) → z.offset_of f d w ≤ least + day_us

-- A wall clock: `datetime` with its fold.
pub record Local : Type 0 where
  pub ordinal : ℕ
  pub wall : ℕ
  pub fold : Bool

-- `t.astimezone(tz)`, for instants after the first day of the calendar
unfoldable pub to_local : Zone → ℕ → Local
to_local z t = record {
  ordinal = (t + z.offset_at t - day_us) / day_us;
  wall = (t + z.offset_at t - day_us) % day_us;
  fold = z.fold_at t;
}

-- The instant of a wall clock: `c.astimezone(timezone.utc)`.
unfoldable pub instant : Zone → Bool → ℕ → ℕ → ℕ
instant z fold d w = d * day_us + w + day_us - z.offset_of fold d w

module _ (z : Zone) (zone : IsZone z) where
  pub wall-lt : (t : ℕ) → (to_local z t).wall < day_us
  unfolding to_local
  wall-lt t = omega arith

  -- The wall clock that shows an instant is the instant moved by an offset.
  pub to_local_near :
      (t : ℕ)
      → day_us ≤ t
      → let l = to_local z t in l.ordinal * day_us + l.wall + day_us ≡ t + z.offset_at t
  unfolding to_local
  to_local_near t h = omega arith

  pub ordinal_pos : (t : ℕ) → 3 * day_us ≤ t → 2 ≤ (to_local z t).ordinal
  unfolding to_local
  ordinal_pos t h = omega arith

  -- A wall clock whose date is two days later or more shows a later instant, and one whose date is
  -- two days earlier or more an earlier one.
  pub instant_later :
      (t d w : ℕ) (f : Bool) → day_us ≤ t → (to_local z t).ordinal + 2 ≤ d → t < instant z f d w
  unfolding instant
  instant_later t d w f h later =
      omega (arith, to_local_near t h, wall-lt t, zone.at_ge t, zone.of_le f d w)

  pub instant_earlier :
      (t d w : ℕ) (f : Bool)
      → day_us ≤ t
      → w < day_us
      → d + 2 ≤ (to_local z t).ordinal
      → instant z f d w ≤ t
  unfolding instant
  instant_earlier t d w f h k early =
      omega (arith, to_local_near t h, zone.at_le t, zone.of_ge f d w)
