-- ===== src/Core/Time.antt =====
-- src/core/RuntimeTime.cpp: time stamps in UTC as texts, and back. A `RuntimeTimePoint` counts
-- the nanoseconds from the first day of Calendar.antt; the 64 bits of the clock's own count, which
-- reach from the year 1677 to 2262, are not modelled.
use btrfs_backup.Common.{
  Bool, true, false, not, ◌&&◌, ◌||◌, ℕ, ◌+◌, ◌-◌, ◌*◌, ◌/◌, ◌%◌, eqb, leb, ltb, if◌then◌else◌, [],
  ◌∷◌, ◌++◌, Text, Option, none, some, take, drop, get_or, length, padded,
}
use btrfs_backup.Core.Calendar.{LocalDate, date_ok, days_from_civil, civil_from_days}

abbrev pub RuntimeTimePoint : Type 0
RuntimeTimePoint = ℕ

abbrev pub ticks_per_second : ℕ
ticks_per_second = 1000000000

-- A number of digits alone; the empty text is 0.
unfoldable pub decimal_from : ℕ → Text → Option ℕ
decimal_from result [] = some result
decimal_from result (c ∷ cs) =
    let rest = decimal_from (result * 10 + (c - b'0')) cs in
    if ltb c b'0' || ltb b'9' c then none else rest

unfoldable pub decimal : Text → Option ℕ
unfolding decimal_from
decimal value = decimal_from 0 value

unfoldable pub format_local_date : LocalDate → Text
format_local_date date =
    padded 4 date.year ++ b'-' ∷ (padded 2 date.month ++ b'-' ∷ padded 2 date.day)

unfoldable pub format_utc : RuntimeTimePoint → Bool → Text
unfolding format_local_date
format_utc time compact_clock =
    let seconds = time / ticks_per_second in
    let clock = seconds % 86400 in
    let colon = if compact_clock then [] else b':' ∷ [] in
    format_local_date (civil_from_days (seconds / 86400))
    ++ b'T'
      ∷ (padded 2 (clock / 3600)
          ++ (colon
              ++ (padded 2 (clock / 60 % 60) ++ (colon ++ (padded 2 (clock % 60) ++ b'Z' ∷ [])))))

unfoldable pub format_utc_snapshot_timestamp : RuntimeTimePoint → Text
unfolding format_utc
format_utc_snapshot_timestamp time = format_utc time true

unfoldable pub format_utc_iso_timestamp : RuntimeTimePoint → Text
unfolding format_utc
format_utc_iso_timestamp time = format_utc time false

abbrev pub char_at : Text → ℕ → ℕ
char_at s i = get_or s i 0

abbrev pub substr : Text → ℕ → ℕ → Text
substr s i n = take n (drop i s)

infixl 5 ◌>>=◌
abbrev ◌>>=◌ {ℓ κ} : {A : Type ℓ} {B : Type κ} → Option A → (A → Option B) → Option B
none >>= f = none
some a >>= f = f a

abbrev require : Bool → Option (Unit {0})
require true = some tt
require false = none

unfoldable pub parse_utc_timestamp : Text → Option RuntimeTimePoint
unfolding decimal
parse_utc_timestamp value = do
  let compact = eqb (length value) 18
  let iso = eqb (length value) 20
  _ ← require (
      (compact || iso)
      && eqb (char_at value 4) b'-'
      && eqb (char_at value 7) b'-'
      && eqb (char_at value 10) b'T'
      && eqb (char_at value (length value - 1)) b'Z')
  _ ← require (not iso || (eqb (char_at value 13) b':' && eqb (char_at value 16) b':'))
  year ← decimal (substr value 0 4)
  month ← decimal (substr value 5 2)
  day ← decimal (substr value 8 2)
  hour ← decimal (substr value 11 2)
  minute ← decimal (substr value (if iso then 14 else 13) 2)
  second ← decimal (substr value (if iso then 17 else 15) 2)
  let date : LocalDate = record { year = year; month = month; day = day }
  _ ← require (date_ok date && leb hour 23 && leb minute 59 && leb second 59)
  some ((days_from_civil date * 86400 + hour * 3600 + minute * 60 + second) * ticks_per_second)

unfoldable pub parse_local_date : Text → Option LocalDate
unfolding decimal
parse_local_date value = do
  _ ← require (eqb (length value) 10 && eqb (char_at value 4) b'-' && eqb (char_at value 7) b'-')
  year ← decimal (substr value 0 4)
  month ← decimal (substr value 5 2)
  day ← decimal (substr value 8 2)
  let date : LocalDate = record { year = year; month = month; day = day }
  if date_ok date then some date else none
