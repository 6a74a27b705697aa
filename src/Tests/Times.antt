-- ===== src/Tests/Times.antt =====
-- Sample times.
use btrfs_backup.Common.{◌≡◌, refl, text, padded, some}
use mathlib.Core.Option.{map}
use btrfs_backup.Core.Calendar.{civil_from_days, days_from_civil, date_ok}
use btrfs_backup.Core.Time.{parse_utc_timestamp, format_utc_iso_timestamp}

iso :
    map format_utc_iso_timestamp (parse_utc_timestamp (text "2026-02-28T235907Z"))
    ≡ some (text "2026-02-28T23:59:07Z")
unfolding text parse_utc_timestamp format_utc_iso_timestamp padded civil_from_days days_from_civil
    date_ok
iso = refl
