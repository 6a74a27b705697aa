-- ===== src/Daemon/PageCollector.antt =====
-- src/daemon/control/BrowseDirectoryPageCollector.cpp: a page of a directory with bounded memory.
-- The heap of `entries_` is its elements by name, as `std::sort_heap` leaves them; the standard
-- library leaves the order of equal names open.
pub mod Page
use btrfs_backup.Common.{
  Bool, true, false, ℕ, ◌+◌, if◌then◌else◌, eqb, ltb, leb, length, take, List, [], ◌∷◌, Text, text,
  text_lt, insert_sorted,
}
use btrfs_backup.Core.Errors.{Error, ErrorClass, logic, Result, ok, err}

pub record BrowseEntryInfo : Type 0 where
  pub name : Text
  pub directory : Bool
  pub size : ℕ
  pub mode : ℕ
  pub modified_at : ℕ

pub record BrowseDirectoryPage : Type 0 where
  pub entries : List BrowseEntryInfo
  pub continuation_token : Text

pub record BrowseDirectoryPageCollector : Type 0 where
  pub maximum_entries : ℕ
  pub entries : List BrowseEntryInfo

-- The constructor; `std::invalid_argument` is a `std::logic_error`.
unfoldable pub new_collector : ℕ → Result BrowseDirectoryPageCollector
new_collector maximum_entries =
    if eqb maximum_entries 0
    then err (record { class = logic; what = text "browse page size must be positive" })
    else ok (record { maximum_entries = maximum_entries; entries = [] })

unfoldable pub name_less : BrowseEntryInfo → BrowseEntryInfo → Bool
unfolding text_lt
name_less left right = text_lt left.name right.name

-- `std::pop_heap` and `pop_back`: a largest element goes.
unfoldable pub without_largest : List BrowseEntryInfo → List BrowseEntryInfo
without_largest [] = []
without_largest (e ∷ []) = []
without_largest (e ∷ f ∷ entries) = e ∷ without_largest (f ∷ entries)

-- `push_back` and `push_heap`: the entries before one of them goes again.
unfoldable pub pushed : BrowseDirectoryPageCollector → BrowseEntryInfo → List BrowseEntryInfo
unfolding name_less insert_sorted
pushed collector entry = insert_sorted name_less entry collector.entries

unfoldable pub add : BrowseDirectoryPageCollector → BrowseEntryInfo → BrowseDirectoryPageCollector
unfolding pushed without_largest
add collector entry =
    let entries = pushed collector entry in
    record collector {
      entries =
          (if leb (length entries) (collector.maximum_entries + 1)
            then entries
            else without_largest entries);
    }

-- `entries_.back().name`.
unfoldable pub back_name : List BrowseEntryInfo → Text
back_name [] = []
back_name (e ∷ []) = e.name
back_name (e ∷ f ∷ entries) = back_name (f ∷ entries)

unfoldable pub finish : BrowseDirectoryPageCollector → BrowseDirectoryPage
unfolding back_name
finish collector =
    if ltb collector.maximum_entries (length collector.entries)
    then record {
      entries = take collector.maximum_entries collector.entries;
      continuation_token = back_name (take collector.maximum_entries collector.entries);
    }
    else record { entries = collector.entries; continuation_token = [] }

unfoldable pub retained_entries : BrowseDirectoryPageCollector → ℕ
retained_entries collector = length collector.entries
