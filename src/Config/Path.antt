-- ===== src/Config/Path.antt =====
-- What the program uses of `std::filesystem::path`, on POSIX. A path is whether it begins with a
-- separator, and its file names in order; a last empty name stands for a trailing separator. So
-- a run of separators is one separator.
use btrfs_backup.Common.{
  Bool, true, false, not, ◌&&◌, ◌||◌, List, [], ◌∷◌, ◌++◌, Text, text, eqb, ◌≡◌, ◌↔◌, if◌then◌else◌,
  arith, Eq, ◌==◌, ==_iff, list_eq, nat_eq, option_eq,
}
use mathlib.Core.List.{reverse}

pub record FilePath : Type 0 where
  pub absolute : Bool
  pub names : List Text

-- The path that a default constructor makes.
abbrev pub empty_path : FilePath
empty_path = record { absolute = false; names = [] }

abbrev pub root_path : FilePath
root_path = record { absolute = true; names = [] }

unfoldable pub bool_beq : Bool → Bool → Bool
bool_beq true b = b
bool_beq false b = not b

-- `operator==` of paths: equal element by element.
unfoldable pub path_beq : FilePath → FilePath → Bool
unfolding bool_beq
path_beq p q = bool_beq p.absolute q.absolute && p.names == q.names

pub path_beq_iff : (p q : FilePath) → (path_beq p q ≡ true) ↔ (p ≡ q)
unfolding path_beq
path_beq_iff p q =
    ((λ h. ground (arith, ==_iff p.names q.names)), (λ h. ground (arith, ==_iff p.names q.names)))

instance abbrev pub path_eq : Eq FilePath
path_eq = record { beq = path_beq; beq_iff = path_beq_iff }

-- The names of a text, cut at its separators; `current` is the name read so far, reversed.
unfoldable pub split_names : Text → Text → List Text
split_names current [] = reverse current ∷ []
split_names current (c ∷ cs) =
    if eqb c b'/' then reverse current ∷ split_names [] cs else split_names (c ∷ current) cs

-- Of empty names, the one at the end is kept: it stands for a trailing separator.
unfoldable pub drop_empty : List Text → List Text
drop_empty [] = []
drop_empty (x ∷ []) = x ∷ []
drop_empty ([] ∷ y ∷ ys) = drop_empty (y ∷ ys)
drop_empty ((c ∷ cs) ∷ y ∷ ys) = (c ∷ cs) ∷ drop_empty (y ∷ ys)

-- A path that is only separators has no name at all.
unfoldable pub drop_lone_empty : List Text → List Text
drop_lone_empty ([] ∷ []) = []
drop_lone_empty xs = xs

unfoldable pub begins_with_separator : Text → Bool
begins_with_separator [] = false
begins_with_separator (c ∷ cs) = eqb c b'/'

-- The constructor from a text.
unfoldable pub parse_path : Text → FilePath
unfolding split_names drop_empty drop_lone_empty begins_with_separator
parse_path s = record {
  absolute = begins_with_separator s;
  names = drop_lone_empty (drop_empty (split_names [] s));
}

unfoldable pub join_names : List Text → Text
join_names [] = []
join_names (x ∷ []) = x
join_names (x ∷ y ∷ ys) = x ++ (b'/' ∷ join_names (y ∷ ys))

-- `string()`.
unfoldable pub path_text : FilePath → Text
unfolding join_names
path_text p = if p.absolute then b'/' ∷ join_names p.names else join_names p.names

-- `empty()`.
unfoldable pub path_empty : FilePath → Bool
path_empty p = not p.absolute && p.names == []

unfoldable pub last_name : List Text → Text
last_name [] = []
last_name (x ∷ []) = x
last_name (x ∷ y ∷ ys) = last_name (y ∷ ys)

-- `filename()`: empty where the path ends in a separator.
unfoldable pub filename : FilePath → Text
unfolding last_name
filename p = last_name p.names

-- What a trailing separator leaves when a name is put behind it.
unfoldable pub without_trailing : List Text → List Text
without_trailing [] = []
without_trailing ([] ∷ []) = []
without_trailing ((c ∷ cs) ∷ []) = (c ∷ cs) ∷ []
without_trailing (x ∷ y ∷ ys) = x ∷ without_trailing (y ∷ ys)

-- `operator/`: an absolute right side stands for itself.
unfoldable pub path_append : FilePath → FilePath → FilePath
unfolding without_trailing
path_append p q =
    if q.absolute
    then q
    else if q.names == []
    then record p { names = if p.names == [] then [] else without_trailing p.names ++ ([] ∷ []) }
    else record p { names = without_trailing p.names ++ q.names }

-- `p / s` for a `std::string`.
unfoldable pub child : FilePath → Text → FilePath
child p s = path_append p (parse_path s)

-- `lexically_normal` goes over the names with those kept so far, last first: a dot-dot takes
-- the last kept name away, unless that is a dot-dot too or none is left.
unfoldable pub climb : Bool → List Text → List Text
climb absolute [] = if absolute then [] else text ".." ∷ []
climb absolute (top ∷ kept) = if top == text ".." then text ".." ∷ top ∷ kept else kept

unfoldable pub normal_step : Bool → List Text → Text → List Text
unfolding climb
normal_step absolute kept name =
    if name == [] || name == text "."
    then kept
    else if name == text ".."
    then climb absolute kept
    else name ∷ kept

unfoldable pub normal_kept : Bool → List Text → List Text → List Text
normal_kept absolute kept [] = kept
normal_kept absolute kept (x ∷ xs) = normal_kept absolute (normal_step absolute kept x) xs

-- Whether a normal path keeps a separator at its end.
unfoldable pub keeps_trailing : Text → List Text → Bool
keeps_trailing name [] = false
keeps_trailing name (top ∷ kept) =
    (name == [] || name == text "." || name == text "..") && not (top == text "..")

unfoldable pub normal_names : Bool → Text → List Text → List Text
unfolding keeps_trailing
normal_names absolute name [] = if absolute then [] else text "." ∷ []
normal_names absolute name (top ∷ kept) =
    reverse (top ∷ kept) ++ (if keeps_trailing name (top ∷ kept) then [] ∷ [] else [])

unfoldable pub lexically_normal : FilePath → FilePath
unfolding normal_step normal_kept normal_names path_empty last_name
lexically_normal p = if path_empty p then p else record p {
  names = normal_names p.absolute (last_name p.names) (normal_kept p.absolute [] p.names);
}

-- What the iterator of a path gives: the root directory first.
unfoldable pub elements : FilePath → List Text
elements p = if p.absolute then text "/" ∷ p.names else p.names
