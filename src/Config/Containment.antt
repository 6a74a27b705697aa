-- ===== src/Config/Containment.antt =====
-- What `path_is_within` decides, and what the path checks of src/config/domain/Validation.cpp
-- leave of a path.
use mathlib.Core.List.{reverse, reverse_aux, reverse-reverse, append-nil, append_assoc}
use btrfs_backup.Common.{
  Bool, true, false, List, [], ◌∷◌, ◌++◌, Text, text, ◌≡◌, ◌↔◌, refl, sym, ap, ◌∙◌, arith, All, any,
  eqb, ==_iff, ==_refl, list_eq, nat_eq, list_beq,
}
use btrfs_backup.Config.Path.{
  FilePath, parse_path, lexically_normal, elements, normal_kept, normal_names, normal_step,
  last_name, child, path_append, without_trailing, split_names,
}
use btrfs_backup.Config.Validation.{is_unsafe_part, is_prefix, path_is_within}

-- A name that is no dot, no dot-dot and not empty.
abbrev pub IsSafeName : Text → Type 0
IsSafeName name = is_unsafe_part name ≡ false

-- An absolute path of safe names only.
pub record IsCanonical (p : FilePath) : Type 0 where
  pub rooted : p.absolute ≡ true
  pub safe : All IsSafeName p.names

normal_step-safe :
    (absolute : Bool) (kept : List Text) (x : Text)
    → IsSafeName x
    → normal_step absolute kept x ≡ x ∷ kept
unfolding normal_step is_unsafe_part
normal_step-safe absolute kept x h = ground arith

normal_kept-safe :
    (absolute : Bool) (kept xs : List Text)
    → All IsSafeName xs
    → normal_kept absolute kept xs ≡ reverse_aux xs kept
unfolding normal_kept
normal_kept-safe absolute kept [] h = refl
normal_kept-safe absolute kept (x ∷ xs) h =
    rw (normal_step-safe absolute kept x h.0) (normal_kept-safe absolute (x ∷ kept) xs h.1)

last_name-safe :
    (x : Text) (xs : List Text) → All IsSafeName (x ∷ xs) → IsSafeName (last_name (x ∷ xs))
unfolding last_name
last_name-safe x [] h = h.0
last_name-safe x (y ∷ ys) h = last_name-safe y ys h.1

normal_names-safe :
    (absolute : Bool) (name : Text) (kept : List Text)
    → IsSafeName name
    → (kept ≡ [] → absolute ≡ true)
    → normal_names absolute name kept ≡ reverse kept
unfolding normal_names is_unsafe_part
normal_names-safe absolute name [] h r = rw (r refl)
normal_names-safe absolute name (k ∷ kept) h r = ground (arith, append-nil (reverse (k ∷ kept)))

-- Canonical names are left as they are.
normal_names-canonical :
    (xs : List Text)
    → All IsSafeName xs
    → normal_names true (last_name xs) (normal_kept true [] xs) ≡ xs
unfolding normal_names normal_kept
normal_names-canonical [] h = refl
normal_names-canonical (x ∷ xs) h = rw (normal_kept-safe true [] (x ∷ xs) h) (
    normal_names-safe true _ (reverse (x ∷ xs)) (last_name-safe x xs h) (λ _. refl)
    ∙ reverse-reverse (x ∷ xs))

pub lexically_normal-IsCanonical : (p : FilePath) → IsCanonical p → lexically_normal p ≡ p
unfolding lexically_normal
lexically_normal-IsCanonical p c = ground (arith, normal_names-canonical p.names c.safe, c.rooted)

pub is_prefix-append : (bs rest : List Text) → is_prefix bs (bs ++ rest) ≡ true
unfolding is_prefix
is_prefix-append [] rest = refl
is_prefix-append (b ∷ bs) rest = ground (arith, ==_iff b b, is_prefix-append bs rest)

pub is_prefix-rest :
    (bs cs : List Text) → is_prefix bs cs ≡ true → (rest : List Text) × (cs ≡ bs ++ rest)
unfolding is_prefix
is_prefix-rest [] cs h = (cs, refl)
is_prefix-rest (b ∷ bs) [] h = cc
is_prefix-rest (b ∷ bs) (c ∷ cs) h =
    let both : (c ≡ b) × (is_prefix bs cs ≡ true) = ground (arith, ==_iff c b) in
    let r = is_prefix-rest bs cs both.1 in (r.0, cc (both.0, r.1))

-- For canonical paths, `path_is_within` holds exactly if the candidate has the names of the base,
-- followed by names of its own: a common beginning of the texts is not enough.
pub path_is_within_iff :
    (c b : FilePath)
    → IsCanonical c
    → IsCanonical b
    → (path_is_within c b ≡ true) ↔ ((rest : List Text) × (c.names ≡ b.names ++ rest))
unfolding path_is_within elements is_prefix
path_is_within_iff c b hc hb =
    rw (lexically_normal-IsCanonical c hc, lexically_normal-IsCanonical b hb, hc.rooted, hb.rooted)
      (
        (λ h. is_prefix-rest b.names c.names (ground arith)),
        (λ (rest, e). ground (arith, ==_refl (text "/"), is_prefix-append b.names rest, e)),
      )

-- Containment is reflexive for every path, canonical or not.
pub path_is_within_refl : (p : FilePath) → path_is_within p p ≡ true
unfolding path_is_within
path_is_within_refl p =
    ap (is_prefix (elements (lexically_normal p)))
      (sym (append-nil (elements (lexically_normal p))))
    ∙ is_prefix-append (elements (lexically_normal p)) []

-- Containment is transitive for all paths, canonical or not.
pub path_is_within_trans :
    (a b c : FilePath)
    → path_is_within a b ≡ true
    → path_is_within b c ≡ true
    → path_is_within a c ≡ true
unfolding path_is_within
path_is_within_trans a b c h k =
    let (r, e) = is_prefix-rest _ (elements (lexically_normal a)) h in
    let (t, f) = is_prefix-rest _ (elements (lexically_normal b)) k in
    rw (e, f, append_assoc) (is_prefix-append (elements (lexically_normal c)) (t ++ r))

-- A text that is one name: safe, and with no separator in it.
pub record IsName (s : Text) : Type 0 where
  pub safe : IsSafeName s
  pub whole : any (λ c. eqb c b'/') s ≡ false

split_names-whole :
    (current s : Text)
    → any (λ c. eqb c b'/') s ≡ false
    → split_names current s ≡ reverse_aux current s ∷ []
unfolding split_names any
split_names-whole current [] h = refl
split_names-whole current (c ∷ cs) h = ground (arith, split_names-whole (c ∷ current) cs)

parse_path-IsName :
    (s : Text) → IsName s → parse_path s ≡ record { absolute = false; names = s ∷ [] }
unfolding parse_path is_unsafe_part any list_beq
parse_path-IsName [] n = absurd (ground (arith, n.safe))
parse_path-IsName (c ∷ cs) n = ground (arith, n.whole, split_names-whole [] (c ∷ cs) n.whole)

without_trailing-safe : (xs : List Text) → All IsSafeName xs → without_trailing xs ≡ xs
unfolding without_trailing is_unsafe_part list_beq
without_trailing-safe [] h = refl
without_trailing-safe ([] ∷ []) h = cc (h.0)
without_trailing-safe ((c ∷ cs) ∷ []) h = refl
without_trailing-safe ([] ∷ y ∷ ys) h = ap (◌∷◌ []) (without_trailing-safe (y ∷ ys) h.1)
without_trailing-safe ((c ∷ cs) ∷ y ∷ ys) h = ap (◌∷◌ (c ∷ cs)) (without_trailing-safe (y ∷ ys) h.1)

pub child-IsName :
    (p : FilePath) (s : Text)
    → IsCanonical p
    → IsName s
    → child p s ≡ record { absolute = true; names = p.names ++ (s ∷ []) }
unfolding child path_append list_beq
child-IsName p s c n =
    rw (parse_path-IsName s n, without_trailing-safe p.names c.safe) (ground (arith, c.rooted))
