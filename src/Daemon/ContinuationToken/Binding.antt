-- ===== src/Daemon/ContinuationToken/Binding.antt =====
-- src/daemon/control/BrowseContinuationTokenCodec.cpp: a token continues its own directory only.
use btrfs_backup.Common.{
  true, false, ℕ, suc, ◌-◌, ◌*◌, ◌%◌, ◌<◌, eqb, ltb, All, is_empty, length, drop, [], ◌∷◌, ◌++◌,
  Text, text, ◌≡◌, refl, sym, ap, ap₂, ◌∙◌, subst, Bool-cases, inl, inr, arith,
}
use mathlib.Core.List.{append_assoc}
use btrfs_backup.Core.Errors.{Result, ok, ◌>>=◌, >>=-eq-ok}
use btrfs_backup.Config.Path.{parse_path, lexically_normal, path_text}
use btrfs_backup.Backup.Snapshot.{starts_with}
use btrfs_backup.Daemon.ContinuationToken.{
  hex_encode, encode_bound_token, decode_bound_token, cursor_of, directory_binding, directory_token,
  directory_cursor, is_no_name, checked_name, maximum_token_size,
}
use btrfs_backup.Daemon.ContinuationToken.Hex.{IsBytes, hex_decode-hex_encode, length-hex_encode}

starts_with-append : (p x : Text) → starts_with p (p ++ x) ≡ true
unfolding starts_with
starts_with-append [] x = refl
starts_with-append (c ∷ p) x = ground (arith, starts_with-append p x)

drop-append : (p x : Text) → drop (length p) (p ++ x) ≡ x
drop-append [] x = refl
drop-append (c ∷ p) x = drop-append p x

append-drop : (p x : Text) → starts_with p x ≡ true → x ≡ p ++ drop (length p) x
unfolding starts_with
append-drop [] x h = refl
append-drop (c ∷ p) [] h = cc
append-drop (c ∷ p) (d ∷ x) h = grind (arith, append-drop p x)

cursor_of-append : (binding cursor : Text) → cursor_of binding (binding ++ cursor) ≡ ok cursor
unfolding cursor_of
cursor_of-append binding cursor =
    rw (starts_with-append binding cursor, drop-append binding cursor) refl

cursor_of-eq-ok :
    (binding decoded cursor : Text)
    → cursor_of binding decoded ≡ ok cursor
    → decoded ≡ binding ++ cursor
unfolding cursor_of
cursor_of-eq-ok binding decoded cursor h = elim (Bool-cases (starts_with binding decoded)) [
  | inl e ↦ grind (arith, append-drop binding decoded e)
  | inr e ↦ grind arith
]

double_even : (n : ℕ) → eqb ((suc (suc (suc (2 * n))) - 3) % 2) 0 ≡ true
double_even n = ground arith

decode_bound_token-hex :
    (binding value : Text)
    → IsBytes value
    → ltb maximum_token_size (length (text "v1:" ++ hex_encode value)) ≡ false
    → decode_bound_token binding (text "v1:" ++ hex_encode value) ≡ cursor_of binding value
unfolding decode_bound_token text starts_with
decode_bound_token-hex binding value h small =
    rw (small, length-hex_encode value, double_even (length value), hex_decode-hex_encode value h)
      refl

-- What a token that was made says to any binding.
decode_bound_token-encode_bound_token :
    (binding made_for cursor token : Text)
    → IsBytes (made_for ++ cursor)
    → encode_bound_token made_for cursor ≡ ok token
    → (is_empty token ≡ false)
      × (decode_bound_token binding token ≡ cursor_of binding (made_for ++ cursor))
unfolding encode_bound_token text
decode_bound_token-encode_bound_token binding made_for cursor token h made =
    elim (Bool-cases
      (ltb maximum_token_size (length (text "v1:" ++ hex_encode (made_for ++ cursor))))) [
        | inl large ↦ ground arith
        | inr small ↦
            let e : token ≡ text "v1:" ++ hex_encode (made_for ++ cursor) = grind arith in
            subst
              (λ (t : Text).
                (is_empty t ≡ false)
                × (decode_bound_token binding t ≡ cursor_of binding (made_for ++ cursor)))
              (sym e) (refl, decode_bound_token-hex binding (made_for ++ cursor) h small)
      ]

-- No character of a text is NUL.
abbrev pub IsFree : Text → Type 0
IsFree = All (λ c. 0 < c)

split_at_zero :
    (a b x y : Text) → IsFree a → IsFree b → a ++ (0 ∷ x) ≡ b ++ (0 ∷ y) → (a ≡ b) × (x ≡ y)
split_at_zero [] [] x y h k e = (refl, cc)
split_at_zero [] (d ∷ b) x y h k e = grind (arith, k.0)
split_at_zero (c ∷ a) [] x y h k e = grind (arith, h.0)
split_at_zero (c ∷ a) (d ∷ b) x y h k e =
    let tail : (a ++ (0 ∷ x)) ≡ (b ++ (0 ∷ y)) = cc in
    let both = split_at_zero a b x y h.1 k.1 tail in
    let head : c ≡ d = cc in (ap₂ ◌∷◌ head both.0, both.1)

-- The normal form that a binding has of a path.
abbrev pub normal_text : Text → Text
normal_text relative_path = path_text (lexically_normal (parse_path relative_path))

directory_binding-append :
    (session_id relative_path cursor : Text)
    → directory_binding session_id relative_path ++ cursor
      ≡ session_id ++ (0 ∷ (normal_text relative_path ++ (0 ∷ cursor)))
unfolding directory_binding
directory_binding-append session_id relative_path cursor = simp (append_assoc) refl

directory_cursor-full :
    (session_id relative_path token : Text)
    → is_empty token ≡ false
    → directory_cursor session_id relative_path token
      ≡ (decode_bound_token (directory_binding session_id relative_path) token >>= checked_name)
unfolding directory_cursor
directory_cursor-full session_id relative_path token h = rw h refl

-- The cursor that a token was made with comes back, where it is a name and all texts are of bytes.
pub directory_cursor-directory_token :
    (session_id relative_path name token : Text)
    → IsBytes (directory_binding session_id relative_path ++ name)
    → is_no_name name ≡ false
    → directory_token session_id relative_path name ≡ ok token
    → directory_cursor session_id relative_path token ≡ ok name
unfolding directory_token checked_name
directory_cursor-directory_token session_id relative_path name token h named made =
    let binding = directory_binding session_id relative_path in
    let decoded = decode_bound_token-encode_bound_token binding binding name token h made in
    directory_cursor-full session_id relative_path token decoded.0
    ∙ ap (λ (r : Result Text). r >>= checked_name) (decoded.1 ∙ cursor_of-append binding name)
    ∙ rw named refl

checked_name-eq-ok : (name cursor : Text) → checked_name name ≡ ok cursor → name ≡ cursor
unfolding checked_name
checked_name-eq-ok name cursor h = grind arith

-- A token continues the directory that it was made for and no other, in no other session, at the
-- name that it was made with: so far as the session identifiers and the paths have no NUL.
pub directory_cursor-IsBound :
    (session_id relative_path name token : Text) (other_session other_path cursor : Text)
    → IsBytes (directory_binding session_id relative_path ++ name)
    → IsFree session_id
    → IsFree (normal_text relative_path)
    → IsFree other_session
    → IsFree (normal_text other_path)
    → directory_token session_id relative_path name ≡ ok token
    → directory_cursor other_session other_path token ≡ ok cursor
    → (session_id ≡ other_session)
      × (normal_text relative_path ≡ normal_text other_path)
      × (name ≡ cursor)
unfolding directory_token
directory_cursor-IsBound session_id relative_path name token other_session other_path cursor h s p
      s' p' made found =
    let binding = directory_binding other_session other_path in
    let decoded =
      decode_bound_token-encode_bound_token binding (directory_binding session_id relative_path)
        name token h made in
    let opened : (decode_bound_token binding token >>= checked_name) ≡ ok cursor =
      sym (directory_cursor-full other_session other_path token decoded.0) ∙ found in
    let (c, read, checked) = >>=-eq-ok (decode_bound_token binding token) checked_name opened in
    let same =
      sym (directory_binding-append session_id relative_path name)
      ∙ cursor_of-eq-ok binding _ c (sym decoded.1 ∙ read)
      ∙ directory_binding-append other_session other_path c in
    let sessions = split_at_zero session_id other_session _ _ s s' same in
    let paths =
      split_at_zero (normal_text relative_path) (normal_text other_path) _ _ p p' sessions.1 in
    (sessions.0, paths.0, paths.1 ∙ checked_name-eq-ok c cursor checked)
