-- ===== src/Store/Users/Username.antt =====
-- `normalizeUsername`, `validateCredentials` and `validatePassword` of internal/store/store.go.
use wpx.Prelude.{
  ℕ, Bool, true, false, not, ◌&&◌, ◌||◌, List, [], ◌∷◌, ltb, leb, ◌==◌, if◌then◌else◌, Result, ok,
  err, guard, ◌>>=◌,
}
use wpx.Text.{
  Text, length, all, contains, contains_twice, starts_with, ends_with, occurrences, cut, split,
  trim_space, to_lower, is_alphanumeric,
}
use wpx.Store.Rows.{Error, invalid_username, invalid_password}

-- ^[a-z0-9][a-z0-9._-]{2,63}$
abbrev matches_username : Text → Bool
matches_username [] = false
matches_username (c ∷ t) =
    is_alphanumeric c
    && leb 2 (length t)
    && leb (length t) 63
    && all (λ d. is_alphanumeric d || d == b'.' || d == b'_' || d == b'-') t

-- One rune of ^[a-z0-9.!#$%&'*+/=?^_{|}~-]+$
abbrev is_email_local : ℕ → Bool
is_email_local c =
    is_alphanumeric c
    || contains c (
        b'.' ∷ b'!' ∷ 0x23 ∷ b'$' ∷ b'%' ∷ b'&' ∷ 0x27 ∷ b'*' ∷ b'+' ∷ b'/' ∷ b'=' ∷ b'?' ∷ b'^'
        ∷ b'_' ∷ 0x7b ∷ b'|' ∷ 0x7d ∷ b'~' ∷ b'-' ∷ [])

-- ^[a-z0-9.-]+$, on a text that is not empty
abbrev matches_email_domain : Text → Bool
matches_email_domain t = all (λ d. is_alphanumeric d || d == b'.' || d == b'-') t

-- What each label of the domain of an address is held to.
abbrev is_label : Text → Bool
is_label label =
    not
      (length label == 0 || ltb 63 (length label) || starts_with b'-' label || ends_with b'-' label)

abbrev all_labels : List Text → Bool
all_labels [] = true
all_labels (label ∷ labels) = is_label label && all_labels labels

abbrev is_email : Text → Bool
is_email username =
    let (local, domain, _) = cut b'@' username in
    not (ltb 254 (length username) || not (occurrences b'@' username == 1))
    && not (
        length local == 0
        || ltb 64 (length local)
        || not (all is_email_local local)
        || starts_with b'.' local
        || ends_with b'.' local
        || contains_twice b'.' local
        || length domain == 0
        || not (matches_email_domain domain))
    && all_labels (split b'.' domain)

-- The two forms of a user name that has been trimmed and put in lower case.
unfoldable pub is_username : Text → Bool
unfolding all contains contains_twice starts_with ends_with occurrences cut split
is_username username =
    if contains b'@' username then is_email username else matches_username username

unfoldable pub normalize_username : Text → Result Error Text
normalize_username value =
    let username = to_lower (trim_space value) in
    if is_username username then ok username else err invalid_username

-- The password as its bytes.
unfoldable pub validate_password : List ℕ → Result Error (Unit {0})
validate_password password =
    guard (not (ltb (length password) 12 || ltb 72 (length password))) invalid_password

unfoldable pub validate_credentials : Text → List ℕ → Result Error (Unit {0})
validate_credentials username password = do
  _ ← normalize_username username
  guard (not (ltb (length password) 12 || ltb 72 (length password))) invalid_password
