-- ===== src/GitUrl.antt =====
-- security/git_url.py: what a git remote, a branch and a path filter must look like, over code points.
-- `urlparse` and `ipaddress.ip_address` are arguments. `none` is `GitUrlValidationError`.
pub mod Laws
use fragchain_core.Prelude.{
  ℕ, suc, String, Bool, true, false, not, ◌&&◌, ◌||◌, Option, none, some, is_some, List, [], ◌∷◌,
  ◌++◌, ◌-◌, map, reverse, any, all, select, length, ltb, leb, ◌==◌, str_eq, codes, lower, strip,
  same_codes, if◌then◌else◌,
}

abbrev pub Text : Type 0
Text = List ℕ

abbrev pub one_of_codes : List String → Text → Bool
one_of_codes names t = any (λ n. same_codes t (codes n)) names

-- [A-Za-z0-9]
unfoldable pub is_alnum : ℕ → Bool
is_alnum c = (leb 65 c && leb c 90) || (leb 97 c && leb c 122) || (leb 48 c && leb c 57)

-- [A-Za-z0-9._/-]
unfoldable pub is_name_char : ℕ → Bool
unfolding is_alnum
is_name_char c = is_alnum c || c == b'.' || c == b'_' || c == b'/' || c == b'-'

unfoldable pub is_name : Text → Bool
unfolding is_alnum is_name_char
is_name [] = false
is_name (c ∷ rest) = is_alnum c && all is_name_char rest && leb (length rest) 254

-- `$` also matches before a final line feed.
abbrev pub without_newline : Text → Text
without_newline [] = []
without_newline (c ∷ []) = if c == 10 then [] else c ∷ []
without_newline (c ∷ d ∷ rest) = c ∷ without_newline (d ∷ rest)

-- `_BRANCH_RE.match` and `_PATH_FILTER_RE.match`, which are the same expression
unfoldable pub matches_name : Text → Bool
unfolding is_name
matches_name t = is_name t || is_name (without_newline t)

abbrev pub is_blank : Text → Bool
is_blank [] = true
is_blank (c ∷ t) = false

unfoldable pub validate_git_branch : Text → Option Text
unfolding strip matches_name
validate_git_branch branch =
    if is_blank (strip branch)
    then none
    else if not (same_codes branch (strip branch))
    then none
    else if not (matches_name branch)
    then none
    else some branch

abbrev pub on_first : ℕ → List Text → List Text
on_first c [] = (c ∷ []) ∷ []
on_first c (part ∷ parts) = (c ∷ part) ∷ parts

-- text.split(separator)
unfoldable pub split_at : ℕ → Text → List Text
split_at separator [] = [] ∷ []
split_at separator (c ∷ t) =
    let parts = split_at separator t in if c == separator then [] ∷ parts else on_first c parts

abbrev pub is_dotted : Text → Bool
is_dotted t = same_codes t (codes "..") || same_codes t (codes ".")

-- For a text: a path that is `None` is returned as it is.
unfoldable pub validate_git_path_filter : Text → Option Text
unfolding strip matches_name split_at
validate_git_path_filter path =
    if is_blank path
    then some path
    else if not (same_codes path (strip path))
    then none
    else if not (matches_name path)
    then none
    else if any is_dotted (split_at b'/' path)
    then none
    else some path

-- What `ip_address` says of a literal, with its canonical text.
pub record IpAddress : Type 0 where
  pub text : Text
  pub is_loopback : Bool
  pub is_private : Bool
  pub is_link_local : Bool
  pub is_multicast : Bool
  pub is_reserved : Bool
  pub is_unspecified : Bool

-- What `urlparse` makes of a URL. `parts` are the parts of its path that are not empty.
pub record ParsedUrl : Type 0 where
  pub scheme : String
  pub username : Option Text
  pub password : Option Text
  pub hostname : Option Text
  pub path : Text

abbrev pub blocked_hostnames : List String
blocked_hostnames = "localhost" ∷ "metadata.google.internal" ∷ "metadata" ∷ "metadata.goog" ∷ []

abbrev pub blocked_metadata_ips : List String
blocked_metadata_ips = "169.254.169.254" ∷ "169.254.170.2" ∷ []

abbrev pub first_part : List Text → Text
first_part [] = []
first_part (part ∷ parts) = part

-- What follows an opening bracket, if the text has both brackets.
abbrev pub bracketed : Text → Option Text
bracketed [] = none
bracketed (c ∷ t) =
    if c == b'[' && any (λ d. d == b']') t then some (first_part (split_at b']' t)) else none

abbrev pub colons : Text → ℕ
colons t = length (select (λ c. c == b':') t)

unfoldable pub strip_host : Text → Text
unfolding strip lower split_at
strip_host host =
    let h = map lower (strip host) in
    elim (bracketed h) [
      | some inner ↦ inner
      | none ↦ if colons h == 1 then first_part (split_at b':' h) else h
    ]

module _ (ip_address : Text → Option IpAddress) where
  unfoldable pub is_safe_ip : Option IpAddress → Bool
  is_safe_ip none = true
  is_safe_ip (some ip) =
      not (one_of_codes blocked_metadata_ips ip.text)
      && not (
          ip.is_loopback || ip.is_private || ip.is_link_local || ip.is_multicast || ip.is_reserved
          || ip.is_unspecified)

  unfoldable pub is_safe_host : Text → Bool
  unfolding strip_host is_safe_ip
  is_safe_host host =
      not (is_blank host)
      && not (one_of_codes blocked_hostnames (strip_host host))
      && is_safe_ip (ip_address (strip_host host))

  abbrev pub is_http : String → Bool
  is_http scheme = str_eq scheme "http" || str_eq scheme "https"

  -- [p for p in path.strip("/").split("/") if p]: stripping drops empty parts only
  unfoldable pub path_parts : Text → List Text
  unfolding split_at
  path_parts path = select (λ p. not (is_blank p)) (split_at b'/' path)

  unfoldable pub has_host : Bool → ParsedUrl → Text → Bool
  unfolding path_parts is_safe_host
  has_host allow_non_https parsed host =
      not (is_blank host)
      && (allow_non_https || length (path_parts parsed.path) == 2)
      && is_safe_host host

  -- `validate_git_url` returns the URL unchanged: whether it does.
  unfoldable pub validate_git_url : (Text → ParsedUrl) → Bool → Text → Bool
  unfolding strip has_host
  validate_git_url urlparse allow_non_https url =
      let parsed = urlparse url in
      not (is_blank (strip url))
      && (is_http parsed.scheme || allow_non_https)
      && not (is_http parsed.scheme && (is_some parsed.username || is_some parsed.password))
      && elim parsed.hostname [ none ↦ false | some host ↦ has_host allow_non_https parsed host ]
