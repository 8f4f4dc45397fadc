-- ===== src/GitUrl/Laws.antt =====
-- A path filter that is accepted stays below the directory that it is joined to.
use mathlib.Core.List.{append_assoc}
use fragchain_core.Prelude.{
  ℕ, Bool, true, false, not, ◌||◌, none, some, List, [], ◌∷◌, ◌++◌, any, ◌==◌, codes, same_codes,
  strip, if◌then◌else◌, ◌≡◌, refl, sym, ap, ◌∙◌, arith, same_some,
}
use fragchain_core.GitUrl.{
  Text, is_alnum, is_name, matches_name, is_blank, split_at, is_dotted, validate_git_path_filter,
}

-- Resolving the parts of a path, over the reversed parts of the directory: `..` leaves it.
unfoldable pub resolve : List Text → List Text → List Text
resolve dir [] = dir
resolve dir (part ∷ parts) =
    resolve
      (if same_codes part (codes "..")
        then (elim dir [ [] ↦ [] | p ∷ above ↦ above ])
        else if is_blank part || same_codes part (codes ".")
        then dir
        else part ∷ dir)
      parts

-- The directory and the parts below it.
abbrev pub IsBelow : List Text → List Text → Type 0
IsBelow dir target = (below : List Text) × (target ≡ below ++ dir)

resolve-one :
    (dir : List Text) (part : Text) (parts : List Text)
    → is_dotted part ≡ false
    → resolve dir (part ∷ parts) ≡ resolve (if is_blank part then dir else part ∷ dir) parts
unfolding resolve
resolve-one dir part parts h = ap (λ d. resolve d parts) (ground arith)

resolve-IsBelow :
    (parts : List Text)
    → any is_dotted parts ≡ false
    → (dir : List Text) → IsBelow dir (resolve dir parts)
unfolding resolve
resolve-IsBelow [] h dir = ([], refl)
resolve-IsBelow ([] ∷ parts) h dir =
    let (below, e) = resolve-IsBelow parts (ground arith) dir in
    (below, resolve-one dir [] parts (ground arith) ∙ e)
resolve-IsBelow ((c ∷ part) ∷ parts) h dir =
    let (below, e) = resolve-IsBelow parts (ground arith) ((c ∷ part) ∷ dir) in
    (
      below ++ ((c ∷ part) ∷ []),
      resolve-one dir (c ∷ part) parts (ground arith)
          ∙ e
          ∙ sym (append_assoc below ((c ∷ part) ∷ []) dir),
    )

-- The guards of the filter.
guards :
    (stripped matched dotted : Bool) (path p : Text)
    → (if not stripped
        then none
        else if not matched
        then none
        else if dotted
        then none
        else some path)
      ≡ some p
    → (p ≡ path) × (matched ≡ true) × (dotted ≡ false)
guards false matched dotted path p h = cc
guards true false dotted path p h = cc
guards true true true path p h = cc
guards true true false path p h = (sym (same_some h), refl, refl)

unfoldable pub begins_alnum : Text → Bool
unfolding is_alnum
begins_alnum [] = true
begins_alnum (c ∷ rest) = is_alnum c

one_char :
    (newline : Bool) (c : ℕ)
    → (is_name (c ∷ []) || is_name (if newline then [] else c ∷ [])) ≡ true
    → is_alnum c ≡ true
unfolding is_name
one_char true c h = ground arith
one_char false c h = ground arith

matches_name-begins : (path : Text) → matches_name path ≡ true → begins_alnum path ≡ true
unfolding matches_name is_name begins_alnum
matches_name-begins [] h = refl
matches_name-begins (c ∷ []) h = one_char (c == 10) c h
matches_name-begins (c ∷ d ∷ path) h = ground arith

-- A path filter that is accepted is returned as it is; it is empty or begins with a letter or a digit,
-- so that it is not absolute and no option; and to resolve it from any directory gives a path below
-- that directory.
pub validate_git_path_filter-IsBelow :
    (path p : Text)
    → validate_git_path_filter path ≡ some p
    → (p ≡ path)
      × (begins_alnum path ≡ true)
      × ((dir : List Text) → IsBelow dir (resolve dir (split_at b'/' path)))
unfolding validate_git_path_filter begins_alnum
validate_git_path_filter-IsBelow [] p h =
    (sym (same_some h), refl, λ dir. resolve-IsBelow (split_at b'/' []) refl dir)
validate_git_path_filter-IsBelow (c ∷ path) p h =
    let (same, matched, flat) =
      guards (same_codes (c ∷ path) (strip (c ∷ path))) (matches_name (c ∷ path))
        (any is_dotted (split_at b'/' (c ∷ path))) (c ∷ path) p h in
    (same, matches_name-begins (c ∷ path) matched, resolve-IsBelow (split_at b'/' (c ∷ path)) flat)
