-- ===== src/Chunking/Laws.antt =====
-- What the chunks of a text are.
use fragchain_core.Prelude.{
  ℕ, zero, suc, false, ◌||◌, Option, none, some, List, [], ◌∷◌, ◌++◌, ◌+◌, ◌-◌, ◌*◌, ◌<◌, ◌≤◌,
  length, map, ltb, leb, ◌==◌, ◌≡◌, ◌≢◌, refl, arith, ap, sym, ◌∙◌, All, Bool-cases, inl, inr,
  is_some-value, >>=-eq-some, same_some, subst,
}
use mathlib.Core.List.{append-nil}
use fragchain_core.Chunking.{
  take, drop, windows, split, Encoder, no_fuel, chunk_checked, chunk_text, as_chunks,
}
use fragchain_core.Chunking.Windows.{
  length-drop, take_all, drop-drop, take-drop, drop-append, windows-is_some, IsWindow,
  windows-IsWindow,
}

module _ {A : Type 0} where
  concat : List (List A) → List A
  concat [] = []
  concat (l ∷ ls) = l ++ concat ls

  -- The sequence that overlapping windows hold: each but the first without its overlap.
  pub reassemble : ℕ → List (List A) → List A
  unfolding concat
  reassemble overlap [] = []
  reassemble overlap (l ∷ ls) = l ++ concat (map (drop overlap) ls)

  abbrev head_length : List (List A) → ℕ
  head_length [] = 0
  head_length (l ∷ ls) = length l

  concat-map :
      (overlap : ℕ) (out : List (List A))
      → overlap ≤ head_length out
      → concat (map (drop overlap) out) ≡ drop overlap (reassemble overlap out)
  unfolding reassemble concat
  concat-map zero [] h = refl
  concat-map (suc n) [] h = absurd (omega arith)
  concat-map overlap (l ∷ ls) h = sym (drop-append overlap l (concat (map (drop overlap) ls)) h)

  slice_length :
      (size overlap : ℕ) (l : List A)
      → overlap < length l
      → overlap < size
      → overlap < length (take size l)
  slice_length zero overlap l h k = absurd (omega arith)
  slice_length (suc n) overlap [] h k = absurd (omega arith)
  slice_length (suc n) zero (a ∷ l) h k = omega arith
  slice_length (suc n) (suc o) (a ∷ l) h k =
      omega (arith, slice_length n o l (omega arith) (omega arith))

  -- The windows from a position on.
  record IsTail (overlap i : ℕ) (tokens : List A) (out : List (List A)) : Type 0 where
    reach : overlap ≤ head_length out
    whole : reassemble overlap out ≡ drop i tokens

  later :
      (size overlap i : ℕ) (tokens : List A) (more : List (List A))
      → overlap < size
      → IsTail overlap (i + (size - overlap)) tokens more
      → reassemble overlap (take size (drop i tokens) ∷ more) ≡ drop i tokens
  unfolding reassemble
  later size overlap i tokens more p t =
      let same : i + (size - overlap) + overlap ≡ i + size = omega arith in
      let tail : concat (map (drop overlap) more) ≡ drop size (drop i tokens) =
        concat-map overlap more t.reach
        ∙ ap (drop overlap) t.whole
        ∙ drop-drop overlap (i + (size - overlap)) tokens
        ∙ ap (λ k. drop k tokens) same
        ∙ sym (drop-drop size i tokens) in
      ap (λ l. take size (drop i tokens) ++ l) tail ∙ take-drop size (drop i tokens)

  last :
      (size overlap i : ℕ) (tokens : List A)
      → length tokens ≤ i + size
      → reassemble overlap (take size (drop i tokens) ∷ []) ≡ drop i tokens
  unfolding reassemble concat
  last size overlap i tokens h =
      append-nil (take size (drop i tokens))
      ∙ take_all size (drop i tokens) (omega (arith, length-drop i tokens))

  windows-IsTail :
      (fuel size overlap min_size : ℕ) (tokens : List A) (i : ℕ) (out : List (List A))
      → overlap < size
      → min_size ≤ overlap + 1
      → i + overlap < length tokens
      → windows fuel size (size - overlap) min_size tokens i ≡ some out
      → IsTail overlap i tokens out
  unfolding windows
  windows-IsTail zero size overlap min_size tokens i out p q r h = cc
  windows-IsTail (suc fuel) size overlap min_size tokens i out p q r h =
      let slice = take size (drop i tokens) in
      let long =
        slice_length size overlap (drop i tokens) (omega (arith, length-drop i tokens)) p in
      let e : leb (length tokens) i ≡ false = ground arith in
      let f : ltb (length slice) min_size ≡ false = ground (arith, long) in
      elim (Bool-cases (leb (length tokens) (i + size))) [
        | inl g ↦
            let k : ◌≡◌ {A = Option (List (List A))} (some (slice ∷ [])) (some out) =
              ground (arith, h, e, f, g) in
            subst (IsTail overlap i tokens) (same_some k) record {
              reach = omega (arith, long);
              whole = last size overlap i tokens (ground arith);
            }
        | inr g ↦
            let found : (more : List (List A)) × (windows fuel size (size - overlap) min_size tokens
                    (i + (size - overlap))
                  ≡ some more)
                × (◌≡◌ {A = Option (List (List A))} (some (slice ∷ more)) (some out)) =
              >>=-eq-some
                (windows fuel size (size - overlap) min_size tokens (i + (size - overlap)))
                (λ more. some (slice ∷ more)) (ground (arith, h, e, f, g)) in
            subst (IsTail overlap i tokens) (same_some found.2) record {
              reach = omega (arith, long);
              whole = later size overlap i tokens found.0 p (
                  windows-IsTail fuel size overlap min_size tokens (i + (size - overlap)) found.0 p
                    q (ground arith) found.1);
            }
      ]

  single : (overlap : ℕ) (tokens : List A) → reassemble overlap (tokens ∷ []) ≡ tokens
  unfolding reassemble concat
  single overlap tokens = append-nil tokens

  -- With an overlap below the size, the loop ends within its fuel, and each window has at least the
  -- least size and at most the size.
  split-IsWindow :
      (size overlap min_size : ℕ) (tokens : List A)
      → overlap < size
      → (out : List (List A)) × (split size overlap min_size tokens ≡ some out)
        × All (IsWindow size min_size) out
  unfolding split
  split-IsWindow size overlap min_size tokens p = elim (Bool-cases (leb (length tokens) size)) [
    | inl e ↦ elim (Bool-cases (leb min_size (length tokens))) [
      | inl f ↦ (tokens ∷ [], rw (e, f) refl, ((ground arith, ground arith), tt))
      | inr f ↦ ([], rw (e, f) refl, tt)
    ]
    | inr e ↦
        let fuel = length tokens + 1 in
        let enough =
          windows-is_some fuel size (size - overlap) min_size tokens 0 (omega arith) (omega arith)
            (omega arith) in
        let (out, q) =
          is_some-value (windows fuel size (size - overlap) min_size tokens 0) enough in
        (out, rw e q, windows-IsWindow fuel size (size - overlap) min_size tokens 0 out q)
  ]

  -- With a least size of at most one more than the overlap, nothing is lost: the windows of a
  -- sequence that has the least size, each but the first without its overlap, make the sequence.
  pub reassemble-split :
      (size overlap min_size : ℕ) (tokens : List A) (out : List (List A))
      → overlap < size
      → min_size ≤ overlap + 1
      → min_size ≤ length tokens
      → split size overlap min_size tokens ≡ some out
      → reassemble overlap out ≡ tokens
  unfolding split
  reassemble-split size overlap min_size tokens out p q r h =
      elim (Bool-cases (leb (length tokens) size)) [
        | inl e ↦
            let k : ◌≡◌ {A = Option (List (List A))} (some (tokens ∷ [])) (some out) =
              ground (arith, h, e) in
            subst (λ l. reassemble overlap l ≡ tokens) (same_some k) (single overlap tokens)
        | inr e ↦
            (windows-IsTail (length tokens + 1) size overlap min_size tokens 0 out p q
              (ground arith) (ground (arith, h, e))).whole
      ]

checked-ne-no_fuel :
    (encoder : Option Encoder) (text : List ℕ) (chunk_size overlap min_size : ℕ)
    → overlap < chunk_size
    → chunk_checked encoder text chunk_size overlap min_size ≢ no_fuel
unfolding chunk_checked
checked-ne-no_fuel none text chunk_size overlap min_size p h =
    let (out, q, w) =
      split-IsWindow (chunk_size * 4) (overlap * 4) (min_size * 4) text (omega arith) in
    cc (sym (ap (as_chunks (λ l. l)) q) ∙ h)
checked-ne-no_fuel (some enc) text chunk_size overlap min_size p h =
    let (out, q, w) = split-IsWindow chunk_size overlap min_size (enc.encode text) p in
    elim (Bool-cases (leb (length (enc.encode text)) chunk_size)) [
      | inl e ↦ ground (arith, h, e)
      | inr e ↦ ground (arith, h, e, q)
    ]

-- For any encoder and any sizes, `chunk_text` returns: its loop ends, with chunks or with the
-- `ValueError` of sizes that are not valid.
pub chunk_text-ne-no_fuel :
    (encoder : Option Encoder) (text : List ℕ) (chunk_size overlap min_size : ℕ)
    → chunk_text encoder text chunk_size overlap min_size ≢ no_fuel
unfolding chunk_text
chunk_text-ne-no_fuel encoder text chunk_size overlap min_size h =
    elim (Bool-cases (chunk_size == 0 || leb chunk_size overlap)) [
      | inl e ↦ ground (arith, h, e)
      | inr e ↦
          ground (
            arith,
            h,
            e,
            checked-ne-no_fuel encoder text chunk_size overlap min_size (ground arith),
          )
    ]
