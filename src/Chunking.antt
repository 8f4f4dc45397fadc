-- ===== src/Chunking.antt =====
-- vector/embedder.py: `chunk_text`, the sliding window over the tokens of a text, or over its
-- characters if there is no encoder. The encoder and the decoder are arguments.
pub mod Windows
pub mod Laws
use fragchain_core.Prelude.{
  ℕ, zero, suc, Bool, true, false, not, ◌&&◌, ◌||◌, Option, none, some, List, [], ◌∷◌, ◌+◌, ◌-◌,
  ◌*◌, length, map, ltb, leb, ◌==◌, strip, ◌>>=◌, if◌then◌else◌,
}

module _ {A : Type 0} where
  abbrev pub take : ℕ → List A → List A
  take zero l = []
  take (suc n) [] = []
  take (suc n) (a ∷ l) = a ∷ take n l

  abbrev pub drop : ℕ → List A → List A
  drop zero l = l
  drop (suc n) [] = []
  drop (suc n) (a ∷ l) = drop n l

  -- `while i < len(tokens)`, with fuel; `none` if it runs out.
  unfoldable pub windows : ℕ → ℕ → ℕ → ℕ → List A → ℕ → Option (List (List A))
  windows zero size step min_size tokens i = none
  windows (suc fuel) size step min_size tokens i =
      let slice = take size (drop i tokens) in
      let rest = windows fuel size step min_size tokens (i + step) in
      if leb (length tokens) i
      then some []
      else if ltb (length slice) min_size
      then some []
      else if leb (length tokens) (i + size)
      then some (slice ∷ [])
      else rest >>= λ more. some (slice ∷ more)

  -- The windows of a sequence: one round for each position is enough.
  unfoldable pub split : ℕ → ℕ → ℕ → List A → Option (List (List A))
  unfolding windows
  split size overlap min_size tokens =
      if leb (length tokens) size
      then some (if leb min_size (length tokens) then tokens ∷ [] else [])
      else windows (length tokens + 1) size (size - overlap) min_size tokens 0

-- A text is its code points.
abbrev pub Text : Type 0
Text = List ℕ

pub record Encoder : Type 0 where
  pub encode : Text → List ℕ
  pub decode : List ℕ → Text

-- The chunks, a `ValueError`, or no result for lack of fuel.
pub data Chunks : Type 0 where
  chunks : List Text → Chunks
  value_error : Chunks
  no_fuel : Chunks

abbrev pub as_chunks : (List ℕ → Text) → Option (List (List ℕ)) → Chunks
as_chunks decode none = no_fuel
as_chunks decode (some slices) = chunks (map decode slices)

unfoldable pub chunk_checked : Option Encoder → Text → ℕ → ℕ → ℕ → Chunks
unfolding split
chunk_checked (some enc) text chunk_size overlap min_size =
    let tokens = enc.encode text in
    if leb (length tokens) chunk_size
    then chunks (if leb min_size (length tokens) then text ∷ [] else [])
    else as_chunks enc.decode (split chunk_size overlap min_size tokens)
chunk_checked none text chunk_size overlap min_size =
    as_chunks (λ slice. slice) (split (chunk_size * 4) (overlap * 4) (min_size * 4) text)

abbrev pub is_blank : Text → Bool
is_blank [] = true
is_blank (c ∷ text) = false

unfoldable pub chunk_text : Option Encoder → Text → ℕ → ℕ → ℕ → Chunks
unfolding chunk_checked strip
chunk_text encoder text chunk_size overlap min_size =
    if is_blank (strip text)
    then chunks []
    else if chunk_size == 0 || leb chunk_size overlap
    then value_error
    else chunk_checked encoder text chunk_size overlap min_size
