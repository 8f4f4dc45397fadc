-- ===== src/Prompts/Laws.antt =====
-- The sequences of operations on the prompt templates, and what the cache answers after them.
use fragchain_core.Prelude.{
  ℕ, String, Bool, Option, none, some, List, [], ◌∷◌, ◌≤◌, select, ◌≡◌, refl, ap, ◌∙◌, arith,
  Bool-cases, inl, inr,
}
use fragchain_core.Counting.{count, first}
use fragchain_core.Prompts.{
  PromptTemplate, Key, same_key, Store, cached, most_specific, loaded, get_active, has_id, activate,
  NewVersion, create_version, patch_as_new_version,
}
use fragchain_core.Prompts.Invariant.{
  is_active_key, IsSound, activate-IsSound, create_version-IsSound, patch-IsSound, loaded-active,
  get_active-IsSound,
}

-- One operation; a new id is one that no row has.
pub data Step : Store → Store → Type 0 where
  reads : (s : Store) (task model provider : String) → Step s (get_active s task model provider).0
  activates : {s t : Store} (id : ℕ) → activate id s ≡ some t → Step s t
  creates :
      (s : Store) (id : ℕ) (v : NewVersion) (activated : Bool)
      → count (has_id id) s.rows ≡ 0
      → Step s (create_version id v activated s).0
  patches :
      {s t : Store} {row : PromptTemplate} (id template_id : ℕ)
      (system_prompt user_template notes : Option String) (activated : Bool)
      → count (has_id id) s.rows ≡ 0
      → patch_as_new_version id template_id system_prompt user_template notes activated s
        ≡ some (t, row)
      → Step s t

pub data Reach (s : Store) : Store → Type 0 where
  here : Reach s s
  next : {t u : Store} → Reach s t → Step t u → Reach s u

Step-IsSound : {s t : Store} → Step s t → IsSound s → IsSound t
Step-IsSound (reads s task model provider) i = get_active-IsSound task model provider i
Step-IsSound (activates id h) i = activate-IsSound id i h
Step-IsSound (creates s id v activated fresh) i = create_version-IsSound id v activated i fresh
Step-IsSound (patches id template_id system_prompt user_template notes activated fresh h) i =
    patch-IsSound id template_id system_prompt user_template notes activated i fresh h

Reach-sound : {s t : Store} → IsSound s → Reach s t → IsSound t
Reach-sound i here = i
Reach-sound i (next r step) = Step-IsSound step (Reach-sound i r)

-- The active row of a key.
unfoldable pub active_row : List PromptTemplate → Key → Option PromptTemplate
unfolding first same_key
active_row rows k = first (is_active_key k) rows

cached-absent :
    (rows : List PromptTemplate) (k : Key)
    → count (is_active_key k) rows ≡ 0
    → cached (select (λ (r : PromptTemplate). r.is_active) rows) k ≡ none
unfolding cached
cached-absent [] k h = refl
cached-absent (r ∷ rows) k h = ground (arith, cached-absent rows k)

first-absent :
    (rows : List PromptTemplate) (k : Key)
    → count (is_active_key k) rows ≡ 0
    → first (is_active_key k) rows ≡ none
unfolding first
first-absent [] k h = refl
first-absent (r ∷ rows) k h = ground (arith, first-absent rows k)

cached-active :
    (rows : List PromptTemplate) (k : Key)
    → count (is_active_key k) rows ≤ 1
    → cached (select (λ (r : PromptTemplate). r.is_active) rows) k ≡ active_row rows k
unfolding cached active_row
cached-active [] k h = refl
cached-active (r ∷ rows) k h = elim (Bool-cases (is_active_key k r)) [
  | inl e ↦ ground (arith, cached-absent rows k, first-absent rows k)
  | inr e ↦ ground (arith, cached-active rows k)
]

-- From a sound store, after any sequence of reads, activations, new versions and patches, each task,
-- model and provider has at most one active template.
pub Reach-one_active :
    {s t : Store} → IsSound s → Reach s t → (k : Key) → count (is_active_key k) t.rows ≤ 1
Reach-one_active i r k = (Reach-sound i r).one_active k

-- From a sound store, after any sequence of reads, activations, new versions and patches, what
-- `get_active` answers through the cache is the active
-- row of the most specific of the four keys, read from the rows themselves.
pub Reach-get_active :
    {s t : Store}
    → IsSound s
    → Reach s t
    → (task model provider : String)
    → (get_active t task model provider).1 ≡ most_specific (active_row t.rows) task model provider
unfolding get_active
Reach-get_active {t} i r task model provider =
    let sound = Reach-sound i r in
    let same : (k : Key) → cached (loaded t) k ≡ active_row t.rows k = λ k.
      ap (λ c. cached c k) (loaded-active sound) ∙ cached-active t.rows k (sound.one_active k) in
    ap (λ (g : Key → Option PromptTemplate). most_specific g task model provider) (λ j k. same k j)
