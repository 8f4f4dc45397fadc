-- ===== src/WebhookHardening.antt =====
-- security/webhook_hardening.py: the cap on a body, the cap on the depth of its JSON, and the store
-- of idempotency keys. The clock is an argument.
pub mod Depth
pub mod Store
use fragchain_core.Prelude.{
  ℕ, String, Bool, true, false, not, ◌&&◌, Option, none, some, List, [], ◌∷◌, ◌++◌, ◌+◌, length,
  select, ltb, leb, str_eq, if◌then◌else◌,
}

-- Whether the body is let through.
unfoldable pub check_webhook_body_size : ℕ → ℕ → Bool
check_webhook_body_size size max_bytes = not (ltb max_bytes size)

-- A parsed body; the primitives are one.
mutual
  pub data Json : Type 0 where
    primitive : Json
    list : Items → Json
    dict : Fields → Json

  pub data Items : Type 0 where
    nil : Items
    cons : Json → Items → Items

  pub data Fields : Type 0 where
    end : Fields
    field : String → Json → Fields → Fields

-- `_walk`: false is the `JsonTooDeepError`.
unfoldable mutual
  pub walk : ℕ → Json → ℕ → Bool
  walk max_depth primitive depth = not (ltb max_depth depth)
  walk max_depth (list items) depth =
      not (ltb max_depth depth) && walk_items max_depth items (depth + 1)
  walk max_depth (dict fields) depth =
      not (ltb max_depth depth) && walk_fields max_depth fields (depth + 1)

  pub walk_items : ℕ → Items → ℕ → Bool
  walk_items max_depth nil depth = true
  walk_items max_depth (cons child rest) depth =
      walk max_depth child depth && walk_items max_depth rest depth

  pub walk_fields : ℕ → Fields → ℕ → Bool
  walk_fields max_depth end depth = true
  walk_fields max_depth (field name child rest) depth =
      walk max_depth child depth && walk_fields max_depth rest depth

unfoldable pub check_json_depth : Json → ℕ → Bool
check_json_depth value max_depth = walk max_depth value 1

-- `WebhookIdempotencyStore`: the entries from the least to the most recently used.
pub record Entry : Type 0 where
  pub key : String
  pub result : String
  pub expires_at : ℕ

abbrev pub Cache : Type 0
Cache = List Entry

unfoldable pub find : String → Cache → Option Entry
find key [] = none
find key (e ∷ rest) = let later = find key rest in if str_eq e.key key then some e else later

unfoldable pub pop : String → Cache → Cache
pop key cache = select (λ e. not (str_eq e.key key)) cache

unfoldable pub get : ℕ → String → Cache → Cache × Option String
unfolding find pop
get now key cache = elim (find key cache) [
  | none ↦ (cache, none)
  | some e ↦
      if leb e.expires_at now
      then (pop key cache, none)
      else (pop key cache ++ (e ∷ []), some e.result)
]

-- `while len(self._cache) >= self._max`
unfoldable pub evict : ℕ → Cache → Cache
evict max_entries [] = []
evict max_entries (e ∷ rest) =
    let fewer = evict max_entries rest in
    if leb max_entries (length (e ∷ rest)) then fewer else e ∷ rest

-- An assignment to a key keeps the place of the key.
unfoldable pub set_item : Entry → Cache → Cache
set_item new [] = new ∷ []
set_item new (e ∷ rest) =
    let later = set_item new rest in if str_eq e.key new.key then new ∷ rest else e ∷ later

unfoldable pub put : ℕ → ℕ → ℕ → String → String → Cache → Cache
unfolding evict set_item
put now ttl max_entries key result cache =
    set_item record { key = key; result = result; expires_at = now + ttl }
      (evict max_entries (select (λ e. not (leb e.expires_at now)) cache))
