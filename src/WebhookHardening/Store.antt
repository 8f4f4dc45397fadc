-- ===== src/WebhookHardening/Store.antt =====
-- What the store of idempotency keys promises.
use fragchain_core.Prelude.{
  ℕ, String, Bool, not, none, some, List, [], ◌∷◌, ◌+◌, ◌≤◌, ◌<◌, length, select, leb,
  if◌then◌else◌, ◌≡◌, arith,
}
use text.Mathlib.TextPositions.{eq_refl}
use fragchain_core.WebhookHardening.{Entry, Cache, find, get, evict, set_item, put}

length-select-le : {A : Type 0} (p : A → Bool) (l : List A) → length (select p l) ≤ length l
length-select-le p [] = omega arith
length-select-le p (a ∷ l) = ground (arith, length-select-le p l)

length-evict : (m : ℕ) (cache : Cache) → 0 < m → length (evict m cache) < m
unfolding evict
length-evict m [] h = h
length-evict m (e ∷ rest) h = ground (arith, length-evict m rest h)

length-set_item-le : (new : Entry) (cache : Cache) → length (set_item new cache) ≤ length cache + 1
unfolding set_item
length-set_item-le new [] = omega arith
length-set_item-le new (e ∷ rest) = ground (arith, length-set_item-le new rest)

find-set_item : (new : Entry) (cache : Cache) → find new.key (set_item new cache) ≡ some new
unfolding set_item find
find-set_item new [] = ground (arith, eq_refl new.key)
find-set_item new (e ∷ rest) = ground (arith, eq_refl new.key, find-set_item new rest)

-- With room for one entry, a put leaves at most the allowed number, and the result is found under
-- its key until the time to live is over, and not from then on.
get-put :
    (now ttl max_entries later : ℕ) (key result : String) (cache : Cache)
    → 0 < max_entries
    → (length (put now ttl max_entries key result cache) ≤ max_entries)
      × ((get later key (put now ttl max_entries key result cache)).1
          ≡ (if leb (now + ttl) later then none else some result))
unfolding put get
get-put now ttl max_entries later key result cache h = (
  omega (
    arith,
    length-set_item-le record { key = key; result = result; expires_at = now + ttl }
        (evict max_entries (select (λ e. not (leb e.expires_at now)) cache)),
    length-evict max_entries (select (λ e. not (leb e.expires_at now)) cache) h,
  ),
  ground (
    arith,
    find-set_item record { key = key; result = result; expires_at = now + ttl }
        (evict max_entries (select (λ e. not (leb e.expires_at now)) cache)),
  ),
)
