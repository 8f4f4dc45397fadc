-- ===== src/Tickets/Laws.antt =====
-- A ticket opens one connection, for the user it was issued to, until it expires.
use fragchain_core.Prelude.{
  ℕ, String, false, none, some, [], ◌∷◌, ◌≡◌, refl, arith, ◌+◌, str_eq, ltb, if◌then◌else◌,
}
use fragchain_core.Tickets.{Records, lookup, remove, issue, redeem}
use text.Mathlib.TextPositions.{eq_refl}

lookup-remove : (ticket : String) (records : Records) → lookup ticket (remove ticket records) ≡ none
unfolding lookup remove
lookup-remove ticket [] = refl
lookup-remove ticket (e ∷ rest) = ground (arith, lookup-remove ticket rest)

-- Whatever a first attempt with a ticket gave, a later attempt with it, at any time, gives nothing
-- and leaves the store as it is.
pub redeem-redeem :
    (now later : ℕ) (ticket : String) (records : Records)
    → redeem later ticket (redeem now ticket records).0 ≡ ((redeem now ticket records).0, none)
unfolding redeem
redeem-redeem now later ticket records = ground (arith, lookup-remove ticket records)

-- A non-empty ticket is redeemed, until `ttl` after it was issued and not later, by the user it
-- was issued to.
pub redeem-issue :
    (now ttl later : ℕ) (ticket : String) (user_id : ℕ) (username tier clearance : String)
    (records : Records)
    → str_eq ticket "" ≡ false
    → (redeem later ticket (issue now ttl ticket user_id username tier clearance records)).1 ≡ (
        if ltb (now + ttl) later
        then none
        else some record {
          user_id = user_id;
          username = username;
          tier = tier;
          clearance = clearance;
          expires_at = now + ttl;
        })
unfolding redeem issue lookup
redeem-issue now ttl later ticket user_id username tier clearance records ne =
    ground (arith, ne, eq_refl ticket)
