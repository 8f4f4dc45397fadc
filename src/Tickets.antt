-- ===== src/Tickets.antt =====
-- api/ws_tickets.py: the store of one-use tickets. The clock and the fresh token are arguments;
-- each operation holds the lock, so it is one step.
pub mod Laws
use fragchain_core.Prelude.{
  ℕ, String, Bool, true, false, not, ◌&&◌, Option, none, some, List, [], ◌∷◌, ◌+◌, ltb, str_eq,
  select, length, if◌then◌else◌,
}

-- `_TicketRecord`
pub record TicketRecord : Type 0 where
  pub user_id : ℕ
  pub username : String
  pub tier : String
  pub clearance : String
  pub expires_at : ℕ

-- `_records`, by ticket; a ticket stands in it once.
abbrev pub Records : Type 0
Records = List (String × TicketRecord)

unfoldable pub lookup : String → Records → Option TicketRecord
lookup ticket [] = none
lookup ticket (e ∷ rest) = if str_eq ticket e.0 then some e.1 else lookup ticket rest

unfoldable pub remove : String → Records → Records
remove ticket [] = []
remove ticket (e ∷ rest) =
    let kept = remove ticket rest in if str_eq ticket e.0 then kept else e ∷ kept

-- `_prune_locked`
unfoldable pub prune : ℕ → Records → Records
prune now = select (λ e. not (ltb e.1.expires_at now))

-- `issue`, with the new token
unfoldable pub issue : ℕ → ℕ → String → ℕ → String → String → String → Records → Records
unfolding prune remove
issue now ttl ticket user_id username tier clearance records =
    let record_ : TicketRecord = record {
      user_id = user_id;
      username = username;
      tier = tier;
      clearance = clearance;
      expires_at = now + ttl;
    } in
    (ticket, record_) ∷ remove ticket (prune now records)

unfoldable pub redeem : ℕ → String → Records → Records × Option TicketRecord
unfolding lookup remove
redeem now ticket records =
    if str_eq ticket "" then (records, none) else elim (lookup ticket records) [
      | none ↦ (records, none)
      | some r ↦ (remove ticket records, if ltb r.expires_at now then none else some r)
    ]

-- `size`: the records that are left and their number
unfoldable pub size : ℕ → Records → Records × ℕ
unfolding prune
size now records = let kept = prune now records in (kept, length kept)
