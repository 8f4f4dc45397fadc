-- ===== src/Events/Bus.antt =====
-- notifications/events.py: `EventBus`. The queues are in the order of their subscription.
use fragchain_core.Prelude.{
  ℕ, zero, suc, Bool, not, List, [], ◌∷◌, ◌++◌, ◌-◌, ◌≤◌, select, map, length, length-append, ltb,
  ◌==◌, if◌then◌else◌, ◌≡◌, arith, All, Bool-cases, inl, inr,
}
use fragchain_core.Chunking.{drop}
use fragchain_core.Events.{Event}

-- A queue of a subscriber; the source tells queues apart by identity.
pub record Queue : Type 0 where
  pub id : ℕ
  pub items : List Event

pub record EventBus : Type 0 where
  pub subscribers : List Queue
  pub history : List Event

abbrev pub empty_bus : EventBus
empty_bus = record { subscribers = []; history = [] }

unfoldable pub subscribe : ℕ → EventBus → EventBus
subscribe id b = record b { subscribers = b.subscribers ++ (record { id = id; items = [] } ∷ []) }

unfoldable pub unsubscribe : ℕ → EventBus → EventBus
unsubscribe id b = record b { subscribers = select (λ (q : Queue). not (q.id == id)) b.subscribers }

-- `put_nowait` on a queue of at most 64; a full one loses the event.
unfoldable pub put_nowait : Event → Queue → Queue
put_nowait e q = if ltb (length q.items) 64 then record q { items = q.items ++ (e ∷ []) } else q

-- history[-256:]
unfoldable pub last_events : ℕ → List Event → List Event
last_events limit history = drop (length history - limit) history

unfoldable pub emit : Event → EventBus → EventBus
unfolding put_nowait last_events
emit e b =
    let history = b.history ++ (e ∷ []) in
    record {
      history = if ltb 256 (length history) then last_events 256 history else history;
      subscribers = map (put_nowait e) b.subscribers;
    }

-- `queue.get`, of a queue that is not empty
abbrev pub taken : Queue → Queue
taken q = record q { items = drop 1 q.items }

unfoldable pub get : ℕ → EventBus → EventBus
get id b = record b {
  subscribers = map (λ (q : Queue). if q.id == id then taken q else q) b.subscribers;
}

-- list(history[-limit:]); a limit of 0 gives the whole history
unfoldable pub recent : ℕ → EventBus → List Event
unfolding last_events
recent limit b = if limit == 0 then b.history else last_events limit b.history

unfoldable pub reset : EventBus → EventBus
reset b = empty_bus

pub data Step : EventBus → EventBus → Type 0 where
  subscribes : (id : ℕ) (b : EventBus) → Step b (subscribe id b)
  unsubscribes : (id : ℕ) (b : EventBus) → Step b (unsubscribe id b)
  emits : (e : Event) (b : EventBus) → Step b (emit e b)
  gets : (id : ℕ) (b : EventBus) → Step b (get id b)
  resets : (b : EventBus) → Step b (reset b)

pub data Reach : EventBus → Type 0 where
  here : Reach empty_bus
  next : {b c : EventBus} → Reach b → Step b c → Reach c

-- A bus in its bounds.
abbrev pub IsBounded : EventBus → Type 0
IsBounded b = (length b.history ≤ 256) × All (λ (q : Queue). length q.items ≤ 64) b.subscribers

length-drop : (n : ℕ) (l : List Event) → length (drop n l) ≡ length l - n
length-drop zero l = omega arith
length-drop (suc n) [] = omega arith
length-drop (suc n) (e ∷ l) = omega (arith, length-drop n l)

All-map :
    (P : Queue → Type 0) (f : Queue → Queue)
    → ((q : Queue) → P q → P (f q))
    → (l : List Queue) → All P l
    → All P (map f l)
All-map P f h [] a = tt
All-map P f h (q ∷ l) (p, a) = (h q p, All-map P f h l a)

All-extended :
    (P : Queue → Type 0) (l : List Queue) (q : Queue) → All P l → P q → All P (l ++ (q ∷ []))
All-extended P [] q a p = (p, tt)
All-extended P (r ∷ l) q (h, a) p = (h, All-extended P l q a p)

All-select : (P : Queue → Type 0) (p : Queue → Bool) (l : List Queue) → All P l → All P (select p l)
All-select P p [] a = tt
All-select P p (q ∷ l) (h, a) = elim (Bool-cases (p q)) [
  | inl e ↦ rw e (h, All-select P p l a)
  | inr e ↦ rw e (All-select P p l a)
]

emit-history : (e : Event) (b : EventBus) → length b.history ≤ 256 → length (emit e b).history ≤ 256
unfolding emit last_events
emit-history e b h = ground (
  arith,
  length-append b.history (e ∷ []),
  length-drop (length (b.history ++ (e ∷ [])) - 256) (b.history ++ (e ∷ [])),
)

put_nowait-bound :
    (e : Event) (q : Queue) → length q.items ≤ 64 → length (put_nowait e q).items ≤ 64
unfolding put_nowait
put_nowait-bound e q h = ground (arith, length-append q.items (e ∷ []))

taken-bound :
    (id : ℕ) (q : Queue)
    → length q.items ≤ 64
    → length (if q.id == id then taken q else q).items ≤ 64
taken-bound id q h = ground (arith, length-drop 1 q.items)

Step-IsBounded : {b c : EventBus} → Step b c → IsBounded b → IsBounded c
unfolding subscribe unsubscribe emit get reset
Step-IsBounded (subscribes id b) (h, a) =
    (h, All-extended _ b.subscribers record { id = id; items = [] } a (omega arith))
Step-IsBounded (unsubscribes id b) (h, a) =
    (h, All-select _ (λ (q : Queue). not (q.id == id)) b.subscribers a)
Step-IsBounded (emits e b) (h, a) =
    (emit-history e b h, All-map _ (put_nowait e) (put_nowait-bound e) b.subscribers a)
Step-IsBounded (gets id b) (h, a) = (
  h,
  All-map _ (λ (q : Queue). if q.id == id then taken q else q) (taken-bound id) b.subscribers a,
)
Step-IsBounded (resets b) (h, a) = (omega arith, tt)

-- In every state that a bus reaches, its history holds at most 256 events and each queue at most 64,
-- however slow the subscribers are.
pub Reach-IsBounded : {b : EventBus} → Reach b → IsBounded b
Reach-IsBounded here = (omega arith, tt)
Reach-IsBounded (next r step) = Step-IsBounded step (Reach-IsBounded r)
