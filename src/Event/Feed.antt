-- ===== src/Event/Feed.antt =====
-- pkg/event/feed.go: Feed and feedSub. A channel is a number, so is an element type and a value.
-- What the environment decides during Send is an argument: for each round of its loop the answers
-- of TrySend and the choice of reflect.Select. Subscribe and the inbox part of remove touch only
-- what Send does not read in its loop, so those calls stand before or after it.
pub mod Delivery
pub mod Progress
pub mod Loaded
pub mod Served
pub mod Send
pub mod Locks
pub mod Reach
use airfk.Shared.{
  ℕ, zero, suc, ◌+◌, ◌-◌, ◌≤◌, ◌<◌, ◌≡◌, refl, Bool, true, false, not, Option, none, some, List, [],
  ◌∷◌, ◌++◌, map, arith, ltb, ◌==◌, if◌then◌else◌, length, get_elem?,
}
use airfk.Event.Cases.{Case, find, delete, deactivate}

pub record Feed : Type 0 where
  pub remove_sub : ℕ
  -- whether the token is in the channel, that is, nobody holds the lock
  pub send_lock : Bool
  pub send_cases : List Case
  -- whether the mutex is held
  pub mu : Bool
  pub inbox : List Case
  pub etype : Option ℕ

-- `blocked`: the call waits for a lock that is held.
pub data Outcome (A : Type 0) : Type 0 where
  done : A → Feed → Outcome A
  panicked : Feed → Outcome A
  blocked : Outcome A

-- sendCases[0] receives from removeSub.
abbrev pub first_sub_send_case : ℕ
first_sub_send_case = 1

unfoldable pub init : ℕ → Feed
init remove_sub = record {
  remove_sub = remove_sub;
  send_lock = true;
  send_cases = record { chan = remove_sub; value = none } ∷ [];
  mu = false;
  inbox = [];
  etype = none;
}

unfoldable pub typecheck : Feed → ℕ → Feed × Bool
typecheck f typ = elim f.etype [
  | none ↦ (record f { etype = some typ }, true)
  | some t ↦ (f, t == typ)
]

-- `sendable`: the argument is a channel that can be sent on; `elem` is its element type.
unfoldable pub subscribe : Feed → Bool → ℕ → ℕ → Outcome ℕ
subscribe f sendable elem channel =
    if not sendable
    then panicked f
    else if f.mu
    then blocked
    else (let (g, fits) = typecheck f elem in
        if fits
        then done channel
            (record g { inbox = g.inbox ++ record { chan = channel; value = none } ∷ [] })
        else panicked g)

-- Feed.remove while no Send is in progress. A missing channel makes `delete` slice out of range,
-- with the token taken.
unfoldable pub remove_idle : Feed → ℕ → Outcome (Unit {0})
remove_idle f ch =
    if f.send_lock
    then elim (find ch f.send_cases) [
      | none ↦ panicked (record f { send_lock = false })
      | some index ↦ done tt (record f { send_cases = delete f.send_cases index })
    ]
    else blocked

unfoldable pub remove : Feed → ℕ → Outcome (Unit {0})
remove f ch = if f.mu then blocked else elim (find ch f.inbox) [
  | some index ↦ done tt (record f { inbox = delete f.inbox index })
  | none ↦ remove_idle f ch
]

pub record FeedSub : Type 0 where
  pub channel : ℕ
  -- whether errOnce has run
  pub unsubscribed : Bool

unfoldable pub unsubscribe : Feed → FeedSub → Outcome FeedSub
unsubscribe f sub = if sub.unsubscribed then done sub f else elim (remove f sub.channel) [
  | done _ g ↦ done (record sub { unsubscribed = true }) g
  | panicked g ↦ panicked g
  | blocked ↦ blocked
]

-- What reflect.Select returns: an unsubscribed channel from removeSub, or that the case at the
-- index after `ready` took the value.
pub data Pick : Type 0 where
  unsubscribes : ℕ → Pick
  ready : ℕ → Pick

-- The environment in one round: the answer of each TrySend, by the number of tries left, and the
-- choice of Select.
pub record Round : Type 0 where
  pub accepts : ℕ → Bool
  pub pick : Pick

-- Send between its locks: `n` is the length of the slice `cases` of sendCases. `delivered` lists
-- the sends made, and `dropped` the cases that were taken out before their send.
pub record Sending : Type 0 where
  pub cases : List Case
  pub n : ℕ
  pub nsent : ℕ
  pub delivered : List Case
  pub dropped : List Case

-- The case at `index` has taken `value`.
unfoldable pub sent : Sending → ℕ → Case → Sending
sent s index c = record s {
  cases = deactivate s.cases s.n index;
  n = s.n - 1;
  nsent = s.nsent + 1;
  delivered = s.delivered ++ c ∷ [];
}

-- The fast path: `left` is the number of cases from index `i` on.
unfoldable pub try_all : (ℕ → Bool) → ℕ → ℕ → ℕ → Sending → Sending
try_all accepts zero i value s = s
try_all accepts (suc left) i value s = elim (get_elem? s.cases i) [
  | none ↦ s
  | some c ↦
      let taken = try_all accepts left i value (sent s i (record c { value = some value })) in
      let kept = try_all accepts left (suc i) value s in if accepts left then taken else kept
]

-- The case at `index` is deleted, and `cases` shrinks too because it was still active.
unfoldable pub drop_active : Sending → ℕ → Case → Sending
drop_active s index c = record s {
  cases = delete s.cases index;
  n = s.n - 1;
  dropped = s.dropped ++ c ∷ [];
}

-- The case at `index` is deleted behind the active ones.
unfoldable pub drop_served : Sending → ℕ → Sending
drop_served s index = record s { cases = delete s.cases index }

-- After Select. `none` is the panic of an index out of range.
unfoldable pub apply_pick : Pick → Sending → Option Sending
apply_pick (unsubscribes ch) s = elim (find ch s.cases) [
  | none ↦ none
  | some index ↦ elim (get_elem? s.cases index) [
    | none ↦ none
    | some c ↦ if ltb index s.n then some (drop_active s index c) else some (drop_served s index)
  ]
]
apply_pick (ready j) s = elim (get_elem? s.cases (suc j)) [
  | none ↦ none
  | some c ↦ if ltb (suc j) s.n then some (sent s (suc j) c) else none
]

-- `waiting`: Select has nothing to return yet.
pub data Progressed : Type 0 where
  finished waiting crashed : Sending → Progressed

unfoldable pub send_loop : List Round → ℕ → Sending → Progressed
send_loop [] value s = waiting s
send_loop (r ∷ rs) value s =
    let t = try_all r.accepts (s.n - first_sub_send_case) first_sub_send_case value s in
    if t.n == first_sub_send_case
    then finished t
    else elim (apply_pick r.pick t) [ none ↦ crashed t | some u ↦ send_loop rs value u ]

-- The loops that set and clear the value of every case behind the first.
unfoldable pub set_values : Option ℕ → List Case → List Case
set_values value [] = []
set_values value (c ∷ cs) = c ∷ map (λ (d : Case). record d { value = value }) cs

unfoldable pub start_sending : ℕ → List Case → Sending
start_sending value cs = record {
  cases = set_values (some value) cs;
  n = length cs;
  nsent = 0;
  delivered = [];
  dropped = [];
}

-- The result is nsent, with the sends made. A wrong type panics after the token is put back, with
-- the mutex still held.
unfoldable pub send : Feed → ℕ → ℕ → List Round → Outcome (ℕ × List Case)
send f typ value rounds =
    if not f.send_lock
    then blocked
    else if f.mu
    then blocked
    else (let open_feed = record f { send_cases = f.send_cases ++ f.inbox; inbox = [] } in
        let (g, fits) = typecheck open_feed typ in
        if fits
        then elim (send_loop rounds value (start_sending value g.send_cases)) [
          | finished t ↦
              done (t.nsent, t.delivered) (record g { send_cases = set_values none t.cases })
          | waiting t ↦ blocked
          | crashed t ↦ panicked (record g { send_lock = false; send_cases = t.cases })
        ]
        else panicked (record g { mu = true }))
