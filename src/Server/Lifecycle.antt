-- ===== src/Server/Lifecycle.antt =====
-- The codecs of a server between serveRequest, ServeCodec and Stop of pkg/server/server.go, as steps
-- of any number of goroutines. A step is what happens under CodecsMu, or one atomic access to Run.
pub mod Stopped
use airfk.Shared.{
  ℕ, ◌+◌, ◌-◌, ◌≡◌, ◌≢◌, refl, sym, ap, Bool, true, false, List, [], ◌∷◌, ◌++◌, arith, ◌==◌, ==_iff,
  if◌then◌else◌, All, Bool-cases, inl, inr, ◌⊎◌,
}

-- Codecs are numbers. `sweeps` counts the calls of Stop that wait to close the codecs, and `swept`
-- says that one has done so.
pub record Lifecycle : Type 0 where
  pub run : Bool
  pub codecs : List ℕ
  pub closed : List ℕ
  pub sweeps : ℕ
  pub swept : Bool

unfoldable pub remove : ℕ → List ℕ → List ℕ
remove c [] = []
remove c (d ∷ ds) = let rest = remove c ds in if d == c then rest else d ∷ rest

-- Adding to the set, which leaves a member alone.
unfoldable pub member : ℕ → List ℕ → Bool
member c [] = false
member c (d ∷ ds) = if d == c then true else member c ds

unfoldable pub add : ℕ → List ℕ → List ℕ
add c ds = if member c ds then ds else c ∷ ds

abbrev pub new_lifecycle : Lifecycle
new_lifecycle = record { run = true; codecs = []; closed = []; sweeps = 0; swept = false }

-- The part of serveRequest under the lock before its loop; the flag says whether it goes on.
unfoldable pub admit : Lifecycle → ℕ → Lifecycle × Bool
admit s c = if s.run then (record s { codecs = add c s.codecs }, true) else (s, false)

-- The deferred part of serveRequest under the lock.
unfoldable pub leave : Lifecycle → ℕ → Lifecycle
leave s c = record s { codecs = remove c s.codecs }

-- Close of a codec, by ServeCodec at its end, by a failed write or by anyone else.
unfoldable pub close_codec : Lifecycle → ℕ → Lifecycle
close_codec s c = record s { closed = c ∷ s.closed }

-- The compare-and-swap of Stop, and what it does under the lock.
unfoldable pub stop_begin : Lifecycle → Lifecycle
stop_begin s = if s.run then record s { run = false; sweeps = s.sweeps + 1 } else s

unfoldable pub sweep : Lifecycle → Lifecycle
sweep s = record s { closed = s.codecs ++ s.closed; sweeps = s.sweeps - 1; swept = true }

pub data Step (s : Lifecycle) : Lifecycle → Type 0 where
  admitting : (c : ℕ) → Step s (admit s c).0
  leaving : (c : ℕ) → Step s (leave s c)
  closing : (c : ℕ) → Step s (close_codec s c)
  stopping : Step s (stop_begin s)
  sweeping : (s.sweeps ≢ 0) → Step s (sweep s)

pub data Reach : Lifecycle → Type 0 where
  start : Reach new_lifecycle
  later : {s t : Lifecycle} → Reach s → Step s t → Reach t
