-- ===== src/Base/Trace.antt =====
-- Histories of events against a specification: what one event allows, event by event.
use mathlib.Core.Path.{◌≡◌}
use mathlib.Core.List.{List, [], ◌∷◌, ◌++◌}

module _ {S : Type 0} {E : Type 0} (Allows : S → E → S → Type 0) where
  abbrev pub Replays : S → List E → S → Type 0
  Replays l [] m = l ≡ m
  Replays l (e ∷ es) m = (k : S) × Allows l e k × Replays k es m

  pub Replays-append :
      (l m k : S) (es fs : List E) → Replays l es m → Replays m fs k → Replays l (es ++ fs) k
  Replays-append l m k [] fs h g = rw h g
  Replays-append l m k (e ∷ es) fs (n, a, h) g = (n, a, Replays-append n m k es fs h g)
