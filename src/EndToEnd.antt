-- ===== src/EndToEnd.antt =====
-- A file's value on its way to the connections: fsnotify/filewatcher.go's runLoop and opLoop, and
-- driver.go's runLoop of the group that receives from the query's channel.
mod Delivered
mod AllGroups
mod Tests
use hotload.Prelude.{ℕ, suc, String, List, [], ◌∷◌}
use hotload.ChanGroup.{Event, new_value}

-- `case v := <-cg.newValChan` for each value received: RedactUrl and the clock are functions, the
-- clock one of how many values came before.
unfoldable pub arrivals : (String → String) → (ℕ → ℕ) → ℕ → List String → List Event
arrivals redact clock n [] = []
arrivals redact clock n (v ∷ vs) =
    new_value v (redact v) (clock n) ∷ arrivals redact clock (suc n) vs
