-- ===== src/HDriver/Tests.antt =====
-- Opens of a location with a strategy that answers one value.
use hotload.Prelude.{◌≡◌, refl, ◌⊎◌, String, false, some, none, [], ◌∷◌, lookup, insert}
use hotload.State.{State, ok}
use hotload.ChanGroup.{open_conn}
use hotload.Registry.{watch_call}
use hotload.HDriver.{HDriver, new_state, new_chan_group, open_driver}
use hotload.HDriver.Opening.{Fresh, Reused, open_driver-lookup, open_driver-watches}
use hotload.ChanGroup.Tests.{plain_driver, plain, url}

abbrev hotload_driver : HDriver
hotload_driver = record {
  registry = record {
    sql_drivers = ("postgres", record { driver = λ name. plain_driver; options = [] }) ∷ [];
    strategies = ("fsnotify", record { watch = λ calls path query. ok "dsn" }) ∷ [];
    strategy_calls = [];
  };
  cgroup = [];
  done = false;
}

abbrev location : String
location = "fsnotify://postgres/dsn"

abbrev fresh_group : State
fresh_group = (open_conn url (new_state (new_chan_group location "dsn" "rv" plain []) false) "rd").0

open_driver-lookup_example :
    (lookup location hotload_driver.cgroup ≡ some fresh_group)
    ⊎ ((location ≡ location)
        × (Reused url hotload_driver location "rd" fresh_group
            ⊎ ((lookup location hotload_driver.cgroup ≡ none)
                × Fresh url hotload_driver location "rv" "rd" fresh_group)))
unfolding open_driver lookup insert
open_driver-lookup_example =
    open_driver-lookup url hotload_driver location "rv" "rd" location fresh_group refl

open_driver-watches_example :
    let after = (open_driver url hotload_driver location "rv" "rd").0.registry in
    (after.sql_drivers ≡ hotload_driver.registry.sql_drivers)
    × (after.strategies ≡ hotload_driver.registry.strategies)
    × ((after.strategy_calls ≡ hotload_driver.registry.strategy_calls)
        ⊎ ((lookup location hotload_driver.cgroup ≡ none)
            × ((scheme path query : String) × (after.strategy_calls
                  ≡ watch_call scheme path query ∷ hotload_driver.registry.strategy_calls))))
open_driver-watches_example = open_driver-watches url hotload_driver location "rv" "rd"
