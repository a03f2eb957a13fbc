-- ===== src/Metrics/Counting.antt =====
-- metrics/prometheus.go: what the counter and the gauge of each url show.
use hotload.Prelude.{ℕ, ◌+◌, String, Option, none, some, List, [], ◌∷◌, str_eq, if◌then◌else◌}
use hotload.Metrics.{
  Collectors, inc_change_total, set_last_changed, observe_modtime_latency, reset_collectors,
}

pub data Update : Type 0 where
  incs : String → Update
  sets : String → ℕ → Update
  observes : String → String → ℕ → Update
  resets : Update

unfoldable pub update_all : Collectors → List Update → Collectors
unfolding inc_change_total set_last_changed observe_modtime_latency reset_collectors
update_all c [] = c
update_all c (incs url ∷ us) = update_all (inc_change_total c url) us
update_all c (sets url val ∷ us) = update_all (set_last_changed c url val) us
update_all c (observes strategy path val ∷ us) =
    update_all (observe_modtime_latency c strategy path val) us
update_all c (resets ∷ us) = update_all (reset_collectors c) us

-- How often the url's counter was incremented since the last reset, from `n` on.
unfoldable pub incs_of : String → ℕ → List Update → ℕ
incs_of url n [] = n
incs_of url n (incs u ∷ us) = incs_of url (if str_eq u url then n + 1 else n) us
incs_of url n (sets u val ∷ us) = incs_of url n us
incs_of url n (observes strategy path val ∷ us) = incs_of url n us
incs_of url n (resets ∷ us) = incs_of url 0 us

-- What the url's gauge was set to last, since the last reset.
unfoldable pub last_set : String → Option ℕ → List Update → Option ℕ
last_set url o [] = o
last_set url o (incs u ∷ us) = last_set url o us
last_set url o (sets u val ∷ us) = last_set url (if str_eq u url then some val else o) us
last_set url o (observes strategy path val ∷ us) = last_set url o us
last_set url o (resets ∷ us) = last_set url none us
