-- ===== src/HDriver/Opening.antt =====
-- Which groups hdriver.Open stores, and when it watches a location.
use hotload.Prelude.{
  ◌≡◌, refl, sym, ◌∙◌, ap, String, ◌⊎◌, inl, inr, Option, some, none, ◌∷◌, arith, lookup,
  lookup-insert, str_eq, eq_iff, Option-cases, Bool-cases, if◌then◌else◌,
}
use hotload.State.{State, DriverInstance, Result-cases, ok}
use hotload.Dsn.{Url, UrlLib}
use hotload.ChanGroup.{open_conn}
use hotload.Registry.{Registered, Strategy, watch_call}
use hotload.HDriver.{HDriver, log_watch, new_chan_group, new_state, open_in, open_new, open_driver}

-- The registered driver as the group of the location sees it.
abbrev pub target : Registered → String → DriverInstance
target d name = record { driver = d.driver name; options = d.options }

-- The state is that of a group started for the location, with one Open on it: the URL names a
-- registered strategy and driver, and the strategy's Watch answered the group's value.
pub record Fresh (url : UrlLib) (h : HDriver) (name redact_val redact_dsn : String) (t : State)
    : Type 0 where
  pub uri : Url
  pub strategy : Strategy
  pub driver : Registered
  pub value : String
  pub parsed : url.parse name ≡ ok uri
  pub has_strategy : lookup uri.scheme h.registry.strategies ≡ some strategy
  pub has_driver : lookup uri.host h.registry.sql_drivers ≡ some driver
  pub watched :
      strategy.watch h.registry.strategy_calls uri.path (url.encode (url.query uri)) ≡ ok value
  pub started :
      t
      ≡ (open_conn url
          (new_state
            (new_chan_group name value redact_val (target driver name) (url.query uri))
            h.done)
          redact_dsn).0

-- The state is that of the location's group with one more Open on it.
pub record Reused (url : UrlLib) (h : HDriver) (name redact_dsn : String) (t : State) : Type 0 where
  pub old : State
  pub found : lookup name h.cgroup ≡ some old
  pub opened : t ≡ (open_conn url old redact_dsn).0

module _ (url : UrlLib) (h : HDriver) (name redact_val redact_dsn : String) where
  open_in-lookup :
      (g : HDriver) (s : State) (other : String)
      → lookup other (open_in url g name s redact_dsn).0.cgroup
        ≡ (if str_eq name other then some (open_conn url s redact_dsn).0 else lookup other g.cgroup)
  unfolding open_in
  open_in-lookup g s other = lookup-insert name other _ g.cgroup

  open_new-cases :
      (uri : Url)
      → url.parse name ≡ ok uri
      → ((open_new url h name uri redact_val redact_dsn).0.cgroup ≡ h.cgroup)
        ⊎ ((t : State) × Fresh url h name redact_val redact_dsn t
            × ((other : String)
                → lookup other (open_new url h name uri redact_val redact_dsn).0.cgroup
                  ≡ (if str_eq name other then some t else lookup other h.cgroup)))
  unfolding open_new
  open_new-cases uri p = elim (Option-cases (lookup uri.scheme h.registry.strategies)) [
    | inl e ↦ inl (rw (e, open_new))
    | inr (strategy, e) ↦ elim (Option-cases (lookup uri.host h.registry.sql_drivers)) [
      | inl f ↦ inl (rw (e, f, open_new))
      | inr (d, f) ↦
          elim (Result-cases
            (strategy.watch h.registry.strategy_calls uri.path (url.encode (url.query uri)))) [
              | inr (x, w) ↦ inl (rw (e, f, w, open_new))
              | inl (value, w) ↦ inr (
                _,
                record {
                  uri = uri;
                  strategy = strategy;
                  driver = d;
                  value = value;
                  parsed = p;
                  has_strategy = e;
                  has_driver = f;
                  watched = w;
                  started = refl;
                },
                λ other.
                    rw (e, f, w, open_new)
                      (open_in-lookup
                        (log_watch h (watch_call uri.scheme uri.path (url.encode (url.query uri))))
                        (new_state
                          (new_chan_group name value redact_val (target d name) (url.query uri))
                          h.done)
                        other),
              )
            ]
    ]
  ]

  -- A lookup after a write at `name` finds the new value there, and the old one elsewhere.
  written :
      (other : String) (new : State) (m : Option State) {t : State}
      → (if str_eq name other then some new else m) ≡ some t
      → (m ≡ some t) ⊎ ((other ≡ name) × (t ≡ new))
  written other new m e = elim (Bool-cases (str_eq name other)) [
    | inl b ↦ inr (ground (arith, eq_iff name other), ground arith)
    | inr b ↦ inl (ground arith)
  ]

  -- After Open, a group stored under any location is the one that was there, or stands under the
  -- opened location and is the old group with one more Open on it or a fresh one.
  pub open_driver-lookup :
      (other : String) (t : State)
      → lookup other (open_driver url h name redact_val redact_dsn).0.cgroup ≡ some t
      → (lookup other h.cgroup ≡ some t)
        ⊎ ((other ≡ name)
            × (Reused url h name redact_dsn t
                ⊎ ((lookup name h.cgroup ≡ none) × Fresh url h name redact_val redact_dsn t)))
  unfolding open_driver
  open_driver-lookup other t e = elim (Result-cases (url.parse name)) [
    | inr (x, p) ↦ inl (rw (p, open_driver) at e)
    | inl (uri, p) ↦ elim (Option-cases (lookup name h.cgroup)) [
      | inr (old, f) ↦
          elim (written other _ _
            (sym (open_in-lookup h old other) ∙ (rw (p, f, open_driver) at e))) [
              | inl k ↦ inl k
              | inr (o, n) ↦ inr (o, inl (record { old = old; found = f; opened = n }))
            ]
      | inl f ↦ elim (open_new-cases uri p) [
        | inl same ↦ inl (sym (ap (lookup other) same) ∙ (rw (p, f, open_driver) at e))
        | inr (new, fresh, at_other) ↦
            elim (written other new _ (sym (at_other other) ∙ (rw (p, f, open_driver) at e))) [
              | inl k ↦ inl k
              | inr (o, n) ↦ inr (o, inr (f, rw n fresh))
            ]
      ]
    ]
  ]

  -- Open leaves the registries alone, and calls a strategy at most once, to watch, and only for a
  -- location that has no group.
  pub open_driver-watches :
      let after = (open_driver url h name redact_val redact_dsn).0.registry in
      (after.sql_drivers ≡ h.registry.sql_drivers)
      × (after.strategies ≡ h.registry.strategies)
      × ((after.strategy_calls ≡ h.registry.strategy_calls)
          ⊎ ((lookup name h.cgroup ≡ none)
              × ((scheme path query : String) × (after.strategy_calls
                    ≡ watch_call scheme path query ∷ h.registry.strategy_calls))))
  unfolding open_driver open_new open_in
  open_driver-watches = ground arith
