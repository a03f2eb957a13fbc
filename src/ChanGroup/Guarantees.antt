-- ===== src/ChanGroup/Guarantees.antt =====
-- What the interleavings of runLoop with the group's clients guarantee to database/sql.
use hotload.Prelude.{
  ℕ, ◌<◌, ◌≡◌, refl, String, true, false, ◌⊎◌, inl, inr, none, some, List, [], In, arith, Bool,
  subst,
}
use hotload.State.{State, ChanGroup, Context, DriverInstance, ok}
use hotload.Conn.{is_valid, reset_session}
use hotload.Conn.Evolves.{Closed}
use hotload.Dsn.{UrlLib, Values, merge_conn_string_options}
use hotload.ChanGroup.{parse_url_values}
use hotload.ChanGroup.Steps.{Running, Move, run}
use hotload.ChanGroup.Invariant.{Inv}
use hotload.ChanGroup.Reachable.{run-IsSound}
use hotload.HDriver.{new_chan_group, new_state}

-- A group as hdriver.Open makes it, with runLoop started.
abbrev pub start : String → String → String → DriverInstance → Values → Bool → Running
start name value redacted d query done = record {
  state = new_state (new_chan_group name value redacted d query) done;
  pending = [];
  looping = true;
}

parse_url_values-keeps :
    (g : ChanGroup) (vs : Values)
    → parse_url_values g vs ≡ record g { force_kill = (parse_url_values g vs).force_kill }
unfolding parse_url_values
parse_url_values-keeps g vs = ground arith

Inv-empty :
    (url : UrlLib) (g : ChanGroup) (done : Bool)
    → g.ctx ≡ 0
    → g.cancel ≡ some 0
    → g.conns ≡ []
    → g.prev_cancel ≡ none
    → g.prev_conns ≡ []
    → Inv url (new_state g done) []
unfolding new_state
Inv-empty url g done ctx cancel conns prev_cancel prev_conns = record {
  cancels_ctx = ground arith;
  ctx_lt = ground arith;
  prev_lt = λ x h. ground arith;
  todo_lt = λ x h. elim h [ ];
  live = λ h. refl;
  conn_lt = λ i h. absurd (omega arith);
  fate = λ i h. absurd (omega arith);
  tracked = λ i h. absurd (omega arith);
  forced_ctx = λ f x h. ground arith;
  forced_conns = λ f i h. absurd (subst (In i) prev_conns h);
  listed = λ i h. absurd (subst (In i) conns h);
  prev_listed = λ i h. absurd (subst (In i) prev_conns h);
  listed_ctx = λ i h. absurd (subst (In i) conns h);
}

Inv-reuse :
    (url : UrlLib) (s : State) (i : ℕ) (x : Context)
    → Inv url s []
    → i < s.next_conn
    → (is_valid s i).1 ≡ true
    → (reset_session s i x).1 ≡ none
    → (merge_conn_string_options url s.group.value s.group.sql_driver.options ≡ ok (s.heap i).dsn)
      ⊎ Closed s i
unfolding is_valid reset_session
Inv-reuse url s i x v h valid kept = elim (v.fate i h) [
  | inl c ↦ inl c.1
  | inr (inl (e, inl c)) ↦ inr c
  | inr (inl (e, inr (inl c))) ↦ ground arith
  | inr (inl (e, inr (inr c))) ↦ absurd c
  | inr (inr (inl c)) ↦ ground arith
  | inr (inr (inr c)) ↦ absurd c
]

module _ (url : UrlLib) (name value redacted : String) (d : DriverInstance) (query : Values)
    (done : Bool) (ms : List Move) where
  abbrev now : Running
  now = run url (start name value redacted d query done) ms

  reached : Inv url now.state now.pending
  unfolding new_chan_group
  reached =
      run-IsSound url _ ms
        (rw (parse_url_values-keeps _ query) (Inv-empty url _ done refl refl refl refl refl))

  reached_idle : now.pending ≡ [] → Inv url now.state []
  reached_idle idle = subst (λ p. Inv url now.state p) idle reached

  -- Whatever the interleaving: once runLoop has nothing pending, a connection that passes both
  -- checks of database/sql (IsValid and ResetSession) either has the group's present connection
  -- string or has already been closed.
  pub reuse-current :
      (i : ℕ) (x : Context)
      → now.pending ≡ []
      → i < now.state.next_conn
      → (is_valid now.state i).1 ≡ true
      → (reset_session now.state i x).1 ≡ none
      → (merge_conn_string_options url now.state.group.value now.state.group.sql_driver.options
          ≡ ok (now.state.heap i).dsn)
        ⊎ Closed now.state i
  reuse-current i x idle h valid kept = Inv-reuse url now.state i x (reached_idle idle) h valid kept

  -- Once runLoop has nothing pending, every connection ever opened is in the present list, in the
  -- list of the previous connection string, or its underlying Close has been called.
  pub conns-tracked :
      (i : ℕ)
      → now.pending ≡ []
      → i < now.state.next_conn
      → In i now.state.group.conns ⊎ (In i now.state.group.prev_conns ⊎ Closed now.state i)
  conns-tracked i idle h = ground (arith, (reached_idle idle).tracked i h)

  -- With forceKill, once runLoop has nothing pending, every connection ever opened is in the
  -- present list or closed, and has the present context or a cancelled one.
  pub forced-tracked :
      (i : ℕ)
      → now.pending ≡ []
      → i < now.state.next_conn
      → now.state.group.force_kill ≡ true
      → (In i now.state.group.conns ⊎ Closed now.state i)
        × (((now.state.heap i).ctx ≡ now.state.group.ctx)
            ⊎ (now.state.canceled (now.state.heap i).ctx ≡ true))
  forced-tracked i idle h f =
      let v = reached_idle idle in
      (
        elim (v.tracked i h) [
          | inl k ↦ inl k
          | inr (inl k) ↦ ground (arith, v.forced_conns f i k)
          | inr (inr k) ↦ ground arith
        ],
        elim (v.fate i h) [
          | inl c ↦ inl c.0
          | inr (inl c) ↦ ground (arith, v.forced_ctx f (now.state.heap i).ctx c.0)
          | inr (inr (inl c)) ↦ inr c
          | inr (inr (inr c)) ↦ absurd c
        ],
      )

  -- At every moment a connection of the present list has the present context, which is not cancelled while the
  -- parent context lives: Open never hands out a connection that is already condemned.
  pub listed-live :
      (i : ℕ)
      → In i now.state.group.conns
      → now.state.parent_done ≡ false
      → now.state.canceled (now.state.heap i).ctx ≡ false
  listed-live i h alive = rw (reached.listed_ctx i h) (reached.live alive)
