-- ===== src/ChanGroup/Quiet.antt =====
-- Resetting and closing connections that are in no list: only heap cells and calls change.
use hotload.Prelude.{ℕ, ◌≡◌, refl, ◌∙◌, ap, true, List, [], ◌∷◌, arith}
use hotload.State.{State, DriverCall, close_call}
use hotload.Conn.{close, close_conn, set_reset, remove}
use hotload.ChanGroup.{reset_and_close_all, close_all, reset_all}

-- The Close calls of connections with the given handles, newest first, on top of earlier calls.
unfoldable pub close_calls : (ℕ → ℕ) → List ℕ → List DriverCall → List DriverCall
close_calls f [] earlier = earlier
close_calls f (c ∷ cs) earlier = close_calls f cs (close_call (f c) ∷ earlier)

-- A connection that is in no list: only its heap cell and the calls change.
pub record Quiet (f : ℕ → ℕ) (earlier : List DriverCall) (s t : State) : Type 0 where
  pub group_eq : t.group ≡ s.group
  pub canceled_eq : t.canceled ≡ s.canceled
  pub calls_eq : t.calls ≡ earlier
  pub handles : (i : ℕ) → (t.heap i).conn ≡ f i

close-Quiet :
    (f : ℕ → ℕ) (s : State) (c : ℕ)
    → s.group.conns ≡ []
    → ((i : ℕ) → (s.heap i).conn ≡ f i)
    → Quiet f (close_call (f c) ∷ s.calls) s (close s c).0
unfolding close close_conn remove
close-Quiet f s c e h = record {
  group_eq = ground arith;
  canceled_eq = ground arith;
  calls_eq = ground (arith, h c);
  handles = λ i. ground (arith, h i);
}

set_reset-Quiet :
    (f : ℕ → ℕ) (s : State) (c : ℕ)
    → ((i : ℕ) → (s.heap i).conn ≡ f i)
    → Quiet f s.calls s (set_reset s c true)
unfolding set_reset
set_reset-Quiet f s c h = record {
  group_eq = refl;
  canceled_eq = refl;
  calls_eq = refl;
  handles = λ i. ground (arith, h i, h c);
}

-- A later part whose calls are a function of the earlier ones.
pub Quiet-then :
    (f : ℕ → ℕ) (k : List DriverCall) (more : List DriverCall → List DriverCall) (s t u : State)
    → Quiet f k s t
    → Quiet f (more t.calls) t u
    → Quiet f (more k) s u
Quiet-then f k more s t u p q = record {
  group_eq = q.group_eq ∙ p.group_eq;
  canceled_eq = q.canceled_eq ∙ p.canceled_eq;
  calls_eq = q.calls_eq ∙ ap more p.calls_eq;
  handles = q.handles;
}

pub close_all-Quiet :
    (f : ℕ → ℕ) (s : State) (cs : List ℕ)
    → s.group.conns ≡ []
    → ((i : ℕ) → (s.heap i).conn ≡ f i)
    → Quiet f (close_calls f cs s.calls) s (close_all s cs)
unfolding close_all close_calls
close_all-Quiet f s [] e h = record {
  group_eq = refl;
  canceled_eq = refl;
  calls_eq = refl;
  handles = h;
}
close_all-Quiet f s (c ∷ cs) e h =
    let q = close-Quiet f s c e h in
    Quiet-then f _ (close_calls f cs) s _ _ q
      (close_all-Quiet f (close s c).0 cs (ap (λ g. g.conns) q.group_eq ∙ e) q.handles)

pub reset_all-Quiet :
    (f : ℕ → ℕ) (s : State) (cs : List ℕ)
    → ((i : ℕ) → (s.heap i).conn ≡ f i)
    → Quiet f s.calls s (reset_all s cs)
unfolding reset_all
reset_all-Quiet f s [] h = record {
  group_eq = refl;
  canceled_eq = refl;
  calls_eq = refl;
  handles = h;
}
reset_all-Quiet f s (c ∷ cs) h =
    let q = set_reset-Quiet f s c h in
    Quiet-then f _ (λ k. k) s _ _ q (reset_all-Quiet f (set_reset s c true) cs q.handles)

pub reset_and_close_all-Quiet :
    (f : ℕ → ℕ) (s : State) (cs : List ℕ)
    → s.group.conns ≡ []
    → ((i : ℕ) → (s.heap i).conn ≡ f i)
    → Quiet f (close_calls f cs s.calls) s (reset_and_close_all s cs)
unfolding reset_and_close_all close_calls set_reset
reset_and_close_all-Quiet f s [] e h = record {
  group_eq = refl;
  canceled_eq = refl;
  calls_eq = refl;
  handles = h;
}
reset_and_close_all-Quiet f s (c ∷ cs) e h =
    let p = set_reset-Quiet f s c h in
    let q = close-Quiet f (set_reset s c true) c e p.handles in
    Quiet-then f _ (λ k. close_calls f cs (close_call (f c) ∷ k)) s _ _ p
      (Quiet-then f _ (close_calls f cs) (set_reset s c true) _ _ q (
        reset_and_close_all-Quiet f (close (set_reset s c true) c).0 cs
          (ap (λ g. g.conns) q.group_eq ∙ e) q.handles))
