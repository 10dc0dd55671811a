-- ===== src/Ipc/Served.antt =====
-- The connections of the server of Network/src/Ipc.cpp: what the loop of `IPCThread` keeps of them.
use mathlib.Core.Bool.{false≢true}
use network_structure.Prelude.{
  ℕ, ◌≡◌, refl, sym, ap, ◌∙◌, Bool, true, false, some, List, [], ◌∷◌, if◌then◌else◌, ◌>>=◌,
}
use network_structure.Ipc.{
  path_of, ipc_listen, ipc_bind, ipc_open, pos, ipc_events, ipc_loop, ipc_thread, new_ipc, waited,
  closed, deleted, accepted, added, read_from, IpcCall, IpcEnv, calling, on_end, Ipc, ipc_accept,
  ipc_event,
}
use network_structure.Prelude.Int.{minus_one, is_negative, eq_ℤ_iff, is_positive, eq_ℤ, ℤ}
use network_structure.Prelude.Gives.{if-holds, none-Gives, if-Gives, bind-Gives, some-Gives, Gives}
use network_structure.TcpServerSocket.{Ready}

-- The descriptor was accepted and has not been closed since.
unfoldable pub is_open : ℤ → List IpcCall → Bool
is_open fd [] = false
is_open fd (accepted g ∷ cs) = let r = is_open fd cs in if eq_ℤ g fd then true else r
is_open fd (closed g ∷ cs) = let r = is_open fd cs in if eq_ℤ g fd then false else r
is_open fd (_ ∷ cs) = is_open fd cs

-- The descriptor was added to epoll and has not been deleted since.
unfoldable pub is_watched : ℤ → List IpcCall → Bool
is_watched fd [] = false
is_watched fd (added g ∷ cs) = let r = is_watched fd cs in if eq_ℤ g fd then true else r
is_watched fd (deleted g ∷ cs) = let r = is_watched fd cs in if eq_ℤ g fd then false else r
is_watched fd (_ ∷ cs) = is_watched fd cs

-- Besides the listening socket exactly the open connections are watched, and IpcRead and IpcWrite
-- go to an open one.
pub record Served (s : Ipc) : Type 0 where
  pub watched : (fd : ℤ) → eq_ℤ s.socket_fd fd ≡ false → is_watched fd s.calls ≡ is_open fd s.calls
  pub usable : is_positive s.ipc_fd ≡ true → is_open s.ipc_fd s.calls ≡ true

eq_ℤ_refl : (a : ℤ) → eq_ℤ a a ≡ true
eq_ℤ_refl a = (eq_ℤ_iff a a).1 refl

accept-Served :
    (env : IpcEnv) (s : Ipc)
    → Served s
    → Served (calling (added (ipc_accept env s).ipc_fd) (ipc_accept env s))
unfolding ipc_accept is_watched is_open
accept-Served env s h = record {
  watched =
      λ fd e. ap (λ t. if eq_ℤ (env.accept_result s.calls) fd then true else t) (h.watched fd e);
  usable = λ p. rw (eq_ℤ_refl (env.accept_result s.calls)) refl;
}

read-Served : (fd : ℤ) (s : Ipc) → Served s → Served (calling (read_from fd) s)
unfolding is_watched is_open
read-Served fd s h = record { watched = h.watched; usable = h.usable }

end-Served : (fd : ℤ) (s : Ipc) → Served s → Served (on_end fd s)
unfolding is_watched is_open
end-Served fd s h = record {
  watched = λ g e. ap (λ t. if eq_ℤ fd g then false else t) (h.watched g e);
  usable = λ p. absurd (false≢true p);
}

ipc_event-Served :
    (env : IpcEnv) (r : Ready) (s : Ipc) → Served s → Gives Served (ipc_event env r s)
unfolding ipc_event
ipc_event-Served env r s h =
    let t = calling (read_from r.fd) s in
    let b = eq_ℤ (env.read_result (read_from r.fd ∷ s.calls)) (pos 0) in
    if-Gives Served (eq_ℤ r.fd s.socket_fd) _ _
      (λ i.
        if-Gives Served (is_negative (ipc_accept env s).ipc_fd) _ _ (λ j. none-Gives Served)
          (λ j. some-Gives Served _ (accept-Served env s h)))
      (λ i.
        if-Gives Served r.epollin _ _
          (λ j. some-Gives Served _ (
            if-holds Served b _ _ (end-Served r.fd t (read-Served r.fd s h))
              (read-Served r.fd s h)))
          (λ j. some-Gives Served _ h))

ipc_events-Served :
    (env : IpcEnv) (rs : List Ready) (s : Ipc) → Served s → Gives Served (ipc_events env rs s)
unfolding ipc_events
ipc_events-Served env [] s h = some-Gives Served s h
ipc_events-Served env (r ∷ rs) s h =
    bind-Gives Served Served (ipc_event env r s) (ipc_events env rs) (ipc_event-Served env r s h)
      (λ u k. ipc_events-Served env rs u k)

waited-Served : (s : Ipc) → Served s → Served (calling waited s)
unfolding is_watched is_open
waited-Served s h = record { watched = h.watched; usable = h.usable }

ipc_loop-Served :
    (env : IpcEnv) (exits : List Bool) (s : Ipc) → Served s → Gives Served (ipc_loop env exits s)
unfolding ipc_loop
ipc_loop-Served env [] s h = some-Gives Served s h
ipc_loop-Served env (true ∷ exits) s h = some-Gives Served s h
ipc_loop-Served env (false ∷ exits) s h =
    bind-Gives Served Served (ipc_events env (env.ready (waited ∷ s.calls)) (calling waited s))
      (ipc_loop env exits)
      (ipc_events-Served env (env.ready (waited ∷ s.calls)) (calling waited s) (waited-Served s h))
      (λ u k. ipc_loop-Served env exits u k)

added-Served : (s : Ipc) → Served s → Served (calling (added s.socket_fd) s)
unfolding is_watched is_open
added-Served s h = record { watched = λ fd e. rw e (h.watched fd e); usable = h.usable }

-- No descriptor has been accepted or added.
record Blank (s : Ipc) : Type 0 where
  none_open : (fd : ℤ) → is_open fd s.calls ≡ false
  none_watched : (fd : ℤ) → is_watched fd s.calls ≡ false
  no_peer : s.ipc_fd ≡ minus_one

Blank-Served : (s : Ipc) → Blank s → Served s
Blank-Served s b = record {
  watched = λ fd e. b.none_watched fd ∙ sym (b.none_open fd);
  usable = λ p. absurd (false≢true (sym (ap is_positive b.no_peer) ∙ p));
}

ipc_open-Blank : (env : IpcEnv) (s : Ipc) → Blank s → Blank (ipc_open env s).0
unfolding ipc_open ipc_bind ipc_listen is_watched is_open
ipc_open-Blank env s b =
    if-holds {A = Ipc × ℤ} (λ t. Blank t.0) (is_negative s.socket_fd) _ _
      (if-holds {A = Ipc × ℤ} (λ t. Blank t.0) (is_negative (env.socket_result s.calls)) _ _
        (record { none_open = b.none_open; none_watched = b.none_watched; no_peer = b.no_peer })
        (record { none_open = b.none_open; none_watched = b.none_watched; no_peer = b.no_peer }))
      b

new-Served : (env : IpcEnv) (fresh name : List ℕ) → Gives Served (new_ipc env fresh name)
unfolding new_ipc is_watched is_open
new-Served env fresh name =
    bind-Gives Served (λ path. Unit) (path_of fresh name) _ (record { given = λ v e. record {} })
      (λ path u. some-Gives Served _ (
        Blank-Served _ (
          ipc_open-Blank env _ (
            if-holds Blank (env.node_exists []) _ _
              (record { none_open = λ fd. refl; none_watched = λ fd. refl; no_peer = refl })
              (record { none_open = λ fd. refl; none_watched = λ fd. refl; no_peer = refl })))))

-- From the constructor on and whatever the operating system gives: after every round of the loop of
-- `IPCThread`, or its end, exactly the open connections are watched besides the listening socket,
-- and IpcRead and IpcWrite go to a connection that is open.
pub ipc_thread-Served :
    (env : IpcEnv) (fresh name : List ℕ) (exits : List Bool) (v : Ipc)
    → (new_ipc env fresh name >>= ipc_thread env exits) ≡ some v
    → Served v
unfolding ipc_thread
ipc_thread-Served env fresh name exits v e =
    (bind-Gives Served Served (new_ipc env fresh name) (ipc_thread env exits)
        (new-Served env fresh name)
        (λ u k. ipc_loop-Served env exits (calling (added u.socket_fd) u) (added-Served u k))).given
      v e
