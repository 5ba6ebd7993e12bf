-- ===== src/Program/Accepting.antt =====
-- The peers that get a task from the loop of `run` of src/server.rs, and from the program.
use mathlib.Core.Path.{subst}
use mathlib.Core.List.Memᴰ
use mathlib.Core.List.{Memᴰ}
use sqlite_server_rs.Prelude.{
  ◌≡◌, refl, sym, ap, ◌∙◌, ◌⊎◌, inl, inr, Bool, true, false, some, List, [], ◌∷◌, Text, ok, Result,
  Result-cases, Option-cases, Bool-cases, All, if◌then◌else◌,
}
use sqlite_server_rs.Json.{Json}
use sqlite_server_rs.Rust.Ip.{IpAddr, IsAddr}
use sqlite_server_rs.Cidr.Contains.{IsCidr}
use sqlite_server_rs.Config.{Config, Host, Args, parse}
use sqlite_server_rs.Config.Whitelist.{InsideOne, is_ip_allowed_decides}
use sqlite_server_rs.Config.Usable.{HasAbsoluteDir, IsUsable, parse-IsUsable}
use sqlite_server_rs.Program.{
  Event, serving, exited, Process, Network, accept_loop, run, serve, main,
}

ok-eq-ok : (a b : Process) → ◌≡◌ {A = Result Process Text} (ok a) (ok b) → a ≡ b
ok-eq-ok a b h = cc h

-- a signal comes
unfoldable pub shuts_down : List Event → Bool
shuts_down [] = false
shuts_down (Event.accepted ip ∷ events) = shuts_down events
shuts_down (Event.accept_error e ∷ events) = shuts_down events
shuts_down (Event.shutdown ∷ events) = true

-- the peers that connect before it
unfoldable pub offered : List Event → List IpAddr
offered [] = []
offered (Event.accepted ip ∷ events) = ip ∷ offered events
offered (Event.accept_error e ∷ events) = offered events
offered (Event.shutdown ∷ events) = []

-- the whitelist lets the peer in
abbrev pub IsLetIn : Config → IpAddr → Type 0
IsLetIn config ip = (config.ip_whitelist ≡ []) ⊎ InsideOne ip config.ip_whitelist

-- Of a list of peers, those that the whitelist lets in, in their order.
pub data Chosen (config : Config) : List IpAddr → List IpAddr → Type 0 where
  none_left : Chosen config [] []
  let_in :
      {ip : IpAddr} {peers chosen : List IpAddr}
      → IsLetIn config ip
      → Chosen config peers chosen
      → Chosen config (ip ∷ peers) (ip ∷ chosen)
  left_out :
      {ip : IpAddr} {peers chosen : List IpAddr}
      → (IsLetIn config ip → ⊥)
      → Chosen config peers chosen
      → Chosen config (ip ∷ peers) chosen

-- With a well-formed whitelist, the loop gives a task to each of the peers that connect before a signal
-- and that the whitelist lets in, in their order, and to no other. It ends with status 0 if a signal
-- comes, and goes on otherwise.
pub accept_loop-Chosen :
    (config : Config) (events : List Event)
    → All IsCidr config.ip_whitelist
    → All IsAddr (offered events)
    → Chosen config (offered events) (accept_loop config events).spawned
      × ((accept_loop config events).status ≡ (if shuts_down events then exited 0 else serving))
unfolding accept_loop offered shuts_down
accept_loop-Chosen config [] wf addrs = (none_left, refl)
accept_loop-Chosen config (Event.shutdown ∷ events) wf addrs = (none_left, refl)
accept_loop-Chosen config (Event.accept_error e ∷ events) wf addrs =
    accept_loop-Chosen config events wf addrs
accept_loop-Chosen config (Event.accepted peer ∷ events) wf (addr, addrs) =
    let (chosen, status) = accept_loop-Chosen config events wf addrs in
    let (r, e, iff) = is_ip_allowed_decides config peer wf addr in
    elim (Bool-cases r) [
      | inl inside ↦ rw (e ∙ ap some inside, accept_loop) (let_in (iff.0 inside) chosen, status)
      | inr out ↦
          rw (e ∙ ap some out, accept_loop) (left_out (λ h. cc (out, iff.1 h)) chosen, status)
    ]

-- A peer that is among the chosen ones is one of the list, and the whitelist lets it in.
Chosen-IsLetIn :
    (config : Config) (ip : IpAddr) (peers chosen : List IpAddr)
    → Chosen config peers chosen
    → Memᴰ ip chosen
    → Memᴰ ip peers × IsLetIn config ip
Chosen-IsLetIn config ip peers chosen none_left m = elim m [ ]
Chosen-IsLetIn config ip peers chosen (let_in {ip = peer} {peers = ps} {chosen = cs} h rest) m =
    elim (Memᴰ.cases_cons m) [
      | inl same ↦ (Memᴰ.head same, subst (IsLetIn config) (sym same) h)
      | inr later ↦
          let (here, fine) = Chosen-IsLetIn config ip ps cs rest later in (Memᴰ.tail here, fine)
    ]
Chosen-IsLetIn config ip peers chosen (left_out {peers = ps} {chosen = cs} h rest) m =
    let (here, fine) = Chosen-IsLetIn config ip ps cs rest m in (Memᴰ.tail here, fine)

module _ (net : Network) where
  -- what happens at the listener of the configuration
  abbrev pub IsSeen : Config → List Event → Type 0
  IsSeen config events =
      (listener : net.Listener) × (net.bind config.listen_addr ≡ ok listener)
      × (net.events listener ≡ events)

  run-accept_loop :
      (config : Config) (p : Process)
      → run net config ≡ ok p
      → (events : List Event) × IsSeen config events
        × (p.spawned ≡ (accept_loop config events).spawned)
  unfolding run
  run-accept_loop config p h = elim (Result-cases (net.bind config.listen_addr)) [
    | inr (message, e) ↦ cc (rw (e, run) at h)
    | inl (listener, e) ↦ elim (Result-cases (net.local_addr listener)) [
      | inr (message, e') ↦ cc (rw (e, run, e') at h)
      | inl (addr, e') ↦ (
        net.events listener,
        (listener, e, refl),
        sym (ap (λ (q : Process). q.spawned) (ok-eq-ok _ p (rw (e, run, e') at h))),
      )
    ]
  ]

  serve-accept_loop :
      (config : Config) (ip : IpAddr)
      → Memᴰ ip (serve net config).spawned
      → (events : List Event) × IsSeen config events × Memᴰ ip (accept_loop config events).spawned
  unfolding serve
  serve-accept_loop config ip m = elim (Bool-cases net.runtime_builds) [
    | inr broken ↦ elim (rw (broken, serve) at m) [ ]
    | inl built ↦ elim (Result-cases (run net config)) [
      | inr (message, e) ↦ elim (rw (built, serve, e) at m) [ ]
      | inl (p, e) ↦
          let (events, seen, same) = run-accept_loop config p e in
          (events, seen, subst (Memᴰ ip) same (rw (built, serve, e) at m))
    ]
  ]

  -- If the current directory is absolute and peers have well-formed addresses, a peer that gets a task
  -- from the program connected before a signal, to the address of the configuration that the program
  -- read; the whitelist of that configuration lets it in, and its databases folder is absolute and there.
  pub main-IsLetIn :
      (j : Json) (host : Host) (branch commit : Text) (args : Args) (ip : IpAddr)
      → HasAbsoluteDir host
      → ((listener : net.Listener) → All IsAddr (offered (net.events listener)))
      → Memᴰ ip (main net j host branch commit args).spawned
      → (config : Config) × (events : List Event) × (parse j host args ≡ ok (some config))
        × IsUsable host config
        × IsSeen config events
        × Memᴰ ip (offered events)
        × IsLetIn config ip
  unfolding main
  main-IsLetIn j host branch commit args ip dirs addrs m = elim (Result-cases (parse j host args)) [
    | inr (message, e) ↦ elim (rw (e, main) at m) [ ]
    | inl (parsed, e) ↦ elim (Option-cases parsed) [
      | inl version ↦ elim (rw (e ∙ ap ok version, main) at m) [ ]
      | inr (config, given) ↦
          let read : parse j host args ≡ ok (some config) = e ∙ ap ok given in
          let usable = parse-IsUsable host j args config dirs read in
          let (events, (listener, bound, same), here) =
            serve-accept_loop config ip (rw (read, main) at m) in
          let served =
            accept_loop-Chosen config events usable.whitelist
              (subst (λ evs. All IsAddr (offered evs)) same (addrs listener)) in
          let (sent, fine) =
            Chosen-IsLetIn config ip (offered events) (accept_loop config events).spawned served.0
              here in
          (config, events, read, usable, (listener, bound, same), sent, fine)
    ]
  ]
