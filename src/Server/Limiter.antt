-- ===== src/Server/Limiter.antt =====
-- The query limiter of src/server.rs, over the states that the server reaches.
use sqlite_server_rs.Prelude.{
  ℕ, zero, suc, ◌+◌, ◌-◌, ◌≡◌, true, some, List, [], ◌∷◌, ◌++◌, get_elem?, arith, All, All-append,
}
use sqlite_server_rs.Rust.Ip.{IpAddr}
use sqlite_server_rs.Config.{Config, is_ip_allowed}
use sqlite_server_rs.Server.{
  Phase, reading, waiting, executing, over, ServerState, limit, set_phase, Step, accepted, rejected,
  message, hung_up, acquired, released, released_over, shutdown, Reach, initial, then_step,
}

-- 1 for a task that holds a permit
abbrev pub holds : Phase → ℕ
holds executing = 1
holds _ = 0

-- the requests that are being handled
unfoldable pub running : List (IpAddr × Phase) → ℕ
running [] = 0
running ((ip, p) ∷ tasks) = holds p + running tasks

running-append : (xs ys : List (IpAddr × Phase)) → running (xs ++ ys) ≡ running xs + running ys
unfolding running
running-append [] ys = omega arith
running-append ((ip, p) ∷ xs) ys = omega (arith, running-append xs ys)

-- A task that changes its phase.
running-set_phase :
    (tasks : List (IpAddr × Phase)) (i : ℕ) (ip : IpAddr) (p q : Phase)
    → get_elem? tasks i ≡ some (ip, p)
    → running (set_phase tasks i q) + holds p ≡ running tasks + holds q
unfolding running set_phase
running-set_phase [] i ip p q h = cc
running-set_phase ((ip', p') ∷ tasks) zero ip p q h =
    let same : p' ≡ p = cc h in rw (same) (omega arith)
running-set_phase ((ip', p') ∷ tasks) (suc i) ip p q h =
    omega (arith, running-set_phase tasks i ip p q h)

abbrev pub LetIn : Config → List (IpAddr × Phase) → Type 0
LetIn config tasks = All (λ t. is_ip_allowed config t.0 ≡ some true) tasks

LetIn-set_phase :
    (config : Config) (tasks : List (IpAddr × Phase)) (i : ℕ) (q : Phase)
    → LetIn config tasks
    → LetIn config (set_phase tasks i q)
unfolding set_phase
LetIn-set_phase config [] i q h = tt
LetIn-set_phase config ((ip, p) ∷ tasks) zero q h = (h.0, h.1)
LetIn-set_phase config ((ip, p) ∷ tasks) (suc i) q h = (h.0, LetIn-set_phase config tasks i q h.1)

-- The permits that are free and the requests that are being handled make up the limit, and every task
-- is that of a peer that the whitelist lets in.
pub record IsLimited (config : Config) (st : ServerState) : Type 0 where
  pub balance : st.permits + running st.tasks ≡ limit config
  pub let_in : LetIn config st.tasks

Step-IsLimited :
    (config : Config) {st st' : ServerState}
    → IsLimited config st
    → Step config st st'
    → IsLimited config st'
Step-IsLimited config {st} h (accepted ip a w) = record {
  balance =
      (unfold running in omega (arith, h.balance, running-append st.tasks ((ip, reading) ∷ [])));
  let_in =
      All-append (λ t. is_ip_allowed config t.0 ≡ some true) st.tasks ((ip, reading) ∷ []) h.let_in
        (w, tt);
}
Step-IsLimited config h (rejected ip a w) = h
Step-IsLimited config {st} h (message i (ip, at)) = record {
  balance = omega (arith, h.balance, running-set_phase st.tasks i ip reading waiting at);
  let_in = LetIn-set_phase config st.tasks i waiting h.let_in;
}
Step-IsLimited config {st} h (hung_up i (ip, at)) = record {
  balance = omega (arith, h.balance, running-set_phase st.tasks i ip reading over at);
  let_in = LetIn-set_phase config st.tasks i over h.let_in;
}
Step-IsLimited config {st} h (acquired i (ip, at) free) = record {
  balance = omega (arith, h.balance, free, running-set_phase st.tasks i ip waiting executing at);
  let_in = LetIn-set_phase config st.tasks i executing h.let_in;
}
Step-IsLimited config {st} h (released i (ip, at)) = record {
  balance = omega (arith, h.balance, running-set_phase st.tasks i ip executing reading at);
  let_in = LetIn-set_phase config st.tasks i reading h.let_in;
}
Step-IsLimited config {st} h (released_over i (ip, at)) = record {
  balance = omega (arith, h.balance, running-set_phase st.tasks i ip executing over at);
  let_in = LetIn-set_phase config st.tasks i over h.let_in;
}
Step-IsLimited config h (shutdown a) = record { balance = h.balance; let_in = h.let_in }

-- In every state that the server reaches, the free permits and the requests that are being handled
-- make up the limit, and every connection is of a peer that the whitelist lets in.
pub Reach-IsLimited : (config : Config) (st : ServerState) → Reach config st → IsLimited config st
unfolding running
Reach-IsLimited config st initial = record { balance = omega arith; let_in = tt }
Reach-IsLimited config st (then_step r s) = Step-IsLimited config (Reach-IsLimited config _ r) s

-- The request of task `i` takes a permit.
abbrev pub TakesPermit : Config → ServerState → ℕ → Type 0
TakesPermit config st i =
    Step config st (record st { permits = st.permits - 1; tasks = set_phase st.tasks i executing })

-- the state after the request of task `j` has been handled
abbrev pub after_release : ServerState → ℕ → ServerState
after_release st j = record st { permits = st.permits + 1; tasks = set_phase st.tasks j reading }
