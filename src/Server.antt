-- ===== src/Server.antt =====
-- src/server.rs: `run`, and the query limiter that src/connection.rs takes a permit from. The tasks of
-- the connections interleave: a step of the server is a step of one of them, or an accept.
pub mod Limiter
pub mod Shared
use sqlite_server_rs.Prelude.{
  ℕ, suc, ◌+◌, ◌-◌, ◌≡◌, ◌≤◌, Bool, true, false, Option, none, some, List, [], ◌∷◌, ◌++◌, get_elem?,
  length, ltb, if◌then◌else◌,
}
use sqlite_server_rs.Rust.Ip.{IpAddr}
use sqlite_server_rs.Config.{Config, is_ip_allowed}

-- where the task of a connection stands: it reads a message, waits for a permit, handles the request
-- with the permit, or has ended
pub data Phase : Type 0 where
  reading waiting executing over : Phase

pub record ServerState : Type 0 where
  -- the permits of the semaphore that are free
  pub permits : ℕ
  -- the peers and the phases of the tasks, in the order in which they were spawned
  pub tasks : List (IpAddr × Phase)
  -- the loop of `run` accepts
  pub accepting : Bool

-- `config.workers.max(1)`
abbrev pub limit : Config → ℕ
limit config = if ltb config.workers 1 then 1 else config.workers

abbrev pub start : Config → ServerState
start config = record { permits = limit config; tasks = []; accepting = true }

-- the list with another phase for one of its tasks
unfoldable pub set_phase : List (IpAddr × Phase) → ℕ → Phase → List (IpAddr × Phase)
set_phase [] i p = []
set_phase ((ip, q) ∷ tasks) ℕ.zero p = (ip, p) ∷ tasks
set_phase ((ip, q) ∷ tasks) (suc i) p = (ip, q) ∷ set_phase tasks i p

-- the peer and the phase of a task
abbrev pub IsAt : ServerState → ℕ → Phase → Type 0
IsAt st i p = (ip : IpAddr) × (get_elem? st.tasks i ≡ some (ip, p))

pub data Step (config : Config) (st : ServerState) : ServerState → Type 0 where
  -- a peer that the whitelist lets in gets a task
  accepted :
      (ip : IpAddr)
      → st.accepting ≡ true
      → is_ip_allowed config ip ≡ some true
      → Step config st (record st { tasks = st.tasks ++ (ip, Phase.reading) ∷ [] })
  -- any other peer is dropped, and a failed accept changes nothing
  rejected :
      (ip : IpAddr) → st.accepting ≡ true → is_ip_allowed config ip ≡ some false → Step config st st
  -- a whole message has been read
  message :
      (i : ℕ)
      → IsAt st i Phase.reading
      → Step config st (record st { tasks = set_phase st.tasks i Phase.waiting })
  -- the client closed its side, or the packet is too large
  hung_up :
      (i : ℕ)
      → IsAt st i Phase.reading
      → Step config st (record st { tasks = set_phase st.tasks i Phase.over })
  -- `query_limiter.acquire()`
  acquired :
      (i : ℕ)
      → IsAt st i Phase.waiting
      → 1 ≤ st.permits
      → Step config st
          (record st { permits = st.permits - 1; tasks = set_phase st.tasks i Phase.executing })
  -- the request has been handled: the permit is dropped, and the response is written
  released :
      (i : ℕ)
      → IsAt st i Phase.executing
      → Step config st
          (record st { permits = st.permits + 1; tasks = set_phase st.tasks i Phase.reading })
  -- the same, and the write fails
  released_over :
      (i : ℕ)
      → IsAt st i Phase.executing
      → Step config st
          (record st { permits = st.permits + 1; tasks = set_phase st.tasks i Phase.over })
  -- SIGINT or SIGTERM: no more connections are accepted. The tasks may go on until the process ends.
  shutdown : st.accepting ≡ true → Step config st (record st { accepting = false })

pub data Reach (config : Config) : ServerState → Type 0 where
  initial : Reach config (start config)
  then_step : {st st' : ServerState} → Reach config st → Step config st st' → Reach config st'
