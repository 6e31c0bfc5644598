-- ===== src/Server/Lifecycle/Balance.antt =====
-- What `start` and `stop` of backend/src/server.cpp do to the descriptors of the process, over a
-- network that behaves as the manual pages of the socket calls say.
use frag.Prelude.{ℕ, ◌+◌, ◌*◌, ◌^◌, ◌<◌, ◌≡◌, ◌⊎◌, true, false, List, ◌∷◌, some, none}
use frag.Prelude.Int.{ℤ, pos_part, neg_part}
use frag.Text.{Bytes}
use frag.Database.Operations.{Result, ok, throw}
use frag.Server.Lifecycle.{Sockets, Listener, new_listener, stop}

pub record NetworkLaws (sockets : Sockets) : Type 1 where
  -- The open descriptors, the last first; a descriptor with the port that it is bound to; and one
  -- that listens on a port.
  pub open_fds : sockets.Net → List ℕ
  pub IsBound : sockets.Net → ℕ → ℕ → Type 0
  pub Listens : sockets.Net → ℕ → ℕ → Type 0
  pub socket_opens :
      (fd : ℕ) (net : sockets.Net)
      → (sockets.socket net).0 ≡ some fd
      → open_fds (sockets.socket net).1 ≡ fd ∷ open_fds net
  pub socket_fails :
      (net : sockets.Net)
      → (sockets.socket net).0 ≡ none
      → open_fds (sockets.socket net).1 ≡ open_fds net
  pub reuse_fds :
      (fd : ℕ) (net : sockets.Net) → open_fds (sockets.reuse_address fd net) ≡ open_fds net
  pub bind_fds : (fd p : ℕ) (net : sockets.Net) → open_fds (sockets.bind fd p net).1 ≡ open_fds net
  pub listen_fds : (fd : ℕ) (net : sockets.Net) → open_fds (sockets.listen fd net).1 ≡ open_fds net
  pub bind_binds :
      (fd p : ℕ) (net : sockets.Net)
      → (sockets.bind fd p net).0 ≡ true
      → IsBound (sockets.bind fd p net).1 fd p
  pub listen_listens :
      (fd p : ℕ) (net : sockets.Net)
      → (sockets.listen fd net).0 ≡ true
      → IsBound net fd p
      → Listens (sockets.listen fd net).1 fd p
  pub close_closes :
      (fd : ℕ) (net : sockets.Net) (others : List ℕ)
      → open_fds net ≡ fd ∷ others
      → open_fds (sockets.close fd net) ≡ others

-- `p` is a port, and equal to `port` modulo 2^16.
abbrev pub IsPort : ℤ → ℕ → Type 0
IsPort port p =
    (p < 2 ^ 16) × (a : ℕ) × (b : ℕ) × (pos_part port + a * 2 ^ 16 ≡ p + neg_part port + b * 2 ^ 16)

module _ (sockets : Sockets) (laws : NetworkLaws sockets) (port : ℤ) (l : Listener)
    (net : sockets.Net) where
  open sockets use {Net, socket, reuse_address, bind, listen}
  open laws use {
    open_fds, IsBound, Listens, socket_opens, socket_fails, reuse_fds, bind_fds, listen_fds,
    bind_binds, listen_listens, close_closes,
  }

  -- A call that `start` makes has failed.
  abbrev pub CallFails : Type 0
  CallFails =
      ((socket net).0 ≡ none)
      ⊎ (((fd : ℕ) × (p : ℕ) × (n : Net) × IsPort port p × ((bind fd p n).0 ≡ false))
          ⊎ ((fd : ℕ) × (p : ℕ) × (n : Net) × IsPort port p
              × IsBound n fd p
              × ((listen fd n).0 ≡ false)))

  -- Behind `start`: an exception, for a call that failed; or the descriptor listens on the port.
  pub data Started (result : Result (Unit {0}) × Listener × Net) : Type 0 where
    throws : (msg : Bytes) → result.0 ≡ throw msg → CallFails → Started result
    succeeds :
        (fd p : ℕ)
        → result.0 ≡ ok tt
        → result.1.server_fd ≡ some fd
        → IsPort port p
        → Listens result.2 fd p
        → Started result

  abbrev pub Balanced : Result (Unit {0}) × Listener × Net → Type 0
  Balanced result =
      Started result
      × (open_fds (stop sockets result.1 result.2).1 ≡ open_fds net)
      × ((stop sockets result.1 result.2).0 ≡ new_listener)
