-- ===== src/Server/Lifecycle.antt =====
-- `start` and `stop` of `HttpServer` (backend/src/server.cpp). The socket calls of the operating
-- system are parameters; a descriptor is `none` where the code has SOCK_INVALID.
pub mod Laws
pub mod Balance
use frag.Prelude.{ℕ, ◌+◌, ◌-◌, ◌%◌, ◌^◌, Bool, true, false, ◌++◌, Option, none, some, if◌then◌else◌}
use frag.Prelude.Int.{ℤ, pos, negsuc}
use frag.Text.{codes}
use frag.Text.Number.{print_int}
use frag.Database.Operations.{Result, ok, throw}

-- The calls, on a state of the network.
pub record Sockets : Type 1 where
  pub Net : Type 0
  pub socket : Net → Option ℕ × Net
  -- setsockopt with SO_REUSEADDR, whose result is not looked at.
  pub reuse_address : ℕ → Net → Net
  -- By the descriptor and the port; whether the result is not negative.
  pub bind : ℕ → ℕ → Net → Bool × Net
  pub listen : ℕ → Net → Bool × Net
  pub close : ℕ → Net → Net

-- `running_` and `server_fd_`.
pub record Listener : Type 0 where
  pub running : Bool
  pub server_fd : Option ℕ

abbrev pub new_listener : Listener
new_listener = record { running = false; server_fd = none }

-- `(uint16_t)port_`.
unfoldable pub port_number : ℤ → ℕ
port_number (pos n) = n % 2 ^ 16
port_number (negsuc n) = 2 ^ 16 - 1 - n % 2 ^ 16

module _ (sockets : Sockets) where
  open sockets use {Net, socket, reuse_address, bind, listen, close}

  -- `start` up to `running_ = true`.
  unfoldable pub open_listener : ℤ → Listener → Net → Result (Unit {0}) × Listener × Net
  unfolding port_number
  open_listener port l net =
      let (server_fd, net1) = socket net in
      let l' = record l { server_fd = server_fd } in
      elim server_fd [
        | none ↦ (throw (codes "socket() failed"), l', net1)
        | some fd ↦
            let (bound, net2) = bind fd (port_number port) (reuse_address fd net1) in
            let (listening, net3) = listen fd net2 in
            if bound
            then (if listening
                then (ok tt, l', net3)
                else (throw (codes "listen() failed"), l', net3))
            else (throw (codes "bind() failed on port " ++ print_int port), l', net2)
      ]

  abbrev close_fd : Option ℕ → Net → Net
  close_fd none net = net
  close_fd (some fd) net = close fd net

  -- The second part of `stop`; the first is `running_ = false`.
  unfoldable pub close_listener : Listener → Net → Listener × Net
  close_listener l net = (record l { server_fd = none }, close_fd l.server_fd net)

  unfoldable pub stop : Listener → Net → Listener × Net
  unfolding close_listener
  stop l net = close_listener (record l { running = false }) net
