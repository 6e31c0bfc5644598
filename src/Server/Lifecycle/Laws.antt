-- ===== src/Server/Lifecycle/Laws.antt =====
-- When the server listens, and what stopping twice does.
use frag.Prelude.{
  ℕ, ◌≡◌, refl, Bool, true, false, inl, inr, none, some, Bool-cases, Option-cases, ◌++◌,
}
use frag.Prelude.Int.{ℤ}
use frag.Text.{codes}
use frag.Text.Number.{print_int}
use frag.Database.Operations.{Result, ok, throw}
use frag.Server.Lifecycle.{Sockets, Listener, port_number, open_listener, stop}

module _ (sockets : Sockets) (port : ℤ) (l : Listener) (net : sockets.Net) where
  open sockets use {Net, socket, reuse_address, bind, listen, close}

  abbrev bind_call : ℕ → Bool × Net
  bind_call fd = bind fd (port_number port) (reuse_address fd (socket net).1)

  -- What opening the socket has done.
  pub data Opened (result : Result (Unit {0}) × Listener × Net) : Type 0 where
    no_socket :
        (socket net).0 ≡ none
        → result ≡ (throw (codes "socket() failed"), record l { server_fd = none }, (socket net).1)
        → Opened result
    not_bound :
        (fd : ℕ)
        → (socket net).0 ≡ some fd
        → (bind_call fd).0 ≡ false
        → result ≡ (
          throw (codes "bind() failed on port " ++ print_int port),
          record l { server_fd = some fd },
          (bind_call fd).1,
        )
        → Opened result
    not_listening :
        (fd : ℕ)
        → (socket net).0 ≡ some fd
        → (bind_call fd).0 ≡ true
        → (listen fd (bind_call fd).1).0 ≡ false
        → result ≡ (
          throw (codes "listen() failed"),
          record l { server_fd = some fd },
          (listen fd (bind_call fd).1).1,
        )
        → Opened result
    listens :
        (fd : ℕ)
        → (socket net).0 ≡ some fd
        → (bind_call fd).0 ≡ true
        → (listen fd (bind_call fd).1).0 ≡ true
        → result ≡ (ok tt, record l { server_fd = some fd }, (listen fd (bind_call fd).1).1)
        → Opened result

  -- For every network, port and listener, opening the socket fails at socket, at bind or at listen
  -- with its own message, the later calls not made and the descriptor kept where there is one; or
  -- all three succeed, and the server has the descriptor that listens on the port, cut to 16 bits.
  pub open_listener-Opened : Opened (open_listener sockets port l net)
  unfolding open_listener
  open_listener-Opened = elim (Option-cases (socket net).0) [
    | inl missing ↦ no_socket missing (rw (missing, open_listener) (rw missing refl))
    | inr (fd, found) ↦ elim (Bool-cases (bind_call fd).0) [
      | inr refused ↦
          not_bound fd found refused (rw (found, open_listener, refused) (rw found refl))
      | inl bound ↦ elim (Bool-cases (listen fd (bind_call fd).1).0) [
        | inr deaf ↦
            not_listening fd found bound deaf
              (rw (found, open_listener, bound, deaf) (rw found refl))
        | inl hears ↦
            listens fd found bound hears (rw (found, open_listener, bound, hears) (rw found refl))
      ]
    ]
  ]

module _ (sockets : Sockets) where
  -- Stopping twice is stopping once.
  pub stop_again :
      (l : Listener) (net : sockets.Net)
      → let (l', net') = stop sockets l net in stop sockets l' net' ≡ (l', net')
  unfolding stop
  stop_again l net = refl
