-- ===== src/Tests/Listening.antt =====
-- `start` and `stop` of backend/src/server.cpp over a network whose state is its descriptors.
use frag.Prelude.{ℕ, ◌+◌, true, List, [], ◌∷◌, Option, none, some, ◌==◌, if◌then◌else◌}
use frag.Server.Lifecycle.{Sockets}

record Network : Type 0 where
  fds : List ℕ
  address : Option (ℕ × ℕ)
  listening : Option (ℕ × ℕ)
  next_fd : ℕ

abbrev remove : ℕ → List ℕ → List ℕ
remove fd [] = []
remove fd (x ∷ xs) = if x == fd then xs else x ∷ remove fd xs

abbrev network : Sockets
network = record {
  Net = Network;
  socket = λ net.
      (some net.next_fd, record net { fds = net.next_fd ∷ net.fds; next_fd = net.next_fd + 1 });
  reuse_address = λ fd net. net;
  bind = λ fd p net. (true, record net { address = some (fd, p) });
  listen = λ fd net. (true, record net { listening = net.address });
  close = λ fd net. record net { fds = remove fd net.fds };
}

abbrev quiet : Network
quiet = record { fds = 2 ∷ 1 ∷ 0 ∷ []; address = none; listening = none; next_fd = 3 }
