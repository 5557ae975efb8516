-- ===== src/Host/Tests.antt =====
-- Runs of the model of the host, and its theorems at concrete inputs.
use onedrive_davfs.Base.{
  ℕ, ◌+◌, ◌≡◌, refl, Bool, true, false, not, none, some, [], ◌∷◌, Bytes, codes, ok, arith, ◌≤◌,
}
use onedrive_davfs.Host.PublicIp.{Ipv4Addr, v4, v6, is_public_ip, is_public_ipv4}
use onedrive_davfs.Host.Blocks.{is_public_ipv4_blocks, is_refused, number}
use onedrive_davfs.Host.Config.{proceeds, parse}
use onedrive_davfs.Host.Policy.{Uri, Resolved, addrs, Connection, connection_of}
use onedrive_davfs.Host.PolicyAllows.{connection_of-IsMicrosoft, IsMicrosoft}
use onedrive_davfs.Host.Admission.{
  Server, Reach, new_server, acquire, miss, join, cancel, start, next,
}
use onedrive_davfs.Host.AdmissionBounds.{admit-IsAccounted}
use onedrive_davfs.Host.AdmissionLeak.{cancelled_forever}

abbrev loopback : Ipv4Addr
loopback = record { a = 127; b = 0; c = 0; d = 1 }

abbrev dns : Ipv4Addr
dns = record { a = 8; b = 8; c = 8; d = 8 }

loopback_blocked : is_public_ip (v4 loopback) ≡ false
unfolding is_public_ip
loopback_blocked = refl

dns_public : is_public_ip (v4 dns) ≡ true
unfolding is_public_ip
dns_public = refl

-- `fc00::1` and `::1`.
local_blocked : is_public_ip (v6 (record { first = 0xfc00; middle = 0 ∷ 0 ∷ []; last = 1 })) ≡ false
unfolding is_public_ip
local_blocked = refl

-- The IPv4-mapped form `::ffff:10.0.0.1` of a private address.
mapped_public :
    is_public_ip
      (v6 (record { first = 0; middle = 0 ∷ 0 ∷ 0 ∷ 0 ∷ 0xffff ∷ 0x0a00 ∷ []; last = 1 }))
    ≡ true
unfolding is_public_ip
mapped_public = refl

is_public_ipv4_blocks_example :
    is_public_ipv4 (record { a = 241; b = 0; c = 0; d = 1 }) ≡ not (is_refused (number 241 0 0 1))
is_public_ipv4_blocks_example =
    is_public_ipv4_blocks 241 0 0 1 (omega arith) (omega arith) (omega arith) (omega arith)

abbrev graph_uri : Uri
graph_uri = record {
  scheme = some (codes "https");
  authority = some (record {
    text = codes "Graph.Microsoft.com";
    host = codes "Graph.Microsoft.com";
    port_u16 = none;
  });
}

abbrev no_ip : Bytes → Bool
no_ip s = false

abbrev two_answers : Bytes → ℕ → Resolved
two_answers host port =
    addrs (record { ip = v4 loopback; port = port } ∷ record { ip = v4 dns; port = port } ∷ [])

abbrev to_dns : Connection
to_dns = record {
  addr = record { ip = v4 dns; port = 443 };
  server_name = codes "graph.microsoft.com";
}

-- The second address is taken, since the first one is that of the host itself.
graph_connection : connection_of no_ip two_answers graph_uri ≡ ok to_dns
unfolding connection_of
graph_connection = refl

connection_of-IsMicrosoft_example : IsMicrosoft (codes "graph.microsoft.com")
connection_of-IsMicrosoft_example =
    (connection_of-IsMicrosoft no_ip two_answers graph_uri to_dns graph_connection).0

arguments :
    parse
      (λ s. some s)
      (λ s. true)
      (λ s. true)
      (codes "127.0.0.1:8765")
      (codes "--state-dir" ∷ codes "s" ∷ codes "--component" ∷ codes "c" ∷ [])
    ≡ proceeds (record {
      component_path = codes "c";
      state_dir = codes "s";
      listen_addr = codes "127.0.0.1:8765";
    })
unfolding parse
arguments = refl

-- A request that runs, and `n` that were dropped while they waited for it.
abbrev abandoned : ℕ → Server
abandoned n = record {
  permits = 0;
  queued_waiters = n;
  busy = 0;
  over = 0;
  waiting = 0;
  entering = 0;
  running = 1;
  cancelled = n;
}

one_more :
    (n : ℕ) → n + 1 ≤ 8 → Reach new_server (abandoned n) → Reach new_server (abandoned (n + 1))
one_more n h r =
    next (next (next r (miss _ refl)) (join _ (omega arith) h)) (cancel _ (omega arith))

first_runs : Reach new_server (abandoned 0)
unfolding new_server
first_runs = next start (acquire _ (omega arith))

four_dropped : Reach new_server (abandoned 4)
four_dropped =
    one_more 3 (omega arith)
      (one_more 2 (omega arith) (one_more 1 (omega arith) (one_more 0 (omega arith) first_runs)))

eight_dropped : Reach new_server (abandoned 8)
eight_dropped =
    one_more 7 (omega arith)
      (one_more 6 (omega arith) (one_more 5 (omega arith) (one_more 4 (omega arith) four_dropped)))

cancelled_forever_example :
    ((abandoned 8).waiting + (abandoned 8).entering ≡ 0) × (8 ≤ (abandoned 8).queued_waiters)
cancelled_forever_example = cancelled_forever (abandoned 8) (abandoned 8) eight_dropped refl start

admit-IsAccounted_example :
    ((abandoned 8).entering + (abandoned 8).running ≤ 1)
    × ((abandoned 8).waiting ≤ 8)
    × ((abandoned 8).queued_waiters
        ≡ (abandoned 8).over
          + (abandoned 8).waiting
          + (abandoned 8).entering
          + (abandoned 8).cancelled)
admit-IsAccounted_example = admit-IsAccounted (abandoned 8) eight_dropped

abbrev one_waits : Server
one_waits = record {
  permits = 0;
  queued_waiters = 1;
  busy = 0;
  over = 0;
  waiting = 1;
  entering = 0;
  running = 1;
  cancelled = 0;
}
