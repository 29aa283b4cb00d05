-- ===== src/Tests/StartTests.antt =====
-- Of main.
use pacsni.Prelude.{ℕ, ◌+◌, ◌≡◌, refl, arith, List, Option, Bool, true, false, none, some, [], ◌∷◌}
use pacsni.Memory.{codes, u32, agree}
use pacsni.Start.Stats.{
  Totals, all_captured, all_dropped, monitor_pcap_stats, monitor_pcap_stats-sums,
}
use pacsni.Start.{
  find_named, choose_device, Attempt, try_tls, try_socket, try_connect, go_on, connect_loop,
  shut_down, World, connect_and_run, with_filter, with_device, with_devices, main,
}
use pacsni.Start.Sockets.{AllClosed, main-AllClosed}
use pacsni.Start.Ready.{IsReady, main-IsReady}

-- A try without a socket, one that is refused, one whose handshake fails, and one that succeeds.
abbrev no_socket : Attempt
no_socket = record {
  socket = none;
  inet_pton = true;
  connect = true;
  ssl_new = true;
  ssl_set_fd = true;
  ssl_connect = true;
}

abbrev with_tls : ℕ → Bool → Attempt
with_tls fd made = record no_socket { socket = some fd; ssl_connect = made }

abbrev unreached : ℕ → Attempt
unreached fd = record no_socket { socket = some fd; connect = false }

abbrev host : World
host = record {
  geteuid = 0;
  ssl_library_init = true;
  tls_client_method = true;
  ssl_ctx_new = true;
  set_min_tls_1_3 = true;
  set_max_tls_1_3 = true;
  pcap_findalldevs = some (
      record { name = codes "lo"; loopback = true }
      ∷ record { name = codes "eth0"; loopback = false }
      ∷ []);
  argv = codes "packet_capture" ∷ codes "eth0" ∷ codes "tcp" ∷ [];
  pcap_open_live = λ d. true;
  pcap_compile = λ f. true;
  pcap_setfilter = λ f. true;
  attempts = no_socket ∷ unreached 3 ∷ with_tls 3 false ∷ with_tls 4 true ∷ [];
  still_running = true;
}

host_captures : (main host).captured ≡ true
unfolding main with_devices with_device with_filter connect_and_run choose_device find_named agree
    connect_loop go_on try_connect try_socket try_tls shut_down
host_captures = refl

main-AllClosed_example : AllClosed (main host).events
main-AllClosed_example = main-AllClosed host

main-IsReady_example : IsReady host
main-IsReady_example = main-IsReady host host_captures

-- The counter of received frames wraps, and pcap_stats fails once.
abbrev answers : List (Option Totals)
answers =
    some (record { last_recv = 4294967290; last_drop = 0 })
    ∷ none
    ∷ some (record { last_recv = 4; last_drop = 1 })
    ∷ []

abbrev at_start : Totals
at_start = record { last_recv = 0; last_drop = 0 }

monitor_pcap_stats-sums_example :
    (u32 (0 + all_captured (monitor_pcap_stats answers at_start).0)
      ≡ (monitor_pcap_stats answers at_start).1.last_recv)
    × (u32 (0 + all_dropped (monitor_pcap_stats answers at_start).0)
        ≡ (monitor_pcap_stats answers at_start).1.last_drop)
monitor_pcap_stats-sums_example =
    monitor_pcap_stats-sums answers at_start (omega arith) (omega arith)
      (omega arith, omega arith, (omega arith, omega arith, tt))
