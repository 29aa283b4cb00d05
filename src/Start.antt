-- ===== src/Start.antt =====
-- main of cpp/packet_capture.cpp: its checks, the choice of the interface, the loop that connects to
-- the packet service, and the end. What the system, OpenSSL and pcap answer is an argument; texts that
-- are printed are left out.
pub mod Sockets
pub mod Choice
pub mod Ready
pub mod Stats
use pacsni.Prelude.{
  ℕ, Bool, true, false, not, ◌&&◌, Option, none, some, List, [], ◌∷◌, ◌++◌, get_elem?, ◌==◌,
  if◌then◌else◌,
}
use pacsni.Memory.{Bytes, agree}

-- `pcap_if_t`: the name, and whether PCAP_IF_LOOPBACK is set.
pub record Device : Type 0 where
  pub name : Bytes
  pub loopback : Bool

-- `strcmp(iter->name, target) == 0`
unfoldable pub find_named : Bytes → List Device → Option Device
find_named target [] = none
find_named target (d ∷ ds) =
    let rest = find_named target ds in if agree d.name target then some d else rest

unfoldable pub first_outside : List Device → Option Device
first_outside [] = none
first_outside (d ∷ ds) = let rest = first_outside ds in if d.loopback then rest else some d

abbrev pub head : List Device → Option Device
head [] = none
head (d ∷ ds) = some d

abbrev pub or_else : Option Device → Option Device → Option Device
or_else none o = o
or_else (some d) o = some d

-- The interface: the one with the name of the first argument, or, without arguments, the first that
-- is not the loopback, or the first at all.
unfoldable pub choose_device : Option Bytes → List Device → Option Device
choose_device (some target) ds = find_named target ds
choose_device none ds = or_else (first_outside ds) (head ds)

-- What happens to sockets.
pub data SocketEvent : Type 0 where
  opened : (fd : ℕ) → SocketEvent
  closed : (fd : ℕ) → SocketEvent

-- What the calls of one round answer. `socket` gives a descriptor, or -1.
pub record Attempt : Type 0 where
  pub socket : Option ℕ
  pub inet_pton : Bool
  pub connect : Bool
  pub ssl_new : Bool
  pub ssl_set_fd : Bool
  pub ssl_connect : Bool

-- The variables `sockfd` (`none` is -1) and `ssl` (whether it is set), and what has happened.
pub record Connecting : Type 0 where
  pub sockfd : Option ℕ
  pub ssl : Bool
  pub events : List SocketEvent

-- `if (sockfd != -1) close(sockfd);`
unfoldable pub close_socket : Option ℕ → List SocketEvent → List SocketEvent
close_socket none es = es
close_socket (some fd) es = es ++ (closed fd ∷ [])

-- How a round ends: by `continue` or at its end, by `break`, or by `return 1`.
pub data Tried : Type 0 where
  retry connected invalid : (s : Connecting) → Tried

unfoldable pub try_tls : Attempt → Connecting → Tried
try_tls a s =
    if not a.ssl_new
    then retry (record s { ssl = false })
    else if not a.ssl_set_fd
    then retry (record s { ssl = true })
    else if a.ssl_connect
    then connected (record s { ssl = true })
    else retry (record s { ssl = false })

-- The part of a round behind the call of `socket`.
unfoldable pub try_socket : Attempt → Bool → List SocketEvent → Option ℕ → Tried
try_socket a ssl es none = retry (record { sockfd = none; ssl = ssl; events = es })
try_socket a ssl es (some fd) =
    let s : Connecting = record { sockfd = some fd; ssl = ssl; events = es ++ (opened fd ∷ []) } in
    if not a.inet_pton
    then invalid (record s { events = s.events ++ (closed fd ∷ []) })
    else if a.connect
    then try_tls a s
    else retry s

unfoldable pub try_connect : Attempt → Connecting → Tried
try_connect a s = try_socket a s.ssl (close_socket s.sockfd s.events) a.socket

-- How the loop ends: keep_running is false, there is a connection, or main returns 1.
pub data Connection : Type 0 where
  stopped established refused : (s : Connecting) → Connection

-- What is left of the loop behind a round.
unfoldable pub go_on : (Connecting → Connection) → Tried → Connection
go_on loop (retry s) = loop s
go_on loop (connected s) = established s
go_on loop (invalid s) = refused s

-- The loop; keep_running is read as true before each of these rounds, and as false behind the last.
unfoldable pub connect_loop : List Attempt → Connecting → Connection
connect_loop [] s = stopped s
connect_loop (a ∷ more) s = go_on (connect_loop more) (try_connect a s)

-- The exit code, whether the threads were started, and what has happened to sockets.
pub record Ended : Type 0 where
  pub code : ℕ
  pub captured : Bool
  pub events : List SocketEvent

-- The part behind the loop; `still` is what keep_running is then read as.
unfoldable pub shut_down : Bool → Connection → Ended
shut_down still (stopped s) = record {
  code = 0;
  captured = false;
  events = close_socket s.sockfd s.events;
}
shut_down still (established s) = record {
  code = 0;
  captured = still && s.ssl;
  events = close_socket s.sockfd s.events;
}
shut_down still (refused s) = record { code = 1; captured = false; events = s.events }

-- The program's arguments, its name first, and the answers to main's calls, where those that give a
-- pointer or a code say whether they succeed.
pub record World : Type 0 where
  pub geteuid : ℕ
  pub ssl_library_init : Bool
  pub tls_client_method : Bool
  pub ssl_ctx_new : Bool
  pub set_min_tls_1_3 : Bool
  pub set_max_tls_1_3 : Bool
  pub pcap_findalldevs : Option (List Device)
  pub argv : List Bytes
  pub pcap_open_live : Device → Bool
  pub pcap_compile : Bytes → Bool
  pub pcap_setfilter : Bytes → Bool
  pub attempts : List Attempt
  pub still_running : Bool

-- `argv[1]`, the interface's name, where `argc > 1`.
abbrev pub target : World → Option Bytes
target w = get_elem? w.argv 1

-- `argv[2]`, the filter, where `argc > 2`.
abbrev pub filter : World → Option Bytes
filter w = get_elem? w.argv 2

abbrev pub exit : ℕ → Ended
exit n = record { code = n; captured = false; events = [] }

unfoldable pub connect_and_run : World → Ended
connect_and_run w =
    shut_down w.still_running
      (connect_loop w.attempts (record { sockfd = none; ssl = false; events = [] }))

unfoldable pub with_filter : World → Option Bytes → Ended
with_filter w none = connect_and_run w
with_filter w (some f) =
    if not (w.pcap_compile f)
    then exit 2
    else if not (w.pcap_setfilter f)
    then exit 2
    else connect_and_run w

unfoldable pub with_device : World → Option Device → Ended
with_device w none = exit 2
with_device w (some d) = if not (w.pcap_open_live d) then exit 2 else with_filter w (filter w)

unfoldable pub with_devices : World → Option (List Device) → Ended
with_devices w none = exit 2
with_devices w (some ds) = with_device w (choose_device (target w) ds)

unfoldable pub main : World → Ended
main w =
    if not (w.geteuid == 0)
    then exit 1
    else if not w.ssl_library_init
    then exit 1
    else if not w.tls_client_method
    then exit 1
    else if not w.ssl_ctx_new
    then exit 1
    else if not w.set_min_tls_1_3
    then exit 1
    else if not w.set_max_tls_1_3
    then exit 1
    else with_devices w w.pcap_findalldevs
