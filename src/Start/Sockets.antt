-- ===== src/Start/Sockets.antt =====
-- main closes its sockets.
use pacsni.Prelude.{
  ℕ, ◌≡◌, refl, sym, ap, ◌∙◌, Bool, false, not, ◌==◌, if_both, Option, none, some, List, [], ◌∷◌,
  ◌++◌, append-nil,
}
use pacsni.Memory.{Bytes}
use pacsni.Start.{
  SocketEvent, opened, closed, Attempt, Connecting, close_socket, Tried, retry, connected, invalid,
  try_tls, try_socket, try_connect, Connection, stopped, established, refused, go_on, connect_loop,
  shut_down, Ended, World, Device, choose_device, target, filter, connect_and_run, with_filter,
  with_device, with_devices, main,
}

-- The descriptors that were opened, and those that were closed, in their order.
abbrev pub opened_fds : List SocketEvent → List ℕ
opened_fds [] = []
opened_fds (opened fd ∷ es) = fd ∷ opened_fds es
opened_fds (closed fd ∷ es) = opened_fds es

abbrev pub closed_fds : List SocketEvent → List ℕ
closed_fds [] = []
closed_fds (opened fd ∷ es) = closed_fds es
closed_fds (closed fd ∷ es) = fd ∷ closed_fds es

opened_fds-append :
    (es fs : List SocketEvent) → opened_fds (es ++ fs) ≡ opened_fds es ++ opened_fds fs
opened_fds-append [] fs = refl
opened_fds-append (opened fd ∷ es) fs = ap (λ l. fd ∷ l) (opened_fds-append es fs)
opened_fds-append (closed fd ∷ es) fs = opened_fds-append es fs

closed_fds-append :
    (es fs : List SocketEvent) → closed_fds (es ++ fs) ≡ closed_fds es ++ closed_fds fs
closed_fds-append [] fs = refl
closed_fds-append (opened fd ∷ es) fs = closed_fds-append es fs
closed_fds-append (closed fd ∷ es) fs = ap (λ l. fd ∷ l) (closed_fds-append es fs)

abbrev current : Option ℕ → List ℕ
current none = []
current (some fd) = fd ∷ []

-- All sockets but the current one have been closed, in their order.
abbrev Tidy : Option ℕ → List SocketEvent → Type 0
Tidy o es = opened_fds es ≡ closed_fds es ++ current o

close_socket-Tidy :
    (o : Option ℕ) (es : List SocketEvent) → Tidy o es → Tidy none (close_socket o es)
unfolding close_socket
close_socket-Tidy none es t = t
close_socket-Tidy (some fd) es t =
    opened_fds-append es (closed fd ∷ [])
    ∙ append-nil (opened_fds es)
    ∙ t
    ∙ sym (closed_fds-append es (closed fd ∷ []))
    ∙ sym (append-nil (closed_fds (es ++ (closed fd ∷ []))))

close_once :
    (fd : ℕ) (es : List SocketEvent) → Tidy (some fd) es → Tidy none (es ++ (closed fd ∷ []))
unfolding close_socket
close_once fd es t = close_socket-Tidy (some fd) es t

open_socket-Tidy :
    (fd : ℕ) (es : List SocketEvent) → Tidy none es → Tidy (some fd) (es ++ (opened fd ∷ []))
open_socket-Tidy fd es t =
    opened_fds-append es (opened fd ∷ [])
    ∙ ap (λ l. l ++ (fd ∷ [])) (t ∙ append-nil (closed_fds es))
    ∙ ap (λ l. l ++ (fd ∷ []))
        (sym (closed_fds-append es (opened fd ∷ []) ∙ append-nil (closed_fds es)))

abbrev TidyTried : Tried → Type 0
TidyTried (retry s) = Tidy s.sockfd s.events
TidyTried (connected s) = Tidy s.sockfd s.events
TidyTried (invalid s) = Tidy none s.events

try_tls-TidyTried :
    (a : Attempt) (s : Connecting) → Tidy s.sockfd s.events → TidyTried (try_tls a s)
unfolding try_tls
try_tls-TidyTried a s t =
    if_both TidyTried (not a.ssl_new) t
      (if_both TidyTried (not a.ssl_set_fd) t (if_both TidyTried a.ssl_connect t t))

try_socket-TidyTried :
    (a : Attempt) (ssl : Bool) (es : List SocketEvent) (o : Option ℕ)
    → Tidy none es
    → TidyTried (try_socket a ssl es o)
unfolding try_socket
try_socket-TidyTried a ssl es none t = t
try_socket-TidyTried a ssl es (some fd) t =
    let new = open_socket-Tidy fd es t in
    if_both TidyTried (not a.inet_pton) (close_once fd (es ++ (opened fd ∷ [])) new) (
      if_both TidyTried a.connect
        (try_tls-TidyTried a
          (record { sockfd = some fd; ssl = ssl; events = es ++ (opened fd ∷ []) }) new)
        new)

abbrev Loose : Connection → Type 0
Loose (stopped s) = Tidy s.sockfd s.events
Loose (established s) = Tidy s.sockfd s.events
Loose (refused s) = Tidy none s.events

go_on-Loose :
    (loop : Connecting → Connection)
    → ((s : Connecting) → Tidy s.sockfd s.events → Loose (loop s))
    → (t : Tried) → TidyTried t
    → Loose (go_on loop t)
unfolding go_on
go_on-Loose loop h (retry s) t = h s t
go_on-Loose loop h (connected s) t = t
go_on-Loose loop h (invalid s) t = t

connect_loop-Loose :
    (rest : List Attempt) (s : Connecting) → Tidy s.sockfd s.events → Loose (connect_loop rest s)
unfolding connect_loop try_connect
connect_loop-Loose [] s t = t
connect_loop-Loose (a ∷ rest) s t =
    let tried =
      try_socket-TidyTried a s.ssl (close_socket s.sockfd s.events) a.socket
        (close_socket-Tidy s.sockfd s.events t) in
    go_on-Loose (connect_loop rest) (connect_loop-Loose rest)
      (try_socket a s.ssl (close_socket s.sockfd s.events) a.socket) tried

-- Each descriptor that was opened has been closed.
abbrev pub AllClosed : List SocketEvent → Type 0
AllClosed es = closed_fds es ≡ opened_fds es

Tidy-AllClosed : (es : List SocketEvent) → Tidy none es → AllClosed es
Tidy-AllClosed es t = sym (t ∙ append-nil (closed_fds es))

shut_down-AllClosed :
    (still : Bool) (c : Connection) → Loose c → AllClosed (shut_down still c).events
unfolding shut_down
shut_down-AllClosed still (stopped s) t =
    Tidy-AllClosed (close_socket s.sockfd s.events) (close_socket-Tidy s.sockfd s.events t)
shut_down-AllClosed still (established s) t =
    Tidy-AllClosed (close_socket s.sockfd s.events) (close_socket-Tidy s.sockfd s.events t)
shut_down-AllClosed still (refused s) t = Tidy-AllClosed s.events t

abbrev Closes : Ended → Type 0
Closes e = AllClosed e.events

connect_and_run-AllClosed : (w : World) → AllClosed (connect_and_run w).events
unfolding connect_and_run
connect_and_run-AllClosed w =
    let start : Connecting = record { sockfd = none; ssl = false; events = [] } in
    shut_down-AllClosed w.still_running (connect_loop w.attempts start)
      (connect_loop-Loose w.attempts start refl)

with_filter-AllClosed : (w : World) (f : Option Bytes) → AllClosed (with_filter w f).events
unfolding with_filter
with_filter-AllClosed w none = connect_and_run-AllClosed w
with_filter-AllClosed w (some f) =
    if_both Closes (not (w.pcap_compile f)) refl
      (if_both Closes (not (w.pcap_setfilter f)) refl (connect_and_run-AllClosed w))

with_device-AllClosed : (w : World) (d : Option Device) → AllClosed (with_device w d).events
unfolding with_device
with_device-AllClosed w none = refl
with_device-AllClosed w (some d) =
    if_both Closes (not (w.pcap_open_live d)) refl (with_filter-AllClosed w (filter w))

with_devices-AllClosed :
    (w : World) (ds : Option (List Device)) → AllClosed (with_devices w ds).events
unfolding with_devices
with_devices-AllClosed w none = refl
with_devices-AllClosed w (some ds) = with_device-AllClosed w (choose_device (target w) ds)

-- Whatever the system, OpenSSL and pcap answer, when main returns it has closed each socket that it
-- has opened, once and in their order.
pub main-AllClosed : (w : World) → AllClosed (main w).events
unfolding main
main-AllClosed w = if_both Closes (not (w.geteuid == 0)) refl (
    if_both Closes (not w.ssl_library_init) refl (
      if_both Closes (not w.tls_client_method) refl (
        if_both Closes (not w.ssl_ctx_new) refl (
          if_both Closes (not w.set_min_tls_1_3) refl (
            if_both Closes (not w.set_max_tls_1_3) refl
              (with_devices-AllClosed w w.pcap_findalldevs))))))
