-- ===== src/Start/Ready.antt =====
-- What main has made sure of when it starts its threads.
use pacsni.Prelude.{
  ℕ, ◌≡◌, refl, ◌⊎◌, inl, inr, Bool, true, false, not, ==_iff, ◌==◌, if◌then◌else◌, Option, none,
  some, List, [], ◌∷◌, get_elem?,
}
use mathlib.Core.Path.{subst}
use pacsni.Memory.{Bytes}
use pacsni.Start.Choice.{Suits, Chosen, choose_device-Chosen}
use pacsni.Start.{
  Device, choose_device, Attempt, Connecting, Tried, retry, connected, invalid, try_tls, try_socket,
  try_connect, Connection, stopped, established, refused, go_on, connect_loop, shut_down, Ended,
  World, target, filter, connect_and_run, with_filter, with_device, with_devices, main, SocketEvent,
  close_socket,
}

-- All calls of a round succeed, so that there is a TLS connection.
pub record IsHandshake (a : Attempt) : Type 0 where
  pub fd : ℕ
  pub socket : a.socket ≡ some fd
  pub address : a.inet_pton ≡ true
  pub connect : a.connect ≡ true
  pub ssl_new : a.ssl_new ≡ true
  pub ssl_set_fd : a.ssl_set_fd ≡ true
  pub ssl_connect : a.ssl_connect ≡ true

abbrev pub HasHandshake : List Attempt → Type 0
HasHandshake [] = ⊥
HasHandshake (a ∷ rest) = IsHandshake a ⊎ HasHandshake rest

pub record IsReady (w : World) : Type 0 where
  pub root : w.geteuid ≡ 0
  pub library : w.ssl_library_init ≡ true
  pub min_tls_1_3 : w.set_min_tls_1_3 ≡ true
  pub max_tls_1_3 : w.set_max_tls_1_3 ≡ true
  pub devices : List Device
  pub found : w.pcap_findalldevs ≡ some devices
  pub device : Device
  pub index : ℕ
  pub listed : get_elem? devices index ≡ some device
  pub suits : Suits (target w) devices device
  pub live : w.pcap_open_live device ≡ true
  pub filtered :
      (f : Bytes) → filter w ≡ some f → (w.pcap_compile f ≡ true) × (w.pcap_setfilter f ≡ true)
  pub handshake : HasHandshake w.attempts
  pub running : w.still_running ≡ true

-- A test that has let the code go on.
passed {ℓ} :
    {A : Type ℓ} (f : A → Bool) (b : Bool) {x y : A}
    → f x ≡ false
    → f (if not b then x else y) ≡ true
    → (b ≡ true) × (f y ≡ true)
passed f true e h = (refl, h)
passed f false e h = cc

-- A test after which the code goes on either way.
branch {ℓ} :
    {A : Type ℓ} (f : A → Bool) (b : Bool) {x y : A}
    → f y ≡ false
    → f (if b then x else y) ≡ true
    → (b ≡ true) × (f x ≡ true)
branch f true e h = (refl, h)
branch f false e h = cc

abbrev is_connected : Tried → Bool
is_connected (connected s) = true
is_connected (retry s) = false
is_connected (invalid s) = false

try_tls-connected :
    (a : Attempt) (s : Connecting)
    → is_connected (try_tls a s) ≡ true
    → (a.ssl_new ≡ true) × (a.ssl_set_fd ≡ true) × (a.ssl_connect ≡ true)
unfolding try_tls
try_tls-connected a s h =
    let (new, h₁) = passed is_connected a.ssl_new refl h in
    let (set, h₂) = passed is_connected a.ssl_set_fd refl h₁ in
    let (made, h₃) = branch is_connected a.ssl_connect refl h₂ in (new, set, made)

try_socket-connected :
    (a : Attempt) (ssl : Bool) (es : List SocketEvent) (o : Option ℕ)
    → a.socket ≡ o
    → is_connected (try_socket a ssl es o) ≡ true
    → IsHandshake a
unfolding try_socket
try_socket-connected a ssl es none e h = cc
try_socket-connected a ssl es (some fd) e h =
    let (address, h₁) = passed is_connected a.inet_pton refl h in
    let (reached, h₂) = branch is_connected a.connect refl h₁ in
    let (new, set, made) = try_tls-connected a _ h₂ in
    record {
      fd = fd;
      socket = e;
      address = address;
      connect = reached;
      ssl_new = new;
      ssl_set_fd = set;
      ssl_connect = made;
    }

abbrev is_established : Connection → Bool
is_established (established s) = true
is_established (stopped s) = false
is_established (refused s) = false

go_on-established :
    (a : Attempt) (rest : List Attempt) (t : Tried)
    → (is_connected t ≡ true → IsHandshake a)
    → ((s : Connecting) → is_established (connect_loop rest s) ≡ true → HasHandshake rest)
    → is_established (go_on (connect_loop rest) t) ≡ true
    → HasHandshake (a ∷ rest)
unfolding go_on
go_on-established a rest (retry s) k r h = inr (r s h)
go_on-established a rest (connected s) k r h = inl (k refl)
go_on-established a rest (invalid s) k r h = cc

connect_loop-established :
    (rest : List Attempt) (s : Connecting)
    → is_established (connect_loop rest s) ≡ true
    → HasHandshake rest
unfolding connect_loop try_connect
connect_loop-established [] s h = cc
connect_loop-established (a ∷ rest) s h =
    go_on-established a rest (try_socket a s.ssl (close_socket s.sockfd s.events) a.socket)
      (try_socket-connected a s.ssl (close_socket s.sockfd s.events) a.socket refl)
      (connect_loop-established rest) h

abbrev captures : Ended → Bool
captures e = e.captured

shut_down-captured :
    (still : Bool) (c : Connection)
    → captures (shut_down still c) ≡ true
    → (is_established c ≡ true) × (still ≡ true)
unfolding shut_down
shut_down-captured true (established s) h = (refl, refl)
shut_down-captured false (established s) h = cc
shut_down-captured still (stopped s) h = cc
shut_down-captured still (refused s) h = cc

abbrev Runs : World → Type 0
Runs w = HasHandshake w.attempts × (w.still_running ≡ true)

connect_and_run-captured : (w : World) → captures (connect_and_run w) ≡ true → Runs w
unfolding connect_and_run
connect_and_run-captured w h =
    let (made, still) = shut_down-captured w.still_running _ h in
    (connect_loop-established w.attempts _ made, still)

abbrev Filtered : World → Type 0
Filtered w =
    (f : Bytes) → filter w ≡ some f → (w.pcap_compile f ≡ true) × (w.pcap_setfilter f ≡ true)

with_filter-captured :
    (w : World) (o : Option Bytes)
    → filter w ≡ o
    → captures (with_filter w o) ≡ true
    → Filtered w × Runs w
unfolding with_filter
with_filter-captured w none e h = ((λ f e'. cc), connect_and_run-captured w h)
with_filter-captured w (some f) e h =
    let (compiled, h₁) = passed captures (w.pcap_compile f) refl h in
    let (set, h₂) = passed captures (w.pcap_setfilter f) refl h₁ in
    (
      (λ f' e'.
          let same : f ≡ f' = cc in
          subst (λ g. (w.pcap_compile g ≡ true) × (w.pcap_setfilter g ≡ true)) same
            (compiled, set)),
      connect_and_run-captured w h₂,
    )

with_device-captured :
    (w : World) (o : Option Device)
    → captures (with_device w o) ≡ true
    → (d : Device) × (o ≡ some d) × (w.pcap_open_live d ≡ true) × Filtered w × Runs w
unfolding with_device
with_device-captured w none h = cc
with_device-captured w (some d) h =
    let (live, h₁) = passed captures (w.pcap_open_live d) refl h in
    let (filtered, runs) = with_filter-captured w (filter w) refl h₁ in
    (d, refl, live, filtered, runs)

record Opens (w : World) (o : Option (List Device)) : Type 0 where
  devices : List Device
  found : o ≡ some devices
  device : Device
  chosen : Chosen (target w) devices device
  live : w.pcap_open_live device ≡ true
  filtered : Filtered w
  runs : Runs w

with_devices-captured :
    (w : World) (o : Option (List Device)) → captures (with_devices w o) ≡ true → Opens w o
unfolding with_devices
with_devices-captured w none h = cc
with_devices-captured w (some ds) h =
    let (d, e, live, filtered, runs) = with_device-captured w (choose_device (target w) ds) h in
    record {
      devices = ds;
      found = refl;
      device = d;
      chosen = choose_device-Chosen (target w) ds d e;
      live = live;
      filtered = filtered;
      runs = runs;
    }

-- When main starts its threads, it runs as root, TLS is restricted to version 1.3, the interface is
-- one of the list (with an argument one of that name; without arguments one that is not the
-- loopback, unless all of them are), pcap has opened it, the filter of the second argument, if there
-- is one, is compiled and set, a TLS connection has been made, and no signal has come.
pub main-IsReady : (w : World) → (main w).captured ≡ true → IsReady w
unfolding main
main-IsReady w h =
    let (root, h₁) = passed captures (w.geteuid == 0) refl h in
    let (library, h₂) = passed captures w.ssl_library_init refl h₁ in
    let (method, h₃) = passed captures w.tls_client_method refl h₂ in
    let (context, h₄) = passed captures w.ssl_ctx_new refl h₃ in
    let (low, h₅) = passed captures w.set_min_tls_1_3 refl h₄ in
    let (high, h₆) = passed captures w.set_max_tls_1_3 refl h₅ in
    let t = with_devices-captured w w.pcap_findalldevs h₆ in
    record {
      root = (==_iff w.geteuid 0).0 root;
      library = library;
      min_tls_1_3 = low;
      max_tls_1_3 = high;
      devices = t.devices;
      found = t.found;
      device = t.device;
      index = t.chosen.index;
      listed = t.chosen.listed;
      suits = t.chosen.suits;
      live = t.live;
      filtered = t.filtered;
      handshake = t.runs.0;
      running = t.runs.1;
    }
