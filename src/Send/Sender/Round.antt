-- ===== src/Send/Sender/Round.antt =====
-- The rounds of the sender's loops: what the workers push, and one record that is sent whole.
use pacsni.Prelude.{
  ℕ, suc, ◌+◌, ◌*◌, ◌^◌, ◌≤◌, ◌<◌, ◌≡◌, refl, ap, ◌∙◌, inl, inr, Bool, true, false, Option, none,
  some, List, [], ◌∷◌, ◌++◌, length, length-append, append_assoc, append-nil, Exec, ret,
  take-eq_self, Ensures, Ensures-get, ltb_int, arith,
}
use mathlib.Core.Path.{subst}
use pacsni.Memory.{Bytes}
use pacsni.Packet.{PacketInfo}
use pacsni.Ring.{LockFreeQueue}
use pacsni.Ring.Valid.{Holds}
use pacsni.Ring.Refine.{pop_refines}
use pacsni.Capture.Worker.Order.{push_until-Pushed}
use pacsni.Send.{Tls, wants_retry, secret_key, send_packet_info}
use pacsni.Packet.Info.{IsInfo-HasLayout}
use pacsni.Send.Delivery.{IsStream, IsBroken, HasTaken, Keeps, frame, send_packet_info-returns}
use pacsni.Send.Service.Stream.{AllInfo, stream}
use pacsni.Send.Sender.{SenderState, arrive, send_next}

-- No write of some bytes fails for good.
abbrev pub IsSteady : Tls → Type 0
IsSteady T =
    (c : T.Ssl) (b : Bytes)
    → 1 ≤ length b
    → ltb_int (T.ssl_write c b).0 1 ≡ true
    → wants_retry (T.ssl_get_error (T.ssl_write c b).1 (T.ssl_write c b).0) ≡ true

not_broken : (T : Tls) (c : T.Ssl) → IsSteady T → IsBroken T c → ⊥
not_broken T c steady b =
    let n = (T.ssl_write b.before b.given).0 in
    let retry : wants_retry (T.ssl_get_error c n) ≡ true =
      subst (λ d. wants_retry (T.ssl_get_error d n) ≡ true) b.left
        (steady b.before b.given b.some_bytes b.failed) in
    let final = b.final in cc

-- The queue holds `items`, and the connection has taken `bytes`.
pub record Ready (T : Tls) (k : ℕ) (items : List PacketInfo) (bytes : Bytes) (s : SenderState T)
    : Type 0 where
  pub head : ℕ
  pub holds : Holds k s.dissected_queue items head
  pub connection : T.Ssl
  pub connected : s.ssl ≡ some connection
  pub taken : T.taken connection ≡ bytes

pub record Arrived (T : Tls) (weak k : ℕ) (items new : List PacketInfo) (bytes : Bytes)
    (s : SenderState T) : Type 0 where
  pub queue : LockFreeQueue PacketInfo
  pub returns : arrive weak s.dissected_queue new ≡ ret queue
  pub ready : Ready T k (items ++ new) bytes (record { dissected_queue = queue; ssl = s.ssl })

pub arrive-Arrived :
    (T : Tls) (weak k : ℕ) (items new : List PacketInfo) (bytes : Bytes) (s : SenderState T)
    → Ready T k items bytes s
    → length items + length new ≤ 2 ^ k
    → Arrived T weak k items new bytes s
unfolding arrive
arrive-Arrived T weak k items [] bytes s r room = record {
  queue = s.dissected_queue;
  returns = refl;
  ready = record {
    head = r.head;
    holds = rw (append-nil items) r.holds;
    connection = r.connection;
    connected = r.connected;
    taken = r.taken;
  };
}
arrive-Arrived T weak k items (i ∷ new) bytes s r room =
    let p = push_until-Pushed 0 weak i r.holds (omega arith) in
    let s₁ : SenderState T = record { dissected_queue = p.after; ssl = s.ssl } in
    let r₁ : Ready T k (items ++ (i ∷ [])) bytes s₁ = record {
      head = r.head;
      holds = p.holds;
      connection = r.connection;
      connected = r.connected;
      taken = r.taken;
    } in
    let t =
      arrive-Arrived T weak k (items ++ (i ∷ [])) new bytes s₁ r₁
        (omega (arith, length-append items (i ∷ []))) in
    record {
      queue = t.queue;
      returns = rw p.returns t.returns;
      ready = rw (append_assoc items (i ∷ []) new) at t.ready;
    }

pub AllInfo-front : (is js : List PacketInfo) → AllInfo (is ++ js) → AllInfo is
AllInfo-front [] js v = tt
AllInfo-front (i ∷ is) js (v, vs) = (v, AllInfo-front is js vs)

pub AllInfo-back : (is js : List PacketInfo) → AllInfo (is ++ js) → AllInfo js
AllInfo-back [] js v = v
AllInfo-back (i ∷ is) js (v, vs) = AllInfo-back is js vs

pub AllInfo-append : (is js : List PacketInfo) → AllInfo is → AllInfo js → AllInfo (is ++ js)
AllInfo-append [] js v w = w
AllInfo-append (i ∷ is) js (v, vs) w = (v, AllInfo-append is js vs w)

-- One call of `send_next`. What is in the queue is as good as sent, whatever comes behind it.
pub record SendsNext (T : Tls) (k : ℕ) (hmac : Bytes → Bytes → Bytes) (key : Bytes)
    (items : List PacketInfo) (bytes : Bytes) (code : Exec (Bool × SenderState T)) : Type 0 where
  pub popped : Bool
  pub after : SenderState T
  pub left : List PacketInfo
  pub sent : Bytes
  pub returns : code ≡ ret (popped, after)
  pub ready : Ready T k left sent after
  pub valid : AllInfo left
  pub shorter : popped ≡ true → suc (length left) ≡ length items
  pub fewer : length left ≤ length items
  pub done : popped ≡ false → left ≡ []
  pub same :
      (later : List PacketInfo)
      → sent ++ stream (hmac key) (left ++ later) ≡ bytes ++ stream (hmac key) (items ++ later)

-- A record is sent whole.
record SendsWhole (T : Tls) (f : ℕ) (hmac : Bytes → Bytes → Bytes) (secret : Option Bytes)
    (key : Bytes) (c : T.Ssl) (i : PacketInfo) : Type 0 where
  connection : T.Ssl
  returns : send_packet_info T f hmac secret (some c) i ≡ ret (some connection)
  taken : T.taken connection ≡ T.taken c ++ frame hmac key i

whole_bytes :
    (T : Tls) (c c' : T.Ssl) (b : Bytes)
    → IsSteady T
    → HasTaken T c b c'
    → T.taken c' ≡ T.taken c ++ b
whole_bytes T c c' b steady t = elim t.whole [
  | inl all ↦ t.bytes ∙ ap (λ k. T.taken c ++ k) (take-eq_self t.count b (omega arith))
  | inr broken ↦ absurd (not_broken T c' steady broken)
]

kept_whole :
    (T : Tls) (f : ℕ) (hmac : Bytes → Bytes → Bytes) (secret : Option Bytes) (key : Bytes)
    (c : T.Ssl) (i : PacketInfo) (o : Option T.Ssl)
    → IsSteady T
    → send_packet_info T f hmac secret (some c) i ≡ ret o
    → Keeps T (HasTaken T c (frame hmac key i)) o
    → SendsWhole T f hmac secret key c i
kept_whole T f hmac secret key c i none steady e t = absurd t
kept_whole T f hmac secret key c i (some c') steady e t = record {
  connection = c';
  returns = e;
  taken = whole_bytes T c c' (frame hmac key i) steady t;
}

sends_whole :
    (T : Tls) (f : ℕ) (hmac : Bytes → Bytes → Bytes) (secret : Option Bytes) (key : Bytes)
    (c : T.Ssl) (i : PacketInfo)
    → IsSteady T
    → Ensures
        (send_packet_info T f hmac secret (some c) i)
        (Keeps T (HasTaken T c (frame hmac key i)))
    → SendsWhole T f hmac secret key c i
sends_whole T f hmac secret key c i steady e =
    let (o, returns, t) =
      Ensures-get (Keeps T (HasTaken T c (frame hmac key i)))
        (send_packet_info T f hmac secret (some c) i) e in
    kept_whole T f hmac secret key c i o steady returns t

module _ (T : Tls) (S : IsStream T) (steady : IsSteady T) (weak f : ℕ)
    (hmac : Bytes → Bytes → Bytes) (secret : Option Bytes) (key : Bytes)
    (size : (k b : Bytes) → length (hmac k b) ≡ 64) (known : secret_key secret ≡ ret key)
    (enough : 1088 * suc S.limit + S.limit < f) where
  pub send_next-SendsNext :
      (k : ℕ) (items : List PacketInfo) (bytes : Bytes) (s : SenderState T)
      → Ready T k items bytes s
      → AllInfo items
      → SendsNext T k hmac key items bytes (send_next T weak f hmac secret s)
  unfolding send_next
  send_next-SendsNext k [] bytes s r v =
      let p = pop_refines weak [] r.holds in
      record {
        popped = false;
        after = record { dissected_queue = p.after; ssl = s.ssl };
        left = [];
        sent = bytes;
        returns = rw p.returns refl;
        ready = record {
          head = p.head';
          holds = p.holds;
          connection = r.connection;
          connected = r.connected;
          taken = r.taken;
        };
        valid = v;
        shorter = λ e. cc;
        fewer = omega arith;
        done = λ _. refl;
        same = λ _. refl;
      }
  send_next-SendsNext k (i ∷ items) bytes s r (v, vs) =
      let p = pop_refines weak (i ∷ items) r.holds in
      let w = sends_whole T f hmac secret key r.connection i steady (
        send_packet_info-returns T S f hmac secret key r.connection i size known
          (IsInfo-HasLayout v) enough) in
      record {
        popped = true;
        after = record { dissected_queue = p.after; ssl = some w.connection };
        left = items;
        sent = bytes ++ frame hmac key i;
        returns = rw (p.returns, r.connected, w.returns) refl;
        ready = record {
          head = p.head';
          holds = p.holds;
          connection = w.connection;
          connected = refl;
          taken = w.taken ∙ ap (λ b. b ++ frame hmac key i) r.taken;
        };
        valid = vs;
        shorter = λ _. refl;
        fewer = omega arith;
        done = λ e. cc;
        same = λ later. append_assoc bytes (frame hmac key i) (stream (hmac key) (items ++ later));
      }
