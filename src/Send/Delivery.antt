-- ===== src/Send/Delivery.antt =====
-- What the connection has been given when the loop of send_packet_info (cpp/packet_capture.cpp)
-- ends.
use pacsni.Prelude.{
  ℕ, zero, suc, ◌+◌, ◌-◌, ◌*◌, ◌≤◌, ◌<◌, ◌≡◌, refl, sym, ap, ◌∙◌, ◌⊎◌, inl, inr, true, false,
  Bool-cases, ◌++◌, length, length-drop, take, drop, drop-drop, take-more, append_assoc, append-nil,
  ltb, ltb→le, ltb→lt, ℤ, pos, negsuc, pos_part, ltb_int, ret, Ensures, Ensures-mono, Ensures-bind,
  Option, none, some, length-append, arith,
}
use mathlib.Core.Path.{subst}
use native.Mathlib.Nat.{add-mul, mul-le-mul_right}
use pacsni.Memory.{Bytes}
use pacsni.Packet.{PacketInfo}
use pacsni.Send.Layout.{bytes_of}
use pacsni.Packet.Info.{HasLayout}
use pacsni.Send.Layout.RoundTrip.{length-bytes_of}
use pacsni.Send.Message.{combined_lem}
use pacsni.Send.{Tls, wants_retry, secret_key, send_loop, send_packet_info}

-- What the code relies on. A write that succeeds says how many bytes it has taken, which are at most
-- those it was given; one that fails has taken none.
pub record IsWriter (T : Tls) : Type 0 where
  pub counted :
      (c : T.Ssl) (b : Bytes)
      → ltb_int (T.ssl_write c b).0 1 ≡ false
      → pos_part (T.ssl_write c b).0 ≤ length b
  pub advances :
      (c : T.Ssl) (b : Bytes)
      → ltb_int (T.ssl_write c b).0 1 ≡ false
      → T.taken (T.ssl_write c b).1 ≡ T.taken c ++ take (pos_part (T.ssl_write c b).0) b
  pub waits :
      (c : T.Ssl) (b : Bytes)
      → ltb_int (T.ssl_write c b).0 1 ≡ true
      → T.taken (T.ssl_write c b).1 ≡ T.taken c

-- The answer to a write that is to be tried again.
abbrev pub AsksAgain : (T : Tls) → T.Ssl → Bytes → Type 0
AsksAgain T c b =
    (ltb_int (T.ssl_write c b).0 1 ≡ true)
    × (wants_retry (T.ssl_get_error (T.ssl_write c b).1 (T.ssl_write c b).0) ≡ true)

-- Such a connection that, where there are bytes to write, asks for the same write again only a number
-- of times in a row, at most `limit`.
pub record IsStream (T : Tls) : Type 0 where
  pub writer : IsWriter T
  pub limit : ℕ
  pub patience : T.Ssl → ℕ
  pub bounded : (c : T.Ssl) → patience c ≤ limit
  pub patient :
      (c : T.Ssl) (b : Bytes)
      → 1 ≤ length b
      → AsksAgain T c b
      → patience (T.ssl_write c b).1 < patience c

-- Writes of what is left of `b`, one after the other, of which the connection `c` has asked for `k`
-- to be tried again.
pub data Retries (T : Tls) : T.Ssl → Bytes → ℕ → Type 0 where
  no_more : (c : T.Ssl) (b : Bytes) → Retries T c b zero
  taken :
      (c : T.Ssl) (b : Bytes) (k : ℕ)
      → 1 ≤ length b
      → ltb_int (T.ssl_write c b).0 1 ≡ false
      → Retries T (T.ssl_write c b).1 (drop (pos_part (T.ssl_write c b).0) b) k
      → Retries T c b k
  again :
      (c : T.Ssl) (b : Bytes) (k : ℕ)
      → 1 ≤ length b
      → AsksAgain T c b
      → Retries T (T.ssl_write c b).1 b k
      → Retries T c b (suc k)

-- `c` has asked for so many writes of `b` to be tried again that `f` rounds were not enough.
pub record IsDelayed (T : Tls) (c : T.Ssl) (b : Bytes) (f : ℕ) : Type 0 where
  pub count : ℕ
  pub retries : Retries T c b count
  pub many : f ≤ length b + count

-- The connection is what a write has left that failed and is not to be tried again.
pub record IsBroken (T : Tls) (c : T.Ssl) : Type 0 where
  pub before : T.Ssl
  pub given : Bytes
  pub some_bytes : 1 ≤ length given
  pub left : (T.ssl_write before given).1 ≡ c
  pub failed : ltb_int (T.ssl_write before given).0 1 ≡ true
  pub final : wants_retry (T.ssl_get_error c (T.ssl_write before given).0) ≡ false

-- `c` has become `c'`: it has taken a first part of `b`, and all of it unless it is broken.
pub record HasTaken (T : Tls) (c : T.Ssl) (b : Bytes) (c' : T.Ssl) : Type 0 where
  pub count : ℕ
  pub bound : count ≤ length b
  pub bytes : T.taken c' ≡ T.taken c ++ take count b
  pub whole : (count ≡ length b) ⊎ IsBroken T c'

-- What the parts of a sum become.
either {ℓ κ μ ν} :
    {A : Type ℓ} {B : Type κ} {C : Type μ} {D : Type ν} → A ⊎ B → (A → C) → (B → D) → C ⊎ D
either (inl a) f g = inl (f a)
either (inr b) f g = inr (g b)

positive : (n : ℤ) → ltb_int n 1 ≡ false → 1 ≤ pos_part n
positive (pos n) h = ltb→le n 1 h
positive (negsuc n) h = cc

module _ (T : Tls) (S : IsWriter T) where
  write_more :
      (c c' : T.Ssl) (b : Bytes)
      → ltb_int (T.ssl_write c b).0 1 ≡ false
      → HasTaken T (T.ssl_write c b).1 (drop (pos_part (T.ssl_write c b).0) b) c'
      → HasTaken T c b c'
  write_more c c' b ok t =
      let n = pos_part (T.ssl_write c b).0 in
      let le : n ≤ length b = S.counted c b ok in
      record {
        count = n + t.count;
        bound = omega (arith, t.bound, length-drop n b);
        bytes =
            t.bytes
            ∙ ap (λ k. k ++ take t.count (drop n b)) (S.advances c b ok)
            ∙ append_assoc (T.taken c) (take n b) (take t.count (drop n b))
            ∙ ap (λ k. T.taken c ++ k) (sym (take-more n t.count b));
        whole = elim t.whole [
          | inl all ↦ inl (omega (arith, length-drop n b))
          | inr broken ↦ inr broken
        ];
      }

  -- A write that is to be tried again.
  write_again :
      (c c' : T.Ssl) (b : Bytes)
      → ltb_int (T.ssl_write c b).0 1 ≡ true
      → HasTaken T (T.ssl_write c b).1 b c'
      → HasTaken T c b c'
  write_again c c' b bad t = record {
    count = t.count;
    bound = t.bound;
    bytes = t.bytes ∙ ap (λ k. k ++ take t.count b) (S.waits c b bad);
    whole = t.whole;
  }

  write_no_more :
      (c : T.Ssl) (b : Bytes)
      → 1 ≤ length b
      → ltb_int (T.ssl_write c b).0 1 ≡ true
      → wants_retry (T.ssl_get_error (T.ssl_write c b).1 (T.ssl_write c b).0) ≡ false
      → HasTaken T c b (T.ssl_write c b).1
  write_no_more c b given bad final = record {
    count = 0;
    bound = omega arith;
    bytes = S.waits c b bad ∙ sym (append-nil (T.taken c));
    whole = inr (record {
      before = c;
      given = b;
      some_bytes = given;
      left = refl;
      failed = bad;
      final = final;
    });
  }

  write_nothing : (c : T.Ssl) (b : Bytes) → length b ≡ 0 → HasTaken T c b c
  write_nothing c b empty = record {
    count = 0;
    bound = omega arith;
    bytes = sym (append-nil (T.taken c));
    whole = inl (sym empty);
  }

  IsDelayed-more :
      (c : T.Ssl) (b : Bytes) (f : ℕ)
      → 1 ≤ length b
      → ltb_int (T.ssl_write c b).0 1 ≡ false
      → IsDelayed T (T.ssl_write c b).1 (drop (pos_part (T.ssl_write c b).0) b) f
      → IsDelayed T c b (suc f)
  IsDelayed-more c b f given ok d = record {
    count = d.count;
    retries = Retries.taken c b d.count given ok d.retries;
    many = omega (
      arith,
      d.many,
      positive (T.ssl_write c b).0 ok,
      S.counted c b ok,
      length-drop (pos_part (T.ssl_write c b).0) b,
    );
  }

  IsDelayed-again :
      (c : T.Ssl) (b : Bytes) (f : ℕ)
      → 1 ≤ length b
      → AsksAgain T c b
      → IsDelayed T (T.ssl_write c b).1 b f
      → IsDelayed T c b (suc f)
  IsDelayed-again c b f given asked d = record {
    count = suc d.count;
    retries = Retries.again c b d.count given asked d.retries;
    many = omega (arith, d.many);
  }

  pub send_loop-HasTaken :
      (f : ℕ) (b : Bytes) (sent : ℕ) (c : T.Ssl)
      → sent ≤ length b
      → Ensures (send_loop T f b sent c) (HasTaken T c (drop sent b))
        ⊎ IsDelayed T c (drop sent b) f
  unfolding send_loop
  send_loop-HasTaken zero b sent c inside =
      inr (record { count = 0; retries = Retries.no_more c (drop sent b); many = omega arith })
  send_loop-HasTaken (suc f) b sent c inside =
      let rest = drop sent b in
      let w = T.ssl_write c rest in
      let n = pos_part w.0 in
      let size : length rest ≡ length b - sent = length-drop sent b in
      elim (Bool-cases (ltb sent (length b))) [
        | inr done ↦
            rw (done, Ensures)
              (inl (write_nothing c rest (omega (arith, ltb→le sent (length b) done))))
        | inl more ↦
            let given : 1 ≤ length rest = omega (arith, ltb→lt sent (length b) more) in
            rw (more, Ensures)
              (elim (Bool-cases (ltb_int w.0 1)) [
                | inr ok ↦
                    let back : drop n rest ≡ drop (sent + n) b = drop-drop sent n b in
                    rw (ok, Ensures)
                      (either
                        (send_loop-HasTaken f b (sent + n) w.1 (omega (arith, S.counted c rest ok)))
                        (λ e.
                          Ensures-mono (HasTaken T w.1 (drop (sent + n) b)) (HasTaken T c rest)
                            (send_loop T f b (sent + n) w.1) e
                            (λ c' t.
                              write_more c c' rest ok
                                (subst (λ k. HasTaken T w.1 k c') (sym back) t)))
                        (λ d.
                          IsDelayed-more c rest f given ok
                            (subst (λ k. IsDelayed T w.1 k f) (sym back) d)))
                | inl bad ↦
                    rw (bad, Ensures)
                      (elim (Bool-cases (wants_retry (T.ssl_get_error w.1 w.0))) [
                        | inl retry ↦
                            rw (retry, Ensures)
                              (either (send_loop-HasTaken f b sent w.1 inside)
                                (λ e.
                                  Ensures-mono (HasTaken T w.1 rest) (HasTaken T c rest)
                                    (send_loop T f b sent w.1) e
                                    (λ c' t. write_again c c' rest bad t))
                                (λ d. IsDelayed-again c rest f given (bad, retry) d))
                        | inr final ↦
                            rw (final, Ensures) (inl (write_no_more c rest given bad final))
                      ])
              ])
      ]

-- The bytes that are to be sent for a record.
abbrev pub frame : (Bytes → Bytes → Bytes) → Bytes → PacketInfo → Bytes
frame hmac key i = bytes_of i ++ hmac key (bytes_of i)

pub length-frame :
    (hmac : Bytes → Bytes → Bytes) (key : Bytes) (i : PacketInfo)
    → ((k b : Bytes) → length (hmac k b) ≡ 64)
    → HasLayout i
    → length (frame hmac key i) ≡ 1088
length-frame hmac key i size v = omega (
  arith,
  length-append (bytes_of i) (hmac key (bytes_of i)),
  length-bytes_of i v,
  size key (bytes_of i),
)

-- A call of send_packet_info that has a connection keeps it.
abbrev pub Keeps : (T : Tls) → (T.Ssl → Type 0) → Option T.Ssl → Type 0
Keeps T P none = ⊥
Keeps T P (some c) = P c

-- Where a write that succeeds takes at least one and at most all of the bytes it is given and one that
-- fails takes none, the arrays of the record have their lengths, whatever its members hold, the HMAC
-- has 64 bytes and the secret is a C string: for every `f`, within `f` rounds a call with a
-- connection has either returned, and then the connection has taken a first part of the record's
-- bytes and of their HMAC behind them, and all of both unless a write has failed for good; or the
-- connection has asked for at least `f - 1088` of the writes to be tried again.
pub send_packet_info-HasTaken :
    (T : Tls) (S : IsWriter T) (f : ℕ) (hmac : Bytes → Bytes → Bytes) (secret : Option Bytes)
    (key : Bytes) (c : T.Ssl) (i : PacketInfo)
    → ((k b : Bytes) → length (hmac k b) ≡ 64)
    → secret_key secret ≡ ret key
    → HasLayout i
    → Ensures
        (send_packet_info T f hmac secret (some c) i)
        (Keeps T (HasTaken T c (frame hmac key i)))
      ⊎ IsDelayed T c (frame hmac key i) f
unfolding send_packet_info
send_packet_info-HasTaken T S f hmac secret key c i size known v =
    let mac = hmac key (bytes_of i) in
    let b = frame hmac key i in
    rw (known, combined_lem i mac v (size key (bytes_of i)))
      (either (send_loop-HasTaken T S f b 0 c (omega arith))
        (λ e.
          Ensures-bind (HasTaken T c b) (Keeps T (HasTaken T c b)) (send_loop T f b 0 c)
            (λ c'. ret (some c')) e (λ c' t. t))
        (λ d. d))

-- A connection with a bounded patience asks for few writes again.
Retries-bound :
    (T : Tls) (S : IsStream T) {c : T.Ssl} {b : Bytes} {k : ℕ}
    → Retries T c b k
    → k ≤ length b * S.limit + S.patience c
Retries-bound T S (Retries.no_more c b) = omega arith
Retries-bound T S (Retries.taken c b k given ok r) =
    let n = pos_part (T.ssl_write c b).0 in
    let one : 1 ≤ n = positive (T.ssl_write c b).0 ok in
    let left : length b - n ≤ length b - 1 = omega arith in
    let split : length b ≡ length b - 1 + 1 = omega arith in
    omega (
      arith,
      Retries-bound T S r,
      ap (λ m. m * S.limit) (length-drop n b),
      mul-le-mul_right S.limit left,
      ap (λ m. m * S.limit) split,
      add-mul (length b - 1) 1 S.limit,
      S.bounded (T.ssl_write c b).1,
    )
Retries-bound T S (Retries.again c b k given asked r) =
    omega (arith, Retries-bound T S r, S.patient c b given asked)

-- Where the connection's patience is bounded by `limit`, more than 1088 * (limit + 1) + limit rounds
-- are enough.
pub send_packet_info-returns :
    (T : Tls) (S : IsStream T) (f : ℕ) (hmac : Bytes → Bytes → Bytes) (secret : Option Bytes)
    (key : Bytes) (c : T.Ssl) (i : PacketInfo)
    → ((k b : Bytes) → length (hmac k b) ≡ 64)
    → secret_key secret ≡ ret key
    → HasLayout i
    → 1088 * suc S.limit + S.limit < f
    → Ensures
        (send_packet_info T f hmac secret (some c) i)
        (Keeps T (HasTaken T c (frame hmac key i)))
send_packet_info-returns T S f hmac secret key c i size known v enough =
    let full : length (frame hmac key i) ≡ 1088 = length-frame hmac key i size v in
    elim (send_packet_info-HasTaken T S.writer f hmac secret key c i size known v) [
      | inl e ↦ e
      | inr d ↦ absurd (
          omega
            (arith, d.many, Retries-bound T S d.retries, ap (λ m. m * S.limit) full, S.bounded c))
    ]
