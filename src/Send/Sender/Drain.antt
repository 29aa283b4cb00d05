-- ===== src/Send/Sender/Drain.antt =====
-- The sender sends all records that come into its queue, in their order.
use pacsni.Prelude.{
  ℕ, zero, suc, ◌+◌, ◌*◌, ◌^◌, ◌≤◌, ◌<◌, ◌≡◌, refl, sym, ap, ◌∙◌, inl, inr, Bool-cases, Option,
  List, [], ◌∷◌, ◌++◌, concat, length, length-append, append_assoc, append-nil, Exec, ret, Ensures,
  arith,
}
use mathlib.Core.Path.{subst}
use pacsni.Memory.{Bytes}
use pacsni.Packet.{PacketInfo}
use pacsni.Send.{Tls, secret_key}
use pacsni.Send.Delivery.{IsStream}
use pacsni.Send.Service.Stream.{AllInfo, stream}
use pacsni.Send.Sender.Round.{
  IsSteady, Ready, arrive-Arrived, AllInfo-front, AllInfo-back, AllInfo-append, send_next-SendsNext,
}
use pacsni.Send.Sender.{SenderState, send_running, send_rest, sender_thread_main}

module _ (T : Tls) (S : IsStream T) (steady : IsSteady T) (weak f : ℕ)
    (hmac : Bytes → Bytes → Bytes) (secret : Option Bytes) (key : Bytes)
    (size : (k b : Bytes) → length (hmac k b) ≡ 64) (known : secret_key secret ≡ ret key)
    (enough : 1088 * suc S.limit + S.limit < f) where
  record Runs (k : ℕ) (items : List PacketInfo) (bytes : Bytes) (code : Exec (SenderState T))
      : Type 0 where
    after : SenderState T
    left : List PacketInfo
    sent : Bytes
    returns : code ≡ ret after
    ready : Ready T k left sent after
    valid : AllInfo left
    fewer : length left ≤ length items
    same : sent ++ stream (hmac key) left ≡ bytes ++ stream (hmac key) items

  send_running-Runs :
      (k : ℕ) (arrivals : List (List PacketInfo)) (items : List PacketInfo) (bytes : Bytes)
      (s : SenderState T)
      → Ready T k items bytes s
      → AllInfo (items ++ concat arrivals)
      → length items + length (concat arrivals) ≤ 2 ^ k
      → Runs k (items ++ concat arrivals) bytes (send_running T weak f hmac secret arrivals s)
  unfolding send_running
  send_running-Runs k [] items bytes s r v room = record {
    after = s;
    left = items;
    sent = bytes;
    returns = refl;
    ready = r;
    valid = rw (append-nil items) at v;
    fewer = omega (arith, length-append items []);
    same = rw (append-nil items) refl;
  }
  send_running-Runs k (new ∷ arrivals) items bytes s r v room =
      let later = concat arrivals in
      let group : (items ++ new) ++ later ≡ items ++ (new ++ later) =
        append_assoc items new later in
      let a =
        arrive-Arrived T weak k items new bytes s r (omega (arith, length-append new later)) in
      let all : AllInfo ((items ++ new) ++ later) = subst AllInfo (sym group) v in
      let n =
        send_next-SendsNext T S steady weak f hmac secret key size known enough k (items ++ new)
          bytes (record { dissected_queue = a.queue; ssl = s.ssl }) a.ready
          (AllInfo-front (items ++ new) later all) in
      let t =
        send_running-Runs k arrivals n.left n.sent n.after n.ready
          (AllInfo-append n.left later n.valid (AllInfo-back (items ++ new) later all))
          (omega (arith, n.fewer, length-append items new, length-append new later)) in
      record {
        after = t.after;
        left = t.left;
        sent = t.sent;
        returns = rw (a.returns, n.returns) t.returns;
        ready = t.ready;
        valid = t.valid;
        fewer = omega (
          arith,
          t.fewer,
          n.fewer,
          length-append n.left later,
          length-append items new,
          length-append new later,
          length-append items (new ++ later),
        );
        same = t.same ∙ n.same later ∙ ap (λ l. bytes ++ stream (hmac key) l) group;
      }

  -- The second loop empties the queue.
  record Empties (k : ℕ) (items : List PacketInfo) (bytes : Bytes) (code : Exec (SenderState T))
      : Type 0 where
    after : SenderState T
    returns : code ≡ ret after
    ready : Ready T k [] (bytes ++ stream (hmac key) items) after

  send_rest-Empties :
      (n k : ℕ) (items : List PacketInfo) (bytes : Bytes) (s : SenderState T)
      → Ready T k items bytes s
      → AllInfo items
      → length items < n
      → Empties k items bytes (send_rest T weak f hmac secret n s)
  unfolding send_rest
  send_rest-Empties zero k items bytes s r v few = absurd (omega arith)
  send_rest-Empties (suc n) k items bytes s r v few =
      let t =
        send_next-SendsNext T S steady weak f hmac secret key size known enough k items bytes s r
          v in
      let same : t.sent ++ stream (hmac key) t.left ≡ bytes ++ stream (hmac key) items =
        ap (λ l. t.sent ++ stream (hmac key) l) (sym (append-nil t.left))
        ∙ t.same []
        ∙ ap (λ l. bytes ++ stream (hmac key) l) (append-nil items) in
      elim (Bool-cases t.popped) [
        | inl more ↦
            let u =
              send_rest-Empties n k t.left t.sent t.after t.ready t.valid
                (omega (arith, t.shorter more)) in
            record {
              after = u.after;
              returns = rw (t.returns, more) u.returns;
              ready = subst (λ b. Ready T k [] b u.after) same u.ready;
            }
        | inr last ↦
            let empty : t.left ≡ [] = t.done last in
            record {
              after = t.after;
              returns = rw (t.returns, last) refl;
              ready =
                  subst (λ b. Ready T k [] b t.after)
                    (sym (append-nil t.sent)
                      ∙ ap (λ l. t.sent ++ stream (hmac key) l) (sym empty)
                      ∙ same)
                    (subst (λ l. Ready T k l t.sent t.after) empty t.ready);
            }
      ]

  -- Where the queue holds `items` and has room for all that the workers push, the records are in the
  -- ranges of their types, the secret is a C string, the HMACs have 64 bytes, no write fails for
  -- good, a connection asks for the same write again at most `limit` times in a row, and `f` is more
  -- than 1088 * (limit + 1) + limit, the thread ends, with one round of its last loop for each record
  -- and one more: the queue is empty, and the connection has taken the bytes of `items` and of what
  -- was pushed, each once, whole, in their order, and each with its HMAC behind it.
  pub sender_thread_main-stream :
      (n k : ℕ) (arrivals : List (List PacketInfo)) (items : List PacketInfo) (bytes : Bytes)
      (s : SenderState T)
      → Ready T k items bytes s
      → AllInfo (items ++ concat arrivals)
      → length items + length (concat arrivals) ≤ 2 ^ k
      → length items + length (concat arrivals) < n
      → Ensures
          (sender_thread_main T weak f hmac secret n arrivals s)
          (Ready T k [] (bytes ++ stream (hmac key) (items ++ concat arrivals)))
  unfolding sender_thread_main
  sender_thread_main-stream n k arrivals items bytes s r v room rounds =
      let t = send_running-Runs k arrivals items bytes s r v room in
      let u =
        send_rest-Empties n k t.left t.sent t.after t.ready t.valid
          (omega (arith, t.fewer, length-append items (concat arrivals))) in
      rw (t.returns, u.returns) (subst (λ b. Ready T k [] b u.after) t.same u.ready)
