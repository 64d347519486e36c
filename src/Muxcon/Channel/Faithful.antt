-- ===== src/Muxcon/Channel/Faithful.antt =====
-- Every step of the link of openmux/server/adapters/muxcon.py keeps it faithful.
use openmux_server.Base.{
  ℕ, ◌+◌, ◌-◌, ◌^◌, ◌≤◌, ◌<◌, ◌≡◌, refl, sym, subst, Bool, true, false, ◌||◌, Option, none, some,
  List, [], ◌∷◌, ◌++◌, Text, arith, ◌==◌, ltb, leb, length, length-append, All, All-map, All-append,
  All-get_elem?, Bool-cases, inl, inr,
}
use openmux_server.Muxcon.Numbered.{Numbered, has, has-put, has-without, All-put, All-without}
use openmux_server.Muxcon.Receive.{Item, Conn, DataFrame, handle_inbound_data}
use openmux_server.Muxcon.Receive.Order.{item_at}
use openmux_server.Muxcon.Receive.Settled.{within}
use openmux_server.Muxcon.Receive.Handled.{patient, Handled, fresh_rx-IsSettled}
use openmux_server.Muxcon.Receive.Once.{IsOf, handle-IsResting, fresh_rx-IsResting}
use openmux_server.Muxcon.Send.{
  Tx, Unacked, send_data, resend, retx_scan, retx_scan_peer, rl_handle_ack, rl_handle_data,
}
use openmux_server.Muxcon.Channel.{
  Link, start, Step, Reach, IsReal, IsKept, IsFaithful, after_send, after_scan, after_data,
}
use openmux_server.Muxcon.Channel.Growing.{
  item_at-last, IsSettled-append, IsReal-append, IsKept-append,
}
use openmux_server.Muxcon.Channel.Heard.{handle-Handled}

below : (n : ℕ) → n + 1 < 2 ^ 63 → leb (2 ^ 63) (n + 1) ≡ false
below n h = ground arith

before : (seq k n : ℕ) → seq ≡ n + 1 → k ≤ n + 1 → (seq == k) ≡ false → k ≤ n
before seq k n e h ne = ground arith

-- A frame that is sent gets the next number, and is kept until it is acknowledged.
send-IsFaithful :
    (peer : Text) (l : Link) (path : Option Text) (now : ℕ) (x : Item)
    → l.tx.tx_seq + 1 < 2 ^ 63
    → IsFaithful peer l
    → IsFaithful peer (after_send l x (send_data path now x l.tx))
unfolding send_data
send-IsFaithful peer l none now x h i = i
send-IsFaithful peer l (some cid) now x h i =
    let u : Unacked = record { sent_by = cid; item = x; sent_at = now } in
    let seq : ℕ = l.tx.tx_seq in
    let new : item_at seq (l.sent ++ x ∷ []) ≡ some x =
      subst (λ k. item_at k (l.sent ++ x ∷ []) ≡ some x) (sym i.counter) (item_at-last l.sent x) in
    record {
      got = i.got;
      resting = i.resting;
      settled = IsSettled-append l.sent i.got x l.rx i.settled;
      counter = rw (below seq h) (omega (arith, i.counter, length-append l.sent (x ∷ [])));
      real = All-append _ l.wire _ (All-map _ _ l.wire (IsReal-append l.sent x) i.real) (new, tt);
      kept =
          All-put _ seq u l.tx.sendbuf new
            (All-map _ _ l.tx.sendbuf (IsKept-append l.sent x) i.kept);
      acked = i.acked;
      nothing_lost = λ k lo hi. rw (has-put seq k u l.tx.sendbuf) (elim (Bool-cases (seq == k)) [
        | inl e ↦ rw e refl
        | inr e ↦ rw e (
            i.nothing_lost k lo (
              before seq k (length l.sent) i.counter
                (omega (arith, hi, length-append l.sent (x ∷ []))) e))
      ]);
    }

-- What is sent again was sent before under its number.
module _ (sent : List Item) (path : Option Text) (now rto : ℕ) where
  resend-IsReal :
      (p : Option Text) (k : ℕ) (u : Unacked) (fs : List DataFrame) (buf : Numbered Unacked)
      → IsKept sent (k, u)
      → All (IsReal sent) fs
      → All (IsKept sent) buf
      → All (IsReal sent) (resend p now rto k u (fs, buf)).0
        × All (IsKept sent) (resend p now rto k u (fs, buf)).1
  resend-IsReal none k u fs buf h a b = (a, b)
  resend-IsReal (some cid) k u fs buf h a b = elim (Bool-cases (ltb (now - u.sent_at) rto)) [
    | inl e ↦ rw e (a, b)
    | inr e ↦
        rw e ((h, a), All-put (IsKept sent) k (record u { sent_by = cid; sent_at = now }) buf h b)
  ]

  resend-has :
      (p : Option Text) (j k : ℕ) (u : Unacked) (fs : List DataFrame) (buf : Numbered Unacked)
      → has j buf ≡ true
      → has j (resend p now rto k u (fs, buf)).1 ≡ true
  resend-has none j k u fs buf h = h
  resend-has (some cid) j k u fs buf h = elim (Bool-cases (ltb (now - u.sent_at) rto)) [
    | inl e ↦ rw e h
    | inr e ↦ rw e (ground (arith, has-put k j (record u { sent_by = cid; sent_at = now }) buf))
  ]

  retx_scan-IsReal :
      (d buf : Numbered Unacked)
      → All (IsKept sent) d
      → All (IsKept sent) buf
      → All (IsReal sent) (retx_scan path now rto d buf).0
        × All (IsKept sent) (retx_scan path now rto d buf).1
  unfolding retx_scan
  retx_scan-IsReal [] buf a b = (tt, b)
  retx_scan-IsReal ((k, u) ∷ d) buf a b =
      let (a', b') = retx_scan-IsReal d buf a.1 b in
      resend-IsReal path k u (retx_scan path now rto d buf).0 (retx_scan path now rto d buf).1 a.0
        a' b'

  retx_scan-has :
      (j : ℕ) (d buf : Numbered Unacked)
      → has j buf ≡ true
      → has j (retx_scan path now rto d buf).1 ≡ true
  unfolding retx_scan
  retx_scan-has j [] buf h = h
  retx_scan-has j ((k, u) ∷ d) buf h =
      resend-has path j k u (retx_scan path now rto d buf).0 (retx_scan path now rto d buf).1
        (retx_scan-has j d buf h)

either : (a b c : Bool) → (a ≡ true → c ≡ true) → (a || b) ≡ true → (c || b) ≡ true
either true b c f h = rw (f refl) refl
either false b c f h = ground (arith, h)

retransmit-IsFaithful :
    (peer : Text) (l : Link) (path : Option Text) (now rto : ℕ)
    → IsFaithful peer l
    → IsFaithful peer (after_scan l (retx_scan_peer path now rto l.tx))
unfolding retx_scan_peer
retransmit-IsFaithful peer l path now rto i =
    let r = retx_scan-IsReal l.sent path now rto l.tx.sendbuf l.tx.sendbuf i.kept i.kept in
    record {
      got = i.got;
      resting = i.resting;
      settled = i.settled;
      counter = i.counter;
      real = All-append _ l.wire _ i.real r.0;
      kept = r.1;
      acked = i.acked;
      nothing_lost = λ k lo hi.
          either (has k l.tx.sendbuf) _ _
            (retx_scan-has l.sent path now rto k l.tx.sendbuf l.tx.sendbuf)
            (i.nothing_lost k lo hi);
    }

either_right : (a b c : Bool) → (b ≡ true → c ≡ true) → (a || b) ≡ true → (a || c) ≡ true
either_right true b c f h = refl
either_right false b c f h = f h

receive-IsFaithful :
    (peer : Text) (stuck now : ℕ) (l : Link) (c : Conn) (f : DataFrame) (authenticated : Bool)
    (back : Tx)
    → item_at f.seq l.sent ≡ some f.item
    → IsOf peer c
    → patient stuck now l.rx ≡ true
    → IsFaithful peer l
    → IsFaithful peer (after_data l (rl_handle_data authenticated stuck now c f l.rx back))
unfolding rl_handle_data
receive-IsFaithful peer stuck now l c f false back real of calm i = i
receive-IsFaithful peer stuck now l c f true back real of calm i =
    let r : Handled l.sent i.got l.rx f.seq (handle_inbound_data stuck now c f l.rx) =
      handle-Handled peer l.sent i.got stuck now c f l.rx i.settled real of i.resting calm in
    record {
      got = r.0;
      resting = handle-IsResting peer stuck now c f l.rx of i.resting;
      settled = r.1;
      counter = i.counter;
      real = i.real;
      kept = i.kept;
      acked = (r.3, All-map _ _ l.acks r.2 i.acked);
      nothing_lost =
          λ k lo hi. either_right (has k l.tx.sendbuf) _ _ (r.2 k) (i.nothing_lost k lo hi);
    }

same_number : (k j : ℕ) → (k == j) ≡ true → k ≡ j
same_number k j e = ground arith

acknowledge-IsFaithful :
    (peer : Text) (l : Link) (k : ℕ)
    → ((i : IsFaithful peer l) → within i.got k l.rx ≡ true)
    → IsFaithful peer l
    → IsFaithful peer (record l { tx = rl_handle_ack k l.tx })
unfolding rl_handle_ack
acknowledge-IsFaithful peer l k h i = record {
  got = i.got;
  resting = i.resting;
  settled = i.settled;
  counter = i.counter;
  real = i.real;
  kept = All-without (IsKept l.sent) k l.tx.sendbuf i.kept;
  acked = i.acked;
  nothing_lost = λ j lo hi. rw (has-without k j l.tx.sendbuf) (elim (Bool-cases (k == j)) [
    | inl e ↦ rw e (subst (λ n. within i.got n l.rx ≡ true) (same_number k j e) (h i))
    | inr e ↦ rw e (i.nothing_lost j lo hi)
  ]);
}

Step-IsFaithful :
    {peer : Text} {stuck : ℕ} {l m : Link}
    → Step peer stuck l m
    → IsFaithful peer l
    → IsFaithful peer m
Step-IsFaithful {peer = peer} (Step.send l path now x h) i = send-IsFaithful peer l path now x h i
Step-IsFaithful {peer = peer} (Step.retransmit l path now rto) i =
    retransmit-IsFaithful peer l path now rto i
Step-IsFaithful {peer = peer} {stuck = stuck}
      (Step.receive l now n c f authenticated back e of calm) i =
    receive-IsFaithful peer stuck now l c f authenticated back
      (All-get_elem? (IsReal l.sent) l.wire n f i.real e) of calm i
Step-IsFaithful {peer = peer} (Step.acknowledge l n k e) i =
    acknowledge-IsFaithful peer l k
      (λ j. All-get_elem? (λ a. within j.got a l.rx ≡ true) l.acks n k j.acked e) i

start-IsFaithful : (peer : Text) → IsFaithful peer start
start-IsFaithful peer = record {
  got = 0;
  resting = fresh_rx-IsResting peer;
  settled = fresh_rx-IsSettled [];
  counter = omega arith;
  real = tt;
  kept = tt;
  acked = tt;
  nothing_lost = λ k lo hi. absurd (omega arith);
}

pub Reach-IsFaithful :
    {peer : Text} {stuck : ℕ} {l : Link} → Reach peer stuck start l → IsFaithful peer l
Reach-IsFaithful {peer = peer} Reach.here = start-IsFaithful peer
Reach-IsFaithful (Reach.next r s) = Step-IsFaithful s (Reach-IsFaithful r)
