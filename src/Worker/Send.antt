-- ===== src/Worker/Send.antt =====
-- send_all of src/transfer.c.
use openps3ftp.Base.{
  ℕ, zero, suc, ◌≤◌, ◌<◌, ◌≡◌, refl, sym, ◌∙◌, ap, Bool, true, false, Option, none, some, [], ◌∷◌,
  ◌++◌, Bytes, length, take, take-append-drop, drop, arith, append-nil, append_assoc, if_both,
}
use openps3ftp.Session.{ecanceled, eagain, epipe, Result, ok, err}
use openps3ftp.Worker.{
  Files, Channel, Again, Polled, poll_error, timed_out, woken, broken, ready, idle, Sent, accepted,
  send_error, nothing, retry_unless, polled, wait_fd, waited, plain_sent, tls_sent, send_round,
  send_all,
}
use openps3ftp.Worker.Laws.{view, Passes, IsCarrying, IsPrompt, Takes}

-- all went out, when the loop says so
abbrev pub Done : Option (Result (Unit {0})) → Bytes → Type 0
Done (some (ok u)) q = q ≡ []
Done (some (err e)) q = Unit {0}
Done none q = Unit {0}

module _ {W : Type 0} (out : W → Bytes) (left : ℕ → W → Bytes) (fd : ℕ) where
  -- The peer got the first part of the buffer, and all of it if the loop says so; no file was read.
  pub record IsPart (buf : Bytes) (w : W) (r : Option (Result (Unit {0})) × W) : Type 0 where
    pub sent : Bytes
    pub unsent : Bytes
    pub parts : buf ≡ sent ++ unsent
    pub moved : view out left fd r.1 ≡ (out w ++ sent, left fd w)
    pub done : Done r.0 unsent

  abbrev pub Same : W → W → Type 0
  Same w w' = view out left fd w' ≡ view out left fd w

  pub stay :
      (buf : Bytes) (w w' : W) (r : Option (Result (Unit {0})) × W)
      → Same w w'
      → IsPart buf w' r
      → IsPart buf w r
  stay buf w w' r e h = record {
    sent = h.sent;
    unsent = h.unsent;
    parts = h.parts;
    moved = h.moved ∙ ap (λ (v : Bytes × Bytes). (v.0 ++ h.sent, v.1)) e;
    done = h.done;
  }

  -- nothing more is sent
  pub halt :
      (buf : Bytes) (w w' : W) (rc : Option (Result (Unit {0})))
      → Done rc buf
      → Same w w'
      → IsPart buf w (rc, w')
  halt buf w w' rc d e = record {
    sent = [];
    unsent = buf;
    parts = refl;
    moved = e ∙ ap (λ (o : Bytes). (o, left fd w)) (sym (append-nil (out w)));
    done = d;
  }

  -- some bytes, and then the others
  pub pass :
      (n : ℕ) (buf : Bytes) (w w' : W) (r : Option (Result (Unit {0})) × W)
      → view out left fd w' ≡ (out w ++ take n buf, left fd w)
      → IsPart (drop n buf) w' r
      → IsPart buf w r
  pass n buf w w' r e h = record {
    sent = take n buf ++ h.sent;
    unsent = h.unsent;
    parts =
        sym (take-append-drop n buf)
        ∙ ap (λ l. take n buf ++ l) h.parts
        ∙ sym (append_assoc (take n buf) h.sent h.unsent);
    moved =
        h.moved
        ∙ ap (λ (v : Bytes × Bytes). (v.0 ++ h.sent, v.1)) e
        ∙ ap (λ (o : Bytes). (o, left fd w)) (append_assoc (out w) (take n buf) h.sent);
    done = h.done;
  }

  module _ (ch : Channel W) (law : IsCarrying out left ch) where
    pub retry-Same : (w : W) (b : Bool × W) → Same w b.1 → Same w (retry_unless ch b).1
    retry-Same w (true, w') h = h
    retry-Same w (false, w') h = h

    pub polled-Same : (w : W) (p : Polled × W) → Same w p.1 → Same w (polled ch p).1
    unfolding polled
    polled-Same w (poll_error e, w') h = h
    polled-Same w (timed_out, w') h = retry-Same w (ch.cancelled w') (law.cancelled fd w' ∙ h)
    polled-Same w (woken, w') h = retry-Same w (ch.cancelled w') (law.cancelled fd w' ∙ h)
    polled-Same w (broken, w') h = h
    polled-Same w (ready, w') h = h
    polled-Same w (idle, w') h = h

    pub wait_fd-Same : (b : Bool) (w : W) → Same w (wait_fd ch b w).1
    unfolding wait_fd
    wait_fd-Same b w = polled-Same w (ch.poll b w) (law.poll fd b w)

    waited-IsPart :
        (buf : Bytes) (again go : W → Option (Result (Unit {0})) × W) (w : W)
        (r : Result (Unit {0}) × W)
        → ((w' : W) → IsPart buf w' (again w'))
        → ((w' : W) → IsPart buf w' (go w'))
        → Same w r.1
        → IsPart buf w (waited ch again go r)
    unfolding waited
    waited-IsPart buf again go w (ok u, w') h k e = stay buf w w' (go w') e (k w')
    waited-IsPart buf again go w (err eagain, w') h k e = stay buf w w' (again w') e (h w')
    waited-IsPart buf again go w (err e', w') h k e = halt buf w w' (some (err e')) tt e

    plain_sent-IsPart :
        (buf : Bytes) (again : Again W) (w : W) (r : Sent × W)
        → ((b : Bytes) (w' : W) → IsPart b w' (again b w'))
        → Passes out left fd buf w r
        → IsPart buf w (plain_sent ch again buf r)
    unfolding plain_sent
    plain_sent-IsPart buf again w (accepted n, w') h p =
        pass n buf w w' (again (drop n buf) w') p.1 (h (drop n buf) w')
    plain_sent-IsPart buf again w (Sent.want_write, w') h p =
        stay buf w w' (again buf w') p (h buf w')
    plain_sent-IsPart buf again w (Sent.want_read, w') h p =
        stay buf w w' (again buf w') p (h buf w')
    plain_sent-IsPart buf again w (send_error e, w') h p = halt buf w w' (some (err e)) tt p
    plain_sent-IsPart buf again w (nothing, w') h p = halt buf w w' (some (err epipe)) tt p

    tls_sent-IsPart :
        (buf : Bytes) (again : Again W) (w : W) (r : Sent × W)
        → ((b : Bytes) (w' : W) → IsPart b w' (again b w'))
        → Passes out left fd buf w r
        → IsPart buf w (tls_sent ch again buf r)
    unfolding tls_sent
    tls_sent-IsPart buf again w (accepted n, w') h p =
        pass n buf w w' (again (drop n buf) w') p.1 (h (drop n buf) w')
    tls_sent-IsPart buf again w (Sent.want_write, w') h p =
        waited-IsPart buf (again buf) (again buf) w (wait_fd ch true w') (h buf) (h buf)
          (wait_fd-Same true w' ∙ p)
    tls_sent-IsPart buf again w (Sent.want_read, w') h p =
        waited-IsPart buf (again buf) (again buf) w (wait_fd ch false w') (h buf) (h buf)
          (wait_fd-Same false w' ∙ p)
    tls_sent-IsPart buf again w (send_error e, w') h p = halt buf w w' (some (err epipe)) tt p
    tls_sent-IsPart buf again w (nothing, w') h p = halt buf w w' (some (err epipe)) tt p

    send_round-IsPart :
        (tls : Bool) (buf : Bytes) (again : Again W) (w : W) (r : Bool × W)
        → ((b : Bytes) (w' : W) → IsPart b w' (again b w'))
        → Same w r.1
        → IsPart buf w (send_round ch tls again buf r)
    unfolding send_round
    send_round-IsPart tls buf again w (true, w') h e = halt buf w w' (some (err ecanceled)) tt e
    send_round-IsPart tls buf again w (false, w') h e = stay buf w w' _ e (
        if_both (IsPart buf w') tls
          (tls_sent-IsPart buf again w' (ch.tls_write buf w') h (law.tls_write fd buf w'))
          (waited-IsPart buf (again buf) (λ v. plain_sent ch again buf (ch.send buf v)) w'
            (wait_fd ch true w') (h buf)
            (λ v. plain_sent-IsPart buf again v (ch.send buf v) h (law.send fd buf v))
            (wait_fd-Same true w')))

    pub send_all-IsPart :
        (n : ℕ) (tls : Bool) (buf : Bytes) (w : W) → IsPart buf w (send_all ch n tls buf w)
    unfolding send_all
    send_all-IsPart zero tls [] w = halt [] w w (some (ok tt)) refl refl
    send_all-IsPart (suc n) tls [] w = halt [] w w (some (ok tt)) refl refl
    send_all-IsPart zero tls (b ∷ buf) w = halt (b ∷ buf) w w none tt refl
    send_all-IsPart (suc n) tls (b ∷ buf) w =
        send_round-IsPart tls (b ∷ buf) (send_all ch n tls) w (ch.cancelled w)
          (send_all-IsPart n tls) (law.cancelled fd w)

module _ {W : Type 0} (files : Files W) (ch : Channel W) (prompt : IsPrompt files ch) where
  -- all is sent
  Finished : Option (Result (Unit {0})) × W → Type 0
  Finished r = r.0 ≡ some (ok tt)

  drop-less : (n b : ℕ) (buf : Bytes) → 0 < n → length (drop n (b ∷ buf)) ≤ length buf
  drop-less zero b buf h = absurd (omega arith)
  drop-less (suc zero) b buf h = omega arith
  drop-less (suc (suc n)) b [] h = omega arith
  drop-less (suc (suc n)) b (c ∷ buf) h = omega (arith, drop-less (suc n) c buf (omega arith))

  sent-Finished :
      (n b : ℕ) (buf : Bytes) (again : Again W) (r : Sent × W)
      → ((c : Bytes) (w : W) → length c ≤ n → Finished (again c w))
      → length buf ≤ n
      → Takes r
      → Finished (plain_sent ch again (b ∷ buf) r) × Finished (tls_sent ch again (b ∷ buf) r)
  unfolding plain_sent tls_sent
  sent-Finished n b buf again (accepted k, w) h fits t =
      let enough : length (drop k (b ∷ buf)) ≤ n = omega (arith, drop-less k b buf t) in
      (h (drop k (b ∷ buf)) w enough, h (drop k (b ∷ buf)) w enough)
  sent-Finished n b buf again (Sent.want_write, w) h fits t = absurd (omega (arith, t))
  sent-Finished n b buf again (Sent.want_read, w) h fits t = absurd (omega (arith, t))
  sent-Finished n b buf again (send_error e, w) h fits t = absurd (omega (arith, t))
  sent-Finished n b buf again (nothing, w) h fits t = absurd (omega (arith, t))

  waited-Finished :
      (again go : W → Option (Result (Unit {0})) × W) (p : Polled × W)
      → p.0 ≡ ready
      → ((w : W) → Finished (go w))
      → Finished (waited ch again go (polled ch p))
  unfolding waited polled
  waited-Finished again go (ready, w) e h = h w
  waited-Finished again go (poll_error x, w) e h = cc
  waited-Finished again go (timed_out, w) e h = cc
  waited-Finished again go (woken, w) e h = cc
  waited-Finished again go (broken, w) e h = cc
  waited-Finished again go (idle, w) e h = cc

  round-Finished :
      (n b : ℕ) (tls : Bool) (buf : Bytes) (again : Again W) (r : Bool × W)
      → ((c : Bytes) (w : W) → length c ≤ n → Finished (again c w))
      → length buf ≤ n
      → r.0 ≡ false
      → Finished (send_round ch tls again (b ∷ buf) r)
  unfolding send_round wait_fd
  round-Finished n b tls buf again (true, w) h fits e = cc
  round-Finished n b tls buf again (false, w) h fits e =
      if_both Finished tls
        (sent-Finished n b buf again (ch.tls_write (b ∷ buf) w) h fits (prompt.tls_write b buf w)).1
        (waited-Finished (again (b ∷ buf))
          (λ v. plain_sent ch again (b ∷ buf) (ch.send (b ∷ buf) v)) (ch.poll true w)
          (prompt.poll true w)
          (λ v. (sent-Finished n b buf again (ch.send (b ∷ buf) v) h fits (prompt.send b buf v)).0))

  -- On a connection that never stalls, as many rounds as there are bytes send them all.
  pub send_all_finishes :
      (n : ℕ) (tls : Bool) (buf : Bytes) (w : W)
      → length buf ≤ n
      → (send_all ch n tls buf w).0 ≡ some (ok tt)
  unfolding send_all Finished
  send_all_finishes zero tls [] w h = refl
  send_all_finishes (suc n) tls [] w h = refl
  send_all_finishes zero tls (b ∷ buf) w h = absurd (omega arith)
  send_all_finishes (suc n) tls (b ∷ buf) w h =
      round-Finished n b tls buf (send_all ch n tls) (ch.cancelled w) (send_all_finishes n tls)
        (omega arith) (prompt.cancelled w)
