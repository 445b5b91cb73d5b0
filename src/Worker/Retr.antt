-- ===== src/Worker/Retr.antt =====
-- transfer_retr of src/transfer.c: what the client gets of the file.
use openps3ftp.Base.{
  ℕ, zero, suc, ◌+◌, ◌≡◌, refl, sym, ◌∙◌, ap, Bool, true, false, Option, none, some, [], ◌∷◌, ◌++◌,
  Bytes, length, length-append, drop, arith, append-nil, append_assoc, ltb,
}
use openps3ftp.Session.{ecanceled, Result, ok, err}
use openps3ftp.Worker.{Files, Channel, Run, send_all, transfer_buf}
use openps3ftp.Worker.Moves.{
  moved, retr_chunk, unless_cancelled, retr_loop, closing, seek_to, after_seek, retr_opened,
  read_only, transfer_retr,
}
use openps3ftp.Worker.Laws.{view, stand, Yields, Opens, Seeks, IsFaithful, IsReadable}
use openps3ftp.Worker.Send.{IsPart, send_all-IsPart}

-- all was read and sent, and counted, when the loop says so
abbrev pub Through : Option (Result (Unit {0})) → ℕ → ℕ → Bytes → Bytes → Type 0
Through (some (ok u)) before after sent unsent = (unsent ≡ []) × (after ≡ before + length sent)
Through (some (err e)) before after sent unsent = Unit {0}
Through none before after sent unsent = Unit {0}

-- a chunk, and the text behind it
pub Through-append :
    (rc : Option (Result (Unit {0}))) (count after : ℕ) (chunk sent unsent : Bytes)
    → Through rc (count + length chunk) after sent unsent
    → Through rc count after (chunk ++ sent) unsent
Through-append (some (ok u)) count after chunk sent unsent h =
    (h.0, omega (arith, h.1, length-append chunk sent))
Through-append (some (err e)) count after chunk sent unsent h = tt
Through-append none count after chunk sent unsent h = tt

module _ {W : Type 0} (out : W → Bytes) where
  -- The peer got the first part of a text, and all of it if the loop says so.
  pub record IsSent (text : Bytes) (count : ℕ) (w : W) (r : Run W) : Type 0 where
    pub sent : Bytes
    pub unsent : Bytes
    pub parts : text ≡ sent ++ unsent
    pub got : out r.2 ≡ out w ++ sent
    pub through : Through r.0 count r.1 sent unsent

  pub IsSent-all :
      (text : Bytes) (w : W) (r : Run W)
      → IsSent text 0 w r
      → r.0 ≡ some (ok tt)
      → (r.1 ≡ length text) × (out r.2 ≡ out w ++ text)
  IsSent-all text w (some (ok u), n, w') h e =
      let whole : text ≡ h.sent = h.parts ∙ ap (λ l. h.sent ++ l) h.through.0 ∙ append-nil h.sent in
      (omega (arith, h.through.1, ap length whole), h.got ∙ ap (λ l. out w ++ l) (sym whole))
  IsSent-all text w (some (err x), n, w') h e = absurd cc
  IsSent-all text w (none, n, w') h e = absurd cc

  -- the loop ends where it is
  pub ended :
      (text : Bytes) (count : ℕ) (w w' : W) (rc : Option (Result (Unit {0})))
      → Through rc count count [] text
      → out w' ≡ out w
      → IsSent text count w (rc, count, w')
  ended text count w w' rc t e = record {
    sent = [];
    unsent = text;
    parts = refl;
    got = e ∙ sym (append-nil (out w));
    through = t;
  }

  -- another start, with the same bytes
  pub restart :
      (text text' : Bytes) (count : ℕ) (w w' : W) (r : Run W)
      → text ≡ text'
      → out w' ≡ out w
      → IsSent text' count w' r
      → IsSent text count w r
  restart text text' count w w' r e o h = record {
    sent = h.sent;
    unsent = h.unsent;
    parts = e ∙ h.parts;
    got = h.got ∙ ap (λ (b : Bytes). b ++ h.sent) o;
    through = h.through;
  }

  pub more :
      (text chunk rest : Bytes) (count : ℕ) (w w' : W) (r : Run W)
      → text ≡ chunk ++ rest
      → out w' ≡ out w ++ chunk
      → IsSent rest (count + length chunk) w' r
      → IsSent text count w r
  more text chunk rest count w w' r e o h = record {
    sent = chunk ++ h.sent;
    unsent = h.unsent;
    parts = e ∙ ap (λ l. chunk ++ l) h.parts ∙ sym (append_assoc chunk h.sent h.unsent);
    got = h.got ∙ ap (λ (b : Bytes). b ++ h.sent) o ∙ append_assoc (out w) chunk h.sent;
    through = Through-append r.0 count r.1 chunk h.sent h.unsent h.through;
  }

  -- a part of a chunk, and then the end
  pub broken_off :
      (text rest p q : Bytes) (count : ℕ) (w w' : W) (rc : Option (Result (Unit {0})))
      → text ≡ (p ++ q) ++ rest
      → out w' ≡ out w ++ p
      → Through rc count count p (q ++ rest)
      → IsSent text count w (rc, count, w')
  broken_off text rest p q count w w' rc e o t = record {
    sent = p;
    unsent = q ++ rest;
    parts = e ∙ append_assoc p q rest;
    got = o;
    through = t;
  }

module _ {W : Type 0} (out : W → Bytes) (left : ℕ → W → Bytes) (files : Files W)
    (ch : Channel W) where
  pub moved-IsSent :
      (fd : ℕ) (chunk : Bytes) (again : ℕ → W → Run W) (count : ℕ) (w : W)
      (r : Option (Result (Unit {0})) × W)
      → ((c : ℕ) (w : W) → IsSent out (left fd w) c w (again c w))
      → IsPart out left fd chunk w r
      → IsSent out (chunk ++ left fd w) count w (moved files ch again (length chunk) count r)
  unfolding moved
  moved-IsSent fd chunk again count w (some (ok u), w') h p =
      let whole : chunk ≡ p.sent = p.parts ∙ ap (λ l. p.sent ++ l) p.done ∙ append-nil p.sent in
      more out (chunk ++ left fd w) chunk (left fd w') count w w' (again (count + length chunk) w')
        (ap (λ l. chunk ++ l) (sym (ap (λ (v : Bytes × Bytes). v.1) p.moved)))
        (ap (λ (v : Bytes × Bytes). v.0) p.moved ∙ ap (λ l. out w ++ l) (sym whole))
        (h (count + length chunk) w')
  moved-IsSent fd chunk again count w (some (err e), w') h p =
      broken_off out (chunk ++ left fd w) (left fd w) p.sent p.unsent count w w' (some (err e))
        (ap (λ l. l ++ left fd w) p.parts) (ap (λ (v : Bytes × Bytes). v.0) p.moved) tt
  moved-IsSent fd chunk again count w (none, w') h p =
      broken_off out (chunk ++ left fd w) (left fd w) p.sent p.unsent count w w' none
        (ap (λ l. l ++ left fd w) p.parts) (ap (λ (v : Bytes × Bytes). v.0) p.moved) tt

  pub unless_cancelled-IsSent :
      (fd count : ℕ) (w : W) (go : W → Run W) (r : Bool × W)
      → ((w' : W) → IsSent out (left fd w') count w' (go w'))
      → view out left fd r.1 ≡ view out left fd w
      → IsSent out (left fd w) count w (unless_cancelled files ch go count r)
  unless_cancelled-IsSent fd count w go (true, w') h e =
      ended out (left fd w) count w w' (some (err ecanceled)) tt (ap (λ (v : Bytes × Bytes). v.0) e)
  unless_cancelled-IsSent fd count w go (false, w') h e =
      restart out (left fd w) (left fd w') count w w' (go w')
        (sym (ap (λ (v : Bytes × Bytes). v.1) e)) (ap (λ (v : Bytes × Bytes). v.0) e) (h w')

module _ {W : Type 0} (out : W → Bytes) (left : ℕ → W → Bytes) (files : Files W) (ch : Channel W)
    (law : IsFaithful out left files ch) where
  retr_chunk-IsSent :
      (fd n : ℕ) (tls : Bool) (again : ℕ → W → Run W) (count : ℕ) (w : W) (r : Result Bytes × W)
      → ((c : ℕ) (w : W) → IsSent out (left fd w) c w (again c w))
      → Yields out left fd w r
      → IsSent out (left fd w) count w (retr_chunk files ch again n tls count r)
  unfolding retr_chunk
  retr_chunk-IsSent fd n tls again count w (ok [], w') h y =
      ended out (left fd w) count w w' (some (ok tt)) (y.0, omega arith)
        (ap (λ (v : Bytes × Bytes). v.0) y.1)
  retr_chunk-IsSent fd n tls again count w (ok (b ∷ buf), w') h y =
      restart out (left fd w) (b ∷ buf ++ left fd w') count w w' _ y.1 y.2 (
        moved-IsSent out left files ch fd (b ∷ buf) again count w' (send_all ch n tls (b ∷ buf) w')
          h (send_all-IsPart out left fd ch law.carries n tls (b ∷ buf) w'))
  retr_chunk-IsSent fd n tls again count w (err e, w') h y =
      ended out (left fd w) count w w' (some (err e)) tt (ap (λ (v : Bytes × Bytes). v.0) y)

  retr_loop-IsSent :
      (m n : ℕ) (tls : Bool) (fd count : ℕ) (w : W)
      → IsSent out (left fd w) count w (retr_loop files ch m n tls fd count w)
  unfolding retr_loop
  retr_loop-IsSent zero n tls fd count w = ended out (left fd w) count w w none tt refl
  retr_loop-IsSent (suc m) n tls fd count w =
      let again = retr_loop files ch m n tls fd in
      unless_cancelled-IsSent out left files ch fd count w
        (λ v. retr_chunk files ch again n tls count (files.read fd transfer_buf v)) (ch.cancelled w)
        (λ v.
          retr_chunk-IsSent fd n tls again count v (files.read fd transfer_buf v)
            (λ c u. retr_loop-IsSent m n tls fd c u) (law.read fd v))
        (law.carries.cancelled fd w)

  module _ (whole : ℕ → W → Bytes) (content : Bytes → W → Bytes)
      (readable : IsReadable out left whole content files ch) where
    closing-IsSent :
        (text : Bytes) (fd count : ℕ) (w : W) (r : Run W)
        → IsSent out text count w r
        → IsSent out text count w (closing files ch fd r)
    closing-IsSent text fd count w (rc, after, w') h = record {
      sent = h.sent;
      unsent = h.unsent;
      parts = h.parts;
      got = readable.closes fd w' ∙ h.got;
      through = h.through;
    }

    -- the file stands where the reads are to begin
    Stands : ℕ → Bytes → W → Result (Unit {0}) × W → Type 0
    Stands fd text w (ok u, w') = view out left fd w' ≡ (out w, text)
    Stands fd text w (err e, w') = out w' ≡ out w

    after_seek-IsSent :
        (m n : ℕ) (tls : Bool) (fd : ℕ) (text : Bytes) (w : W) (r : Result (Unit {0}) × W)
        → Stands fd text w r
        → IsSent out text 0 w (after_seek files ch (retr_loop files ch m n tls fd 0) fd r)
    unfolding Stands
    after_seek-IsSent m n tls fd text w (ok u, w') h =
        restart out text (left fd w') 0 w w' _ (sym (ap (λ (v : Bytes × Bytes). v.1) h))
          (ap (λ (v : Bytes × Bytes). v.0) h)
          (closing-IsSent (left fd w') fd 0 w' _ (retr_loop-IsSent m n tls fd 0 w'))
    after_seek-IsSent m n tls fd text w (err e, w') h =
        ended out text 0 w (files.close fd w') (some (err e)) tt (readable.closes fd w' ∙ h)

    Seeks-Stands :
        (fd rest : ℕ) (w : W) (r : Result (Unit {0}) × W)
        → Seeks out left whole fd rest w r
        → Stands fd (drop rest (whole fd w)) w r
    unfolding Stands
    Seeks-Stands fd rest w (ok u, w') h = h
    Seeks-Stands fd rest w (err e, w') h = h

    seek_to-Stands :
        (fd rest : ℕ) (w : W)
        → left fd w ≡ whole fd w
        → Stands fd (drop rest (whole fd w)) w (seek_to files ch (ltb 0 rest) fd rest w)
    unfolding Stands
    seek_to-Stands fd zero w e = ap (λ l. (out w, l)) e
    seek_to-Stands fd (suc rest) w e =
        let wanted : ltb 0 (suc rest) ≡ true = ground arith in
        rw wanted (
          Seeks-Stands fd (suc rest) w (files.seek fd (suc rest) w)
            (readable.seeks fd (suc rest) w))

    retr_opened-IsSent :
        (m n : ℕ) (tls : Bool) (path : Bytes) (rest : ℕ) (w : W) (r : Result ℕ × W)
        → Opens out left whole content path w r
        → IsSent out (drop rest (content path w)) 0 w (retr_opened files ch m n tls rest r)
    retr_opened-IsSent m n tls path rest w (ok fd, w') h =
        let w'' = (files.fstat fd w').1 in
        let e : stand out left whole fd w'' ≡ (out w, content path w, content path w) =
          readable.fstats fd w' ∙ h in
        let full : whole fd w'' ≡ content path w = ap (λ (v : Bytes × Bytes × Bytes). v.2) e in
        let fresh : left fd w'' ≡ whole fd w'' =
          ap (λ (v : Bytes × Bytes × Bytes). v.1) e ∙ sym full in
        restart out (drop rest (content path w)) (drop rest (whole fd w'')) 0 w w'' _
          (ap (drop rest) (sym full)) (ap (λ (v : Bytes × Bytes × Bytes). v.0) e)
          (after_seek-IsSent m n tls fd (drop rest (whole fd w'')) w'' _
            (seek_to-Stands fd rest w'' fresh))
    retr_opened-IsSent m n tls path rest w (err e, w') h =
        ended out (drop rest (content path w)) 0 w w' (some (err e)) tt h

    -- However many rounds RETR has made, and whatever its result, the client has been sent the first bytes of the file
    -- from the offset on, in order, and nothing else; when the result is 0 it has been sent all of them, and their number is
    -- the number of bytes reported.
    pub transfer_retr-IsSent :
        (m n : ℕ) (tls : Bool) (path : Bytes) (rest : ℕ) (w : W)
        → IsSent out (drop rest (content path w)) 0 w (transfer_retr files ch m n tls path rest w)
    unfolding transfer_retr
    transfer_retr-IsSent m n tls path rest w =
        retr_opened-IsSent m n tls path rest w (files.open_file path (read_only files ch) 0 w)
          (readable.opens path w)
