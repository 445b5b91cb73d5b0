-- ===== src/Worker/Laws.antt =====
-- What the loops of src/transfer.c rely on: a data connection that carries the bytes it accepts, and files that are read
-- in order. `out w` is what the peer has been sent so far, `left fd w` what is still to be read from a descriptor.
use openps3ftp.Base.{ℕ, ◌≤◌, ◌<◌, ◌≡◌, Bool, false, [], ◌∷◌, ◌++◌, Bytes, length, take, drop}
use openps3ftp.Session.{Result, ok, err}
use openps3ftp.Worker.{Files, Channel, ready, Sent, accepted, Arrived, bytes, transfer_buf}
use openps3ftp.Worker.Moves.{read_only}

module _ {W : Type 0} (out : W → Bytes) (left : ℕ → W → Bytes) where
  -- what the peer has, and what is left of a file
  abbrev pub view : ℕ → W → Bytes × Bytes
  view fd w = (out w, left fd w)

  -- a sending call: the peer gets the first bytes, as many as the call says
  abbrev pub Passes : ℕ → Bytes → W → Sent × W → Type 0
  Passes fd buf w (accepted n, w') =
      (n ≤ length buf) × (view fd w' ≡ (out w ++ take n buf, left fd w))
  Passes fd buf w (_, w') = view fd w' ≡ view fd w

  -- a read: the next bytes, none only at the end
  abbrev pub Yields : ℕ → W → Result Bytes × W → Type 0
  Yields fd w (ok [], w') = (left fd w ≡ []) × (view fd w' ≡ view fd w)
  Yields fd w (ok (b ∷ bs), w') =
      (length (b ∷ bs) ≤ transfer_buf) × (left fd w ≡ b ∷ bs ++ left fd w') × (out w' ≡ out w)
  Yields fd w (err e, w') = view fd w' ≡ view fd w

  pub record IsCarrying (ch : Channel W) : Type 0 where
    pub cancelled : (fd : ℕ) (w : W) → view fd (ch.cancelled w).1 ≡ view fd w
    pub poll : (fd : ℕ) (b : Bool) (w : W) → view fd (ch.poll b w).1 ≡ view fd w
    pub send : (fd : ℕ) (buf : Bytes) (w : W) → Passes fd buf w (ch.send buf w)
    pub tls_write : (fd : ℕ) (buf : Bytes) (w : W) → Passes fd buf w (ch.tls_write buf w)

  pub record IsFaithful (files : Files W) (ch : Channel W) : Type 0 where
    pub carries : IsCarrying ch
    pub read : (fd : ℕ) (w : W) → Yields fd w (files.read fd transfer_buf w)

  -- A file that is opened to be read is read from its start; `content` is what it holds, and `whole` what the file of a
  -- descriptor holds. A seek goes to an offset from its start.
  module _ (whole : ℕ → W → Bytes) where
    abbrev pub stand : ℕ → W → Bytes × Bytes × Bytes
    stand fd w = (out w, left fd w, whole fd w)

    abbrev pub Opens : (Bytes → W → Bytes) → Bytes → W → Result ℕ × W → Type 0
    Opens content path w (ok fd, w') = stand fd w' ≡ (out w, content path w, content path w)
    Opens content path w (err e, w') = out w' ≡ out w

    abbrev pub Seeks : ℕ → ℕ → W → Result (Unit {0}) × W → Type 0
    Seeks fd n w (ok u, w') = view fd w' ≡ (out w, drop n (whole fd w))
    Seeks fd n w (err e, w') = out w' ≡ out w

    pub record IsReadable (content : Bytes → W → Bytes) (files : Files W) (ch : Channel W)
        : Type 0 where
      pub opens :
          (path : Bytes) (w : W)
          → Opens content path w (files.open_file path (read_only files ch) 0 w)
      pub seeks : (fd n : ℕ) (w : W) → Seeks fd n w (files.seek fd n w)
      pub fstats : (fd : ℕ) (w : W) → stand fd (files.fstat fd w).1 ≡ stand fd w
      pub closes : (fd : ℕ) (w : W) → out (files.close fd w) ≡ out w

-- No call fails, the connection never stalls, and nobody cancels.
module _ {W : Type 0} where
  abbrev pub Takes : Sent × W → Type 0
  Takes (accepted n, w') = 0 < n
  Takes (_, w') = ◌≡◌ {A = ℕ} 0 1

  abbrev pub Succeeds {ℓ} : {A : Type ℓ} → Result A × W → Type 0
  Succeeds (ok a, w') = Unit {0}
  Succeeds (err e, w') = ◌≡◌ {A = ℕ} 0 1

  pub record IsPrompt (files : Files W) (ch : Channel W) : Type 0 where
    pub cancelled : (w : W) → (ch.cancelled w).0 ≡ false
    pub poll : (b : Bool) (w : W) → (ch.poll b w).0 ≡ ready
    pub send : (b : ℕ) (buf : Bytes) (w : W) → Takes (ch.send (b ∷ buf) w)
    pub tls_write : (b : ℕ) (buf : Bytes) (w : W) → Takes (ch.tls_write (b ∷ buf) w)
    pub opens : (path : Bytes) (w : W) → Succeeds (files.open_file path (read_only files ch) 0 w)
    pub seeks : (fd n : ℕ) (w : W) → Succeeds (files.seek fd n w)
    pub reads : (fd : ℕ) (w : W) → Succeeds (files.read fd transfer_buf w)

-- For a transfer to the server: `written` is what has been written through a descriptor so far, `arrived w` what has
-- been received from the peer.
module _ {W : Type 0} (written : ℕ → W → Bytes) (arrived : W → Bytes) where
  abbrev pub store_view : ℕ → W → Bytes × Bytes
  store_view fd w = (written fd w, arrived w)

  abbrev pub Writes : ℕ → Bytes → W → Result ℕ × W → Type 0
  Writes fd buf w (ok n, w') =
      (n ≤ length buf) × (store_view fd w' ≡ (written fd w ++ take n buf, arrived w))
  Writes fd buf w (err e, w') = store_view fd w' ≡ store_view fd w

  abbrev pub Receives : ℕ → W → Arrived × W → Type 0
  Receives fd w (bytes b, w') = store_view fd w' ≡ (written fd w, arrived w ++ b)
  Receives fd w (_, w') = store_view fd w' ≡ store_view fd w

  pub record IsKeeping (files : Files W) (ch : Channel W) : Type 0 where
    pub cancelled : (fd : ℕ) (w : W) → store_view fd (ch.cancelled w).1 ≡ store_view fd w
    pub poll : (fd : ℕ) (b : Bool) (w : W) → store_view fd (ch.poll b w).1 ≡ store_view fd w
    pub recv : (fd room : ℕ) (w : W) → Receives fd w (ch.recv room w)
    pub tls_read : (fd room : ℕ) (w : W) → Receives fd w (ch.tls_read room w)
    pub writes : (fd : ℕ) (buf : Bytes) (w : W) → Writes fd buf w (files.write fd buf w)
