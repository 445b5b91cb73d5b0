-- ===== src/Worker/Listed.antt =====
-- transfer_list of src/transfer.c: what the client gets of a directory.
use openps3ftp.Base.{
  ℕ, zero, suc, ◌≤◌, take-eq_of_le, length-append, snprintf, crlf, ◌+◌, ◌-◌, ◌≡◌, ◌≢◌, refl, sym,
  ◌∙◌, ap, Bool, true, false, Option, none, some, [], ◌∷◌, ◌++◌, Bytes, length, arith, append-nil,
  append_assoc, ltb, if_both, Bool-cases, inl, inr,
}
use openps3ftp.Session.{ecanceled, Result, ok, err, Stat, Dirent, Fs}
use openps3ftp.Listing.{is_dir, file_entry, listing_format, listing_format_mlsd}
use openps3ftp.Time.{Tm}
use openps3ftp.Worker.{Channel, Again, Run, send_all, send_round}
use openps3ftp.Worker.Laws.{view, IsCarrying}
use openps3ftp.Worker.Send.{IsPart, send_all-IsPart}
use openps3ftp.Worker.Retr.{IsSent, ended, restart, more, broken_off}
use openps3ftp.Worker.Directory.{
  Dirs, batch_size, listing_line, flushed, list_flush, listed_all, list_end, put_line, list_entry,
  list_round, list_loop, closing_dir, dir_opened, path_listed, transfer_list,
}

-- What a line is to be: of an entry, for NLST, MLSD and LIST; and of a path that is a file, for MLSD and for the others.
abbrev pub entry_line : (ℕ → Option Tm) → Bool → Bool → Dirent → Bytes
entry_line localtime true mlsd de = de.name ++ crlf
entry_line localtime false true de = listing_format_mlsd 1024 de
entry_line localtime false false de = listing_format localtime 1024 de

abbrev pub file_line : (ℕ → Option Tm) → Bool → Bytes → Stat → Bytes
file_line localtime true path st = listing_format_mlsd 1024 (file_entry path st)
file_line localtime false path st = listing_format localtime 1024 (file_entry path st)

module _ {W : Type 0} (fs : Fs W) (dirs : Dirs W) (ch : Channel W) where
  listing_line-entry_line :
      (nlst mlsd : Bool) (de : Dirent)
      → length de.name ≤ 255
      → listing_line fs dirs ch nlst mlsd de ≡ entry_line dirs.localtime nlst mlsd de
  unfolding listing_line snprintf
  listing_line-entry_line true mlsd de h =
      take-eq_of_le 1023 (de.name ++ crlf) (omega (arith, h, length-append de.name crlf))
  listing_line-entry_line false true de h = refl
  listing_line-entry_line false false de h = refl

  listing_line-file_line :
      (mlsd : Bool) (path : Bytes) (st : Stat)
      → listing_line fs dirs ch false mlsd (file_entry path st)
        ≡ file_line dirs.localtime mlsd path st
  unfolding listing_line
  listing_line-file_line true path st = refl
  listing_line-file_line false path st = refl

module _ {W : Type 0} (out : W → Bytes) (left : ℕ → W → Bytes) (fs : Fs W) (dirs : Dirs W)
    (ch : Channel W) (nlst mlsd : Bool) where
  -- An entry is read: `left` is the text of the lines of the entries that are still to be read. Reading does not fail.
  abbrev pub Lists : ℕ → W → Result (Option Dirent) × W → Type 0
  Lists dir w (ok (some de), w') =
      (left dir w ≡ entry_line dirs.localtime nlst mlsd de ++ left dir w')
      × (out w' ≡ out w)
      × (length de.name ≤ 255)
  Lists dir w (ok none, w') = (left dir w ≡ []) × (out w' ≡ out w)
  Lists dir w (err e, w') = ◌≡◌ {A = ℕ} 0 1

  -- A directory is opened at its start; `listing` is the text of all its lines.
  abbrev pub OpensDir : (Bytes → W → Bytes) → Bytes → W → Result ℕ × W → Type 0
  OpensDir listing path w (ok dir, w') = view out left dir w' ≡ (out w, listing path w)
  OpensDir listing path w (err e, w') = out w' ≡ out w

  -- `stat` moves nothing; the text of a file is its own line.
  abbrev pub StatsListing : (Bytes → W → Bytes) → Bytes → W → Result Stat × W → Type 0
  StatsListing listing path w (ok st, w') =
      (out w' ≡ out w)
      × (listing path w' ≡ listing path w)
      × (is_dir st.mode ≡ false → listing path w ≡ file_line dirs.localtime mlsd path st)
  StatsListing listing path w (err e, w') = out w' ≡ out w

  pub record IsListable (listing : Bytes → W → Bytes) : Type 0 where
    pub readdirs : (dir : ℕ) (w : W) → Lists dir w (dirs.readdir dir w)
    pub opens : (path : Bytes) (w : W) → OpensDir listing path w (fs.opendir path w)
    pub closes : (dir : ℕ) (w : W) → out (fs.closedir dir w) ≡ out w
    pub stats : (path : Bytes) (w : W) → StatsListing listing path w (fs.stat path w)

  module _ (law : IsCarrying out left ch) where
    flushed-IsSent :
        (dir : ℕ) (again : ℕ → W → Run W) (batch rest : Bytes) (count : ℕ) (w : W)
        (r : Option (Result (Unit {0})) × W)
        → ((c : ℕ) (w' : W)
            → r.0 ≡ some (ok tt)
            → left dir w' ≡ left dir w
            → IsSent out rest c w' (again c w'))
        → IsPart out left dir batch w r
        → IsSent out (batch ++ rest) count w (flushed fs dirs ch again batch count r)
    flushed-IsSent dir again batch rest count w (some (ok u), w') h p =
        let whole : batch ≡ p.sent = p.parts ∙ ap (λ l. p.sent ++ l) p.done ∙ append-nil p.sent in
        more out (batch ++ rest) batch rest count w w' (again (count + length batch) w') refl
          (ap (λ (v : Bytes × Bytes). v.0) p.moved ∙ ap (λ l. out w ++ l) (sym whole))
          (h (count + length batch) w' refl (ap (λ (v : Bytes × Bytes). v.1) p.moved))
    flushed-IsSent dir again batch rest count w (some (err e), w') h p =
        broken_off out (batch ++ rest) rest p.sent p.unsent count w w' (some (err e))
          (ap (λ l. l ++ rest) p.parts) (ap (λ (v : Bytes × Bytes). v.0) p.moved) tt
    flushed-IsSent dir again batch rest count w (none, w') h p =
        broken_off out (batch ++ rest) rest p.sent p.unsent count w w' none
          (ap (λ l. l ++ rest) p.parts) (ap (λ (v : Bytes × Bytes). v.0) p.moved) tt

    list_flush-IsSent :
        (dir : ℕ) (again : ℕ → W → Run W) (n : ℕ) (tls : Bool) (batch rest : Bytes) (count : ℕ)
        (w : W)
        → ((c : ℕ) (w' : W) → left dir w' ≡ left dir w → IsSent out rest c w' (again c w'))
        → IsSent out (batch ++ rest) count w (list_flush fs dirs ch again n tls batch count w)
    unfolding list_flush
    list_flush-IsSent dir again n tls [] rest count w h = h count w refl
    list_flush-IsSent dir again n tls (b ∷ batch) rest count w h =
        flushed-IsSent dir again (b ∷ batch) rest count w (send_all ch n tls (b ∷ batch) w)
          (λ c w' e. h c w') (send_all-IsPart out left dir ch law n tls (b ∷ batch) w)

    listed_all-IsSent : (c : ℕ) (w : W) → IsSent out [] c w (listed_all fs dirs ch c w)
    listed_all-IsSent c w = ended out [] c w w (some (ok tt)) (refl, omega arith) refl

    list_end-IsSent :
        (dir n : ℕ) (tls : Bool) (batch rest : Bytes) (count : ℕ) (w : W)
        → rest ≡ []
        → IsSent out
            (batch ++ rest)
            count
            w
            (list_end fs dirs ch (some (ok tt)) n tls batch count w)
    unfolding list_end
    list_end-IsSent dir n tls [] rest count w e =
        ended out rest count w w (some (ok tt)) (e, omega arith) refl
    list_end-IsSent dir n tls (b ∷ batch) rest count w e =
        list_flush-IsSent dir (listed_all fs dirs ch) n tls (b ∷ batch) rest count w (λ c w' _.
          restart out rest [] c w' w' (listed_all fs dirs ch c w') e refl (listed_all-IsSent c w'))

    -- once a job is cancelled, its flag stays set
    module _
        (stays : (w : W)
          → (ch.cancelled w).0 ≡ true
          → (ch.cancelled (ch.cancelled w).1).0 ≡ true) where
      round-stopped :
          (again : Again W) (tls : Bool) (buf : Bytes) (r : Bool × W)
          → r.0 ≡ true
          → (send_round ch tls again buf r).0 ≢ some (ok tt)
      unfolding send_round
      round-stopped again tls buf (true, w') h e = absurd cc
      round-stopped again tls buf (false, w') h e = absurd cc

      stopped :
          (n : ℕ) (tls : Bool) (b : ℕ) (buf : Bytes) (w : W)
          → (ch.cancelled w).0 ≡ true
          → (send_all ch n tls (b ∷ buf) w).0 ≢ some (ok tt)
      unfolding send_all
      stopped zero tls b buf w h e = absurd cc
      stopped (suc n) tls b buf w h e =
          round-stopped (send_all ch n tls) tls (b ∷ buf) (ch.cancelled w) h e

      cancelled-IsSent :
          (dir n : ℕ) (tls : Bool) (batch rest : Bytes) (count : ℕ) (w : W)
          → (ch.cancelled w).0 ≡ true
          → IsSent out
              (batch ++ rest)
              count
              w
              (list_end fs dirs ch (some (err ecanceled)) n tls batch count w)
      unfolding list_end list_flush
      cancelled-IsSent dir n tls [] rest count w h =
          ended out rest count w w (some (err ecanceled)) tt refl
      cancelled-IsSent dir n tls (b ∷ batch) rest count w h =
          flushed-IsSent dir (listed_all fs dirs ch) (b ∷ batch) rest count w
            (send_all ch n tls (b ∷ batch) w) (λ c w' e _. absurd (stopped n tls b batch w h e))
            (send_all-IsPart out left dir ch law n tls (b ∷ batch) w)

      module _ (listing : Bytes → W → Bytes) (reads : IsListable listing) where
        list_entry-IsSent :
            (again : Bytes → ℕ → W → Run W) (n : ℕ) (tls : Bool) (dir : ℕ) (batch : Bytes)
            (count : ℕ) (w : W) (r : Result (Option Dirent) × W)
            → ((b : Bytes) (c : ℕ) (v : W) → IsSent out (b ++ left dir v) c v (again b c v))
            → Lists dir w r
            → IsSent out
                (batch ++ left dir w)
                count
                w
                (list_entry fs dirs ch again n tls nlst mlsd batch count r)
        unfolding list_entry put_line
        list_entry-IsSent again n tls dir batch count w (err e, w') h y = absurd (omega (arith, y))
        list_entry-IsSent again n tls dir batch count w (ok none, w') h y =
            restart out _ _ count w w' _ refl y.1
              (list_end-IsSent dir n tls batch (left dir w) count w' y.0)
        list_entry-IsSent again n tls dir batch count w (ok (some de), w') h y =
            let line = listing_line fs dirs ch nlst mlsd de in
            let from : left dir w ≡ line ++ left dir w' =
              y.0
              ∙ ap (λ l. l ++ left dir w')
                  (sym (listing_line-entry_line fs dirs ch nlst mlsd de y.2)) in
            if_both (IsSent out (batch ++ left dir w) count w)
              (ltb (batch_size - length batch) (length line))
              (restart out _ (batch ++ (line ++ left dir w')) count w w' _
                (ap (λ l. batch ++ l) from) y.1
                (list_flush-IsSent dir (again line) n tls batch (line ++ left dir w') count w'
                  (λ c v e.
                    restart out _ (line ++ left dir v) c v v (again line c v)
                      (ap (λ l. line ++ l) (sym e)) refl (h line c v))))
              (restart out _ ((batch ++ line) ++ left dir w') count w w' _
                (ap (λ l. batch ++ l) from ∙ sym (append_assoc batch line (left dir w'))) y.1
                (h (batch ++ line) count w'))

        list_round-IsSent :
            (go : W → Run W) (n : ℕ) (tls : Bool) (dir : ℕ) (batch : Bytes) (count : ℕ) (w : W)
            (r : Bool × W)
            → ((v : W) → IsSent out (batch ++ left dir v) count v (go v))
            → (r.0 ≡ true → (ch.cancelled r.1).0 ≡ true)
            → view out left dir r.1 ≡ view out left dir w
            → IsSent out
                (batch ++ left dir w)
                count
                w
                (list_round fs dirs ch go n tls batch count r)
        list_round-IsSent go n tls dir batch count w (true, w') h s e =
            restart out _ (batch ++ left dir w) count w w' _ refl
              (ap (λ (v : Bytes × Bytes). v.0) e)
              (cancelled-IsSent dir n tls batch (left dir w) count w' (s refl))
        list_round-IsSent go n tls dir batch count w (false, w') h s e =
            restart out _ (batch ++ left dir w') count w w' (go w')
              (ap (λ (v : Bytes × Bytes). batch ++ v.1) (sym e)) (ap (λ (v : Bytes × Bytes). v.0) e)
              (h w')

        list_loop-IsSent :
            (m n : ℕ) (tls : Bool) (dir : ℕ) (batch : Bytes) (count : ℕ) (w : W)
            → IsSent out
                (batch ++ left dir w)
                count
                w
                (list_loop fs dirs ch m n tls nlst mlsd dir batch count w)
        unfolding list_loop
        list_loop-IsSent zero n tls dir batch count w = ended out _ count w w none tt refl
        list_loop-IsSent (suc m) n tls dir batch count w =
            let again = list_loop fs dirs ch m n tls nlst mlsd dir in
            list_round-IsSent
              (λ v. list_entry fs dirs ch again n tls nlst mlsd batch count (dirs.readdir dir v)) n
              tls dir batch count w (ch.cancelled w)
              (λ v.
                list_entry-IsSent again n tls dir batch count v (dirs.readdir dir v)
                  (λ b c u. list_loop-IsSent m n tls dir b c u) (reads.readdirs dir v))
              (stays w) (law.cancelled dir w)

        closing_dir-IsSent :
            (text : Bytes) (dir count : ℕ) (w : W) (r : Run W)
            → IsSent out text count w r
            → IsSent out text count w (closing_dir fs dirs ch dir r)
        closing_dir-IsSent text dir count w (rc, after, w') h = record {
          sent = h.sent;
          unsent = h.unsent;
          parts = h.parts;
          got = reads.closes dir w' ∙ h.got;
          through = h.through;
        }

        dir_opened-IsSent :
            (m n : ℕ) (tls : Bool) (path : Bytes) (w : W) (r : Result ℕ × W)
            → OpensDir listing path w r
            → IsSent out (listing path w) 0 w (dir_opened fs dirs ch m n tls nlst mlsd r)
        dir_opened-IsSent m n tls path w (ok dir, w') h =
            restart out _ (left dir w') 0 w w' _ (sym (ap (λ (v : Bytes × Bytes). v.1) h))
              (ap (λ (v : Bytes × Bytes). v.0) h)
              (closing_dir-IsSent (left dir w') dir 0 w' _ (list_loop-IsSent m n tls dir [] 0 w'))
        dir_opened-IsSent m n tls path w (err e, w') h =
            ended out (listing path w) 0 w w' (some (err e)) tt h

        path_listed-IsSent :
            (m n : ℕ) (tls : Bool) (path : Bytes) (w : W) (r : Result Stat × W)
            → StatsListing listing path w r
            → IsSent out (listing path w) 0 w (path_listed fs dirs ch m n tls nlst mlsd path r)
        path_listed-IsSent m n tls path w (err e, w') h =
            ended out (listing path w) 0 w w' (some (err e)) tt h
        path_listed-IsSent m n tls path w (ok st, w') h = elim (Bool-cases (is_dir st.mode)) [
          | inl dir ↦ rw dir (
              restart out _ (listing path w') 0 w w' _ (sym h.1) h.0
                (dir_opened-IsSent m n tls path w' (fs.opendir path w') (reads.opens path w')))
          | inr file ↦
              let line = listing_line fs dirs ch false mlsd (file_entry path st) in
              rw file (
                restart out _ (line ++ []) 0 w w' _
                  (h.2 file
                    ∙ sym (listing_line-file_line fs dirs ch mlsd path st)
                    ∙ sym (append-nil line))
                  h.0
                  (list_flush-IsSent 0 (listed_all fs dirs ch) n tls line [] 0 w'
                    (λ c v _. listed_all-IsSent c v)))
        ]

        -- However many rounds a listing has made, and whatever its result, the client has been sent, and nothing else, the
        -- first bytes of the lines of the entries in order: names only for NLST, else facts for MLSD, else the long lines
        -- of LIST. For a path that is a file it is the first bytes of its MLSD line, or of its LIST line also where NLST was
        -- asked for. When the result is 0 all has been sent, and its length is the number of bytes reported. This is so when
        -- reading the directory does not fail, names have at most 255 bytes, and the flag of a cancelled job stays set.
        pub transfer_list-IsSent :
            (m n : ℕ) (tls : Bool) (path : Bytes) (w : W)
            → IsSent out (listing path w) 0 w (transfer_list fs dirs ch m n tls nlst mlsd path w)
        unfolding transfer_list
        transfer_list-IsSent m n tls path w =
            path_listed-IsSent m n tls path w (fs.stat path w) (reads.stats path w)
