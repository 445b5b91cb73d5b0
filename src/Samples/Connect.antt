-- ===== src/Samples/Connect.antt =====
-- The theorems on the data connection at sample values.
use openps3ftp.Base.{ℕ, refl, false, none, some, [], ◌∷◌, str_eq}
use openps3ftp.Session.{ok, inet, Job}
use openps3ftp.Commands.Transfer.{addr_eq}
use openps3ftp.Worker.{ready}
use openps3ftp.Connect.{Dial, connected, connect_job, when_ready, pasv_accepted}
use openps3ftp.Connect.Trust.{IsFromClient, connect_job-IsFromClient}
use openps3ftp.Samples.{sample_job}

-- a client at 10.0.0.2 connects at once
abbrev dial : Dial ℕ
dial = record {
  poll = λ fd b w. (ready, w);
  cancelled = λ w. (false, w);
  accept = λ fd w. (ok (9, inet (10 ∷ 0 ∷ 0 ∷ 2 ∷ []) 50000), w);
  socket = λ a w. (ok 9, w);
  connect = λ fd a w. (connected, w);
  so_error = λ fd w. (none, w);
}

abbrev waiting : Job
waiting = record sample_job {
  conn_ok = false;
  pasv_fd = some 6;
  ctl_peer = inet (10 ∷ 0 ∷ 0 ∷ 2 ∷ []) 40000;
}

connect_job-IsFromClient_example :
    IsFromClient dial false 6 waiting (connect_job dial false waiting 0).1
unfolding connect_job when_ready pasv_accepted addr_eq str_eq
connect_job-IsFromClient_example = connect_job-IsFromClient dial false 6 waiting 0 refl refl refl
