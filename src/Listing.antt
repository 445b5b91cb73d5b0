-- ===== src/Listing.antt =====
-- src/listing.c: the lines of LIST and MLSD.
use openps3ftp.Base.{
  ℕ, zero, suc, ◌+◌, ◌-◌, ◌/◌, ◌%◌, ◌^◌, ◌≡◌, refl, Bool, ◌&&◌, Option, none, some, List, [], ◌∷◌,
  ◌++◌, ◌==◌, if◌then◌else◌, Bytes, codes, length, get_elem?, replicate, decimal, snprintf, crlf,
}
use openps3ftp.Session.{Stat, Dirent}
use openps3ftp.Time.{Tm, gmtime, format_time, padded, epoch}

-- `mode & S_IFMT`, shifted down: S_IFDIR is 4 and S_IFREG is 8
abbrev pub file_type : ℕ → ℕ
file_type mode = mode / 4096 % 16

abbrev pub is_dir : ℕ → Bool
is_dir mode = file_type mode == 4

abbrev pub is_reg : ℕ → Bool
is_reg mode = file_type mode == 8

-- `(mode & bit) ? rwx[i] : '-'` for the nine bits from 0400 down; the argument counts the bits left
unfoldable pub mode_bits : ℕ → ℕ → Bytes → Bytes
mode_bits mode zero rwx = []
mode_bits mode (suc k) [] = []
mode_bits mode (suc k) (c ∷ rwx) =
    (if mode / 2 ^ k % 2 == 1 then c else b'-') ∷ mode_bits mode k rwx

unfoldable pub mode_str : ℕ → Bytes
unfolding mode_bits
mode_str mode = (if is_dir mode then b'd' else b'-') ∷ mode_bits mode 9 (codes "rwxrwxrwx")

abbrev months : List Bytes
months =
    codes "Jan"
    ∷ codes "Feb"
    ∷ codes "Mar"
    ∷ codes "Apr"
    ∷ codes "May"
    ∷ codes "Jun"
    ∷ codes "Jul"
    ∷ codes "Aug"
    ∷ codes "Sep"
    ∷ codes "Oct"
    ∷ codes "Nov"
    ∷ codes "Dec"
    ∷ []

-- `mon` counts from 1 here
month_name : ℕ → Bytes
month_name mon = elim (get_elem? months (mon - 1)) [ some m ↦ m | none ↦ codes "Jan" ]

-- `%12llu`
pad_left : ℕ → Bytes → Bytes
pad_left width d = replicate (width - length d) b' ' ++ d

abbrev zero_tm : Tm
zero_tm = record { year = 1900; mon = 1; mday = 1; hour = 0; min = 0; sec = 0 }

abbrev or_zero : Option Tm → Tm
or_zero none = zero_tm
or_zero (some t) = t

-- the line, before `snprintf` cuts it to the size of the buffer; `ids` is "uid gid"
list_line : Dirent → Tm → Bytes
unfolding mode_str month_name pad_left padded decimal
list_line de tm =
    let owned = de.uid == 0 && de.gid == 0 in
    mode_str de.mode
    ++ (codes " 1 "
        ++ (decimal (if owned then 1 else de.uid)
            ++ (codes " "
                ++ (decimal (if owned then 1 else de.gid)
                    ++ (codes " "
                        ++ (pad_left 12 (decimal de.size)
                            ++ (codes " "
                                ++ (month_name tm.mon
                                    ++ (codes " "
                                        ++ (padded 2 tm.mday
                                            ++ (codes " "
                                                ++ (padded 2 tm.hour
                                                    ++ (codes ":"
                                                        ++ (padded 2 tm.min
                                                            ++ (codes " "
                                                            ++ (de.name ++ crlf))))))))))))))))

unfoldable pub listing_format : (ℕ → Option Tm) → ℕ → Dirent → Bytes
unfolding snprintf list_line
listing_format localtime n de = snprintf n (list_line de (or_zero (localtime de.mtime)))

modify_of : Option Tm → Bytes
unfolding format_time snprintf
modify_of none = codes "19700101000000"
modify_of (some tm) = snprintf 16 (format_time tm)

unfoldable pub listing_format_mlsd : ℕ → Dirent → Bytes
unfolding snprintf modify_of decimal gmtime
listing_format_mlsd n de =
    let dir = is_dir de.mode in
    snprintf n (
      codes "type="
      ++ ((if dir then codes "dir" else codes "file")
          ++ (codes ";size="
              ++ (decimal (if dir then 0 else de.size)
                  ++ (codes ";modify="
                      ++ (modify_of (gmtime de.mtime)
                          ++ (codes ";perm="
                              ++ ((if dir then codes "eladfmp" else codes "adfrw")
                                  ++ (codes "; " ++ (de.name ++ crlf))))))))))

-- the entry that STAT, MLST and LIST make up for a single file: its name is what follows the last '/'
unfoldable pub after_last_slash : Bytes → Option Bytes
after_last_slash [] = none
after_last_slash (c ∷ s) = elim (after_last_slash s) [
  | some t ↦ some t
  | none ↦ if c == b'/' then some s else none
]

unfoldable pub base_name : Bytes → Bytes
unfolding after_last_slash
base_name path = elim (after_last_slash path) [ some t ↦ t | none ↦ path ]

unfoldable pub file_entry : Bytes → Stat → Dirent
unfolding base_name snprintf
file_entry path st = record {
  name = snprintf 256 (base_name path);
  mode = st.mode;
  size = st.size;
  mtime = st.mtime;
  uid = st.uid;
  gid = st.gid;
}

mode_sample : mode_str (16384 + 493) ≡ codes "drwxr-xr-x"
unfolding mode_str
mode_sample = refl

mlsd_sample :
    listing_format_mlsd 1024 (record {
      name = codes "a b";
      mode = 32768 + 420;
      size = 123;
      mtime = epoch + 1709210096;
      uid = 0;
      gid = 0;
    })
    ≡ codes "type=file;size=123;modify=20240229123456;perm=adfrw; a b" ++ crlf
unfolding listing_format_mlsd
mlsd_sample = refl
