-- ===== src/Rooted/Contain.antt =====
-- The rooted wrapper (src/fs_rooted.c) on the paths that the resolver makes (src/resolve.c).
use openps3ftp.Base.{◌≡◌, refl, [], ◌∷◌, ◌++◌, Bytes, length, drop}

pub drop-append : (r s : Bytes) → drop (length r) (r ++ s) ≡ s
drop-append [] s = refl
drop-append (c ∷ r) s = drop-append r s
