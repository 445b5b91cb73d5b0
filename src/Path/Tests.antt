-- ===== src/Path/Tests.antt =====
-- Runs of src/resolve.c on samples.
use openps3ftp.Base.{◌≡◌, refl, some, true, false, codes}
use openps3ftp.Path.{path_resolve, path_parent}

resolve_sample :
    path_resolve (codes "/") (codes "/a/b") (codes "../c//./d/") 1024 ≡ some (codes "/a/c/d", true)
unfolding path_resolve
resolve_sample = refl

resolve_nested :
    path_resolve (codes "/srv") (codes "/a/b") (codes "c") 1024 ≡ some (codes "/srv/b/c", false)
unfolding path_resolve
resolve_nested = refl

parent_sample : path_parent (codes "/a/b/") 1024 ≡ some (codes "/a")
unfolding path_parent
parent_sample = refl
