-- ===== src/Commands/Peer.antt =====
-- opftp_addr_eq of src/datachan.c: the comparison that refuses a foreign PORT target.
use openps3ftp.Base.{
  ◌≡◌, ◌≢◌, ◌↔◌, refl, sym, ◌∙◌, ap, subst, Bool, true, Option, none, some, arith, Bytes, str_eq,
  str_eq_iff, [], ◌∷◌, ◌++◌, take, drop, take-append-drop, &&_split,
}
use openps3ftp.Session.{Addr, unspec, inet, inet6, is_v4mapped}
use openps3ftp.Commands.Transfer.{addr_eq, mapped_eq}

abbrev v4_prefix : Bytes
v4_prefix = 0 ∷ 0 ∷ 0 ∷ 0 ∷ 0 ∷ 0 ∷ 0 ∷ 0 ∷ 0 ∷ 0 ∷ 255 ∷ 255 ∷ []

-- An address as the 16 bytes of IPv6, without the port; storage of no family has none.
abbrev pub as_ipv6 : Addr → Option Bytes
as_ipv6 unspec = none
as_ipv6 (inet a p) = some (v4_prefix ++ a)
as_ipv6 (inet6 a p) = some a

-- the one comparison between the families
mapped_eq_iff : (a b : Bytes) → (mapped_eq a b ≡ true) ↔ (a ≡ v4_prefix ++ b)
unfolding is_v4mapped
mapped_eq_iff a b = (
  λ h.
      let (head, tail) = &&_split (is_v4mapped a) (str_eq (drop 12 a) b) h in
      sym (take-append-drop 12 a)
      ∙ ap (λ l. l ++ drop 12 a) ((str_eq_iff (take 12 a) v4_prefix).0 head)
      ∙ ap (λ l. v4_prefix ++ l) ((str_eq_iff (drop 12 a) b).0 tail),
  λ e.
      subst (λ x. mapped_eq x b ≡ true) (sym e)
        (rw ((str_eq_iff v4_prefix v4_prefix).1 refl, (str_eq_iff b b).1 refl) refl),
)

-- a test of two byte strings, as a test of the addresses that have them
some_iff :
    (test : Bool) (x y : Bytes)
    → (test ≡ true) ↔ (x ≡ y)
    → (test ≡ true) ↔ ((some x ≡ some y) × (some x ≢ none))
some_iff test x y h = (λ e. (ap some (h.0 e), λ k. absurd cc), λ k. h.1 (same k.0))
  where
    same : some x ≡ some y → x ≡ y
    same e = ground arith

v4_iff : (a b : Bytes) → (str_eq a b ≡ true) ↔ (v4_prefix ++ a ≡ v4_prefix ++ b)
v4_iff a b =
    (λ h. ap (λ l. v4_prefix ++ l) ((str_eq_iff a b).0 h), λ e. (str_eq_iff a b).1 (ap (drop 12) e))

-- Two addresses compare as equal exactly when both have a family and they are the same as IPv6 addresses,
-- an IPv4 address standing for its mapped form; the ports do not count.
pub addr_eq_iff :
    (a b : Addr) → (addr_eq a b ≡ true) ↔ ((as_ipv6 a ≡ as_ipv6 b) × (as_ipv6 a ≢ none))
unfolding addr_eq
addr_eq_iff (inet a p) (inet b q) = some_iff _ _ _ (v4_iff a b)
addr_eq_iff (inet6 a p) (inet6 b q) = some_iff _ _ _ (str_eq_iff a b)
addr_eq_iff (inet6 a p) (inet b q) = some_iff _ _ _ (mapped_eq_iff a b)
addr_eq_iff (inet a p) (inet6 b q) =
    some_iff (mapped_eq b a) (v4_prefix ++ a) b
      (λ h. sym ((mapped_eq_iff b a).0 h), λ e. (mapped_eq_iff b a).1 (sym e))
addr_eq_iff unspec b = (λ h. absurd cc, λ h. absurd (h.1 refl))
addr_eq_iff (inet a p) unspec = (λ h. absurd cc, λ h. absurd cc)
addr_eq_iff (inet6 a p) unspec = (λ h. absurd cc, λ h. absurd cc)
