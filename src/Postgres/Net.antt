-- ===== src/Postgres/Net.antt =====
-- crates/br-util-postgres/src/net.rs: which hosts are trusted. The variable is an argument.
use br_rust_common.Base.{
  Bool, false, not, ◌||◌, ◌&&◌, Text, bytes, List, [], ◌∷◌, Option, none, some, any, split, trim,
  ◌==◌, text_Eq, is_empty, if◌then◌else◌, map, ◌≡◌, arith, refl,
}

unfoldable pub is_loopback : Text → Bool
is_loopback host = host == bytes "localhost" || (host == bytes "127.0.0.1" || host == bytes "::1")

unfoldable pub is_on_trusted_network : Text → List Text → Bool
is_on_trusted_network host trusted = is_loopback host || any (λ h. h == host) trusted

unfoldable pub nonempty_hosts : List Text → List Text
nonempty_hosts [] = []
nonempty_hosts (h ∷ hosts) =
    let rest = nonempty_hosts hosts in if is_empty h then rest else h ∷ rest

unfoldable pub resolve_trusted_network_hosts : Option Text → List Text
resolve_trusted_network_hosts none = []
resolve_trusted_network_hosts (some val) = nonempty_hosts (map trim (split b',' val))

any-nonempty_hosts :
    (host : Text) (hosts : List Text)
    → is_empty host ≡ false
    → any (λ h. h == host) (nonempty_hosts hosts) ≡ any (λ h. h == host) hosts
unfolding nonempty_hosts
any-nonempty_hosts host [] n = refl
any-nonempty_hosts host ([] ∷ hosts) n =
    ground (arith, any-nonempty_hosts host hosts n, text_Eq.beq_iff [] host)
any-nonempty_hosts host ((c ∷ h) ∷ hosts) n = ground (arith, any-nonempty_hosts host hosts n)

any-empty : (hosts : List Text) → any (λ h. h == []) (nonempty_hosts hosts) ≡ false
unfolding nonempty_hosts
any-empty [] = refl
any-empty ([] ∷ hosts) = any-empty hosts
any-empty ((c ∷ h) ∷ hosts) = any-empty hosts

-- A host that is not empty is trusted exactly when it is a loopback name or is one of the parts of
-- the variable, trimmed; the empty host is never trusted.
pub is_on_trusted_network-resolve :
    (host val : Text)
    → is_on_trusted_network host (resolve_trusted_network_hosts (some val)) ≡ (
        not (is_empty host)
        && (is_loopback host || any (λ h. h == host) (map trim (split b',' val))))
unfolding is_on_trusted_network is_loopback resolve_trusted_network_hosts
is_on_trusted_network-resolve [] val = any-empty (map trim (split b',' val))
is_on_trusted_network-resolve (c ∷ host) val =
    ground (arith, any-nonempty_hosts (c ∷ host) (map trim (split b',' val)))
