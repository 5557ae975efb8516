-- ===== src/Host/PolicyAllows.antt =====
-- Where the host lets the guest connect: `validate_uri` and `resolve_public_addr` of host/src/main.rs.
use mathlib.Core.List.{reverse, reverse-reverse, reverse-append}
use onedrive_davfs.Base.{
  ℕ, ◌≡◌, refl, sym, ap, ◌∙◌, subst, Bool, true, false, ◌||◌, ◌⊎◌, inl, inr, Option, none, some,
  List, [], ◌∷◌, ◌++◌, map, Bytes, bytes_eq, bytes_eq_iff, codes, ◌==◌, ok, ok->>=, ok-injective,
  Bool-cases, arith, In, here, there,
}
use onedrive_davfs.Base.Str.{ends_with, starts_with-eq, ascii_lower}
use onedrive_davfs.Host.PublicIp.{is_public_ip}
use onedrive_davfs.Host.Policy.{
  Authority, Uri, ValidatedAuthority, has_dns_suffix, is_allowed_host, unwrap_or, has_at,
  validate_authority, or_invalid, validate_uri, SocketAddr, Resolved, timed_out, not_found, addrs,
  first_public, resolve_public_addr, Connection, connection_of,
}

-- The name of a domain or of a host in it.
abbrev pub IsUnder : Bytes → Bytes → Type 0
IsUnder suffix host = (host ≡ suffix) ⊎ ((p : Bytes) × (host ≡ p ++ b'.' ∷ suffix))

abbrev pub IsMicrosoft : Bytes → Type 0
IsMicrosoft host =
    (host ≡ codes "graph.microsoft.com")
    ⊎ ((host ≡ codes "login.microsoftonline.com")
        ⊎ (IsUnder (codes "sharepoint.com") host
            ⊎ (IsUnder (codes "sharepoint-df.com") host
                ⊎ (IsUnder (codes "microsoftpersonalcontent.com") host
                    ⊎ IsUnder (codes "1drv.com") host))))

ends_with-eq : (s p : Bytes) → ends_with s p ≡ true → (r : Bytes) × (s ≡ r ++ p)
unfolding ends_with
ends_with-eq s p h =
    let (r, e) = starts_with-eq (reverse s) (reverse p) h in
    (
      reverse r,
      sym (reverse-reverse s)
          ∙ ap reverse e
          ∙ reverse-append (reverse p) r
          ∙ ap (λ t. reverse r ++ t) (reverse-reverse p),
    )

or-cases : {a b : Bool} → (a || b) ≡ true → (a ≡ true) ⊎ (b ≡ true)
or-cases {a = true} h = inl refl
or-cases {a = false} h = inr h

has_dns_suffix-IsUnder :
    (host suffix : Bytes) → has_dns_suffix host suffix ≡ true → IsUnder suffix host
unfolding has_dns_suffix
has_dns_suffix-IsUnder host suffix h = elim (or-cases {a = bytes_eq host suffix} h) [
  | inl e ↦ inl ((bytes_eq_iff host suffix).0 e)
  | inr e ↦ inr (ends_with-eq host (b'.' ∷ suffix) e)
]

is_allowed_host-IsMicrosoft : (host : Bytes) → is_allowed_host host ≡ true → IsMicrosoft host
unfolding is_allowed_host
is_allowed_host-IsMicrosoft host h =
    let h0 : (bytes_eq host (codes "graph.microsoft.com")
          || bytes_eq host (codes "login.microsoftonline.com")
          || has_dns_suffix host (codes "sharepoint.com")
          || has_dns_suffix host (codes "sharepoint-df.com")
          || has_dns_suffix host (codes "microsoftpersonalcontent.com")
          || has_dns_suffix host (codes "1drv.com"))
        ≡ true =
      h in
    elim (or-cases h0) [
      | inr e ↦ inr (inr (inr (inr (inr (has_dns_suffix-IsUnder host _ e)))))
      | inl h1 ↦ elim (or-cases h1) [
        | inr e ↦ inr (inr (inr (inr (inl (has_dns_suffix-IsUnder host _ e)))))
        | inl h2 ↦ elim (or-cases h2) [
          | inr e ↦ inr (inr (inr (inl (has_dns_suffix-IsUnder host _ e))))
          | inl h3 ↦ elim (or-cases h3) [
            | inr e ↦ inr (inr (inl (has_dns_suffix-IsUnder host _ e)))
            | inl h4 ↦ elim (or-cases h4) [
              | inl e ↦ inl ((bytes_eq_iff host _).0 e)
              | inr e ↦ inr (inl ((bytes_eq_iff host _).0 e))
            ]
          ]
        ]
      ]
    ]

-- What passes the checks of a URI.
pub record Passes (is_ip : Bytes → Bool) (v : ValidatedAuthority) : Type 0 where
  pub name : is_ip v.host ≡ false
  pub standard_port : v.port ≡ 443
  pub allowed : is_allowed_host v.host ≡ true

module _ (is_ip : Bytes → Bool) where
  validate_authority-Passes :
      (a : Authority) (v : ValidatedAuthority) → validate_authority is_ip a ≡ ok v → Passes is_ip v
  unfolding validate_authority
  validate_authority-Passes a v h = elim (Bool-cases (has_at a.text)) [
    | inl y ↦ absurd (ground (arith, h, y))
    | inr n1 ↦ elim (Bool-cases (is_ip (map ascii_lower a.host))) [
      | inl y ↦ absurd (ground (arith, h, n1, y))
      | inr n2 ↦ elim (Bool-cases (unwrap_or 443 a.port_u16 == 443)) [
        | inr y ↦ absurd (ground (arith, h, n1, n2, y))
        | inl n3 ↦ elim (Bool-cases (is_allowed_host (map ascii_lower a.host))) [
          | inr y ↦ absurd (ground (arith, h, n1, n2, n3, y))
          | inl n4 ↦
              let h' = rw (n1, n2, n3, n4) at h in
              subst (Passes is_ip) (ok-injective h')
                (record { name = n2; standard_port = ground (arith, n3); allowed = n4 })
        ]
      ]
    ]
  ]

  or_invalid-Passes :
      (a : Option Authority) (v : ValidatedAuthority) → or_invalid is_ip a ≡ ok v → Passes is_ip v
  unfolding or_invalid
  or_invalid-Passes none v h = cc
  or_invalid-Passes (some a) v h = validate_authority-Passes a v h

  validate_uri-Passes :
      (uri : Uri) (v : ValidatedAuthority) → validate_uri is_ip uri ≡ ok v → Passes is_ip v
  unfolding validate_uri
  validate_uri-Passes uri v h =
      elim (Bool-cases (bytes_eq (unwrap_or (codes "https") uri.scheme) (codes "https"))) [
        | inr n ↦ absurd (ground (arith, h, n))
        | inl y ↦ let h' = rw y at h in or_invalid-Passes uri.authority v h'
      ]

-- An address of the answer.
abbrev IsAnswer : Resolved → SocketAddr → Type 0
IsAnswer r addr =
    (found : List SocketAddr) × (r ≡ addrs found) × In addr found × (is_public_ip addr.ip ≡ true)

first_public-In :
    (found : List SocketAddr) (addr : SocketAddr)
    → first_public found ≡ ok addr
    → In addr found × (is_public_ip addr.ip ≡ true)
unfolding first_public
first_public-In [] addr h = cc
first_public-In (a ∷ rest) addr h = elim (Bool-cases (is_public_ip a.ip)) [
  | inl y ↦
      let same : a ≡ addr = ok-injective (rw y at h) in
      subst (λ x. In x (a ∷ rest) × (is_public_ip x.ip ≡ true)) same (here, y)
  | inr n ↦ let (m, p) = first_public-In rest addr (rw n at h) in (there m, p)
]

resolve_public_addr-IsAnswer :
    (r : Resolved) (addr : SocketAddr) → resolve_public_addr r ≡ ok addr → IsAnswer r addr
unfolding resolve_public_addr
resolve_public_addr-IsAnswer timed_out addr h = cc
resolve_public_addr-IsAnswer not_found addr h = cc
resolve_public_addr-IsAnswer (addrs found) addr h =
    let (m, p) = first_public-In found addr h in (found, refl, m, p)

-- When the host opens a connection for a request of the guest, the name that TLS checks is one of the
-- Microsoft hosts or under one of their domains and is no IP address, the name was looked up for port
-- 443, and the connection goes to an address of the answer that the filter takes for public.
pub connection_of-IsMicrosoft :
    (is_ip : Bytes → Bool) (lookup_host : Bytes → ℕ → Resolved) (uri : Uri) (c : Connection)
    → connection_of is_ip lookup_host uri ≡ ok c
    → IsMicrosoft c.server_name
      × (is_ip c.server_name ≡ false)
      × IsAnswer (lookup_host c.server_name 443) c.addr
unfolding connection_of
connection_of-IsMicrosoft is_ip lookup_host uri c h =
    let (v, h1, ev) = ok->>= _ (validate_uri is_ip uri) h in
    let (addr, h2, ea) = ok->>= _ (resolve_public_addr (lookup_host v.host v.port)) h1 in
    let p = validate_uri-Passes is_ip uri v ev in
    let answer = resolve_public_addr-IsAnswer (lookup_host v.host v.port) addr ea in
    subst
      (λ x.
        IsMicrosoft x.server_name
        × (is_ip x.server_name ≡ false)
        × IsAnswer (lookup_host x.server_name 443) x.addr)
      (ok-injective h2)
      (
        is_allowed_host-IsMicrosoft v.host p.allowed,
        p.name,
        subst (λ n. IsAnswer (lookup_host v.host n) addr) p.standard_port answer,
      )
