-- ===== src/Redis/Client/Secured.antt =====
-- internal/redis/redis.go: when a client uses TLS, and with what.
use traefik_cluster_ratelimi.Common.{
  ◌≡◌, refl, inl, inr, Bool, true, false, not, ◌&&◌, Option, none, some, Bool-cases, if◌then◌else◌,
  ◌++◌,
}
use traefik_cluster_ratelimi.Common.Bytes.{Bytes, codes, is_empty}
use traefik_cluster_ratelimi.Common.Result.{Result, ok, err, panic, with_context}
use traefik_cluster_ratelimi.Common.State.{
  continue, ◌>>◌, give, in_context, Gives, continue-Gives, Gives-all, Gives-ok,
}
use traefik_cluster_ratelimi.Redis.Options.{Options}
use traefik_cluster_ratelimi.Redis.Network.{Network, World, TlsConfig, silently}
use traefik_cluster_ratelimi.Redis.Tls.{
  differ, name_of, read_config, root_cas_of, certificate_of, build_tls_config, tls_requested,
}
use traefik_cluster_ratelimi.Redis.Client.{Client, max_active}
use traefik_cluster_ratelimi.Redis.Client.Pool.{
  make_pool, prepopulate, client_of, tls_config_of, new_client,
}

-- The roots are what the CA file is read as, and hold a certificate; without such a file there are
-- none.
abbrev pub HasRoots : {W : Type 0} → Network W → Options → Option Bytes → Type 0
HasRoots net o none = is_empty o.ca_cert_file ≡ true
HasRoots {W} net o (some pem) =
    (is_empty o.ca_cert_file ≡ false)
    × (net.append_certs_from_pem pem ≡ true)
    × (w : W) × ((net.read_file o.ca_cert_file w).0 ≡ ok pem)

-- The certificate is what the pair of files is loaded as, the certificate's first; without its file
-- there is none.
abbrev pub HasCertificate : {W : Type 0} → Network W → Options → Option Bytes → Type 0
HasCertificate net o none = is_empty o.client_cert_file ≡ true
HasCertificate {W} net o (some cert) =
    (is_empty o.client_cert_file ≡ false)
    × (w : W) × ((net.load_x509_key_pair o.client_cert_file o.client_key_file w).0 ≡ ok cert)

-- The server's certificate is checked for a name, and against the roots of the CA file when there is
-- one; a certificate of its own is shown just when both of its files are given.
pub record IsTrusted {W : Type 0} (net : Network W) (o : Options) (cfg : TlsConfig) : Type 0 where
  pub names : cfg.server_name ≡ name_of o
  pub named : is_empty (name_of o) ≡ false
  pub rooted : HasRoots net o cfg.root_cas
  pub certified : HasCertificate net o cfg.certificate
  pub keyed : is_empty o.client_key_file ≡ is_empty o.client_cert_file

differ-eq : (a b : Bool) → differ a b ≡ false → b ≡ a
differ-eq true true h = refl
differ-eq true false h = cc
differ-eq false true h = cc
differ-eq false false h = refl

-- With TLS asked for there is a configuration that is trusted, and else there is none.
abbrev pub IsSecured : {W : Type 0} → Network W → Options → Option TlsConfig → Type 0
IsSecured net o none = tls_requested o ≡ false
IsSecured net o (some cfg) = (tls_requested o ≡ true) × IsTrusted net o cfg

module _ {W : Type 0} (net : Network W) (o : Options) where
  read-given :
      {A : Type 0} (context : Bytes) (r : Result A) (s : World W)
      → Gives (λ a. r ≡ ok a) (with_context context r, s)
  read-given context (ok a) s = refl
  read-given context (err e) s = tt
  read-given context panic s = tt

  -- A value that is made of what a file holds.
  Read-Gives :
      {A : Type 0} (P : A → Type 0) (context : Bytes) (call : W → Result Bytes × W) (s : World W)
      (use_of : Bytes → Result A)
      → ((raw : Bytes) (s' : World W) → (call s.env).0 ≡ ok raw → Gives P (use_of raw, s'))
      → Gives P (continue (λ raw. give (use_of raw)) (in_context context (silently net call) s))
  Read-Gives P context call s use_of each =
      continue-Gives (λ raw. (call s.env).0 ≡ ok raw) P (λ raw. give (use_of raw))
        (in_context context (silently net call) s) (read-given context (call s.env).0 _) each

  root_cas_of-HasRoots : (s : World W) → Gives (HasRoots net o) (root_cas_of net o s)
  unfolding root_cas_of
  root_cas_of-HasRoots s = elim (Bool-cases (is_empty o.ca_cert_file)) [
    | inl absent ↦ rw absent absent
    | inr present ↦ rw present (
        Read-Gives (HasRoots net o)
          (codes "redis: reading caCertFile " ++ (o.ca_cert_file ++ codes ": "))
          (net.read_file o.ca_cert_file) s
          (λ pem.
            if net.append_certs_from_pem pem
            then ok (some pem)
            else err (codes "redis: no certificates parsed from caCertFile " ++ o.ca_cert_file))
          (λ pem s' given. elim (Bool-cases (net.append_certs_from_pem pem)) [
            | inl good ↦ rw good (present, good, s.env, given)
            | inr bad ↦ rw bad tt
          ]))
  ]

  certificate_of-HasCertificate :
      (s : World W) → Gives (HasCertificate net o) (certificate_of net o s)
  unfolding certificate_of
  certificate_of-HasCertificate s = elim (Bool-cases (is_empty o.client_cert_file)) [
    | inl absent ↦ rw absent absent
    | inr present ↦ rw present (
        Read-Gives (HasCertificate net o) (codes "redis: loading client keypair: ")
          (net.load_x509_key_pair o.client_cert_file o.client_key_file) s (λ cert. ok (some cert))
          (λ cert s' given. (present, s.env, given)))
  ]

  build_tls_config-IsTrusted : (s : World W) → Gives (IsTrusted net o) (build_tls_config net o s)
  unfolding build_tls_config read_config
  build_tls_config-IsTrusted s =
      elim (Bool-cases (differ (is_empty o.client_cert_file) (is_empty o.client_key_file))) [
        | inl half ↦ rw half tt
        | inr whole ↦ rw whole (elim (Bool-cases (is_empty (name_of o))) [
          | inl nameless ↦ rw nameless tt
          | inr named ↦ rw named (
              continue-Gives (HasRoots net o) (IsTrusted net o) _ (root_cas_of net o s)
                (root_cas_of-HasRoots s)
                (λ roots s rooted.
                  continue-Gives (HasCertificate net o) (IsTrusted net o) _ (certificate_of net o s)
                    (certificate_of-HasCertificate s)
                    (λ cert s certified. record {
                      names = refl;
                      named = named;
                      rooted = rooted;
                      certified = certified;
                      keyed =
                          differ-eq (is_empty o.client_cert_file) (is_empty o.client_key_file)
                            whole;
                    })))
        ])
      ]

  tls_config_of-IsSecured : (s : World W) → Gives (IsSecured net o) (tls_config_of net o s)
  unfolding tls_config_of
  tls_config_of-IsSecured s = elim (Bool-cases (tls_requested o)) [
    | inl wanted ↦ rw wanted (
        continue-Gives (IsTrusted net o) (IsSecured net o) _ (build_tls_config net o s)
          (build_tls_config-IsTrusted s) (λ cfg s trusted. (wanted, trusted)))
    | inr plain ↦ rw plain plain
  ]

  -- A client of these options, with such a configuration.
  abbrev pub IsMade : Client → Type 0
  IsMade c = IsSecured net o c.tls_cfg × (c ≡ client_of o c.tls_cfg)

  pub new_client-IsMade : (s : World W) (c : Client) → (new_client net o s).0 ≡ ok c → IsMade c
  unfolding new_client
  new_client-IsMade s c made = Gives-ok IsMade (new_client net o s) c secured made
    where
      after_tls :
          (cfg : Option TlsConfig) (s : World W)
          → IsSecured net o cfg
          → Gives IsMade (
              (make_pool net
                  >> prepopulate net (client_of o cfg) max_active
                  >> give (ok (client_of o cfg)))
                s)
      after_tls cfg s secured =
          let filled = (make_pool net >> prepopulate net (client_of o cfg) max_active) s in
          continue-Gives (λ t. Unit {0}) IsMade _ filled
            (Gives-all (λ t. Unit {0}) filled (λ t. tt)) (λ t s u. (secured, refl))

      secured : Gives IsMade (new_client net o s)
      secured = elim (Bool-cases (not (is_empty o.password) && not (is_empty o.password_file))) [
        | inl both ↦ rw both tt
        | inr one ↦ rw one (
            continue-Gives (IsSecured net o) IsMade _ (tls_config_of net o s)
              (tls_config_of-IsSecured s) after_tls)
      ]

  -- A client that NewClient makes uses TLS just when one of the settings for it is given, and then it
  -- checks the server's certificate for a name that is not empty, which is the given one or the host of
  -- the address. It checks it against what the CA file was read as, when one is given, and shows a
  -- certificate just when the two files of one are given, never one of them: the one loaded from these.
  pub new_client-IsSecured :
      (s : World W) (c : Client) → (new_client net o s).0 ≡ ok c → IsSecured net o c.tls_cfg
  new_client-IsSecured s c made = (new_client-IsMade s c made).0
