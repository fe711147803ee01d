-- ===== src/Plugin/Serve/Headers.antt =====
-- The headers that reach the next handler.
use traefik_cluster_ratelimi.Common.{
  ◌≡◌, refl, ap, ◌∙◌, inl, inr, Bool, true, false, ◌||◌, List, [], ◌∷◌, ◌++◌, if◌then◌else◌, arith,
  Bool-cases,
}
use traefik_cluster_ratelimi.Common.Bytes.{Bytes, bytes_eq}
use traefik_cluster_ratelimi.Common.Result.{ok, err, panic}
use traefik_cluster_ratelimi.Http.{Request, Header, lines, remove, del, canonical}
use traefik_cluster_ratelimi.Http.Laws.{lines-remove}
use traefik_cluster_ratelimi.Ip.Net.{Codec}
use traefik_cluster_ratelimi.Limiter.{Floats, Scripts}
use traefik_cluster_ratelimi.Plugin.{ClusterRateLimit}
use traefik_cluster_ratelimi.Plugin.Serve.{destroyed_headers, destroy, identify, admit, serve_http}
use traefik_cluster_ratelimi.Http.Laws.{remove-append, remove-around_hit, remove-around_miss}

-- One of the names, in its canonical form, is the key.
abbrev pub is_named : List Bytes → Bytes → Bool
is_named [] key = false
is_named (h ∷ hs) key = bytes_eq (canonical h) key || is_named hs key

or_true : (b : Bool) → (b || true) ≡ true
or_true true = refl
or_true false = refl

-- What is left of a header after the deletions.
pub lines-destroy :
    (hs : List Bytes) (req : Request) (key : Bytes)
    → lines key (destroy hs req).header ≡ (if is_named hs key then [] else lines key req.header)
unfolding destroy del
lines-destroy [] req key = refl
lines-destroy (h ∷ hs) req key =
    lines-destroy hs (record req { header = remove (canonical h) req.header }) key
    ∙ rw (lines-remove (canonical h) key req.header)
        (elim (Bool-cases (bytes_eq (canonical h) key)) [
          | inl same ↦ rw same (ground arith)
          | inr differ ↦ rw differ
        ])

pub destroy-keeps :
    (hs : List Bytes) (req : Request)
    → ((destroy hs req).remote_addr ≡ req.remote_addr) × ((destroy hs req).host ≡ req.host)
unfolding destroy
destroy-keeps [] req = (refl, refl)
destroy-keeps (h ∷ hs) req = destroy-keeps hs (record req { header = del req.header h })

-- A line under a destroyed name leaves no trace, wherever it stands among the headers.
destroy-ignores :
    (hs : List Bytes) (req : Request) (key : Bytes) (values : List Bytes) (before after : Header)
    → is_named hs key ≡ true
    → destroy hs (record req { header = before ++ (key, values) ∷ after })
      ≡ destroy hs (record req { header = before ++ after })
unfolding destroy del
destroy-ignores [] req key values before after h = cc
destroy-ignores (name ∷ hs) req key values before after h =
    elim (Bool-cases (bytes_eq (canonical name) key)) [
      | inl same ↦
          ap (λ h. destroy hs (record req { header = h }))
            (remove-around_hit (canonical name) key values before after same)
      | inr differ ↦
          let left = remove-append (canonical name) before after in
          let kept =
            destroy-ignores hs req key values (remove (canonical name) before)
              (remove (canonical name) after) (rw differ at h) in
          rw (remove-around_miss (canonical name) key values before after differ, left) kept
    ]

-- What a client sends under a destroyed name does not matter: with or without such a header,
-- wherever it stands and whatever its lines say, the middleware gives the same outcome, which
-- includes every header that it passes on, and leaves the limiter in the same state.
pub serve_http-ignores :
    (c : Codec) (f : Floats) {S : Type 0} (scripts : Scripts S) (rl : ClusterRateLimit)
    (req : Request) (s : S) (key : Bytes) (values : List Bytes) (before after : Header)
    → is_named destroyed_headers key ≡ true
    → serve_http c f scripts rl (record req { header = before ++ (key, values) ∷ after }) s
      ≡ serve_http c f scripts rl (record req { header = before ++ after }) s
unfolding serve_http
serve_http-ignores c f scripts rl req s key values before after h =
    ap
      (λ r. elim (identify c rl r) [
        | panic ↦ (panic, s)
        | err e ↦ (err e, s)
        | ok (client_ip, req') ↦ admit c f scripts rl client_ip req' s
      ])
      (destroy-ignores destroyed_headers req key values before after h)
