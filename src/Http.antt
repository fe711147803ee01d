-- ===== src/Http.antt =====
-- What the program uses of net/http: a request's address, host and headers. Header keys are kept
-- canonical, as the server makes them; a header may hold several lines, in order.
pub mod Laws
use traefik_cluster_ratelimi.Common.{
  ℕ, ◌+◌, ◌-◌, Bool, true, false, not, ◌&&◌, ◌||◌, List, [], ◌∷◌, if◌then◌else◌, leb, ◌==◌,
}
use traefik_cluster_ratelimi.Common.Bytes.{Bytes, codes, bytes_eq}

abbrev pub Header : Type 0
Header = List (Bytes × List Bytes)

pub record Request : Type 0 where
  pub remote_addr : Bytes
  pub host : Bytes
  pub header : Header

abbrev is_lower : ℕ → Bool
is_lower c = leb b'a' c && leb c b'z'

abbrev is_upper : ℕ → Bool
is_upper c = leb b'A' c && leb c b'Z'

-- The characters of a token, RFC 7230.
is_token_byte : ℕ → Bool
is_token_byte c =
    is_lower c || is_upper c || (leb b'0' c && leb c b'9') || any_of (codes "!#$%&'*+-.^_`|~")
  where
    any_of : Bytes → Bool
    any_of [] = false
    any_of (d ∷ ds) = (c == d) || any_of ds

is_token : Bytes → Bool
unfolding is_token_byte
is_token [] = true
is_token (c ∷ s) = is_token_byte c && is_token s

canonical_from : Bool → Bytes → Bytes
canonical_from upper [] = []
canonical_from upper (c ∷ s) =
    let d = if upper && is_lower c then c - 32 else if is_upper c && not upper then c + 32 else c in
    d ∷ canonical_from (d == b'-') s

-- textproto.CanonicalMIMEHeaderKey
unfoldable pub canonical : Bytes → Bytes
unfolding is_token canonical_from
canonical key = if is_token key then canonical_from true key else key

-- The lines of a header, by its canonical key.
unfoldable pub lines : Bytes → Header → List Bytes
lines key [] = []
lines key ((k, vs) ∷ h) = if bytes_eq k key then vs else lines key h

unfoldable pub remove : Bytes → Header → Header
remove key [] = []
remove key ((k, vs) ∷ h) = if bytes_eq k key then remove key h else (k, vs) ∷ remove key h

abbrev first_line : List Bytes → Bytes
first_line [] = []
first_line (v ∷ vs) = v

-- Header.Get: the first line, or the empty string.
unfoldable pub get : Header → Bytes → Bytes
get h key = first_line (lines (canonical key) h)

-- Header.Del
unfoldable pub del : Header → Bytes → Header
del h key = remove (canonical key) h

-- Header.Set: one line in place of all.
unfoldable pub set : Header → Bytes → Bytes → Header
set h key value = (canonical key, value ∷ []) ∷ remove (canonical key) h
