-- ===== src/Http/Laws.antt =====
-- What reading a header gives after a write or a deletion.
use traefik_cluster_ratelimi.Common.{
  ◌≡◌, refl, sym, ap, ◌∙◌, ◌++◌, inl, inr, true, false, List, [], ◌∷◌, if◌then◌else◌, arith,
  Bool-cases,
}
use traefik_cluster_ratelimi.Common.Bytes.{Bytes, bytes_eq, bytes_eq_iff, bytes_eq_comm}
use traefik_cluster_ratelimi.Http.{Header, lines, remove, set, canonical}

pub lines-remove :
    (key other : Bytes) (h : Header)
    → lines other (remove key h) ≡ (if bytes_eq key other then [] else lines other h)
unfolding lines remove
lines-remove key other [] = elim (Bool-cases (bytes_eq key other)) [ inl e ↦ rw e | inr e ↦ rw e ]
lines-remove key other ((k, vs) ∷ h) = ground (
  arith,
  lines-remove key other h,
  bytes_eq_iff k key,
  bytes_eq_iff k other,
  bytes_eq_iff key other,
)

pub lines-set :
    (h : Header) (key value other : Bytes)
    → lines other (set h key value)
      ≡ (if bytes_eq (canonical key) other then value ∷ [] else lines other h)
unfolding set lines
lines-set h key value other = elim (Bool-cases (bytes_eq (canonical key) other)) [
  | inl same ↦ rw same
  | inr differ ↦ rw differ (lines-remove (canonical key) other h ∙ rw differ)
]

pub remove-append :
    (key : Bytes) (h k : Header) → remove key (h ++ k) ≡ remove key h ++ remove key k
unfolding remove
remove-append key [] k = refl
remove-append key ((j, vs) ∷ h) k = elim (Bool-cases (bytes_eq j key)) [
  | inl hit ↦ rw hit (remove-append key h k)
  | inr miss ↦ rw miss (ap (λ r. (j, vs) ∷ r) (remove-append key h k))
]

module _ (key j : Bytes) (values : List Bytes) (before after : Header) where
  pub remove-around_hit :
      bytes_eq key j ≡ true
      → remove key (before ++ (j, values) ∷ after) ≡ remove key (before ++ after)
  unfolding remove
  remove-around_hit h =
      remove-append key before ((j, values) ∷ after)
      ∙ rw (bytes_eq_comm j key, h) (sym (remove-append key before after))

  pub remove-around_miss :
      bytes_eq key j ≡ false
      → remove key (before ++ (j, values) ∷ after)
        ≡ remove key before ++ (j, values) ∷ remove key after
  unfolding remove
  remove-around_miss h =
      remove-append key before ((j, values) ∷ after) ∙ rw (bytes_eq_comm j key, h)
