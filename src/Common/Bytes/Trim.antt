-- ===== src/Common/Bytes/Trim.antt =====
-- Trimming a text that holds a byte which is no white space.
use traefik_cluster_ratelimi.Common.{ℕ, ◌≡◌, inl, inr, false, [], ◌∷◌, ◌++◌, Bool-cases}
use traefik_cluster_ratelimi.Common.Bytes.{
  Bytes, is_empty, is_space, trim_space, trim_left, trim_right,
}

trim_left-around :
    (s t : Bytes) (c : ℕ)
    → is_space c ≡ false
    → (s' : Bytes) × (trim_left (s ++ c ∷ t) ≡ s' ++ c ∷ t)
unfolding trim_left
trim_left-around [] t c h = ([], rw h)
trim_left-around (d ∷ s) t c h = elim (Bool-cases (is_space d)) [
  | inl blank ↦ let (s', e) = trim_left-around s t c h in (s', rw blank e)
  | inr ink ↦ (d ∷ s, rw ink)
]

trim_right-around :
    (s t : Bytes) (c : ℕ) → is_space c ≡ false → is_empty (trim_right (s ++ c ∷ t)) ≡ false
unfolding trim_right
trim_right-around [] t c h = elim (Bool-cases (is_empty (trim_right t))) [
  | inl e ↦ rw e (rw h)
  | inr e ↦ rw e
]
trim_right-around (d ∷ s) t c h = rw (trim_right-around s t c h)

pub trim_space-around :
    (s t : Bytes) (c : ℕ) → is_space c ≡ false → is_empty (trim_space (s ++ c ∷ t)) ≡ false
unfolding trim_space
trim_space-around s t c h =
    let (s', e) = trim_left-around s t c h in rw e (trim_right-around s' t c h)
