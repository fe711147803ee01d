-- ===== src/Ip/Subnet/Keys.antt =====
-- Which IPv6 addresses share a rate-limit key: those that agree on the bits of the prefix.
use Prim.Native.Nat.{bit_and}
use native.Mathlib.Nat.{div-add-mod, mul_comm, eq_of_mul-eq-mul_right, one-le-pow}
use traefik_cluster_ratelimi.Common.{
  ℕ, zero, suc, ◌-◌, ◌*◌, ◌/◌, ◌^◌, ◌≤◌, ◌<◌, ◌≡◌, refl, sym, ap, ◌∙◌, ◌↔◌, inl, inr, Bool, true,
  ◌&&◌, none, some, List, [], ◌∷◌, arith, All, length, Bool-cases, le→ltb_false, leb_false→lt, leb,
  leb→le, ◌==◌, ==_iff,
}
use traefik_cluster_ratelimi.Common.Bytes.{Bytes}
use traefik_cluster_ratelimi.Ip.Net.{
  Address, Codec, to4, mask, mask_bytes, cidr_mask, cidr_mask_bytes,
}
use traefik_cluster_ratelimi.Ip.Subnet.{subnet}

-- The first `n` bits of two addresses are the same; a byte's high bits are its quotient.
abbrev pub Agree : ℕ → Address → Address → Type 0
Agree n [] [] = Unit
Agree n [] (b ∷ bs) = ⊥
Agree n (a ∷ more) [] = ⊥
Agree n (a ∷ more) (b ∷ bs) = (a / 2 ^ (8 - n) ≡ b / 2 ^ (8 - n)) × Agree (n - 8) more bs

abbrev pub AreBytes : Address → Type 0
AreBytes = All (λ b. b < 256)

holds_to : (ℕ → Bool) → ℕ → Bool
holds_to test zero = true
holds_to test (suc bound) = holds_to test bound && test bound

holds_to-lt :
    (test : ℕ → Bool) (bound b : ℕ) → b < bound → holds_to test bound ≡ true → test b ≡ true
unfolding holds_to
holds_to-lt test zero b below held = absurd (omega (arith, below))
holds_to-lt test (suc bound) b below held = ground (arith, holds_to-lt test bound b)

-- All masks on all bytes, by evaluation.
mask_table :
    holds_to
      (λ ones.
        holds_to
          (λ b. bit_and b (255 - 255 / 2 ^ ones) == (b / 2 ^ (8 - ones)) * 2 ^ (8 - ones))
          256)
      9
    ≡ true
unfolding holds_to
mask_table = refl

-- A byte under a mask of `n` ones is its high bits.
masked_byte :
    (a n : ℕ) → a < 256 → n ≤ 8 → bit_and a (255 - 255 / 2 ^ n) ≡ (a / 2 ^ (8 - n)) * 2 ^ (8 - n)
masked_byte a n ha hn =
    (==_iff _ _).0 (holds_to-lt _ 256 a ha (holds_to-lt _ 9 n (omega (arith, hn)) mask_table))

cons_iff {ℓ} : {A : Type ℓ} (x y : A) (xs ys : List A) → (x ∷ xs ≡ y ∷ ys) ↔ ((x ≡ y) × (xs ≡ ys))
cons_iff x y xs ys = (λ e. (cc, cc), λ h. cc (h.0, h.1))

two_pow_pos : (n : ℕ) → 0 < 2 ^ n
two_pow_pos n = one-le-pow n 2 (omega arith)

high_bits_iff :
    (a b n : ℕ)
    → a < 256
    → b < 256
    → n ≤ 8
    → (bit_and a (255 - 255 / 2 ^ n) ≡ bit_and b (255 - 255 / 2 ^ n))
      ↔ (a / 2 ^ (8 - n) ≡ b / 2 ^ (8 - n))
high_bits_iff a b n ha hb hn =
    rw (masked_byte a n ha hn, masked_byte b n hb hn)
      (
        λ e. eq_of_mul-eq-mul_right (2 ^ (8 - n)) (two_pow_pos (8 - n)) _ _ e,
        λ e. ap (λ q. q * 2 ^ (8 - n)) e,
      )

mask_bytes_iff :
    (n : ℕ) (as' bs : Address)
    → length as' ≡ length bs
    → AreBytes as'
    → AreBytes bs
    → (mask_bytes as' (cidr_mask_bytes (length as') n)
        ≡ mask_bytes bs (cidr_mask_bytes (length as') n))
      ↔ Agree n as' bs
unfolding cidr_mask_bytes
mask_bytes_iff n [] [] e ha hb = (λ _. tt, λ _. refl)
mask_bytes_iff n [] (b ∷ bs) e ha hb = absurd (omega (arith, e))
mask_bytes_iff n (a ∷ more) [] e ha hb = absurd (omega (arith, e))
mask_bytes_iff n (a ∷ more) (b ∷ bs) e (ha, has) (hb, hbs) = elim (Bool-cases (leb 8 n)) [
  | inl whole ↦
      let z : 8 - n ≡ 0 = omega (arith, leb→le 8 n whole) in
      let (to, back) = high_bits_iff a b 8 ha hb (omega arith) in
      let (to', back') = mask_bytes_iff (n - 8) more bs (omega (arith, e)) has hbs in
      rw (whole, z)
        (
          λ eq. let (h, t) = (cons_iff _ _ _ _).0 eq in (to h, to' t),
          λ (h, t). (cons_iff _ _ _ _).1 (back h, back' t),
        )
  | inr part ↦
      let lt = leb_false→lt 8 n part in
      let z : n - 8 ≡ 0 = omega (arith, lt) in
      let (to, back) = high_bits_iff a b n ha hb (omega (arith, lt)) in
      let (to', back') = mask_bytes_iff 0 more bs (omega (arith, e)) has hbs in
      rw (part, z)
        (
          λ eq. let (h, t) = (cons_iff _ _ _ _).0 eq in (to h, to' t),
          λ (h, t). (cons_iff _ _ _ _).1 (back h, back' t),
        )
]

length-cidr_mask_bytes : (l n : ℕ) → length (cidr_mask_bytes l n) ≡ l
unfolding cidr_mask_bytes
length-cidr_mask_bytes zero n = refl
length-cidr_mask_bytes (suc l) n = elim (Bool-cases (leb 8 n)) [
  | inl whole ↦ rw whole (ap suc (length-cidr_mask_bytes l (n - 8)))
  | inr part ↦ rw part (ap suc (length-cidr_mask_bytes l 0))
]

length-mask_bytes : (bs m : List ℕ) → length bs ≡ length m → length (mask_bytes bs m) ≡ length bs
length-mask_bytes [] m e = refl
length-mask_bytes (b ∷ bs) [] e = absurd (omega (arith, e))
length-mask_bytes (b ∷ bs) (m ∷ ms) e = ap suc (length-mask_bytes bs ms (omega (arith, e)))

mask_of_sixteen :
    (ip m : List ℕ) → length ip ≡ 16 → length m ≡ 16 → mask ip m ≡ some (mask_bytes ip m)
unfolding mask
mask_of_sixteen ip m e f = simp (e, f)

network : Address → ℕ → Address
network ip ipv6_prefix = mask_bytes ip (cidr_mask_bytes 16 ipv6_prefix)

subnet_of_v6 :
    (c : Codec) (addr : Bytes) (ip : Address) (ipv6_prefix : ℕ)
    → c.parse_ip addr ≡ some ip
    → to4 ip ≡ none
    → length ip ≡ 16
    → ipv6_prefix ≤ 128
    → subnet c addr ipv6_prefix ≡ c.to_string (network ip ipv6_prefix)
unfolding subnet network cidr_mask
subnet_of_v6 c addr ip ipv6_prefix read v6 sixteen short =
    rw (read, subnet)
      (rw v6 (
        rw (le→ltb_false 128 ipv6_prefix short) (
          rw (
            mask_of_sixteen ip (cidr_mask_bytes 16 ipv6_prefix) sixteen
              (length-cidr_mask_bytes 16 ipv6_prefix)))))

masked-lt : (a n : ℕ) → a < 256 → n ≤ 8 → bit_and a (255 - 255 / 2 ^ n) < 256
masked-lt a n ha hn =
    rw (masked_byte a n ha hn)
      (omega (arith, ha, div-add-mod a (2 ^ (8 - n)), mul_comm (2 ^ (8 - n)) (a / 2 ^ (8 - n))))

-- A masked address consists of bytes.
mask_bytes-AreBytes :
    (l n : ℕ) (a : Address) → AreBytes a → AreBytes (mask_bytes a (cidr_mask_bytes l n))
unfolding cidr_mask_bytes
mask_bytes-AreBytes l n [] h = tt
mask_bytes-AreBytes zero n (b ∷ bs) h = tt
mask_bytes-AreBytes (suc l) n (b ∷ bs) (h, hs) = elim (Bool-cases (leb 8 n)) [
  | inl whole ↦ rw whole (masked-lt b 8 h (omega arith), mask_bytes-AreBytes l (n - 8) bs hs)
  | inr part ↦
      rw part
        (masked-lt b n h (omega (arith, leb_false→lt _ _ part)), mask_bytes-AreBytes l 0 bs hs)
]

-- Two IPv6 addresses of 16 bytes, under a prefix of at most 128 bits, have the same key exactly if
-- they agree on the bits of the prefix. It is assumed that reading a printed address of 16 bytes
-- gives the address.
pub subnet-eq_iff :
    (c : Codec) (addr addr' : Bytes) (ip ip' : Address) (ipv6_prefix : ℕ)
    → ((a : Address) → length a ≡ 16 → AreBytes a → c.parse_ip (c.to_string a) ≡ some a)
    → ipv6_prefix ≤ 128
    → c.parse_ip addr ≡ some ip
    → c.parse_ip addr' ≡ some ip'
    → to4 ip ≡ none
    → to4 ip' ≡ none
    → length ip ≡ 16
    → length ip' ≡ 16
    → AreBytes ip
    → AreBytes ip'
    → (subnet c addr ipv6_prefix ≡ subnet c addr' ipv6_prefix) ↔ Agree ipv6_prefix ip ip'
unfolding network
subnet-eq_iff c addr addr' ip ip' ipv6_prefix round short read read' v6 v6' sixteen sixteen' bytes
      bytes' =
    let (to, back) = mask_bytes_iff ipv6_prefix ip ip' (sixteen ∙ sym sixteen') bytes bytes' in
    let m = cidr_mask_bytes 16 ipv6_prefix in
    let full = length-cidr_mask_bytes 16 ipv6_prefix in
    let back_from = λ (a : Address) (e : length a ≡ 16) (h : AreBytes a).
      round (mask_bytes a m) (length-mask_bytes a m (e ∙ sym full) ∙ e)
        (mask_bytes-AreBytes 16 ipv6_prefix a h) in
    rw
      (
        subnet_of_v6 c addr ip ipv6_prefix read v6 sixteen short,
        subnet_of_v6 c addr' ip' ipv6_prefix read' v6' sixteen' short,
      )
      (
        λ e.
            let same : some (mask_bytes ip m) ≡ some (mask_bytes ip' m) =
              sym (back_from ip sixteen bytes) ∙ ap c.parse_ip e ∙ back_from ip' sixteen' bytes' in
            to (rw sixteen (cc same)),
        λ agree. ap c.to_string (rw sixteen at (back agree)),
      )
