-- ===== src/Upstream/Blocked.antt =====
-- The blocked networks as ranges of addresses.
use inferna_next.Base.{
  Bool, Bool-cases, any, arith, false, inl, inr, refl, true, ℕ, ◌%◌, ◌*◌, ◌+◌, ◌-◌, ◌/◌, ◌<◌, ◌==◌,
  ◌^◌, ◌||◌, ◌↔◌, ◌≡◌, ◌≤◌, ◌⊎◌,
}
use inferna_next.Upstream.{
  Ip, blocked_networks, in_network, ip_is_blocked, quad, unwrap_ipv4_mapped, v4, v6,
}

-- One of `size` addresses from `low` on.
abbrev pub IsWithin : ℕ → ℕ → ℕ → Type 0
IsWithin low size n = (low ≤ n) × (n < low + size)

-- The ranges of the IPv4 addresses that no upstream may have.
abbrev pub IsReserved4 : ℕ → Type 0
IsReserved4 n =
    IsWithin (quad 127 0 0 0) (2 ^ 24) n
    ⊎ (IsWithin (quad 169 254 0 0) (2 ^ 16) n
        ⊎ (IsWithin (quad 10 0 0 0) (2 ^ 24) n
            ⊎ (IsWithin (quad 172 16 0 0) (2 ^ 20) n
                ⊎ (IsWithin (quad 192 168 0 0) (2 ^ 16) n
                    ⊎ (IsWithin 0 (2 ^ 24) n
                        ⊎ ((n ≡ quad 255 255 255 255) ⊎ IsWithin (quad 224 0 0 0) (2 ^ 28) n))))))

abbrev pub IsReserved6 : ℕ → Type 0
IsReserved6 n =
    (n ≡ 1)
    ⊎ (IsWithin (0xfe80 * 2 ^ 112) (2 ^ 118) n
        ⊎ (IsWithin (0xfc00 * 2 ^ 112) (2 ^ 121) n
            ⊎ ((n ≡ 0) ⊎ IsWithin (0xff00 * 2 ^ 112) (2 ^ 120) n)))

-- An address of ::ffff:0:0/96 is as reserved as the IPv4 address in it.
abbrev pub IsReserved : Ip → Type 0
IsReserved (v4 n) = IsReserved4 n
IsReserved (v6 n) =
    (IsWithin (0xffff * 2 ^ 32) (2 ^ 32) n × IsReserved4 (n - 0xffff * 2 ^ 32))
    ⊎ (¬ IsWithin (0xffff * 2 ^ 32) (2 ^ 32) n × IsReserved6 n)

or_step :
    (a b : Bool) {P Q : Type 0} → (a ≡ true) ↔ P → (b ≡ true) ↔ Q → ((a || b) ≡ true) ↔ (P ⊎ Q)
or_step true b p q = ((λ h. inl (p.0 refl)), (λ h. refl))
or_step false b p q =
    ((λ h. inr (q.0 h)), (λ s. elim s [ inl x ↦ absurd (let e = p.1 x in cc) | inr y ↦ q.1 y ]))

last_step : (a : Bool) {P : Type 0} → (a ≡ true) ↔ P → ((a || false) ≡ true) ↔ P
last_step true p = p
last_step false p = p

IsReserved4-iff : (n : ℕ) → (any (in_network (v4 n)) blocked_networks ≡ true) ↔ IsReserved4 n
unfolding in_network
IsReserved4-iff n =
    or_step (n / 2 ^ 24 == 127) _ ((λ h. ground arith), (λ h. ground arith))
      (or_step (n / 2 ^ 16 == (169 * 256 + 254)) _ ((λ h. ground arith), (λ h. ground arith))
        (or_step (n / 2 ^ 24 == 10) _ ((λ h. ground arith), (λ h. ground arith))
          (or_step (n / 2 ^ 20 == (172 * 16 + 1)) _ ((λ h. ground arith), (λ h. ground arith))
            (or_step (n / 2 ^ 16 == (192 * 256 + 168)) _ ((λ h. ground arith), (λ h. ground arith))
              (or_step (n / 2 ^ 24 == 0) _ ((λ h. ground arith), (λ h. ground arith))
                (or_step (n / 2 ^ 0 == quad 255 255 255 255) _
                  ((λ h. ground arith), (λ h. ground arith))
                  (last_step (n / 2 ^ 28 == 14) ((λ h. ground arith), (λ h. ground arith)))))))))

IsReserved6-iff : (n : ℕ) → (any (in_network (v6 n)) blocked_networks ≡ true) ↔ IsReserved6 n
unfolding in_network
IsReserved6-iff n =
    or_step (n / 2 ^ 0 == 1) _ ((λ h. ground arith), (λ h. ground arith))
      (or_step (n / 2 ^ 118 == 0x3fa) _ ((λ h. ground arith), (λ h. ground arith))
        (or_step (n / 2 ^ 121 == 0x7e) _ ((λ h. ground arith), (λ h. ground arith))
          (or_step (n / 2 ^ 0 == 0) _ ((λ h. ground arith), (λ h. ground arith))
            (last_step (n / 2 ^ 120 == 0xff) ((λ h. ground arith), (λ h. ground arith))))))

mapped_iff : (n : ℕ) → ((n / 2 ^ 32 == 0xffff) ≡ true) ↔ IsWithin (0xffff * 2 ^ 32) (2 ^ 32) n
mapped_iff n = ((λ h. ground arith), (λ h. ground arith))

-- An address is blocked exactly if it is one of the reserved addresses, itself or inside a mapped one.
pub ip_is_blocked_iff : (ip : Ip) → (ip_is_blocked ip ≡ true) ↔ IsReserved ip
unfolding ip_is_blocked unwrap_ipv4_mapped
ip_is_blocked_iff (v4 n) = IsReserved4-iff n
ip_is_blocked_iff (v6 n) = elim (Bool-cases (n / 2 ^ 32 == 0xffff)) [
  | inl e ↦
      let within = (mapped_iff n).0 e in
      let inside : n % 2 ^ 32 ≡ n - 0xffff * 2 ^ 32 = omega arith in
      let both = IsReserved4-iff (n - 0xffff * 2 ^ 32) in
      rw (e, inside)
        (
          (λ h. inl (within, both.0 h)),
          (λ s. elim s [ inl p ↦ both.1 p.1 | inr p ↦ absurd (p.0 within) ]),
        )
  | inr e ↦
      let both = IsReserved6-iff n in
      let outside : ¬ IsWithin (0xffff * 2 ^ 32) (2 ^ 32) n =
        λ w. (let t = (mapped_iff n).1 w in cc) in
      rw e (
        (λ h. inr (outside, both.0 h)),
        (λ s. elim s [ inl p ↦ absurd (outside p.0) | inr p ↦ both.1 p.1 ]),
      )
]
