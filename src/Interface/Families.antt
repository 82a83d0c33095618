-- ===== src/Interface/Families.antt =====
-- Which specifications of an interface pass isValidInterfaceSpec, and when getIP has an address.
use metalnet.Base.{
  ℕ, zero, suc, ◌+◌, ◌≤◌, ◌<◌, ◌≡◌, ◌≢◌, ◌↔◌, refl, inl, inr, false, not, ◌&&◌, ◌||◌, Option, none,
  some, List, [], ◌∷◌, length, select, get_elem?, leb, ltb, ◌==◌, beq_refl, beq-eq, beq_sym, arith,
  Bool-cases, Option-cases, All,
}
use metalnet.Base.Sets.{has, Distinct}
use metalnet.Base.Result.{Result, ok, err, panic}
use metalnet.Netip.{Addr, no_addr, ip4, ip6, is4, is6}
use metalnet.Api.{IpFamily, MeteringParameters, NetworkInterfaceSpec}
use metalnet.Interface.Spec.{
  NetworkInterfaceReconciler, family_beq, family_eq, ip_at, get_ip_from, get_ip, count_families,
  check_families, is_valid_ip_configuration, is_valid_metering_params, is_valid_interface_spec,
}

count_families-length :
    (ips : List Addr) → count_families ips ≡ (length (select is4 ips), length (select is6 ips))
unfolding count_families is4 is6
count_families-length [] = refl
count_families-length (no_addr ∷ ips) = rw (count_families-length ips) refl
count_families-length (ip4 a ∷ ips) = rw (count_families-length ips) refl
count_families-length (ip6 a z ∷ ips) = rw (count_families-length ips) refl

-- Every family of the list is missing in the set.
abbrev Fresh : List IpFamily → List IpFamily → Type 0
Fresh seen fs = All (λ f. has seen f ≡ false) fs

Fresh-split :
    (f : IpFamily) (seen fs : List IpFamily)
    → Fresh (f ∷ seen) fs ↔ ((has fs f ≡ false) × Fresh seen fs)
unfolding has
Fresh-split f seen [] = (λ h. (refl, tt), λ h. tt)
Fresh-split f seen (g ∷ fs) =
    let ih = Fresh-split f seen fs in
    let s = beq_sym f g in
    (
      λ h. let (a, b) = ih.0 h.1 in (ground (arith, h.0, s, a), (ground (arith, h.0), b)),
      λ h. (ground (arith, h.0, h.1, s), ih.1 (ground (arith, h.0), h.1.1)),
    )

check_families_iff :
    (seen fs : List IpFamily) → (check_families seen fs ≡ ok tt) ↔ (Distinct fs × Fresh seen fs)
unfolding check_families
check_families_iff seen [] = (λ h. (tt, tt), λ h. refl)
check_families_iff seen (f ∷ fs) = elim (Bool-cases (has seen f)) [
  | inl p ↦ rw p (λ h. cc, λ h. absurd (cc h.1.0))
  | inr p ↦
      let ih = check_families_iff (f ∷ seen) fs in
      let split = Fresh-split f seen fs in
      rw p (
        λ h. let (d, a) = ih.0 h in let (n, k) = split.0 a in ((n, d), (refl, k)),
        λ h. ih.1 (h.0.1, split.1 (h.0.0, h.1.1)),
      )
]

unseen : (fs : List IpFamily) → Fresh [] fs
unfolding has
unseen [] = tt
unseen (f ∷ fs) = (refl, unseen fs)

-- A public rate is at most the total rate.
abbrev pub IsMetered : Option MeteringParameters → Type 0
IsMetered none = Unit
IsMetered (some m) =
    (total rate : ℕ) → m.total_rate ≡ some total → m.public_rate ≡ some rate → rate ≤ total

-- What isValidIPConfiguration asks for.
abbrev pub AreValid : NetworkInterfaceReconciler → List Addr → List IpFamily → Type 0
AreValid r ips families =
    (r.enable_ipv6_support ≡ false → length (select is6 ips) ≡ 0)
    × (length (select is4 ips) ≤ 1)
    × (length (select is6 ips) ≤ 1)
    × Distinct families

ip_configuration_iff :
    (r : NetworkInterfaceReconciler) (ips : List Addr) (families : List IpFamily)
    → (is_valid_ip_configuration r ips families ≡ ok tt) ↔ AreValid r ips families
unfolding is_valid_ip_configuration
ip_configuration_iff r ips families =
    let n4 = length (select is4 ips) in
    let n6 = length (select is6 ips) in
    let (there, back) = check_families_iff [] families in
    rw (count_families-length ips) (elim (Bool-cases (not r.enable_ipv6_support && leb 1 n6)) [
      | inl p ↦ rw p (λ h. cc, λ h. absurd (ground (arith, p, h.0, h.1)))
      | inr p ↦ elim (Bool-cases (ltb 1 n4 || ltb 1 n6)) [
        | inl q ↦ rw (p, q) (λ h. cc, λ h. absurd (ground (arith, q, h.1, h.2)))
        | inr q ↦
            rw (p, q)
              (
                λ h. (λ e. ground (arith, p, e), ground (arith, q), ground (arith, q), (there h).0),
                λ h. back (h.3, unseen families),
              )
      ]
    ])

metering_params_iff :
    (m : Option MeteringParameters) → (is_valid_metering_params m ≡ ok tt) ↔ IsMetered m
unfolding is_valid_metering_params
metering_params_iff none = (λ h. tt, λ h. refl)
metering_params_iff (some m) = elim (Option-cases m.total_rate) [
  | inl n ↦ rw n (λ h t r p q. absurd (cc p), λ h. refl)
  | inr (total, e) ↦ elim (Option-cases m.public_rate) [
    | inl n ↦ rw (e, n) (λ h t r p q. absurd (cc q), λ h. refl)
    | inr (rate, f) ↦ elim (Bool-cases (ltb total rate)) [
      | inl l ↦ rw (e, f, l) (λ h. cc, λ h. absurd (ground (arith, l, h total rate refl refl)))
      | inr l ↦ rw (e, f, l) (λ h t r p q. ground (arith, l, p, q), λ h. refl)
    ]
  ]
]

-- The reconciler accepts the specification of an interface exactly if it has no IPv6 address unless
-- IPv6 is enabled, at most one IPv4 and at most one IPv6 address, no IP family twice, and no public
-- rate above the total rate. Nothing is asked of how many families there are for the addresses.
pub is_valid_interface_spec_iff :
    (r : NetworkInterfaceReconciler) (spec : NetworkInterfaceSpec)
    → (is_valid_interface_spec r spec ≡ ok tt)
      ↔ (AreValid r spec.ips spec.ip_families × IsMetered spec.metering_rate)
unfolding is_valid_interface_spec
is_valid_interface_spec_iff r spec =
    let ips = ip_configuration_iff r spec.ips spec.ip_families in
    let rates = metering_params_iff spec.metering_rate in
    go (is_valid_ip_configuration r spec.ips spec.ip_families) ips rates
  where
    go :
        {A B : Type 0} (c : Result (Unit {0}))
        → (c ≡ ok tt) ↔ A
        → (is_valid_metering_params spec.metering_rate ≡ ok tt) ↔ B
        → ((elim c [
          | ok a ↦ is_valid_metering_params spec.metering_rate
          | err e ↦ err e
          | panic p ↦ panic p
        ])
            ≡ ok tt)
          ↔ (A × B)
    go (ok a) p q = (λ h. (p.0 refl, q.0 h), λ h. q.1 h.1)
    go (err e) p q = (λ h. cc, λ h. absurd (cc (p.1 h.0)))
    go (panic e) p q = (λ h. cc, λ h. absurd (cc (p.1 h.0)))

-- The first place where the list has the family.
abbrev pub IsFirst : IpFamily → List IpFamily → ℕ → Type 0
IsFirst f fs i = (get_elem? fs i ≡ some f) × ((j : ℕ) → j < i → get_elem? fs j ≢ some f)

get_elem?-length : {A : Type 0} (xs : List A) (i : ℕ) → (get_elem? xs i ≡ none) ↔ (length xs ≤ i)
get_elem?-length [] i = (λ h. omega arith, λ h. refl)
get_elem?-length (x ∷ xs) zero = (λ h. cc, λ h. absurd (omega (arith, h)))
get_elem?-length (x ∷ xs) (suc i) =
    let (a, b) = get_elem?-length xs i in (λ h. omega (arith, a h), λ h. b (omega (arith, h)))

ip_at-panics :
    (ips : List Addr) (i : ℕ) → (ip_at ips i ≡ panic "index out of range") ↔ (length ips ≤ i)
unfolding ip_at
ip_at-panics ips i =
    let (a, b) = get_elem?-length ips i in
    elim (Option-cases (get_elem? ips i)) [
      | inl n ↦ rw (ip_at, n) (λ h. a n, λ h. refl)
      | inr (x, e) ↦ rw (ip_at, e) (λ h. cc, λ h. absurd (cc (b h, e)))
    ]

get_ip_from-panics :
    (k : ℕ) (f : IpFamily) (fs : List IpFamily) (ips : List Addr)
    → (get_ip_from k f fs ips ≡ panic "index out of range")
      ↔ ((i : ℕ) × IsFirst f fs i × (length ips ≤ k + i))
unfolding get_ip_from
get_ip_from-panics k f [] ips = (λ h. cc, λ h. absurd (cc h.1.0))
get_ip_from-panics k f (g ∷ fs) ips = elim (Bool-cases (f == g)) [
  | inl p ↦
      let same : g ≡ f = cc (beq-eq f g p) in
      let (a, b) = ip_at-panics ips k in
      let none_before : (j : ℕ) → j < 0 → get_elem? (g ∷ fs) j ≢ some f =
        λ j l q. absurd (omega (arith, l)) in
      rw p (
        λ h. (0, (cc same, none_before), omega (arith, a h)),
        λ (i, (e, first), l). b (at_front same i first l),
      )
  | inr p ↦
      let (a, b) = get_ip_from-panics (suc k) f fs ips in
      rw p (
        λ h. let (i, (e, first), l) = a h in (suc i, (e, later p i first), omega (arith, l)),
        λ (i, (e, first), l). b (behind p i e first l),
      )
]
  where
    at_front :
        g ≡ f
        → (i : ℕ) → ((j : ℕ) → j < i → get_elem? (g ∷ fs) j ≢ some f)
        → length ips ≤ k + i
        → length ips ≤ k
    at_front same zero first l = omega (arith, l)
    at_front same (suc i) first l = absurd (first 0 (omega arith) (cc same))

    later :
        family_beq f g ≡ false
        → (i : ℕ) → ((j : ℕ) → j < i → get_elem? fs j ≢ some f)
        → (j : ℕ) → j < suc i
        → get_elem? (g ∷ fs) j ≢ some f
    later p i first zero l q = cc (p, q, beq_refl f)
    later p i first (suc j) l q = first j (omega (arith, l)) q

    behind :
        family_beq f g ≡ false
        → (i : ℕ) → get_elem? (g ∷ fs) i ≡ some f
        → ((j : ℕ) → j < i → get_elem? (g ∷ fs) j ≢ some f)
        → length ips ≤ k + i
        → (i : ℕ) × IsFirst f fs i × (length ips ≤ suc k + i)
    behind p zero e first l = absurd (cc (p, e, beq_refl f))
    behind p (suc i) e first l = (i, (e, λ j m. first (suc j) (omega (arith, m))), omega (arith, l))

-- getIP panics exactly if the first place of the family in the list of families is beyond the
-- addresses.
pub get_ip-panics_iff :
    (f : IpFamily) (fs : List IpFamily) (ips : List Addr)
    → (get_ip f fs ips ≡ panic "index out of range") ↔ ((i : ℕ) × IsFirst f fs i × (length ips ≤ i))
unfolding get_ip
get_ip-panics_iff f fs ips =
    let (a, b) = get_ip_from-panics 0 f fs ips in
    (λ h. let (i, e, l) = a h in (i, e, omega (arith, l)), λ (i, e, l). b (i, e, omega (arith, l)))
