-- ===== src/NetFns/Discovery.antt =====
-- netfns/netfns.go: what CollectVirtualFunctions finds.
use metalnet.Base.{
  ◌≡◌, ◌≢◌, refl, sym, ◌∙◌, ap, subst, ◌↔◌, ◌⊎◌, inl, inr, Bool, true, Option, some, String, List,
  [], ◌∷◌, ◌==◌, string_eq, nat_eq, Bool-cases, All,
}
use metalnet.Base.Result.{Err, Result, ok, err}
use metalnet.Api.{PciAddress}
use metalnet.Sysfs.{Sriov, SysFs}
use metalnet.NetFns.{Ghw}
use metalnet.NetFns.Shares.{ok_injective}
use metalnet.NetFns.Collecting.{
  PciDevice, join, addresses_of, after_sriov, after_device, after_parse, is_card, functions_of,
  collect, collect_virtual_functions,
}

-- One of the elements has the property.
abbrev pub Any : {A : Type 0} → (A → Type 0) → List A → Type 0
Any P [] = ⊥
Any P (x ∷ xs) = P x ⊎ Any P xs

Any-join :
    {A : Type 0} (P : A → Type 0) (xs ys : List A) → Any P (join xs ys) ↔ (Any P xs ⊎ Any P ys)
Any-join P [] ys = (λ h. inr h, λ h. elim h [ inl n ↦ absurd n | inr k ↦ k ])
Any-join P (x ∷ xs) ys =
    let (to, from) = Any-join P xs ys in
    (
      λ h. elim h [
        | inl p ↦ inl (inl p)
        | inr q ↦ elim (to q) [ inl l ↦ inl (inr l) | inr r ↦ inr r ]
      ],
      λ h. elim h [
        | inl s ↦ elim s [ inl p ↦ inl p | inr l ↦ inr (from (inl l)) ]
        | inr r ↦ inr (from (inr r))
      ],
    )

module _ (ghw : Ghw) (fs : SysFs) (is_not_exist : Err → Bool) where
  -- One of the links leads to the address.
  abbrev pub Linked : List String → PciAddress → Type 0
  Linked vs a = Any (λ v. fs.address v ≡ ok a) vs

  -- The device has virtual functions, and one of them has the address.
  abbrev pub FromSriov : String → Result Sriov → PciAddress → Type 0
  FromSriov d x a =
      (s : Sriov) × (x ≡ ok s)
      × (s.num_vfs ≢ 0)
      × ((vs : List String) × (fs.virtfns d ≡ ok vs) × Linked vs a)

  abbrev pub FromDevice : Result String → PciAddress → Type 0
  FromDevice y a = (d : String) × (y ≡ ok d) × FromSriov d (fs.sriov d) a

  abbrev pub FromParse : Option PciAddress → PciAddress → Type 0
  FromParse z a = (p : PciAddress) × (z ≡ some p) × FromDevice (fs.pci_device p) a

  -- The device is a card, and the address is that of one of its virtual functions.
  abbrev pub HasFunction : PciDevice → PciAddress → Type 0
  HasFunction dev a =
      (is_card ghw fs is_not_exist dev ≡ true) × FromParse (ghw.from_string dev.address) a

  -- The addresses are those for which the property holds.
  abbrev pub Lists : List PciAddress → (PciAddress → Type 0) → Type 0
  Lists addrs P = (a : PciAddress) → Any (λ x. x ≡ a) addrs ↔ P a

  -- Sysfs does not have the device or its SR-IOV files; or it has no virtual functions; or all of
  -- them can be read.
  abbrev pub ReadsSriov : String → Result Sriov → Type 0
  ReadsSriov d x =
      ((e : Err) × (x ≡ err e) × (is_not_exist e ≡ true))
      ⊎ ((s : Sriov) × (x ≡ ok s)
          × ((s.num_vfs ≡ 0)
              ⊎ ((s.num_vfs ≢ 0)
                  × ((vs : List String) × (fs.virtfns d ≡ ok vs)
                      × All (λ v. (a : PciAddress) × (fs.address v ≡ ok a)) vs))))

  abbrev pub ReadsDevice : Result String → Type 0
  ReadsDevice y =
      ((e : Err) × (y ≡ err e) × (is_not_exist e ≡ true))
      ⊎ ((d : String) × (y ≡ ok d) × ReadsSriov d (fs.sriov d))

  -- If the device is a card, its address can be parsed and its functions can be read.
  abbrev pub IsReadable : PciDevice → Type 0
  IsReadable dev =
      is_card ghw fs is_not_exist dev ≡ true
      → (p : PciAddress) × (ghw.from_string dev.address ≡ some p) × ReadsDevice (fs.pci_device p)

  -- The result is a list of exactly the addresses for which the property holds.
  abbrev pub Finds : Result (List PciAddress) → (PciAddress → Type 0) → Type 0
  Finds r P = (addrs : List PciAddress) × (r ≡ ok addrs) × Lists addrs P

  nothing : (P : PciAddress → Type 0) → ((a : PciAddress) → P a → ⊥) → Finds (ok []) P
  nothing P n = ([], refl, λ a. (λ h. absurd h, n a))

  addresses_of-Finds :
      (vs : List String)
      → All (λ v. (a : PciAddress) × (fs.address v ≡ ok a)) vs
      → Finds (addresses_of ghw fs is_not_exist vs) (Linked vs)
  unfolding addresses_of
  addresses_of-Finds [] h = nothing (Linked []) (λ a n. n)
  addresses_of-Finds (v ∷ vs) ((b, p), h) =
      let (more, q, l) = addresses_of-Finds vs h in
      (
        b ∷ more,
        rw (p, q) refl,
        λ a. (
          λ x. elim x [ inl e ↦ inl (p ∙ ap ok e) | inr m ↦ inr ((l a).0 m) ],
          λ y. elim y [ inl e ↦ inl (ok_injective (sym p ∙ e)) | inr m ↦ inr ((l a).1 m) ],
        ),
      )

  after_sriov-Finds :
      (dev : PciDevice) (d : String) (x : Result Sriov)
      → ReadsSriov d x
      → Finds (after_sriov ghw fs is_not_exist dev d x) (FromSriov d x)
  unfolding after_sriov
  after_sriov-Finds dev d x (inl (e, p, n)) =
      rw (p, n) (nothing (FromSriov d (err e)) (λ a (s, q, _, _). absurd (cc q)))
  after_sriov-Finds dev d x (inr (s, p, inl z)) =
      rw (p, z) (nothing _ (λ a (t, q, n, _). n (sym (ap (λ u. u.num_vfs) (ok_injective q)))))
  after_sriov-Finds dev d x (inr (s, p, inr (n, (vs, q, h)))) =
      let (addrs, e, l) = addresses_of-Finds vs h in
      elim (Bool-cases (s.num_vfs == 0)) [
        | inl z ↦ absurd (n ((nat_eq.beq_iff s.num_vfs 0).0 z))
        | inr z ↦
            rw (p, z, q)
              (
                addrs,
                e,
                λ a. (
                  λ m. (s, refl, n, (vs, refl, (l a).0 m)),
                  λ (t, _, _, (ws, k, m)).
                      (l a).1 (subst (λ us. Linked us a) (ok_injective (sym k)) m),
                ),
              )
      ]

  after_device-Finds :
      (dev : PciDevice) (addr : PciAddress) (y : Result String)
      → ReadsDevice y
      → Finds (after_device ghw fs is_not_exist dev addr y) (FromDevice y)
  unfolding after_device
  after_device-Finds dev addr y (inl (e, p, n)) =
      rw (p, n) (nothing (FromDevice (err e)) (λ a (d, q, _). absurd (cc q)))
  after_device-Finds dev addr y (inr (d, p, h)) =
      let (addrs, e, l) = after_sriov-Finds dev d (fs.sriov d) h in
      rw p (
        addrs,
        e,
        λ a. (
          λ m. (d, refl, (l a).0 m),
          λ (c, q, m). (l a).1 (subst (λ b. FromSriov b (fs.sriov b) a) (sym (ok_injective q)) m),
        ),
      )

  functions_of-Finds :
      (dev : PciDevice)
      → IsReadable dev
      → Finds (functions_of ghw fs is_not_exist dev) (HasFunction dev)
  unfolding functions_of after_parse
  functions_of-Finds dev h = elim (Bool-cases (is_card ghw fs is_not_exist dev)) [
    | inr n ↦ rw n (nothing _ (λ a (y, _). absurd (cc y)))
    | inl y ↦
        let (p, q, k) = h y in
        let (addrs, e, l) = after_device-Finds dev p (fs.pci_device p) k in
        rw (y, q)
          (
            addrs,
            e,
            λ a. (
              λ m. (refl, (p, refl, (l a).0 m)),
              λ (_, (b, t, m)). (l a).1 (subst (λ c. FromDevice (fs.pci_device c) a) (cc t) m),
            ),
          )
  ]

  collect-Finds :
      (devs : List PciDevice)
      → All IsReadable devs
      → Finds (collect ghw fs is_not_exist devs) (λ a. Any (λ dev. HasFunction dev a) devs)
  unfolding collect
  collect-Finds [] h = nothing _ (λ a n. n)
  collect-Finds (dev ∷ devs) (h, hs) =
      let (xs, e, l) = functions_of-Finds dev h in
      let (ys, k, m) = collect-Finds devs hs in
      (
        join xs ys,
        rw (e, k) refl,
        λ a. (
          λ o. elim ((Any-join (λ x. x ≡ a) xs ys).0 o) [
            | inl i ↦ inl ((l a).0 i)
            | inr i ↦ inr ((m a).0 i)
          ],
          λ o.
              (Any-join (λ x. x ≡ a) xs ys).1
                (elim o [ inl i ↦ inl ((l a).1 i) | inr i ↦ inr ((m a).1 i) ]),
        ),
      )

  -- If every Mellanox network card that ghw lists has an address that can be parsed, and sysfs
  -- either does not have it, or shows that it has no virtual functions, or lets all of them be read:
  -- CollectVirtualFunctions returns nil, and an address is in its result exactly if it is that of a
  -- virtual function of such a card.
  pub collect_virtual_functions-Finds :
      (devs : List PciDevice)
      → All IsReadable devs
      → Finds
          (collect_virtual_functions ghw fs is_not_exist (ok devs))
          (λ a. Any (λ dev. HasFunction dev a) devs)
  unfolding collect_virtual_functions
  collect_virtual_functions-Finds = collect-Finds
