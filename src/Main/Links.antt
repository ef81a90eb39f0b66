-- ===== src/Main/Links.antt =====
-- The links of a host after what the end of an instance asks of the kernel (src/general.rs).
use failover.Base.{
  ℕ, ◌≡◌, refl, sym, subst, true, ◌==◌, ==_iff, inl, inr, List, [], ◌∷◌, ◌++◌, map, none, Str,
  str_eq, All, arith, if◌then◌else◌, Bool-cases,
}
use failover.Net.{NetworkInterface}
use failover.Crates.Ipnet.{Ipnet}
use failover.Router.{Effect, remove_mac_vlan}
use failover.Observer.{find_interface}
use failover.General.MacVlan.{Request, delete_link}
use failover.General.Kernel.Takeover.{requests-append}
use failover.General.Kernel.{Netlink, requests_of, requests_of_all, delete_mac_vlan}

-- The links of the host: the index of each, and what pnet lists of it.
abbrev pub Links : Type 0
Links = List (ℕ × NetworkInterface)

abbrev pub interfaces_of : Links → List NetworkInterface
interfaces_of links = map (λ (link : ℕ × NetworkInterface). link.1) links

abbrev pub without_index : ℕ → Links → Links
without_index index [] = []
without_index index (link ∷ links) =
    let rest = without_index index links in if link.0 == index then rest else link ∷ rest

-- The kernel deletes the links that it is asked to delete; no other request takes one away.
abbrev pub carry_out : List Request → Links → Links
carry_out [] links = links
carry_out (delete_link index ∷ requests) links = carry_out requests (without_index index links)
carry_out (_ ∷ requests) links = carry_out requests links

-- Every link of that name has that index.
abbrev pub IsIndexed : Str → ℕ → Links → Type 0
IsIndexed name index links =
    All (λ (link : ℕ × NetworkInterface). str_eq link.1.name name ≡ true → link.0 ≡ index) links

-- No interface of that name is listed any more.
abbrev pub IsGone : Str → Links → Type 0
IsGone name links = find_interface (interfaces_of links) name ≡ none

carry_out-append :
    (xs ys : List Request) (links : Links)
    → carry_out (xs ++ ys) links ≡ carry_out ys (carry_out xs links)
carry_out-append [] ys links = refl
carry_out-append (Request.add_mac_vlan name parent mac ∷ xs) ys links = carry_out-append xs ys links
carry_out-append (Request.write_arp_ignore name ∷ xs) ys links = carry_out-append xs ys links
carry_out-append (Request.add_address index net ∷ xs) ys links = carry_out-append xs ys links
carry_out-append (Request.delete_address index net ∷ xs) ys links = carry_out-append xs ys links
carry_out-append (delete_link index ∷ xs) ys links =
    carry_out-append xs ys (without_index index links)

-- What deleting a link keeps, any requests keep.
carry_out_keeps {ℓ} :
    (P : Links → Type ℓ)
    → ((index : ℕ) (links : Links) → P links → P (without_index index links))
    → (requests : List Request) (links : Links) → P links
    → P (carry_out requests links)
carry_out_keeps P keeps [] links h = h
carry_out_keeps P keeps (Request.add_mac_vlan name parent mac ∷ xs) links h =
    carry_out_keeps P keeps xs links h
carry_out_keeps P keeps (Request.write_arp_ignore name ∷ xs) links h =
    carry_out_keeps P keeps xs links h
carry_out_keeps P keeps (Request.add_address index net ∷ xs) links h =
    carry_out_keeps P keeps xs links h
carry_out_keeps P keeps (Request.delete_address index net ∷ xs) links h =
    carry_out_keeps P keeps xs links h
carry_out_keeps P keeps (delete_link index ∷ xs) links h =
    carry_out_keeps P keeps xs (without_index index links) (keeps index links h)

without_index-IsIndexed :
    (name : Str) (index k : ℕ) (links : Links)
    → IsIndexed name index links
    → IsIndexed name index (without_index k links)
without_index-IsIndexed name index k [] h = tt
without_index-IsIndexed name index k (link ∷ links) h = elim (Bool-cases (link.0 == k)) [
  | inl hit ↦ rw hit (without_index-IsIndexed name index k links h.1)
  | inr miss ↦ rw miss (h.0, without_index-IsIndexed name index k links h.1)
]

IsGone-without_index :
    (name : Str) (k : ℕ) (links : Links) → IsGone name links → IsGone name (without_index k links)
unfolding find_interface
IsGone-without_index name k [] h = refl
IsGone-without_index name k (link ∷ links) h = elim (Bool-cases (str_eq link.1.name name)) [
  | inl named ↦ ground (arith, named)
  | inr other ↦
      let rest = IsGone-without_index name k links (ground (arith, other, h)) in
      ground (arith, other, rest)
]

without_index-IsGone :
    (name : Str) (index : ℕ) (links : Links)
    → IsIndexed name index links
    → IsGone name (without_index index links)
unfolding find_interface
without_index-IsGone name index [] h = refl
without_index-IsGone name index (link ∷ links) h =
    let rest = without_index-IsGone name index links h.1 in
    elim (Bool-cases (str_eq link.1.name name)) [
      | inl named ↦ rw ((==_iff link.0 index).1 (h.0 named)) rest
      | inr other ↦ ground (arith, other, rest)
    ]

module _ (n : Ipnet) (netlink : Netlink) where
  -- A removal of a mac-vlan that deletes its link, among other effects.
  pub removal-IsGone :
      (name : Str) (index : ℕ) (earlier rest : List Effect) (links : Links)
      → delete_mac_vlan n netlink name ≡ delete_link index ∷ []
      → IsIndexed name index links
      → IsGone name
          (carry_out (requests_of_all n netlink (earlier ++ (remove_mac_vlan name ∷ rest))) links)
  unfolding requests_of_all requests_of
  removal-IsGone name index earlier rest links deletes indexed =
      let after = carry_out (requests_of_all n netlink earlier) links in
      let still =
        carry_out_keeps (IsIndexed name index)
          (λ k links. without_index-IsIndexed name index k links)
          (requests_of_all n netlink earlier) links indexed in
      subst (λ requests. IsGone name (carry_out requests links))
        (sym (requests-append n netlink earlier (remove_mac_vlan name ∷ rest)))
        (subst (IsGone name) (sym (carry_out-append (requests_of_all n netlink earlier) _ links)) (
          rw deletes (
            carry_out_keeps (IsGone name) (λ k links. IsGone-without_index name k links)
              (requests_of_all n netlink rest) (without_index index after)
              (without_index-IsGone name index after still))))
