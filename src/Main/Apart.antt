-- ===== src/Main/Apart.antt =====
-- The instances that the program (src/bin/failover.rs) starts do not meet on a mac-vlan.
use failover.Base.{◌≡◌, ◌≢◌, ◌<◌, sym, ap, ◌∙◌, subst, List, [], ◌∷◌, ◌++◌, map, Str, All}
use failover.Crates.Ipnet.{Ipnet}
use failover.Router.{VirtualRouter}
use failover.Config.{Config}
use failover.Config.Valid.{AreApart, AreValid}
use failover.Config.Load.{Os, Mode, Files}
use failover.General.{AddressFamily, config_to_vr, mac_vlan_name}
use failover.General.Names.{mac_vlan_name-inj}
use failover.Main.{spawns, main}
use failover.Main.Started.{All-append_self, main-AreValid}

-- Two routers have different VRIDs, unless their versions differ.
abbrev Differ : VirtualRouter → VirtualRouter → Type 0
Differ va vb = vb.version ≡ va.version → vb.vrid ≢ va.vrid

abbrev AllDiffer : List VirtualRouter → Type 0
AllDiffer [] = Unit {0}
AllDiffer (vr ∷ vrs) = All (Differ vr) vrs × AllDiffer vrs

AllDiffer-pair :
    (before between after : List VirtualRouter) (va vb : VirtualRouter)
    → AllDiffer (before ++ va ∷ between ++ vb ∷ after)
    → Differ va vb
AllDiffer-pair [] between after va vb h = All-append_self (Differ va) between after vb h.0
AllDiffer-pair (x ∷ before) between after va vb h = AllDiffer-pair before between after va vb h.1

module _ (n : Ipnet) where
  config_to_vr-Differ :
      (conf other : Config)
      → AreApart conf other
      → Differ (config_to_vr n conf) (config_to_vr n other)
  unfolding config_to_vr
  config_to_vr-Differ conf other h = λ same. (h same).1

  All-Differ :
      (conf : Config) (configs : List Config)
      → All (AreApart conf) configs
      → All (Differ (config_to_vr n conf)) (map (config_to_vr n) configs)
  All-Differ conf [] h = tt
  All-Differ conf (other ∷ configs) h =
      (config_to_vr-Differ conf other h.0, All-Differ conf configs h.1)

  AreValid-AllDiffer :
      (configs : List Config) → AreValid n configs → AllDiffer (map (config_to_vr n) configs)
  AreValid-AllDiffer [] h = tt
  AreValid-AllDiffer (conf ∷ configs) h =
      (All-Differ conf configs h.1, AreValid-AllDiffer configs h.2)

  main-AllDiffer :
      (os : Os) (mode : Mode) (files : Files) (vrs : List VirtualRouter)
      → main n os mode files ≡ spawns vrs
      → AllDiffer vrs
  main-AllDiffer os mode files vrs h =
      let (configs, valid, same) = main-AreValid n os mode files vrs h in
      subst AllDiffer same (AreValid-AllDiffer configs valid)

  -- Of the routers that the program starts, in whichever mode, two of one version on one parent
  -- interface, with VRIDs that fit their type, have different mac-vlans in each family.
  pub main-own_mac_vlan :
      (os : Os) (mode : Mode) (files : Files) (before between after : List VirtualRouter)
      (va vb : VirtualRouter) (family : AddressFamily)
      → main n os mode files ≡ spawns (before ++ va ∷ between ++ vb ∷ after)
      → vb.version ≡ va.version
      → vb.network_interface ≡ va.network_interface
      → va.vrid < 256
      → vb.vrid < 256
      → mac_vlan_name vb.network_interface vb.vrid family
        ≢ mac_vlan_name va.network_interface va.vrid family
  main-own_mac_vlan os mode files before between after va vb family started version parent fits_a
        fits_b same =
      AllDiffer-pair before between after va vb
        (main-AllDiffer os mode files (before ++ va ∷ between ++ vb ∷ after) started) version
        (mac_vlan_name-inj va.network_interface vb.vrid va.vrid family family fits_b fits_a
          (ap (λ (p : Str). mac_vlan_name p vb.vrid family) (sym parent) ∙ same)).0
