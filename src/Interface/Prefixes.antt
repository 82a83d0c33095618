-- ===== src/Interface/Prefixes.antt =====
-- The rounds of reconcilePrefixes.
use metalnet.Base.{
  ℕ, ◌≡◌, refl, Bool, ◌&&◌, ◌||◌, String, List, [], ◌∷◌, length, ltb, if◌then◌else◌, ◌==◌,
  string_eq, beq_refl,
}
use metalnet.Base.Sets.{has, insert, delete, of_list-Distinct}
use metalnet.Base.Result.{ok}
use metalnet.Netip.{Addr, addr_eq, Prefix, prefix_eq, prefix_string}
use metalnet.Api.{NetworkInterface}
use metalnet.Effects.{Env, Call, World, call, list_prefixes, create_prefix, delete_prefix}
use metalnet.Wire.{DpdkPrefix}
use metalnet.Metalbond.RouteUtil.{announce, withdraw}
use metalnet.Interface.Spec.{NetworkInterfaceReconciler}
use metalnet.Interface.Routes.{add_prefix_route_if_not_exists, remove_prefix_route_if_exists}
use metalnet.Interface.Parts.{
  label_prefix, get_underlay_route_from_prefixes_list, dpdk_set, spec_set,
  delete_dpdk_prefix_if_exists, turn_prefix, reconcile_prefixes,
}
use metalnet.Interface.Visits.{
  Asks, Asks-deref, Asks-call, Asks-unless_ignored, Asks-context, Asks-bind, Asks-if, Asks-either,
  Asks-same, Asks-raise,
}
use metalnet.Interface.Turns.{turn}
use metalnet.Interface.Rounds.{Leaves, Shows, handler-Leaves, handler-settles}

-- What a call asks of the alias prefixes that dp-service holds for the interface `uid`.
unfoldable pub prefix_change : String → Call → List Prefix → List Prefix
prefix_change uid (create_prefix u p) s = if u == uid then insert p s else s
prefix_change uid (delete_prefix u p cs) s = if u == uid then delete p s else s
prefix_change uid _ s = s

pub look_up-Asks :
    (change : Call → List Prefix → List Prefix) (items : List DpdkPrefix) (p : Prefix)
    → Asks change (get_underlay_route_from_prefixes_list items p) (λ s. s)
unfolding get_underlay_route_from_prefixes_list
look_up-Asks change [] p = Asks-raise change _
look_up-Asks change (i ∷ items) p =
    Asks-either change (i.prefix.addr == p.addr) _ _ _ (Asks-deref change i.underlay_route)
      (look_up-Asks change items p)

module _ (env : Env) (r : NetworkInterfaceReconciler) (uid : String) (vni : ℕ) where
  add_route-Asks :
      (p : Prefix) (u : Addr)
      → Asks (prefix_change uid) (add_prefix_route_if_not_exists env r vni p u) (λ s. s)
  unfolding add_prefix_route_if_not_exists prefix_change announce call
  add_route-Asks p u = Asks-unless_ignored (prefix_change uid) env _ _ _ _ (λ w. refl)

  remove_route-Asks :
      (p : Prefix) (u : Addr)
      → Asks (prefix_change uid) (remove_prefix_route_if_exists env r vni p u) (λ s. s)
  unfolding remove_prefix_route_if_exists prefix_change withdraw call
  remove_route-Asks p u = Asks-unless_ignored (prefix_change uid) env _ _ _ _ (λ w. refl)

  delete-Asks :
      (p : Prefix) → Asks (prefix_change uid) (delete_dpdk_prefix_if_exists env uid p) (delete p)
  unfolding delete_dpdk_prefix_if_exists prefix_change
  delete-Asks p =
      Asks-same (prefix_change uid) _ _ _ (λ s. rw (beq_refl uid) refl)
        (Asks-context (prefix_change uid) _ _ _
          (Asks-call (prefix_change uid) env (delete_prefix uid p _)))

  create-Asks : (p : Prefix) → Asks (prefix_change uid) (call env (create_prefix uid p)) (insert p)
  unfolding prefix_change
  create-Asks p =
      Asks-same (prefix_change uid) _ _ _ (λ s. rw (beq_refl uid) refl)
        (Asks-call (prefix_change uid) env (create_prefix uid p))

  turn_prefix-Asks :
      (items : List DpdkPrefix) (spec : List Prefix) (p : Prefix)
      → Asks
          (prefix_change uid)
          (turn_prefix env r uid vni items spec p)
          (turn (dpdk_set items) spec p)
  unfolding turn_prefix turn
  turn_prefix-Asks items spec p =
      Asks-if (prefix_change uid) _ _ _ _ _
        (Asks-bind (prefix_change uid) _ _ _ _ (look_up-Asks (prefix_change uid) items p)
          (λ u. Asks-bind (prefix_change uid) _ _ _ _ (remove_route-Asks p u) (λ _. delete-Asks p)))
        (Asks-if (prefix_change uid) _ _ _ _ _
          (Asks-bind (prefix_change uid) _ _ (insert p) _ (create-Asks p) (λ c.
            Asks-bind (prefix_change uid) _ _ _ _ (Asks-deref (prefix_change uid) c.underlay_route)
              (λ u. add_route-Asks p u)))
          (Asks-bind (prefix_change uid) _ _ _ _ (look_up-Asks (prefix_change uid) items p)
            (λ u. add_route-Asks p u)))

module _ (env : Env) (r : NetworkInterfaceReconciler) (vni : ℕ) (nic : NetworkInterface) where
  abbrev pub listing : Call
  listing = list_prefixes nic.meta.uid

  -- The set that the calls ask for, from the one that is listed.
  abbrev pub PrefixesLeft : List DpdkPrefix → (Prefix → Bool) → World → World → Type 0
  PrefixesLeft = Leaves (prefix_change nic.meta.uid) env listing dpdk_set

  -- The last world lists what the calls of the first run have left.
  abbrev pub PrefixesShown : List DpdkPrefix → List Call → World → World → World → Type 0
  PrefixesShown = Shows (prefix_change nic.meta.uid) env listing dpdk_set

  -- If reconcilePrefixes returns nil, it has listed the prefixes of the interface once and made
  -- calls that, each doing what it asks for, leave dp-service with the prefixes that it listed or
  -- that are specified, if it listed fewer than are specified, and else with those that it listed
  -- and that are specified. Of the specified prefixes only those of IPv4 count.
  pub reconcile_prefixes-leaves :
      (w : World)
      → (reconcile_prefixes env r vni nic w).0 ≡ ok tt
      → (items : List DpdkPrefix) × PrefixesLeft items
          (λ p.
            if ltb (length (dpdk_set items)) (length (spec_set nic))
            then has (dpdk_set items) p || has (spec_set nic) p
            else has (dpdk_set items) p && has (spec_set nic) p)
          w
          (reconcile_prefixes env r vni nic w).1
  unfolding reconcile_prefixes
  reconcile_prefixes-leaves w h =
      handler-Leaves (prefix_change nic.meta.uid) env listing dpdk_set prefix_string
        "error listing alias prefixes: " (spec_set nic)
        (λ i. turn_prefix env r nic.meta.uid vni i (spec_set nic)) label_prefix
        "error(s) reconciling prefix(es): "
        (λ i. turn_prefix-Asks env r nic.meta.uid vni i (spec_set nic)) w h

  -- If reconcilePrefixes returns nil twice, and the second time dp-service lists the prefixes that
  -- the calls of the first run left, then the second run leaves exactly the specified ones of
  -- IPv4: two runs are enough, from any set of prefixes.
  pub reconcile_prefixes-settles :
      (w v : World) (first : List DpdkPrefix) (cs : List Call)
      → (reconcile_prefixes env r vni nic w).0 ≡ ok tt
      → (reconcile_prefixes env r vni nic v).0 ≡ ok tt
      → PrefixesShown first cs w (reconcile_prefixes env r vni nic w).1 v
      → (items : List DpdkPrefix) × PrefixesLeft items
          (has (spec_set nic))
          v
          (reconcile_prefixes env r vni nic v).1
  unfolding reconcile_prefixes dpdk_set spec_set
  reconcile_prefixes-settles w v first cs h k shown =
      handler-settles (prefix_change nic.meta.uid) env listing dpdk_set prefix_string
        "error listing alias prefixes: " (spec_set nic)
        (λ i. turn_prefix env r nic.meta.uid vni i (spec_set nic)) label_prefix
        "error(s) reconciling prefix(es): "
        (λ i. turn_prefix-Asks env r nic.meta.uid vni i (spec_set nic)) w v first cs
        (λ i. of_list-Distinct _) (of_list-Distinct _) h k shown
