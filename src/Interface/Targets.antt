-- ===== src/Interface/Targets.antt =====
-- The rounds of reconcileLBTargets.
use metalnet.Base.{ℕ, ◌≡◌, refl, Bool, String, List, if◌then◌else◌, ◌==◌, string_eq, beq_refl}
use metalnet.Base.Sets.{has, insert, delete, of_list-Distinct}
use metalnet.Base.Result.{ok}
use metalnet.Netip.{Addr, addr_eq, Prefix, prefix_eq, prefix_string}
use metalnet.Api.{NetworkInterface}
use metalnet.Effects.{Env, Call, World, call, list_lb_prefixes, create_lb_prefix, delete_lb_prefix}
use metalnet.Wire.{DpdkPrefix}
use metalnet.Metalbond.RouteUtil.{announce, withdraw}
use metalnet.Interface.Spec.{NetworkInterfaceReconciler}
use metalnet.Interface.Routes.{add_lb_target_route_if_not_exists, remove_lb_target_route_if_exists}
use metalnet.Interface.Parts.{
  label_target, dpdk_set, spec_targets, delete_dpdk_lb_target_if_exists, turn_target,
  reconcile_lb_targets,
}
use metalnet.Interface.Visits.{
  Asks, Asks-deref, Asks-call, Asks-unless_ignored, Asks-context, Asks-bind, Asks-if, Asks-same,
}
use metalnet.Interface.Turns.{turn}
use metalnet.Interface.Prefixes.{look_up-Asks}
use metalnet.Interface.Rounds.{Leaves, Shows, handler-settles}

-- What a call asks of the load balancer targets that dp-service holds for the interface `uid`.
unfoldable pub target_change : String → Call → List Prefix → List Prefix
target_change uid (create_lb_prefix u p) s = if u == uid then insert p s else s
target_change uid (delete_lb_prefix u p cs) s = if u == uid then delete p s else s
target_change uid _ s = s

module _ (env : Env) (r : NetworkInterfaceReconciler) (uid : String) (vni : ℕ) where
  add_route-Asks :
      (p : Prefix) (u : Addr)
      → Asks (target_change uid) (add_lb_target_route_if_not_exists env r vni p u) (λ s. s)
  unfolding add_lb_target_route_if_not_exists target_change announce call
  add_route-Asks p u = Asks-unless_ignored (target_change uid) env _ _ _ _ (λ w. refl)

  remove_route-Asks :
      (p : Prefix) (u : Addr)
      → Asks (target_change uid) (remove_lb_target_route_if_exists env r vni p u) (λ s. s)
  unfolding remove_lb_target_route_if_exists target_change withdraw call
  remove_route-Asks p u = Asks-unless_ignored (target_change uid) env _ _ _ _ (λ w. refl)

  delete-Asks :
      (p : Prefix) → Asks (target_change uid) (delete_dpdk_lb_target_if_exists env uid p) (delete p)
  unfolding delete_dpdk_lb_target_if_exists target_change
  delete-Asks p =
      Asks-same (target_change uid) _ _ _ (λ s. rw (beq_refl uid) refl)
        (Asks-context (target_change uid) _ _ _
          (Asks-call (target_change uid) env (delete_lb_prefix uid p _)))

  create-Asks :
      (p : Prefix) → Asks (target_change uid) (call env (create_lb_prefix uid p)) (insert p)
  unfolding target_change
  create-Asks p =
      Asks-same (target_change uid) _ _ _ (λ s. rw (beq_refl uid) refl)
        (Asks-call (target_change uid) env (create_lb_prefix uid p))

  turn_target-Asks :
      (items : List DpdkPrefix) (spec : List Prefix) (p : Prefix)
      → Asks
          (target_change uid)
          (turn_target env r uid vni items spec p)
          (turn (dpdk_set items) spec p)
  unfolding turn_target turn
  turn_target-Asks items spec p =
      Asks-if (target_change uid) _ _ _ _ _
        (Asks-bind (target_change uid) _ _ _ _ (look_up-Asks (target_change uid) items p)
          (λ u. Asks-bind (target_change uid) _ _ _ _ (remove_route-Asks p u) (λ _. delete-Asks p)))
        (Asks-if (target_change uid) _ _ _ _ _
          (Asks-bind (target_change uid) _ _ (insert p) _ (create-Asks p) (λ c.
            Asks-bind (target_change uid) _ _ _ _ (Asks-deref (target_change uid) c.underlay_route)
              (λ u. add_route-Asks p u)))
          (Asks-bind (target_change uid) _ _ _ _ (look_up-Asks (target_change uid) items p) (λ u.
            Asks-bind (target_change uid) _ _ _ _ (remove_route-Asks p u)
              (λ _. add_route-Asks p u))))

module _ (env : Env) (r : NetworkInterfaceReconciler) (vni : ℕ) (nic : NetworkInterface) where
  abbrev pub listing : Call
  listing = list_lb_prefixes nic.meta.uid

  -- The set that the calls ask for, from the one that is listed.
  abbrev pub TargetsLeft : List DpdkPrefix → (Prefix → Bool) → World → World → Type 0
  TargetsLeft = Leaves (target_change nic.meta.uid) env listing dpdk_set

  -- The last world lists what the calls of the first run have left.
  abbrev pub TargetsShown : List DpdkPrefix → List Call → World → World → World → Type 0
  TargetsShown = Shows (target_change nic.meta.uid) env listing dpdk_set

  -- If reconcileLBTargets returns nil twice, and the second time dp-service lists the targets that
  -- the calls of the first run left, then the second run leaves exactly the specified ones: two
  -- runs are enough, from any set of targets.
  pub reconcile_lb_targets-settles :
      (w v : World) (first : List DpdkPrefix) (cs : List Call)
      → (reconcile_lb_targets env r vni nic w).0 ≡ ok tt
      → (reconcile_lb_targets env r vni nic v).0 ≡ ok tt
      → TargetsShown first cs w (reconcile_lb_targets env r vni nic w).1 v
      → (items : List DpdkPrefix) × TargetsLeft items
          (has (spec_targets nic))
          v
          (reconcile_lb_targets env r vni nic v).1
  unfolding reconcile_lb_targets dpdk_set spec_targets
  reconcile_lb_targets-settles w v first cs h k shown =
      handler-settles (target_change nic.meta.uid) env listing dpdk_set prefix_string
        "error listing lb targets: " (spec_targets nic)
        (λ i. turn_target env r nic.meta.uid vni i (spec_targets nic)) label_target
        "error(s) reconciling lb target: "
        (λ i. turn_target-Asks env r nic.meta.uid vni i (spec_targets nic)) w v first cs
        (λ i. of_list-Distinct _) (of_list-Distinct _) h k shown
