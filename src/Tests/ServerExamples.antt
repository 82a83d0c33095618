-- ===== src/Tests/ServerExamples.antt =====
-- Examples for the load balancers.
use metalnet.Base.{◌≡◌, refl, string_eq}
use metalnet.Base.Result.{ok}
use metalnet.Base.Exec.{attempt, context, ◌>>=◌}
use metalnet.Netip.{ip6}
use metalnet.Effects.{call, on_cache, deref}
use metalnet.Metalbond.Errors.{
  unless_ignored, ignore_next_hop_already_exists_error, is_next_hop_already_exists_error,
}
use metalnet.Metalbond.RouteUtil.{announce}
use metalnet.LoadBalancer.{
  apply_load_balancer, apply_found, register, add_load_balancer_route_if_not_exists,
}
use metalnet.LoadBalancer.Applying.{Given, Registered, apply_load_balancer-Registered}
use metalnet.Tests.{env, balancers, balancer, world}

applies : (apply_load_balancer env balancers balancer 7 world).0 ≡ ok (ip6 5 "")
unfolding apply_load_balancer apply_found register add_load_balancer_route_if_not_exists
    unless_ignored announce attempt context ◌>>=◌ call on_cache deref
    ignore_next_hop_already_exists_error is_next_hop_already_exists_error
applies = refl

apply_load_balancer-Registered_example :
    Given env balancers balancer 7 world (ip6 5 "")
    × Registered env balancers balancer 7 world
        (ip6 5 "")
        (apply_load_balancer env balancers balancer 7 world).1
apply_load_balancer-Registered_example =
    apply_load_balancer-Registered env balancers balancer 7 world (ip6 5 "") applies
