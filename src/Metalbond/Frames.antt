-- ===== src/Metalbond/Frames.antt =====
-- What the calls of metalbond/ leave alone: any relation that no call of dp-service or metalbond
-- breaks.
use metalnet.Base.{ℕ, ◌≡◌, refl, Bool, false, Option, String, List, [], ◌∷◌}
use metalnet.Base.Result.{Err, no_vni, route_not_found}
use metalnet.Base.Exec.{pure, gets}
use metalnet.Netip.{Prefix}
use metalnet.Wire.{DpdkRoute, NextHop}
use metalnet.Effects.{
  Env, Call, M, World, call, is_api, subscribe, unsubscribe, get_routes_for_vni, list_routes,
  delete_route, announce_route, withdraw_route,
}
use metalnet.Effects.Invariants.{
  Frame, Moves, Moves-pure, Moves-bind, Moves-context, Moves-if, Moves-for_each,
}
use metalnet.Metalbond.Errors.{unless_ignored}
use metalnet.Metalbond.RouteUtil.{
  announce, withdraw, subscribe_vni, unsubscribe_vni, routes_for_vni, to_destination,
}
use metalnet.Metalbond.Client.{ClientOptions, delete_stale, is_stale, cleanup_not_peered_routes}

pub Moves-gets : {F : Frame} {A : Type 0} (f : World → A) → Moves F (gets f)
Moves-gets {F} f = record { from = F.same }

pub Moves-unless_ignored :
    {F : Frame} (ignore : Option Err → Option Err) (text : String) (m : M (Unit {0}))
    → Moves F m
    → Moves F (unless_ignored ignore text m)
unfolding unless_ignored
Moves-unless_ignored ignore text m p = record { from = λ w. p.from w }

module _ (env : Env) (F : Frame) (net : (c : Call) → is_api c ≡ false → Moves F (call env c)) where
  pub subscribe_vni-Moves : (vni : ℕ) → Moves F (subscribe_vni env vni)
  unfolding subscribe_vni
  subscribe_vni-Moves vni = net (subscribe vni) refl

  pub unsubscribe_vni-Moves : (vni : ℕ) → Moves F (unsubscribe_vni env vni)
  unfolding unsubscribe_vni
  unsubscribe_vni-Moves vni = net (unsubscribe vni) refl

  pub routes_for_vni-Moves : (vni : ℕ) → Moves F (routes_for_vni env vni)
  unfolding routes_for_vni
  routes_for_vni-Moves vni = net (get_routes_for_vni vni) refl

  pub announce-Moves : (vni : ℕ) (p : Prefix) (hop : NextHop) → Moves F (announce env vni p hop)
  unfolding announce
  announce-Moves vni p hop = net (announce_route vni (to_destination p) hop) refl

  pub withdraw-Moves : (vni : ℕ) (p : Prefix) (hop : NextHop) → Moves F (withdraw env vni p hop)
  unfolding withdraw
  withdraw-Moves vni p hop = net (withdraw_route vni (to_destination p) hop) refl

  module _ (config : ClientOptions) (vni : ℕ) where
    delete_stale-Moves :
        (peers : List ℕ × Bool) (r : DpdkRoute) → Moves F (delete_stale env config vni peers r)
    unfolding delete_stale
    delete_stale-Moves peers r =
        Moves-if (is_stale vni peers r) _ (pure tt)
          (Moves-context "error deleting route: " _
            (net (delete_route vni r.prefix (no_vni ∷ route_not_found ∷ [])) refl))
          (Moves-pure tt)

    pub cleanup_not_peered_routes-Moves : Moves F (cleanup_not_peered_routes env config vni)
    unfolding cleanup_not_peered_routes
    cleanup_not_peered_routes-Moves =
        Moves-bind _ _ (Moves-context "error listing dpdk routes: " _ (net (list_routes vni) refl))
          λ routes. Moves-bind _ _ (Moves-gets _) λ peers.
            Moves-for_each routes (delete_stale env config vni peers) (delete_stale-Moves peers)
