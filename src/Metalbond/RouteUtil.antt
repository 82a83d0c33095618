-- ===== src/Metalbond/RouteUtil.antt =====
-- metalbond/route_util.go: metalbond through the interface `RouteUtil`.
use metalnet.Base.{ℕ, if◌then◌else◌}
use metalnet.Effects.{
  Env, M, call, announce_route, withdraw_route, subscribe, unsubscribe, get_routes_for_vni,
}
use metalnet.Netip.{Addr, Prefix, is4, is6}
use metalnet.Wire.{IpVersion, ipv4, ipv6, no_version, Destination, NextHop}

pub data DefaultRouteOperation : Type 0 where
  add_default_route remove_default_route : DefaultRouteOperation

unfoldable pub net_ip_addr_ip_version : Addr → IpVersion
unfolding is4 is6
net_ip_addr_ip_version a = if is4 a then ipv4 else if is6 a then ipv6 else no_version

-- What metalbond is told of the destination with this prefix.
unfoldable pub to_destination : Prefix → Destination
unfolding net_ip_addr_ip_version
to_destination p = record { ip_version = net_ip_addr_ip_version p.addr; prefix = p }

module _ (env : Env) where
  unfoldable pub announce : ℕ → Prefix → NextHop → M (Unit {0})
  unfolding to_destination
  announce vni p hop = call env (announce_route vni (to_destination p) hop)

  unfoldable pub withdraw : ℕ → Prefix → NextHop → M (Unit {0})
  unfolding to_destination
  withdraw vni p hop = call env (withdraw_route vni (to_destination p) hop)

  unfoldable pub subscribe_vni : ℕ → M (Unit {0})
  subscribe_vni vni = call env (subscribe vni)

  unfoldable pub unsubscribe_vni : ℕ → M (Unit {0})
  unsubscribe_vni vni = call env (unsubscribe vni)

  unfoldable pub routes_for_vni : ℕ → M (Unit {0})
  routes_for_vni vni = call env (get_routes_for_vni vni)
