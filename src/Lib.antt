-- ===== src/Lib.antt =====
-- metalnet: the controllers that bring networks, load balancers and network interfaces of the
-- Kubernetes API into dp-service, and exchange their routes with the other hosts through
-- metalbond.
--
-- The parts and their files:
--   * internal/metalnet_cache.go: Cache. The peers of each VNI, the prefixes that a peering
--     allows and the load balancer servers. The controllers write it, the metalbond client reads
--     it.
--   * controllers/network_controller.go: Network. `reconcile_request` is Reconcile, and the names
--     below it are the source's in this library's spelling. The bodies of loops are definitions
--     of their own (`drop_missing`, `add_new`, `delete_peered`).
--   * controllers/loadbalancer_controller.go: LoadBalancer, in the same way.
--   * controllers/networkinterface_controller.go: Interface. Interface.Spec has the addresses,
--     the validation and the metering, Interface.Routes the routes, Interface.Firewall the
--     creation of a rule, Interface.Nat the NAT and the virtual address, Interface.Parts the
--     loops over prefixes, load balancer targets and rules, Interface.Device and
--     Interface.Applying the interface of dp-service on a PCI function, Interface.Deleting the
--     deletion and Interface.Control Reconcile. `make_virtual_ip` and `drop_virtual_ip` are
--     createVirtualIP and deleteVirtualIP. The other files below it have proofs: Visits, Turns
--     and Rounds on a loop over a set in general, Prefixes, Targets and RuleRounds on the three
--     loops, the Frames files on what is left alone.
--   * metalbond/metalbond_client.go: Metalbond.Client. Metalbond calls `add_route` and
--     `remove_route` for the routes that it learns.
--   * metalbond/route_util.go and metalbond/errors.go: Metalbond.RouteUtil and Metalbond.Errors.
--   * netfns/netfns.go: NetFns, the pool of PCI functions and its claim files; NetFns.Collecting
--     and NetFns.Generating, how they are found and how their addresses are generated.
--     NetFns.Functions has CollectTAPFunctions and the numbers of a generated function. The
--     interfaces' controller claims from the pool and releases to it.
--   * sysfs/sysfs.go: Sysfs, what the discovery and the interfaces' controller ask of a device, a
--     parameter of both.
--   * api/v1alpha1: Api, the objects. Wire has what is sent to and received from dp-service and
--     metalbond, Netip the addresses and prefixes of net/netip.
--
-- The state: a method is a function from the state before it to a result and the state after it
-- (Base.Exec), because what was written before an error stays written. The controllers' state is
-- the `World` of Effects: the cache, the address of the default router, the trace of the calls
-- made and the pool of functions. An `Env` answers each call, from the trace, in any way; so a
-- theorem for all environments is one for all behaviours of dp-service, metalbond and the API
-- server, with all interleavings of their failures. The claim store's state is a directory of
-- files and a schedule of faults.
--
-- Numbers: VNIs are numbers below 2 ^ 32, and `u32` is written where the source converts. Sets
-- are lists without repetition, maps are association lists with one entry for a key; a loop over
-- a Go map or set takes some order, here that of the list; the interfaces' loops sort the set by
-- its elements' text first, as the source does. All loops are over lists, so nothing needs fuel,
-- but for the digits of a number: `decimal` and `hexadecimal` have 40, enough for every number of
-- 128 bits.
--
-- Not modelled: logs, the arguments in the texts of errors (the words that wrap an error are the
-- source's), the answers of the API to patches of an interface (the object in memory is taken to
-- be as it was), methods of the cache that run at once without a lock, the wiring with
-- controller-runtime, the paths of sysfs, the JSON forms of addresses, and main.go.
pub mod Base
pub mod Netip
pub mod Cache
pub mod Api
pub mod Wire
pub mod Effects
pub mod Metalbond
pub mod Network
pub mod LoadBalancer
pub mod NetFns
pub mod Sysfs
pub mod Interface
pub mod Tests
