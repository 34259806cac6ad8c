-- ===== src/Lib.antt =====
-- Ayad network manager: the backend that discovers the devices of a home or office network, decides
-- which of them are blocked, limited or over their quota, and has nftables and tc enforce it.
--
-- The parts and how they interact. Discovery observes devices; the identity reconciler merges an
-- observation with the known device, and presence tells who is online. The firewall service turns the
-- administrator's policies, and the quota's decisions, into blocks of addresses. Traffic accounting
-- reads the counters of the kernel, keeps the history and reports usage to the quota service, which
-- asks the firewall for a block or traffic enforcement for a throttle. Traffic enforcement keeps the
-- classes and filters of tc.
--
-- Which file models which part (paths from the root of the repository):
-- - Domain/MacAddress, Domain/IpAddress, Domain/Device, Domain/TcClassId: the value objects and
--   entities of backend/src/domain; a private constructor is a record that `create` makes.
-- - Rate: parseRateMbps, TrafficRate, the traffic policy validator and formatRateMbps of the device
--   views; Rate/RoundTrip and Rate/Accepted prove, over the texts of Rate/Format.
-- - Identity: reconcileIdentityObservation of backend/src/domain/services/IdentityStateReconciler.ts;
--   Identity/Trust proves.
-- - Presence: PresenceResolver and getNeighborState of backend/src/application/monitoring; the map of
--   states is an association list, and Presence/Hysteresis proves over runs of calls.
-- - Ports: the interfaces of backend/src/domain/repositories and DeviceBlocker.ts, as records of calls
--   on the state that the collaborators share.
-- - Firewall: FirewallService.ts and DeviceIdentifierResolver.ts, one function for each method.
--   Firewall/Kernel is what a blocker promises of the two sets of addresses that the kernel blocks,
--   Firewall/Stores what the stores promise of the administrator's blocks; Firewall/Desired,
--   Firewall/Reconcile, Firewall/Returns, Firewall/PolicyKept and Firewall/Guards prove, and
--   Firewall/Memory is an instance in memory.
-- - Accounting: backend/src/application/monitoring/TrafficAccountingService.ts; the three maps of the
--   service are a record, beside the state of its collaborators. Accounting/Ledger
--   reads the bytes off the state, and Accounting/Bytes proves.
-- - Quota: backend/src/application/quota/QuotaService.ts: the view in Quota, the actions on
--   exhaustion in Quota/Enforcement, the threshold messages in Quota/Notification, the public methods in
--   Quota/Operations and calculatePeriod in Quota/Period. Quota/Calendar proves of the periods,
--   Quota/Operations/Current and Quota/Operations/Counted of the usage, Quota/Thresholds of the view
--   and the notifications, Quota/Once of the actions.
-- - Tc: the class, filter and cleanup functions of
--   backend/src/infrastructure/enforcement/SingleInterfaceIfbTrafficEnforcer.ts, over the interface
--   of TcStateReader.ts and the commands of TcBuilder.ts (Tc/Builder). Tc/Kernel is what
--   the cleanup relies on of the kernel; Tc/Priority, Tc/Cleanup and Tc/Returns prove.
-- - Traffic: backend/src/application/enforcement/TrafficEnforcer.ts; Traffic/Enforcement is
--   TrafficEnforcementService.ts with the default validator, and Traffic/Reconciliation a cycle of
--   TrafficReconciliationService.ts. Traffic/Kernel is what a cycle relies on of the enforcer, and
--   what the policies ask for; Traffic/Wanted, Traffic/Rates, Traffic/Converges, Traffic/Returns,
--   Traffic/Limits and, of the rows of the policies, Traffic/Enforcement/Rows and
--   Traffic/Enforcement/Written prove, and Traffic/Memory is an instance.
-- - Policies: the records of backend/src/domain/repositories/PolicyCatalogRepository.ts;
--   Policies/Schedule is ScheduleEnforcementService.ts of backend/src/application/policies, whose map
--   of scheduled states is an association list, and Policies/Window its windows, with the check of
--   times of PolicyCatalogService.ts. Policies/Patch is
--   DevicePolicyService.ts, Policies/Profile ProfileEnforcementService.ts and Policies/Catalog
--   PolicyCatalogService.ts. Policies/Held, Policies/Windows, Policies/Limits, Policies/Taken,
--   Policies/Followed, Policies/Patched, Policies/Refused and Policies/PortRules prove.
-- - Bindings: leases and the maps of a run; Bindings/Lifecycle is IpBindingLifecycleService.ts,
--   Bindings/Blocked BlockedIpReconciliationService.ts and Bindings/Lock IpBindingMutationLock.ts, all
--   of backend/src/application/enforcement. Bindings/Store is what the lifecycle relies on of the store
--   and the kernel; Bindings/Steps, Bindings/Covered, Bindings/Held, Bindings/Quiet and
--   Bindings/Lock prove.
-- - Base, Text, Errors: tests, lists, maps, results, what an action keeps and ensures, JavaScript's
--   texts, and one type for everything that the program throws.
--
-- How it is modelled. An async method is a function from the state to a result and a state, so that
-- what was written before a throw stays written; a read writes nothing. The methods of one run follow
-- each other without another run in between. Times are natural numbers of milliseconds, given by the
-- caller where the source asks the clock (once for each call); where the source subtracts times, a
-- clock that ran back gives 0. Quota bytes and limits are naturals, signed numbers are integers of
-- Base/Int. Texts are lists of codes, and letters change case in ASCII.
--
-- Bounds. The search for a filter priority makes 65436 rounds, the length of the range, as the
-- source does. The walk over the months has a round for each day since 1970, and a month has days;
-- both are proved to be enough. Other loops are over lists.
--
-- Not modelled: isIP of node:net and SHA-256 are parameters; nft, tc, ip, the files of dnsmasq and
-- the database stand behind the interfaces; the time in an audit entry is left out; timers, HTTP
-- routes, sessions, the generated Prisma client, setup and the desktop frontend are glue or outside.
-- Discovery and VPN sessions are not modelled. The configured throttle rate, a
-- float, stands as its nearest whole numbers; a run of the schedules is given the local day and minute.
pub mod Base
pub mod Text
pub mod Errors
pub mod Domain
pub mod Rate
pub mod Identity
pub mod Presence
pub mod Ports
pub mod Firewall
pub mod Accounting
pub mod Tc
pub mod Traffic
pub mod Policies
pub mod Bindings
pub mod Quota
