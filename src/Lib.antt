-- ===== src/Lib.antt =====
-- em-wall decides, for each DNS query and each connection of a machine, whether the name or
-- address is allowed, blocked or routed through a proxy, and picks the proxy. This library models
-- the parts that decide, as functions on their state.
--
-- The parts, in the order in which a query meets them:
--   Rules         core/rules/rules.go: patterns, Match, Specificity, Validate, MostSpecific and
--                 MostSpecificIP as scans of the rule list.
--   Rules.Index   core/rules/index.go: NewIndex and its two lookups.
--   Decision      core/decision/decision.go: Engine.Reload, which expands interfaces and compiles the
--                 index, and Decide and DecideIP, which ask it.
--   Dns           core/dnsproxy/dnsproxy.go: handle, from the query to the reply, the log line and the
--                 new state: resolveIface, translateXrayInterface, handleFakeIP, forward,
--                 installRoutesFor and recordProxyMapping. It asks Decision, leases from FakeIp, writes
--                 to ProxyTable and installs through Routing. Dns.Handle has the switch, Dns.Answers
--                 and Dns.Fake what it calls, Dns.Upstream has MultiUpstream.
--   FakeIp        core/dnsproxy/fakeip.go: the pool that leases an address to each routed name:
--                 newFakeIPPool, allocate and Allocate, Release, queue, restore. FakeIp.Store has flush
--                 and the table it writes to, core/rules/fakeip.go.
--   ProxyTable    core/proxy/table.go: the table from an address to the name and the proxies:
--                 Record (record_ip), Touch, Lookup (find), RemoveByRule, SweepExpired, Len.
--   Sticky        daemon/proxysticky.go: the upstream that a destination is using.
--   SiteAvoid     daemon/siteavoid.go: members that are tried last for a site.
--   TcpHealth     daemon/tcp_health.go: the brake on connections to a dead destination.
--   UdpHealth     daemon/udp_health.go: the memory of dead paths for datagrams.
--   UplinkWitness daemon/uplink_witness.go: which upstreams lately carried data.
--   Ports         core/xray/ports.go: the choice of a free port for an entry.
--   Latency       core/netprobe/latency.go: what the tracker knows of each upstream. Its windows and
--                 its breaker; Record (record_probe), Fail, Succeed, Reset, Seat and Unsettled are in
--                 Latency.Record, RankFrom in Latency.Rank.
--   NodePark      daemon/xray_nodepark.go: members of a pool that stay dead are parked and come back
--                 on trial: observe, release, releaseAll, retain, forget, parked, withoutParked.
--   Strategy      core/xray/strategy.go and daemon/xray_strategy.go: ParseStrategy and poolStrategy;
--                 Strategy.Auto has the classifier, Strategy.Agile the pick of agile pools.
--   Shortlist     daemon/xray_shortlist.go: which members of a stable pool carry its connections:
--                 pickShortlist, dropBroken, preferred and observe.
--   Outbound      core/xray/xray.go, dialer.go, dialer_bulk.go and set.go: names and references to
--                 outbounds, ParseDialer, FormatDialer and EditDialer; Outbound.Sets has named sets,
--                 Outbound.Cycle DetectDialerCycle.
--   Routing       core/routing/routing.go: the manager of host routes: Install, InstallStatic, Extend,
--                 Remove, RemoveByRule, SweepExpired, Flush.
--   Socks         core/proxy/udp.go: the SOCKS5 handshake of a UDP association and the frame of its
--                 datagrams: socks5Negotiate, readSOCKSReply, WriteTo, stripSOCKSUDPHeader.
--   DialGate      daemon/dialgate.go: the ceiling on the dials in flight.
--   LiveConns     daemon/stalepath.go: the registry of spliced connections: track, markStale, sweep;
--                 LiveConns.Rates has the ring of samples.
--   Geo           core/geo/ipranges.go: merge4, merge6 and country.
-- Text and Net are what these use of Go's packages strings and net; Prelude holds the shared
-- names, the order on numbers, equality tests and maps; Tests holds concrete runs.
--
-- How code becomes definitions. A struct is a record with the code's fields and a method a
-- function from the state and its arguments to the new state and the results. A method holds its
-- mutex and is one step; Allocate and Release queue the write to the store after it, which is in
-- the step too. The methods of Routing release their mutex while a command runs; each is one step
-- all the same, so what two of them do at once is not described. The clock is an argument, a time
-- a number of nanoseconds, 0 the zero time; numbers have no upper bound, but for the 32-bit
-- addresses of FakeIp and the bytes, ports and range ends of Socks and Geo, whose wrap-around is
-- written out. A Go map is an association list without repeated keys; a loop over it is recursion
-- on the list. Leases are shared by two maps, so FakeIp has a heap of them and the maps hold
-- references. Strings are ASCII, as lists of codes. Nil receivers are left out. What Dns reaches
-- outside is a record of functions on the state of the world (Dns.Env), with an option where the
-- code allows nil; Dns.Pinned.Pins is what it relies on of a manager of routes, and Dns.Routes
-- fills it with Routing.install. Only the A and AAAA records of an answer section are looked at for
-- addresses; the additional section and the hints of other types are kept in a message, and go out
-- as they came. A connection of Socks is the bytes that are still to come and
-- those sent, and a failed read or write is an error value.
--
-- Bounds: every loop is structural recursion over the rules, the rows, the keys or the letters of
-- a name; the scan of FakeIp.find_slot has the size of the block as its bound, as the code's loop
-- has, and so reaches every slot once. The search of Outbound.Cycle.dfs is recursion on fuel, one
-- more than the names of the graph: a name that is being visited is not visited again, so the
-- depth of the search stays below it. The retries of Routing.add_route and the doublings of
-- Latency.cooldown are bounded as they are in the code.
--
-- Parameters: net.ParseIP and net.ParseCIDR are fields of Net.Parsers. The rows of the rule
-- source, the expansions, the rows of the lease store and their failures are arguments. Running
-- /sbin/route is a function from what the system is to what it is then and what the command
-- answered. What package net makes of a route's destination is an argument. The effective costs of
-- Latency.Rank and Strategy.Agile and the smoothed scores of Shortlist, which the code computes in
-- floats, are parameters; failure rates are fractions. The store of subscriptions and the health
-- that xray reports are functions. The forwarder of Dns, the exchanges of Dns.Upstream, the text
-- of an address, and the resolver and dials of Socks are parameters.
--
-- Not modelled: input and output (sockets, SQLite, the tunnel, the system's routes), the timing of
-- handshakes and the listing of the system's routes, the timelines of pools, the handlers of the
-- daemon, the files of geography and groups, the rest of the xray configuration, and the user
-- interfaces.
mod Prelude
pub mod Decision
pub mod DialGate
pub mod Dns
pub mod FakeIp
pub mod Geo
pub mod Latency
pub mod LiveConns
pub mod Net
pub mod NodePark
pub mod Outbound
pub mod Ports
pub mod ProxyTable
pub mod Routing
pub mod Rules
pub mod Shortlist
pub mod SiteAvoid
pub mod Socks
pub mod Sticky
pub mod Strategy
pub mod TcpHealth
pub mod Tests
pub mod Text
pub mod UdpHealth
pub mod UplinkWitness
