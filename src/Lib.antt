-- ===== src/Lib.antt =====
-- Yabber is a web gateway: it accepts connections on listeners, chooses the site by the host name,
-- runs the policies that are in force, and answers by proxying, from files or directly. Its
-- configuration can be replaced while it runs. This library models the core of the gateway and
-- proves what it relies on. Paths are those of the repository.
--
-- Parts, and the files that model them:
--   Base         helpers: tests on numbers, lists, equality, the strings package, Go maps, integers.
--   Events       events.go: the ring of recent events and the log handler that fills it.
--   Hosts        hosts.go: the host table, host names, and the host of a request.
--   ClientIp     clientip.go: the address of a client behind trusted proxies.
--   Config       config.go: the configuration, and how its relative paths are resolved.
--   RateLimit    policy.go: the rate limiter with its map and linked list.
--   Policies     policy.go and middleware.go: the compilation of policies and what they do to handlers.
--   Tls          tls.go, with requireCertificate and managedHosts of compile.go and the choice of a
--                certificate in server.go.
--   Acme         acme.go: when the CA is asked, the backoff, and HTTP-01 challenges.
--   Acme.Managers the making of an ACME manager, and its reuse after a reload.
--   Acme.Orders  the account, and the order of a certificate with its files.
--   Handlers     handlers.go, with the compiler's functions proxy and transport: the handlers.
--   Compile      compile.go: Compile has the defaults and the listeners, Compile.Sites the routes of a
--                site, Compile.Tables the tables from hosts to sites and the dispatch of requests,
--                Compile.Pools the upstream pools, Compile.Snapshots the whole compilation.
--   Server       server.go: Apply, Start, Shutdown and the other steps in the life of a server.
--                Server.Sockets follows a listener with its socket through the steps of a change.
--   Observability observability.go: metrics, the response tracker and request ids.
--   Proxy        proxy.go: prefixes of paths, upstreams, forwarded headers, and error statuses.
--   Serve        serve.go: the entry point of every request, panics and records.
--   Api          api/api.go and api/sites.go: the management API.
--   Disk         save.go and writeFileAtomic of acme.go, over files whose operations may fail.
--   Update       cmd/yabber/update.go: the command that replaces the program by a release.
--
-- How they interact. Serve takes a request on a listener: its client address comes from ClientIp, its
-- answer to an ACME challenge from Acme, its metrics go to Observability. The handler of a listener
-- is compiled by Compile: the host, from Hosts, selects a site in a table, whose routes end in
-- Handlers, inside the middleware of Policies, where RateLimit counts clients. Compile also asks Tls
-- whether a certificate covers each TLS host, and Acme.Managers for the manager. Server takes
-- the compiler of configurations as a parameter and keeps the snapshot that it returns; Api changes the
-- configuration through the operations of Server and saves it.
--
-- State and operations. A struct is a record, a method a function from the state to the state and
-- its result, an error a value of a data type or the text of the source. A Go map is an association
-- list; a loop over it goes over its keys. Where the source holds a mutex, the function is one step.
-- A panic is in what a handler returns, and what the source defers runs after it. What the source calls of other packages (net, net/http,
-- net/netip, crypto, os, the clock, token buckets, the ACME client) is a record of functions, which the
-- definitions take as a parameter.
--
-- Bounds. All loops are structural recursion, so there is no fuel. Durations and times are natural
-- numbers or integers of nanoseconds without the wrap-around of int64: the shift of the backoff is
-- at most 10, so its product stays below 2^49. Counters are unbounded where the source has uint64.
--
-- Not modelled: the status of certificates and the background loop of acme.go, encodings (encoding.go, clone.go) and the YAML text that Save writes, the Prometheus text, the
-- workers, which embed a JavaScript engine, the rest of the command, and the web console. Messages of
-- the log are left out, except that the handler of Events takes records, and so are the message bodies
-- that http.Error writes, in the responses and in the bytes that are counted for a request.
pub mod Base
pub mod Events
pub mod Handlers
pub mod Disk
pub mod Hosts
pub mod Config
pub mod RateLimit
pub mod Tls
pub mod Policies
pub mod ClientIp
pub mod Server
pub mod Acme
pub mod Observability
pub mod Proxy
pub mod Compile
pub mod Serve
pub mod Api
pub mod Update
