-- ===== src/Lib.antt =====
-- traefik-cluster-ratelimit: a Traefik middleware that limits the rate of requests by a counter in
-- Redis, which all instances of Traefik share.
--
-- A request passes through ratelimit.go: the headers that a client may forge are deleted, the
-- client's address is derived (internal/ip) and published, and unless the route is unlimited or the
-- address is on the whitelist the request is counted under a key (internal/utils). rate.go has one
-- of the scripts of lua.go run in Redis, behind the circuit breaker of internal/redis, and the
-- script's verdict decides between the next handler and an answer of 429, 503 or 500.
--
--   Common, Http    what the parts share: numbers, int64, byte texts, results; requests and headers
--   Gcra            lua.go: allowNLua is `allow_n`, allowAtMostLua is `allow_at_most`
--   Gcra.AtMost     what allowAtMostLua grants
--   Gcra.Run        the Redis key with its expiry, and sequences of calls of allowNLua
--   Redis.Breaker   internal/redis/script_breaker.go: NewScriptWithBreaker and Run
--   Redis.Breaker.Interleaved  calls of Run that overlap
--   Redis.Resp      internal/redis/redis.go: the command of sendCommand, and readElement
--   Redis.Network   internal/redis/redis.go: sendCommand on the parameter `Network`
--   Redis.Tls       internal/redis/redis.go: tlsRequested, hostFromAddr, buildTLSConfig
--   Redis.Client    internal/redis/redis.go: newConn is `new_conn`, with its secret and its steps
--   Redis.Client.Pool  get, put, Close, Ping, Del and NewClient
--   Redis.Client.Numbered, Redis.Client.Ownership  which connections callers and the pool hold
--   Redis.Client.Keyed, Redis.Script.Spared  which keys in Redis a call leaves alone
--   Redis.Script.Held  callers that share a client, step by step
--   Redis.Script    internal/redis/script.go: NewScript, Run, convertToStringArray
--   Redis.Options, Redis.Value  what a client is made of, and the values of replies
--   Ip.Net          what is used of Go's net and net/netip
--   Ip.Checker      internal/ip/checker.go: NewChecker, Contains, ContainsIP, IsAuthorized
--   Ip.Strategy     internal/ip/strategy.go: the three strategies of Traefik
--   Ip.TrustedProxy internal/ip/trustedproxy.go: Resolve is `resolve`, its loop `walk`
--   Ip.Subnet       internal/ip/trustedproxy.go: Subnet and SubnetCIDR
--   Ip.Interface    the strategies as one type
--   Utils           internal/utils: the extractors and GetSourceExtractor
--   Limiter         rate.go: Allow, AllowN, AllowAtMost, Reset, NewLimiter
--   Limiter.Rig     rate.go over the breakers and the client
--   Limiter.Limits  rate.go: PerSecond, PerMinute, PerHour, String and IsZero of Limit
--   Plugin.Config   ratelimit.go: Config and the checks and defaults of New
--   Plugin.New      ratelimit.go: New
--   Plugin.New.Connected  New over NewClient of internal/redis
--   Plugin.Serve    ratelimit.go: ServeHTTP
--   Plugin.Answered, Plugin.Outage  ServeHTTP over rate.go, the breakers and the client
--   Plugin.Shared   the key under which ServeHTTP counts a request, and instances on one network
--   Tests           concrete runs
--
-- State is passed explicitly: a step of a script takes the key's entry and returns it, the breaker
-- takes and returns its record, and ServeHTTP passes on the state of the limiter. A call that may
-- fail gives a `Result`, which is a value, an error with its text, or a panic. Loops are structural
-- recursion over the lists that they traverse; printing a number recurses on fuel, which is the
-- number itself.
--
-- The scripts are modelled over exact arithmetic. One unit of time is 1 / (10^6 * rate) seconds: in
-- it the clock of Redis, the emission interval and the burst offset are integers. Redis may drop a
-- key at any read after its expiry; each call carries the choice.
--
-- The client passes a `World` on: the state of the network, the pool, the sha of each script, and a
-- log of the connections that are opened, secured and closed and of what is sent. A connection is a
-- number; what a connection delivers to the reader of one command is given as its bytes and the error
-- after them, and bytes that the reader holds after a reply are lost with it. The loop over an array
-- recurses on the announced number of elements.
--
-- Concurrency is interleaving. Callers of a client take turns in steps: one operation on the channel
-- of idle connections with what it does to a socket, one command on a connection, storing one sha.
-- Calls of a breaker take two: the guard as they come in, and the bookkeeping as they return.
-- Instances of the middleware that share a network take turns request by request, as each request runs
-- at most one script and Redis runs one at a time. The scripts of lua.go are modelled as they are meant
-- to be called, with four values as their ARGV; Run of internal/redis/script.go prints the four as one
-- value, so that what holds of the scripts is not stated of the middleware over the client.
--
-- Parameters stand for reading and printing addresses (`Codec`), for the float64 arithmetic of
-- strconv and time (`Floats`) and printing such a number, for sockets, files and certificates
-- (`Network`), for the clock, for the scripts behind the limiter (`Scripts`, which Limiter.Rig
-- fills), for the environment and, in New, for redis.NewClient (which Plugin.New.Connected fills).
-- Not modelled: the rounding of doubles in Lua, data races (the mutex of the pool guards the channel
-- and is left out, and a step of a breaker is taken by one goroutine at a time), and the bodies of
-- answers.
pub mod Common
pub mod Http
pub mod Ip
pub mod Gcra
pub mod Redis
pub mod Utils
pub mod Limiter
pub mod Plugin
pub mod Tests
